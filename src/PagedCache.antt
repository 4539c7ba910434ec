-- ===== src/PagedCache.antt =====
-- src/kv_cache/paged_kv_cache.cpp and include/scicompute_attention/paged_kv_cache.hpp: the storage,
-- the block manager and the page table of many sequences. What the device does in a call is an
-- argument: whether the slot buffer could be allocated, and the status of a kernel launch.
pub mod Invariant
pub mod Append
pub mod Attach
pub mod Reset
pub mod Create
pub mod PageTable
pub mod Slots
pub mod Examples
use sci_compute_attention.Base.{
  ℕ, ◌+◌, ◌-◌, ◌*◌, ◌/◌, max, Bool, true, false, not, ◌||◌, Option, none, some, List, [], ◌∷◌, ◌++◌,
  map, ℤ, pos, minus_one, to_ℕ, ltb, ◌==◌, if◌then◌else◌, length, get_or, set, replicate,
}
use sci_compute_attention.Rows.{row_of, write_row, clear_row}
use sci_compute_attention.Status.{
  Result, Status, ok, err, attn, ◌>>=◌, ◌>>◌, shape_mismatch, kv_capacity_exceeded,
}
use sci_compute_attention.Tensor.{Tensor, ndims, dim}
use sci_compute_attention.BlockManager
use sci_compute_attention.BlockManager.{
  BlockManager, next_revision, out_of_range, allocate, append_to_table, num_free_blocks,
}
use sci_compute_attention.KvCache.{KvCacheConfig, KvCacheStats, compute_slot_mapping}
use sci_compute_attention.KvCache.Storage
use sci_compute_attention.KvCache.Storage.{LaunchEnd, KvCache}

-- `slot_buffer` says whether `slot_mapping_device_` has memory behind it.
pub record PagedKvCache : Type 0 where
  pub cfg : KvCacheConfig
  pub max_blocks_per_seq : ℕ
  pub storage : KvCache
  pub blocks : BlockManager
  pub seq_lengths : List ℕ
  pub seq_blocks : List (List ℕ)
  pub page_table_host : List ℤ
  pub page_table_device : Option (List ℤ)
  pub slot_buffer : Bool
  pub slot_mapping_capacity : ℕ
  pub revision : ℕ
  pub synced_revision : ℕ
  pub num_appends : ℕ
  pub num_resets : ℕ

abbrev pub owned : PagedKvCache → ℕ → List ℕ
owned c s = get_or c.seq_blocks s []

abbrev pub seq_len : PagedKvCache → ℕ → ℕ
seq_len c s = get_or c.seq_lengths s 0

-- The two tables are allocated by `table_ok` (in the block manager) and `mirror_ok`.
pub create :
    KvCacheConfig → Option ℕ → (ℕ → Option (List ℕ × List ℕ)) → Bool → Bool → Result PagedKvCache
create cfg free_bytes fresh table_ok mirror_ok = do
  (if cfg.max_num_seqs == 0 then err (attn shape_mismatch) else ok tt)
  storage ← Storage.create cfg free_bytes fresh
  blocks ← BlockManager.create cfg.num_blocks cfg.max_num_seqs cfg.num_blocks table_ok
  (if not mirror_ok then err (attn kv_capacity_exceeded) else ok tt)
  let host = replicate (cfg.max_num_seqs * cfg.num_blocks) minus_one
  ok (record {
    cfg = cfg;
    max_blocks_per_seq = cfg.num_blocks;
    storage = storage;
    blocks = blocks;
    seq_lengths = replicate cfg.max_num_seqs 0;
    seq_blocks = replicate cfg.max_num_seqs [];
    page_table_host = host;
    page_table_device = some host;
    slot_buffer = false;
    slot_mapping_capacity = 0;
    revision = 1;
    synced_revision = 1;
    num_appends = 0;
    num_resets = 0;
  })

-- The end of `AppendTokens`: the storage takes the tokens, and then the sequence is longer.
pub store_tokens :
    LaunchEnd → ℕ → ℤ → Tensor → Tensor → List ℤ → PagedKvCache → Status × PagedKvCache
store_tokens launched s layer k v slots c =
    let pointer = if c.slot_buffer then some slots else none in
    let (status, storage) = Storage.append launched layer k v pointer (dim k 0) c.storage in
    elim status [
      | err e ↦ (err e, record c { storage = storage })
      | ok done ↦ (
        ok tt,
        record c {
          storage = storage;
          seq_lengths = set c.seq_lengths s (seq_len c s + dim k 0);
          revision = next_revision c.revision;
          num_appends = c.num_appends + 1;
        },
      )
    ]

-- The slot buffer grows if it is too small. A failed allocation leaves it without memory and its
-- capacity as it was.
pub with_buffer :
    Bool → LaunchEnd → ℕ → ℤ → Tensor → Tensor → List ℤ → PagedKvCache → Status × PagedKvCache
with_buffer buffer_ok launched s layer k v slots c =
    if ltb c.slot_mapping_capacity (dim k 0)
    then (if buffer_ok
        then store_tokens launched s layer k v slots
            (record c { slot_buffer = true; slot_mapping_capacity = max (dim k 0) 1024 })
        else (err (attn kv_capacity_exceeded), record c { slot_buffer = false }))
    else store_tokens launched s layer k v slots c

-- The page-table row of the sequence is written anew.
pub refresh_row : ℕ → PagedKvCache → PagedKvCache
refresh_row s c =
    let start = s * c.max_blocks_per_seq in
    record c {
      page_table_host =
          write_row (clear_row c.page_table_host start c.max_blocks_per_seq) start
            (map pos (owned c s));
    }

pub write_tokens : Bool → LaunchEnd → ℕ → ℤ → Tensor → Tensor → PagedKvCache → Status × PagedKvCache
unfolding with_buffer store_tokens
write_tokens buffer_ok launched s layer k v c =
    let row = row_of c.page_table_host (s * c.max_blocks_per_seq) c.max_blocks_per_seq in
    let slots =
      compute_slot_mapping (some row) (seq_len c s) (dim k 0) c.cfg.block_size
        c.max_blocks_per_seq in
    elim slots [
      | err e ↦ (err e, c)
      | ok mapping ↦ with_buffer buffer_ok launched s layer k v mapping c
    ]

-- New blocks go into the block manager's table, and then to the sequence.
pub attach :
    Bool → LaunchEnd → ℕ → ℤ → Tensor → Tensor → List ℕ → PagedKvCache → Status × PagedKvCache
unfolding write_tokens refresh_row
attach buffer_ok launched s layer k v new c =
    let (status, m) = append_to_table (pos s) (some (map pos new)) c.blocks in
    elim status [
      | err e ↦ (err e, record c { blocks = BlockManager.free (some (map pos new)) m })
      | ok done ↦ write_tokens buffer_ok launched s layer k v (
          refresh_row s
            (record c { blocks = m; seq_blocks = set c.seq_blocks s (owned c s ++ new) }))
    ]

-- The number of blocks that a sequence needs beyond those it owns.
abbrev pub to_allocate : PagedKvCache → ℕ → ℕ → ℕ
to_allocate c s num_new =
    (seq_len c s + num_new + c.cfg.block_size - 1) / c.cfg.block_size - length (owned c s)

pub append_new : Bool → LaunchEnd → ℕ → ℤ → Tensor → Tensor → PagedKvCache → Status × PagedKvCache
unfolding attach
append_new buffer_ok launched s layer k v c =
    if to_allocate c s (dim k 0) == 0
    then write_tokens buffer_ok launched s layer k v (refresh_row s c)
    else let (allocated, m) = allocate (to_allocate c s (dim k 0)) c.blocks in
      elim allocated [
        | err e ↦ (err (attn kv_capacity_exceeded), record c { blocks = m })
        | ok new ↦ attach buffer_ok launched s layer k v new (record c { blocks = m })
      ]

pub append_tokens :
    Bool → LaunchEnd → ℤ → ℤ → Tensor → Tensor → PagedKvCache → Status × PagedKvCache
unfolding append_new
append_tokens buffer_ok launched seq_id layer k v c =
    if out_of_range seq_id c.cfg.max_num_seqs
    then (err (attn shape_mismatch), c)
    else if out_of_range layer c.cfg.num_layers
    then (err (attn shape_mismatch), c)
    else if not (ndims k == 3) || (not (ndims v == 3) || not (dim k 0 == dim v 0))
    then (err (attn shape_mismatch), c)
    else if dim k 0 == 0
    then (err (attn shape_mismatch), c)
    else append_new buffer_ok launched (to_ℕ seq_id) layer k v c

-- The end of `ResetSeq`, once the storage is cleared; the status of the block manager is ignored.
pub release_seq : ℕ → PagedKvCache → PagedKvCache
release_seq s c = record c {
  blocks = (BlockManager.reset_seq (pos s) c.blocks).1;
  seq_blocks = set c.seq_blocks s [];
  seq_lengths = set c.seq_lengths s 0;
  page_table_host = clear_row c.page_table_host (s * c.max_blocks_per_seq) c.max_blocks_per_seq;
  revision = next_revision c.revision;
  num_resets = c.num_resets + 1;
}

pub clear_storage : (ℕ → LaunchEnd) → List ℕ → KvCache → Status × KvCache
clear_storage launched [] storage = (ok tt, storage)
clear_storage launched (b ∷ bs) storage =
    Storage.reset launched (some (map pos (b ∷ bs))) (length (b ∷ bs)) storage

pub reset_existing : (ℕ → LaunchEnd) → ℕ → PagedKvCache → Status × PagedKvCache
unfolding release_seq clear_storage
reset_existing launched s c =
    let (status, storage) = clear_storage launched (owned c s) c.storage in
    elim status [
      | err e ↦ (err e, record c { storage = storage })
      | ok done ↦ (ok tt, release_seq s (record c { storage = storage }))
    ]

pub reset_seq : (ℕ → LaunchEnd) → ℤ → PagedKvCache → Status × PagedKvCache
unfolding reset_existing
reset_seq launched seq_id c =
    if out_of_range seq_id c.cfg.max_num_seqs
    then (err (attn shape_mismatch), c)
    else reset_existing launched (to_ℕ seq_id) c

pub logical_block_count : PagedKvCache → ℤ → ℕ
logical_block_count c seq_id =
    if out_of_range seq_id c.cfg.max_num_seqs then 0 else length (owned c (to_ℕ seq_id))

pub seq_length : PagedKvCache → ℤ → ℕ
seq_length c seq_id = if out_of_range seq_id c.cfg.max_num_seqs then 0 else seq_len c (to_ℕ seq_id)

unfoldable pub force_sync_page_table : PagedKvCache → Status × PagedKvCache
force_sync_page_table c = elim c.page_table_device [
  | none ↦ (err (attn shape_mismatch), c)
  | some old ↦
      (ok tt, record c { page_table_device = some c.page_table_host; synced_revision = c.revision })
]

pub sync_page_table : PagedKvCache → Status × PagedKvCache
unfolding force_sync_page_table
sync_page_table c = if c.revision == c.synced_revision then (ok tt, c) else force_sync_page_table c

pub stats : PagedKvCache → KvCacheStats
stats c =
    let total = c.blocks.num_blocks in
    record (c.storage.stats) {
      used_blocks = total - num_free_blocks c.blocks;
      free_blocks = num_free_blocks c.blocks;
      num_blocks = total;
      num_appends = c.num_appends;
      num_resets = c.num_resets;
    }
