-- ===== src/PagedCache/Create.antt =====
-- `PagedKVCache::Create` and the invariant of the paged cache.
use sci_compute_attention.Base.{
  ℕ, ◌≤◌, ◌^◌, zero, suc, ◌*◌, ◌≡◌, refl, sym, ◌∙◌, Bool, true, false, Option, some, List, [],
  arith, get_or, get_elem?, subst, if◌then◌else◌, ◌==◌, not, minus_one, replicate, length-replicate,
  get_or-replicate,
}
use sci_compute_attention.Types.{dtype_size}
use sci_compute_attention.Status.{
  ok, err, bind-ok, ok_inj, attn, shape_mismatch, kv_capacity_exceeded,
}
use sci_compute_attention.BlockManager
use sci_compute_attention.BlockManager.{BlockManager}
use sci_compute_attention.BlockManager.Create.{
  IsFresh, create-IsFresh, create_unallocated, row_of-replicate,
}
use sci_compute_attention.KvCache.{KvCacheConfig, kv_layer_elements, to_device_shape}
use sci_compute_attention.KvCache.Config.{IsUsable, validate_config_iff}
use sci_compute_attention.KvCache.Storage
use sci_compute_attention.KvCache.Storage.Create.{IsSized, Created, create-Created}
use sci_compute_attention.PagedCache.{PagedKvCache, create}
use sci_compute_attention.PagedCache.Invariant.{IsValid, owners, used_weight}

owners-replicate : (b n : ℕ) → owners b (replicate n []) ≡ 0
owners-replicate b zero = refl
owners-replicate b (suc n) = omega (arith, owners-replicate b n)

unused-replicate : (n b : ℕ) → used_weight (get_elem? (replicate n false) b) ≡ 0
unused-replicate zero b = refl
unused-replicate (suc n) zero = refl
unused-replicate (suc n) (suc b) = unused-replicate n b

-- The cache that `Create` builds from its parts.
abbrev built : KvCacheConfig → Storage.KvCache → BlockManager → PagedKvCache
built cfg storage blocks = record {
  cfg = cfg;
  max_blocks_per_seq = cfg.num_blocks;
  storage = storage;
  blocks = blocks;
  seq_lengths = replicate cfg.max_num_seqs 0;
  seq_blocks = replicate cfg.max_num_seqs [];
  page_table_host = replicate (cfg.max_num_seqs * cfg.num_blocks) minus_one;
  page_table_device = some (replicate (cfg.max_num_seqs * cfg.num_blocks) minus_one);
  slot_buffer = false;
  slot_mapping_capacity = 0;
  revision = 1;
  synced_revision = 1;
  num_appends = 0;
  num_resets = 0;
}

built-IsValid :
    (cfg : KvCacheConfig) (storage : Storage.KvCache) (blocks : BlockManager)
    → IsUsable cfg
    → Created cfg storage
    → IsFresh cfg.num_blocks cfg.max_num_seqs cfg.num_blocks blocks
    → IsValid (built cfg storage blocks)
built-IsValid cfg storage blocks u st fresh =
    let page = u.page in
    let none_owned : (s : ℕ) → get_or {A = List ℕ} (replicate cfg.max_num_seqs []) s [] ≡ [] =
      λ s. get_or-replicate {A = List ℕ} cfg.max_num_seqs s [] in
    record {
      core = record {
        positive = omega arith;
        blocks = fresh.valid;
        total = fresh.total;
        table = record {
          sized = fresh.holds.sized;
          rows = λ s hs. rw (none_owned s) (fresh.holds.rows s hs);
        };
        seqs = fresh.seqs;
        width = fresh.width;
        lists = length-replicate cfg.max_num_seqs [];
        lengths = length-replicate cfg.max_num_seqs 0;
        pages = length-replicate (cfg.max_num_seqs * cfg.num_blocks) minus_one;
        exclusive = λ b.
            rw
              (
                fresh.unmarked,
                owners-replicate b cfg.max_num_seqs,
                unused-replicate cfg.num_blocks b,
              )
              refl;
        room = λ s. rw (get_or-replicate {A = ℕ} cfg.max_num_seqs s 0) (omega arith);
        storage = st.valid;
        same_cfg = st.same_cfg;
      };
      rows = λ s hs. rw (none_owned s) (
          row_of-replicate (cfg.max_num_seqs * cfg.num_blocks) (s * cfg.num_blocks) cfg.num_blocks);
    }

IsFresh-blocks :
    (cfg : KvCacheConfig) (table_ok : Bool) (blocks : BlockManager)
    → IsUsable cfg
    → cfg.num_blocks ≤ 2 ^ 31
    → BlockManager.create cfg.num_blocks cfg.max_num_seqs cfg.num_blocks table_ok ≡ ok blocks
    → IsFresh cfg.num_blocks cfg.max_num_seqs cfg.num_blocks blocks
IsFresh-blocks cfg true blocks u small h =
    let (m, e, fresh) =
      create-IsFresh cfg.num_blocks cfg.max_num_seqs cfg.num_blocks u.blocks small u.seqs
        u.blocks in
    subst (IsFresh _ _ _) (ok_inj m blocks (sym e ∙ h)) fresh
IsFresh-blocks cfg false blocks u small h = create_unallocated _ _ _ blocks _ h

-- A `Create` that succeeds returns a valid cache, provided that the allocator hands out buffers of
-- the size asked for and there are at most 2^31 blocks.
pub create-IsValid :
    (cfg : KvCacheConfig) (free_bytes : Option ℕ) (fresh : ℕ → Option (List ℕ × List ℕ))
    (table_ok mirror_ok : Bool) (c : PagedKvCache)
    → IsSized (kv_layer_elements (to_device_shape cfg) * dtype_size cfg.dtype) fresh
    → cfg.num_blocks ≤ 2 ^ 31
    → create cfg free_bytes fresh table_ok mirror_ok ≡ ok c
    → IsValid c
unfolding create
create-IsValid cfg free_bytes fresh table_ok mirror_ok c sized small h =
    let (a, seqs, h1) =
      bind-ok (if cfg.max_num_seqs == 0 then err (attn shape_mismatch) else ok tt) _ c h in
    let (storage, stored, h2) = bind-ok (Storage.create cfg free_bytes fresh) _ c h1 in
    let (blocks, managed, h3) =
      bind-ok (BlockManager.create cfg.num_blocks cfg.max_num_seqs cfg.num_blocks table_ok) _ c
        h2 in
    let (b, mirrored, h4) =
      bind-ok (if not mirror_ok then err (attn kv_capacity_exceeded) else ok tt) _ c h3 in
    let st = create-Created cfg free_bytes fresh storage sized stored in
    let u = (validate_config_iff cfg).0 st.usable in
    subst IsValid (ok_inj _ c h4)
      (built-IsValid cfg storage blocks u st (IsFresh-blocks cfg table_ok blocks u small managed))
