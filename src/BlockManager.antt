-- ===== src/BlockManager.antt =====
-- src/kv_cache/block_manager.cpp and include/scicompute_attention/block_manager.hpp.
-- A method returns its result beside the new state. The free list is a vector used as a stack: its
-- back is the head of the list here. The outcome of a device allocation is an argument, a pointer
-- is an `Option`, and a copy to the device is taken as completed when the call returns.
pub mod Invariant
pub mod Allocate
pub mod Free
pub mod Release
pub mod Table
pub mod Mirror
pub mod Create
pub mod Examples
use sci_compute_attention.Base.{
  ℕ, zero, suc, ◌+◌, ◌%◌, ◌^◌, ◌-◌, ◌*◌, ◌%◌, ◌^◌, Bool, true, false, not, ◌&&◌, ◌||◌, Option, none,
  some, List, [], ◌∷◌, ℤ, pos, negsuc, minus_one, to_ℕ, ltb, leb, ◌==◌, if◌then◌else◌, length,
  get_or, set, replicate,
}
use sci_compute_attention.Rows.{row_of, write_row, clear_row, used_slots, filled_slots}
use sci_compute_attention.Status.{
  Result, Status, ok, err, attn, shape_mismatch, kv_capacity_exceeded,
}

-- `device` is the mirror's contents, `none` where its data pointer is null.
pub record BlockTable : Type 0 where
  pub host : List ℤ
  pub device : Option (List ℤ)
  pub revision : ℕ
  pub synced_revision : ℕ
  pub max_num_seqs : ℕ
  pub max_blocks_per_seq : ℕ

pub record BlockManager : Type 0 where
  pub num_blocks : ℕ
  pub free_list : List ℕ
  pub in_use : List Bool
  pub table : BlockTable
  pub allocation_failures : ℕ
  pub double_free_events : ℕ

-- `for (i = num_blocks - 1; i >= 0; --i) free_list_.push_back(static_cast<int32_t>(i))`; an id is the pattern
-- of 32 bits that the cast leaves.
push_blocks : ℕ → List ℕ → List ℕ
push_blocks zero free = free
push_blocks (suc i) free = push_blocks i (i % 2 ^ 32 ∷ free)

pub create : ℕ → ℕ → ℕ → Bool → Result BlockManager
create num_blocks max_num_seqs max_blocks_per_seq allocated =
    if num_blocks == 0 || (max_num_seqs == 0 || max_blocks_per_seq == 0)
    then err (attn shape_mismatch)
    else if not allocated
    then err (attn kv_capacity_exceeded)
    else ok (record {
      num_blocks = num_blocks;
      free_list = push_blocks num_blocks [];
      in_use = replicate num_blocks false;
      table = record {
        host = replicate (max_num_seqs * max_blocks_per_seq) minus_one;
        device = some (replicate (max_num_seqs * max_blocks_per_seq) minus_one);
        revision = 0;
        synced_revision = 0;
        max_num_seqs = max_num_seqs;
        max_blocks_per_seq = max_blocks_per_seq;
      };
      allocation_failures = 0;
      double_free_events = 0;
    })

-- The loop of `Allocate`: the blocks taken, the free list and the marks that are left.
unfoldable pub take_blocks : ℕ → List ℕ → List Bool → List ℕ × List ℕ × List Bool
take_blocks zero free in_use = ([], free, in_use)
take_blocks (suc n) [] in_use = ([], [], in_use)
take_blocks (suc n) (block ∷ free) in_use =
    let (allocated, free', in_use') = take_blocks n free (set in_use block true) in
    (block ∷ allocated, free', in_use')

unfoldable pub allocate : ℕ → BlockManager → Result (List ℕ) × BlockManager
allocate count m =
    if count == 0
    then (err (attn shape_mismatch), m)
    else if ltb (length m.free_list) count
    then (
      err (attn kv_capacity_exceeded),
      record m { allocation_failures = m.allocation_failures + 1 },
    )
    else let (allocated, free, in_use) = take_blocks count m.free_list m.in_use in
      (ok allocated, record m { free_list = free; in_use = in_use })

count_double_free : BlockManager → BlockManager
count_double_free m = record m { double_free_events = m.double_free_events + 1 }

-- One round of the loop of `Free`.
pub free_block : ℤ → BlockManager → BlockManager
unfolding count_double_free
free_block (negsuc n) m = count_double_free m
free_block (pos block) m =
    if leb m.num_blocks block
    then count_double_free m
    else if not (get_or m.in_use block false)
    then count_double_free m
    else record m { in_use = set m.in_use block false; free_list = block ∷ m.free_list }

pub free_blocks : List ℤ → BlockManager → BlockManager
free_blocks [] m = m
free_blocks (id ∷ ids) m = free_blocks ids (free_block id m)

-- `none` is the null pointer.
pub free : Option (List ℤ) → BlockManager → BlockManager
free none m = m
free (some ids) m = free_blocks ids m

pub num_free_blocks : BlockManager → ℕ
num_free_blocks m = length m.free_list

-- `uint64_t` increment.
abbrev pub next_revision : ℕ → ℕ
next_revision r = (r + 1) % 2 ^ 64

-- `seq_id < 0 || seq_id >= limit`
abbrev pub out_of_range : ℤ → ℕ → Bool
out_of_range (negsuc n) limit = true
out_of_range (pos n) limit = leb limit n

-- The index of `row[0]` in the host table.
abbrev pub row_start : BlockTable → ℕ → ℕ
row_start t seq_id = seq_id * t.max_blocks_per_seq

unfoldable pub append_at : ℕ → List ℤ → BlockManager → Status × BlockManager
append_at seq_id ids m =
    let t = m.table in
    let start = row_start t seq_id in
    let used = used_slots t.host start t.max_blocks_per_seq in
    if ltb t.max_blocks_per_seq (used + length ids) then (err (attn kv_capacity_exceeded), m) else (
      ok tt,
      record m {
        table = record t {
          host = write_row t.host (start + used) ids;
          revision = next_revision t.revision;
        };
      },
    )

unfoldable pub append_ids : ℤ → List ℤ → BlockManager → Status × BlockManager
unfolding append_at
append_ids seq_id [] m = (err (attn shape_mismatch), m)
append_ids seq_id (id ∷ ids) m = append_at (to_ℕ seq_id) (id ∷ ids) m

unfoldable pub append_pointer : ℤ → Option (List ℤ) → BlockManager → Status × BlockManager
unfolding append_ids
append_pointer seq_id none m = (err (attn shape_mismatch), m)
append_pointer seq_id (some ids) m = append_ids seq_id ids m

-- `AppendToTable`; `none` is the null pointer, and `count` is the length of the list.
unfoldable pub append_to_table : ℤ → Option (List ℤ) → BlockManager → Status × BlockManager
unfolding append_pointer
append_to_table seq_id ids m =
    if out_of_range seq_id m.table.max_num_seqs
    then (err (attn shape_mismatch), m)
    else append_pointer seq_id ids m

reset_row : ℕ → BlockManager → BlockManager
reset_row seq_id m =
    let start = row_start m.table seq_id in
    let width = m.table.max_blocks_per_seq in
    let count = filled_slots m.table.host start width in
    let freed = if ltb 0 count then free (some (row_of m.table.host start count)) m else m in
    record freed {
      table = record (freed.table) {
        host = clear_row freed.table.host start width;
        revision = next_revision freed.table.revision;
      };
    }

pub reset_seq : ℤ → BlockManager → Status × BlockManager
unfolding reset_row
reset_seq seq_id m =
    if out_of_range seq_id m.table.max_num_seqs
    then (err (attn shape_mismatch), m)
    else (ok tt, reset_row (to_ℕ seq_id) m)

sync_device : Option (List ℤ) → BlockManager → Status × BlockManager
sync_device none m = (err (attn shape_mismatch), m)
sync_device (some old) m = if m.table.synced_revision == m.table.revision then (ok tt, m) else (
  ok tt,
  record m {
    table = record (m.table) { device = some m.table.host; synced_revision = m.table.revision };
  },
)

-- Both copies, with a stream and without, end in the host table being on the device.
pub sync_table_to_device : BlockManager → Status × BlockManager
unfolding sync_device
sync_table_to_device m = sync_device m.table.device m
