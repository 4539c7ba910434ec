-- ===== src/KvCache/Kernels.antt =====
-- The kernels of src/kv_cache/kv_cache_kernels.cu, each as the loop that its threads make up: the
-- grid-stride loops visit every index once, and the model visits them in increasing order. K and V
-- are moved alike, so a kernel is modelled on one of the two buffers.
pub mod Append
pub mod Reset
use sci_compute_attention.Base.{
  ℕ, zero, suc, ◌+◌, ◌*◌, ◌/◌, ◌%◌, Option, none, some, List, [], ◌∷◌, ℤ, pos, negsuc, minus_one,
  ltb, leb, ◌==◌, ◌||◌, if◌then◌else◌, get_or, set,
}
use sci_compute_attention.Bytes.{copy}
use sci_compute_attention.KvCache.{KvCacheShape, kv_offset}

-- The body of the loop of `kv_append_kernel`, for one row of `num_kv_heads * num_tokens`.
store_row : KvCacheShape → ℕ → List ℕ → ℕ → ℕ → ℤ → List ℕ → List ℕ
store_row shape elem_bytes src token head (negsuc n) layer = layer
store_row shape elem_bytes src token head (pos slot) layer =
    let block = slot / shape.block_size in
    let offset_in_block = slot % shape.block_size in
    let row_bytes = shape.head_dim * elem_bytes in
    if leb shape.num_blocks block
    then layer
    else copy src ((token * shape.num_kv_heads + head) * row_bytes) layer
        (kv_offset shape block offset_in_block head 0 * elem_bytes) row_bytes

append_row : KvCacheShape → ℕ → List ℤ → List ℕ → ℕ → List ℕ → List ℕ
unfolding store_row
append_row shape elem_bytes slot_mapping src row layer =
    let token = row / shape.num_kv_heads in
    let head = row % shape.num_kv_heads in
    store_row shape elem_bytes src token head (get_or slot_mapping token minus_one) layer

-- The rows from `row` on; the last argument but one counts those that are left.
append_rows : KvCacheShape → ℕ → List ℤ → List ℕ → ℕ → ℕ → List ℕ → List ℕ
append_rows shape elem_bytes slot_mapping src row zero layer = layer
append_rows shape elem_bytes slot_mapping src row (suc n) layer =
    append_rows shape elem_bytes slot_mapping src (suc row) n
      (append_row shape elem_bytes slot_mapping src row layer)

pub kv_append_kernel : KvCacheShape → ℕ → List ℤ → List ℕ → ℕ → List ℕ → List ℕ
kv_append_kernel shape elem_bytes slot_mapping src num_tokens layer =
    append_rows shape elem_bytes slot_mapping src 0 (num_tokens * shape.num_kv_heads) layer

abbrev pub bytes_per_block : KvCacheShape → ℕ → ℕ
bytes_per_block shape elem_bytes =
    shape.block_size * shape.num_kv_heads * shape.head_dim * elem_bytes

-- `if (physical < 0 || physical >= num_blocks) continue;`
abbrev pub physical_block : KvCacheShape → ℤ → Option ℕ
physical_block shape (negsuc n) = none
physical_block shape (pos block) = if leb shape.num_blocks block then none else some block

zero_byte : Option ℕ → ℕ → ℕ → List ℕ → List ℕ
zero_byte none per_block offset layer = layer
zero_byte (some physical) per_block offset layer = set layer (physical * per_block + offset) 0

-- The indices from `idx` on of `kv_reset_kernel`.
reset_from : KvCacheShape → ℕ → List ℤ → ℕ → ℕ → List ℕ → List ℕ
reset_from shape elem_bytes block_ids idx zero layer = layer
reset_from shape elem_bytes block_ids idx (suc n) layer =
    let per_block = bytes_per_block shape elem_bytes in
    let block = physical_block shape (get_or block_ids (idx / per_block) minus_one) in
    reset_from shape elem_bytes block_ids (suc idx) n
      (zero_byte block per_block (idx % per_block) layer)

pub kv_reset_kernel : KvCacheShape → ℕ → List ℤ → ℕ → List ℕ → List ℕ
unfolding reset_from zero_byte
kv_reset_kernel shape elem_bytes block_ids num_blocks layer =
    reset_from shape elem_bytes block_ids 0 (num_blocks * bytes_per_block shape elem_bytes) layer

gathered_byte : Option ℕ → ℕ → ℕ → List ℕ → ℕ
gathered_byte none per_block offset layer = 0
gathered_byte (some physical) per_block offset layer =
    get_or layer (physical * per_block + offset) 0

gather_from : KvCacheShape → ℕ → List ℕ → List ℤ → ℕ → ℕ → List ℕ → List ℕ
gather_from shape elem_bytes layer block_ids idx zero out = out
gather_from shape elem_bytes layer block_ids idx (suc n) out =
    let per_block = bytes_per_block shape elem_bytes in
    let block = physical_block shape (get_or block_ids (idx / per_block) minus_one) in
    gather_from shape elem_bytes layer block_ids (suc idx) n
      (set out idx (gathered_byte block per_block (idx % per_block) layer))

pub kv_gather_kernel : KvCacheShape → ℕ → List ℕ → List ℤ → ℕ → List ℕ → List ℕ
unfolding gather_from gathered_byte
kv_gather_kernel shape elem_bytes layer block_ids num_blocks out =
    gather_from shape elem_bytes layer block_ids 0 (num_blocks * bytes_per_block shape elem_bytes)
      out
