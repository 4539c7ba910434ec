-- ===== src/KvCache.antt =====
-- src/kv_cache/kv_cache.cpp (configuration, budget, slot mapping), kv_cache_layout.cuh beside it,
-- and include/scicompute_attention/kv_cache.hpp. The storage class is in KvCache/Storage, the
-- kernels that move the data in KvCache/Kernels.
pub mod Config
pub mod Slots
pub mod Kernels
pub mod Storage
mod Examples
use sci_compute_attention.Base.{
  ℕ, zero, suc, ◌+◌, ◌-◌, ◌*◌, ◌/◌, ◌%◌, ◌^◌, Bool, true, false, not, ◌||◌, Option, none, some,
  List, [], ◌∷◌, ℤ, pos, negsuc, minus_one, is_neg, ltb, leb, ◌==◌, if◌then◌else◌, get_or,
}
use sci_compute_attention.Types.{
  DType, dtype_size, is_supported_compute_dtype, KvLayout, block_major, supported_head_dim_index,
}
use sci_compute_attention.Status.{
  Result, Status, ok, err, attn, ◌>>=◌, ◌>>◌, shape_mismatch, unsupported_head_dim,
  unsupported_dtype, unsupported_layout, kv_capacity_exceeded,
}

pub record KvCacheConfig : Type 0 where
  pub num_layers : ℕ
  pub num_kv_heads : ℕ
  pub head_dim : ℕ
  pub block_size : ℕ
  pub num_blocks : ℕ
  pub max_num_seqs : ℕ
  pub dtype : DType
  pub layout : KvLayout
  pub enable_stats : Bool

pub record KvCacheStats : Type 0 where
  pub num_blocks : ℕ
  pub used_blocks : ℕ
  pub free_blocks : ℕ
  pub num_appends : ℕ
  pub num_resets : ℕ
  pub peak_bytes : ℕ
  pub bytes : ℕ

pub record KvCacheShape : Type 0 where
  pub num_blocks : ℕ
  pub block_size : ℕ
  pub num_kv_heads : ℕ
  pub head_dim : ℕ

abbrev pub to_device_shape : KvCacheConfig → KvCacheShape
to_device_shape cfg = record {
  num_blocks = cfg.num_blocks;
  block_size = cfg.block_size;
  num_kv_heads = cfg.num_kv_heads;
  head_dim = cfg.head_dim;
}

-- In elements; the int64_t arithmetic is exact where the layer fits in memory.
unfoldable pub kv_offset : KvCacheShape → ℕ → ℕ → ℕ → ℕ → ℕ
kv_offset shape block offset_in_block kv_head d =
    ((block * shape.block_size + offset_in_block) * shape.num_kv_heads + kv_head) * shape.head_dim
    + d

unfoldable pub kv_layer_elements : KvCacheShape → ℕ
kv_layer_elements shape = shape.num_blocks * shape.block_size * shape.num_kv_heads * shape.head_dim

pub is_supported_block_size : ℕ → Bool
is_supported_block_size n = n == 1 || (n == 8 || (n == 16 || (n == 32 || n == 64)))

pub is_block_major : KvLayout → Bool
is_block_major block_major = true

unfoldable pub validate_config : KvCacheConfig → Status
unfolding is_supported_block_size is_block_major
validate_config cfg =
    if cfg.num_layers == 0
    then err (attn shape_mismatch)
    else if cfg.num_kv_heads == 0
    then err (attn shape_mismatch)
    else if is_neg (supported_head_dim_index cfg.head_dim)
    then err (attn unsupported_head_dim)
    else if not (is_supported_block_size cfg.block_size)
    then err (attn shape_mismatch)
    else if cfg.num_blocks == 0
    then err (attn shape_mismatch)
    else if cfg.max_num_seqs == 0
    then err (attn shape_mismatch)
    else if not (is_supported_compute_dtype cfg.dtype)
    then err (attn unsupported_dtype)
    else if not (is_block_major cfg.layout)
    then err (attn unsupported_layout)
    else ok tt

-- A product of int64_t, as the 64-bit pattern that the machine leaves.
abbrev pub mul64 : ℕ → ℕ → ℕ
mul64 a b = a * b % 2 ^ 64

-- Is the pattern zero or, read as int64_t, negative?
pub not_positive : ℕ → Bool
not_positive pattern = pattern == 0 || leb (2 ^ 63) pattern

pub kv_cache_bytes : KvCacheConfig → Result ℕ
unfolding not_positive
kv_cache_bytes cfg =
    let per_layer =
      mul64 (mul64 (mul64 cfg.num_blocks cfg.block_size) cfg.num_kv_heads) cfg.head_dim in
    let total = mul64 (mul64 (mul64 2 cfg.num_layers) per_layer) (dtype_size cfg.dtype) in
    validate_config cfg >> (if not_positive total then err (attn shape_mismatch) else ok total)

pub max_blocks_for_budget : KvCacheConfig → ℕ → ℕ
unfolding not_positive
max_blocks_for_budget cfg budget_bytes =
    let per_block_bytes =
      mul64
        (mul64 (mul64 (mul64 (mul64 2 cfg.num_layers) cfg.block_size) cfg.num_kv_heads)
          cfg.head_dim)
        (dtype_size cfg.dtype) in
    if not_positive per_block_bytes then 0 else budget_bytes / per_block_bytes

-- `static_cast<int32_t>` of a number that is not negative.
abbrev pub to_int32 : ℕ → ℤ
to_int32 n =
    if ltb (n % 2 ^ 32) (2 ^ 31) then pos (n % 2 ^ 32) else negsuc (2 ^ 32 - 1 - n % 2 ^ 32)

unfoldable pub slot_in : ℤ → ℕ → ℕ → Result ℤ
slot_in (negsuc n) block_size offset_in_block = err (attn shape_mismatch)
slot_in (pos physical) block_size offset_in_block =
    ok (to_int32 (physical * block_size + offset_in_block))

-- One round of the loop of `ComputeSlotMapping`.
unfoldable pub slot_at : List ℤ → ℕ → ℕ → ℕ → Result ℤ
unfolding slot_in
slot_at row position block_size max_blocks =
    let logical_block = position / block_size in
    if leb max_blocks logical_block
    then err (attn kv_capacity_exceeded)
    else slot_in (get_or row logical_block minus_one) block_size (position % block_size)

-- The last argument is the number of tokens that are left.
unfoldable pub slots_from : List ℤ → ℕ → ℕ → ℕ → ℕ → Result (List ℤ)
slots_from row position block_size max_blocks zero = ok []
slots_from row position block_size max_blocks (suc n) = do
  slot ← slot_at row position block_size max_blocks
  rest ← slots_from row (position + 1) block_size max_blocks n
  ok (slot ∷ rest)

-- `none` is the null pointer; the row is what the pointer gives access to.
unfoldable pub compute_slot_mapping : Option (List ℤ) → ℕ → ℕ → ℕ → ℕ → Result (List ℤ)
unfolding slots_from
compute_slot_mapping none seq_start num_tokens block_size max_blocks = err (attn shape_mismatch)
compute_slot_mapping (some row) seq_start num_tokens block_size max_blocks =
    if block_size == 0 || num_tokens == 0
    then err (attn shape_mismatch)
    else slots_from row seq_start block_size max_blocks num_tokens
