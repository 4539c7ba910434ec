-- ===== src/Types.antt =====
-- The shared vocabulary: include/scicompute_attention/attention_types.hpp, the head-dimension and
-- dtype helpers of src/api/status.cpp, and the element types of stub/include/core/types.hpp.
-- Extents, sizes and counts are natural numbers: a negative extent is outside the model, and every
-- guard on one (`< 1`, `<= 0`) reads `== 0` here. Numbers whose sign the code tests are ℤ.
use sci_compute_attention.Base.{
  ℕ, ◌+◌, Bool, true, false, List, [], ◌∷◌, ℤ, pos, minus_one, ◌==◌, if◌then◌else◌,
}

pub data DType : Type 0 where
  float32 float16 bfloat16 int8 int32 int64 bool float64 uint8 : DType

abbrev pub dtype_size : DType → ℕ
dtype_size float32 = 4
dtype_size float16 = 2
dtype_size bfloat16 = 2
dtype_size int8 = 1
dtype_size int32 = 4
dtype_size int64 = 8
dtype_size bool = 1
dtype_size float64 = 8
dtype_size uint8 = 1

abbrev pub is_supported_compute_dtype : DType → Bool
is_supported_compute_dtype float32 = true
is_supported_compute_dtype float16 = true
is_supported_compute_dtype bfloat16 = true
is_supported_compute_dtype other = false

pub data AttnLayout : Type 0 where
  bhsd bshd : AttnLayout

pub data KvLayout : Type 0 where
  block_major : KvLayout

pub data BackendKind : Type 0 where
  auto naive tiled flash decode paged : BackendKind

pub record AttentionShape : Type 0 where
  pub batch : ℕ
  pub seq_q : ℕ
  pub seq_kv : ℕ
  pub num_heads : ℕ
  pub num_kv_heads : ℕ
  pub head_dim : ℕ

abbrev pub supported_head_dims : List ℕ
supported_head_dims = 32 ∷ 64 ∷ 96 ∷ 128 ∷ 160 ∷ 192 ∷ 256 ∷ []

-- The loop from index `i` on.
head_dim_index_from : List ℕ → ℕ → ℕ → ℤ
head_dim_index_from [] i head_dim = minus_one
head_dim_index_from (d ∷ ds) i head_dim =
    if d == head_dim then pos i else head_dim_index_from ds (i + 1) head_dim

unfoldable pub supported_head_dim_index : ℕ → ℤ
unfolding head_dim_index_from
supported_head_dim_index head_dim = head_dim_index_from supported_head_dims 0 head_dim

abbrev pub same_dtype : DType → DType → Bool
same_dtype float32 float32 = true
same_dtype float16 float16 = true
same_dtype bfloat16 bfloat16 = true
same_dtype int8 int8 = true
same_dtype int32 int32 = true
same_dtype int64 int64 = true
same_dtype bool bool = true
same_dtype float64 float64 = true
same_dtype uint8 uint8 = true
same_dtype _ _ = false
