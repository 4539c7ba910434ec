-- ===== src/Backends/Decode/Partitions.antt =====
-- Where the partial results of src/backends/decode/decode_backend.cpp lie, and how many bytes they take.
use native.Mathlib.Nat.{mul-le-mul_right}
use sci_compute_attention.Base.{ℕ, ◌^◌, ◌+◌, ◌*◌, ◌/◌, ◌≤◌, ◌<◌, ◌≡◌, some, arith, refl}
use sci_compute_attention.Types.{AttentionShape}
use sci_compute_attention.Tensor.{Tensor}
use sci_compute_attention.Config.{AttentionConfig}
use sci_compute_attention.KvCache.{mul64}
use sci_compute_attention.Backends.{Env, Buffer, DecodeFwdParams, DtypeId}
use sci_compute_attention.Backends.Decode.{
  max_splits, partial_elements, partial_bytes, decode_params, region_l, region_o,
}

-- The bytes of the partial results in the largest number of splits.
abbrev pub most_partial_bytes : ℕ → ℕ → ℕ → ℕ
most_partial_bytes batch heads head_dim = batch * heads * 16 * (2 + head_dim) * 4

pub no_wrap :
    (b h s d : ℕ)
    → 1 ≤ s
    → s ≤ max_splits
    → most_partial_bytes b h d < 2 ^ 64
    → (mul64 (mul64 b h) s ≡ b * h * s) × (b * h * s * (2 + d) * 4 < 2 ^ 64)
no_wrap b h s d lo hi small =
    let grows : b * h * s ≤ b * h * 16 = grind arith in
    let wide : b * h * s * (2 + d) ≤ b * h * 16 * (2 + d) = mul-le-mul_right (2 + d) grows in
    let total : b * h * s * (2 + d) * 4 ≤ b * h * 16 * (2 + d) * 4 = omega (arith, wide) in
    let base : b * h * s ≤ b * h * s * (2 + d) * 4 = grind arith in
    let heads : b * h ≤ b * h * s = grind arith in
    let first : mul64 b h ≡ b * h = omega (arith, base, total, heads, small) in
    (rw first (omega (arith, base, total, small)), omega (arith, total, small))

-- The bytes that are asked for, where their number does not wrap.
pub partial_bytes_lem :
    (shape : AttentionShape) (splits : ℕ)
    → 1 ≤ splits
    → splits ≤ max_splits
    → most_partial_bytes shape.batch shape.num_heads shape.head_dim < 2 ^ 64
    → partial_bytes shape splits ≡ shape.batch * shape.num_heads * splits * (2 + shape.head_dim) * 4
unfolding partial_bytes partial_elements
partial_bytes_lem shape splits lo hi small =
    let (base, all) = no_wrap shape.batch shape.num_heads splits shape.head_dim lo hi small in
    rw base (omega (arith, all))

-- The partial results in a buffer of `elements` floats at `scratch`, by the pointers of a launch: one maximum
-- and one sum for each batch, head and split, and the outputs. No two of the three overlap, and all lie in the
-- buffer.
pub record Partitions (p : DecodeFwdParams) (scratch elements : ℕ) : Type 0 where
  pub l : ℕ
  pub o : ℕ
  pub maxima : p.partial_m ≡ some scratch
  pub sums : p.partial_l ≡ some l
  pub outputs : p.partial_o ≡ some o
  pub end_of_maxima : scratch + 4 * (p.batch * p.num_heads * p.num_splits) ≤ l
  pub end_of_sums : l + 4 * (p.batch * p.num_heads * p.num_splits) ≤ o
  pub end_of_outputs :
      o + 4 * (p.batch * p.num_heads * p.num_splits * p.head_dim) ≤ scratch + 4 * elements

pub decode_params-Partitions :
    (env : Env) (q k v : Tensor) (out : Buffer) (cfg : AttentionConfig) (shape : AttentionShape)
    (id : DtypeId) (splits elements : ℕ)
    → 1 ≤ splits
    → splits ≤ max_splits
    → most_partial_bytes shape.batch shape.num_heads shape.head_dim < 2 ^ 64
    → partial_bytes shape splits / 4 ≤ elements
    → Partitions (decode_params env q k v out cfg shape id splits) env.scratch_address elements
unfolding decode_params
decode_params-Partitions env q k v out cfg shape id splits elements lo hi small room =
    let (base, all) = no_wrap shape.batch shape.num_heads splits shape.head_dim lo hi small in
    let bytes = partial_bytes_lem shape splits lo hi small in
    record {
      l = region_l env.scratch_address (mul64 (mul64 shape.batch shape.num_heads) splits);
      o = region_o env.scratch_address (mul64 (mul64 shape.batch shape.num_heads) splits);
      maxima = refl;
      sums = refl;
      outputs = refl;
      end_of_maxima = omega (arith, base);
      end_of_sums = omega (arith, base);
      end_of_outputs = grind (arith, base, bytes, room);
    }
