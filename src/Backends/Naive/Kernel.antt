-- ===== src/Backends/Naive/Kernel.antt =====
-- The three kernels of src/backends/naive/attention_naive.cu: scores with scale and mask, the softmax of a
-- row, and the product with V. A grid-stride kernel is the function from an index to what it stores there,
-- and the reductions of a block are taken in ascending order. The floats are the parameter of the decode
-- kernels, in which a maximum is either finite or -inf. The log-sum-exp of a row is left out.
pub mod Laws
pub mod Exact
pub mod Decode
pub mod Examples
mod DecodeExamples
use sci_compute_attention.Base.{
  ℕ, zero, suc, ◌+◌, ◌*◌, ◌/◌, ◌%◌, min, max, Bool, ◌&&◌, ℤ, pos, negsuc, ltb, if◌then◌else◌,
}
use sci_compute_attention.Backends.{FwdParams}
use sci_compute_attention.Backends.Decode.Softmax.{Arithmetic}
use sci_compute_attention.Backends.Decode.Kernel.{Memory, sum}

-- `j > i + diagonal`
abbrev pub exceeds : ℕ → ℕ → ℤ → Bool
exceeds j i (pos d) = ltb (i + d) j
exceeds j i (negsuc n) = ltb i (j + n + 1)

abbrev pub softmax_blocks : FwdParams → ℕ
softmax_blocks p = min (max 1 (p.batch * p.num_heads * p.seq_q)) 16_777_216

abbrev pub kv_head_of : FwdParams → ℕ → ℕ
kv_head_of p h = h / (p.num_heads / p.num_kv_heads)

module _ {F : Type 0} (r : Arithmetic F) where
  pub max_of : ℕ → (ℕ → F) → F
  max_of zero f = r.neg_inf
  max_of (suc n) f = r.larger (max_of n f) (f n)

  module _ (p : FwdParams) (mem : Memory F) where
    unfoldable pub dot_scaled : ℕ → ℕ → ℕ → ℕ → F
    dot_scaled b h i j =
        let q_row = b * p.q_stride.s_b + h * p.q_stride.s_h + i * p.q_stride.s_s in
        let k_row = b * p.k_stride.s_b + kv_head_of p h * p.k_stride.s_h + j * p.k_stride.s_s in
        r.times (sum r p.head_dim λ d. r.times (mem.q (q_row + d)) (mem.k (k_row + d))) mem.scale

    -- What the first kernel stores at `idx`.
    pub naive_qk_scale_mask_kernel : ℕ → F
    naive_qk_scale_mask_kernel idx =
        let j = idx % p.seq_kv in
        let i = idx / p.seq_kv % p.seq_q in
        let h = idx / (p.seq_kv * p.seq_q) % p.num_heads in
        let b = idx / (p.seq_kv * p.seq_q * p.num_heads) in
        if p.causal && exceeds j i p.diagonal then r.neg_inf else dot_scaled b h i j

    -- The element of the row of V that the last kernel multiplies with a probability.
    unfoldable pub naive_value : ℕ → ℕ → ℕ → ℕ → F
    naive_value b h j d =
        mem.v (b * p.v_stride.s_b + kv_head_of p h * p.v_stride.s_h + d + j * p.v_stride.s_s)

    -- What the last kernel stores at `idx`; `probs` are the scores after the second one.
    pub naive_pv_kernel : (ℕ → F) → ℕ → F
    naive_pv_kernel probs idx =
        let d = idx % p.head_dim in
        let i = idx / p.head_dim % p.seq_q in
        let h = idx / (p.head_dim * p.seq_q) % p.num_heads in
        let b = idx / (p.head_dim * p.seq_q * p.num_heads) in
        let p_row = ((b * p.num_heads + h) * p.seq_q + i) * p.seq_kv in
        sum r p.seq_kv λ j. r.times (probs (p_row + j)) (naive_value b h j d)

  -- What the second kernel makes of the scores of a row, at column `c`.
  pub naive_row_softmax_kernel : (ℕ → F) → ℕ → ℕ → ℕ → F
  unfolding max_of
  naive_row_softmax_kernel scores cols row c =
      let cell = λ (x : ℕ). scores (row * cols + x) in
      let m = max_of cols cell in
      let total = sum r cols λ x. r.weight (cell x) m in
      if r.is_neg_inf m
      then r.times (cell c) r.nought
      else r.times (r.weight (cell c) m) (r.recip total)

  -- The kernels of `LaunchTyped` one after the other. The second one has a block for each row, at most
  -- 2 ^ 24, and no loop over further rows.
  pub naive_forward : FwdParams → Memory F → ℕ → F
  unfolding naive_pv_kernel naive_row_softmax_kernel naive_qk_scale_mask_kernel
  naive_forward p mem idx =
      let scores = naive_qk_scale_mask_kernel p mem in
      let probs = λ (at : ℕ).
        if ltb (at / p.seq_kv) (softmax_blocks p)
        then naive_row_softmax_kernel scores p.seq_kv (at / p.seq_kv) (at % p.seq_kv)
        else scores at in
      naive_pv_kernel p mem probs idx
