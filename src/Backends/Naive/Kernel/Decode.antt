-- ===== src/Backends/Naive/Kernel/Decode.antt =====
-- The naive kernels and the kernels of src/backends/decode/decode_splitk.cu, launched by their hosts for the
-- same tensors with one query.
use sci_compute_attention.Base.{
  ℕ, zero, suc, ◌+◌, ◌*◌, ◌/◌, ◌%◌, ◌<◌, ◌≤◌, ◌≡◌, ◌∙◌, refl, sym, ap, ap₂, false, ◌&&◌, Option,
  List, [], ◌∷◌, ◌++◌, arith, subst,
}
use sci_compute_attention.Types.{AttentionShape}
use sci_compute_attention.Tensor.{Tensor}
use sci_compute_attention.Config.{AttentionConfig}
use sci_compute_attention.Backends.{Env, Buffer, DtypeId, FwdParams, DecodeFwdParams, fwd_params}
use sci_compute_attention.Backends.Decode.{decode_params}
use sci_compute_attention.Backends.Decode.Softmax.{Arithmetic, IsExact, blend}
use sci_compute_attention.Backends.Decode.Kernel.{Memory, kv_row, sum, score, value, decode_split_k}
use sci_compute_attention.Backends.Decode.Kernel.Laws.{scored, scored-append}
use sci_compute_attention.Backends.Decode.Kernel.Exact.{decode_split_k-blend}
use sci_compute_attention.Backends.Naive.Kernel.{
  exceeds, kv_head_of, dot_scaled, naive_value, naive_forward, softmax_blocks,
}
use sci_compute_attention.Backends.Naive.Kernel.Laws.{flat, unmasked}
use sci_compute_attention.Backends.Naive.Kernel.Exact.{naive_forward-blend}

module _ {F : Type 0} (r : Arithmetic F) (e : IsExact r) where
  sum-append : (m n : ℕ) (f : ℕ → F) → r.plus (sum r m f) (sum r n λ i. f (m + i)) ≡ sum r (m + n) f
  unfolding sum
  sum-append m zero f =
      let none_left : m ≡ m + 0 = omega arith in
      e.plus_nought (sum r m f) ∙ ap (λ k. sum r k f) none_left
  sum-append m (suc n) f =
      let count : suc (m + n) ≡ m + suc n = omega arith in
      sym (e.plus_assoc (sum r m f) (sum r n λ i. f (m + i)) (f (m + n)))
      ∙ ap (λ s. r.plus s (f (m + n))) (sum-append m n f)
      ∙ ap (λ k. sum r k f) count

  -- A sum by lanes is the sum.
  sum_lanes :
      (lanes n : ℕ) (f : ℕ → F)
      → sum r lanes (λ lane. sum r n λ i. f (lane * n + i)) ≡ sum r (lanes * n) f
  unfolding sum
  sum_lanes zero n f = let none_left : 0 ≡ 0 * n = omega arith in ap (λ k. sum r k f) none_left
  sum_lanes (suc lanes) n f =
      ap (λ s. r.plus s (sum r n λ i. f (lanes * n + i))) (sum_lanes lanes n f)
      ∙ sum-append (lanes * n) n f
      ∙ ap (λ k. sum r k f) (grind arith)

  module _ (env : Env) (q k v : Tensor) (out out' : Buffer) (lse : Option Buffer)
      (cfg : AttentionConfig) (shape : AttentionShape) (dtype : DtypeId) (splits : ℕ)
      (mem : Memory F) (b h : ℕ) (warps : shape.head_dim % 32 ≡ 0) where
    abbrev pub naive_params : FwdParams
    naive_params = fwd_params env q k v out lse cfg shape dtype

    abbrev pub split_params : DecodeFwdParams
    split_params = decode_params env q k v out' cfg shape dtype splits

    score_lem : (j : ℕ) → score r split_params mem b h j ≡ dot_scaled r naive_params mem b h 0 j
    unfolding score dot_scaled fwd_params decode_params
    score_lem j =
        let s = naive_params.q_stride in
        let q_row = b * s.s_b + h * s.s_h in
        let k_row =
          b * naive_params.k_stride.s_b
          + kv_head_of naive_params h * naive_params.k_stride.s_h
          + j * naive_params.k_stride.s_s in
        let first : q_row ≡ q_row + 0 * s.s_s = omega arith in
        let lanes : 32 * (shape.head_dim / 32) ≡ shape.head_dim = omega arith in
        let product = λ (d : ℕ). r.times (mem.q (q_row + d)) (mem.k (k_row + d)) in
        ap (λ t. r.times t mem.scale)
          (sum_lanes 32 (shape.head_dim / 32) product
            ∙ ap (λ n. sum r n product) lanes
            ∙ ap (λ i. sum r shape.head_dim λ d. r.times (mem.q (i + d)) (mem.k (k_row + d))) first)

    value_lem :
        (j d : ℕ) → value r split_params mem b h j d ≡ naive_value r naive_params mem b h j d
    unfolding value naive_value fwd_params decode_params
    value_lem j d = ap mem.v (omega arith)

    module _ (fin : (j : ℕ) → r.is_neg_inf (dot_scaled r naive_params mem b h 0 j) ≡ false)
        (single : shape.seq_q ≡ 1) where
      -- The causal mask hides nothing from a single query.
      visible :
          (j : ℕ)
          → j < shape.seq_kv
          → (naive_params.causal && exceeds j 0 naive_params.diagonal) ≡ false
      unfolding fwd_params
      visible j below = ground (arith, single)

      abbrev keys : (ℕ → F) → ℕ → List (F × F)
      keys =
          unmasked r e (λ j. naive_params.causal && exceeds j 0 naive_params.diagonal)
            (dot_scaled r naive_params mem b h 0) fin

      scored_one :
          (x : ℕ → F) (j : ℕ)
          → scored r split_params mem b h x 1 j ≡ (score r split_params mem b h j, x j) ∷ []
      unfolding scored kv_row decode_params
      scored_one x j = refl

      -- The visible keys are the tokens of the decode kernels.
      keys-scored :
          (x y : ℕ → F)
          → ((j : ℕ) → x j ≡ y j)
          → (n : ℕ) → n ≤ shape.seq_kv
          → keys x n ≡ scored r split_params mem b h y n 0
      unfolding unmasked scored
      keys-scored x y same zero below = refl
      keys-scored x y same (suc n) below =
          let count : n + 1 ≡ suc n = omega arith in
          let at : n ≡ 0 + n = omega arith in
          let tokens = scored r split_params mem b h y in
          rw (visible n below) (
            ap₂ (λ xs t. xs ++ t ∷ []) (keys-scored x y same n (omega arith))
              (ap₂ (λ s t. (s, t)) (sym (score_lem n)) (same n)))
          ∙ ap (λ t. tokens n 0 ++ t) (sym (scored_one y n) ∙ ap (tokens 1) at)
          ∙ sym (scored-append r split_params mem b h y n 1 0)
          ∙ ap (λ k. tokens k 0) count

      -- In exact arithmetic and where every score is finite, the hosts of the naive and of the decode backend
      -- launch kernels that store the same output for a call with one query: any head and element, any number of
      -- splits, whether or not the call is causal. There are keys, the head dimension is a multiple of 32, and
      -- the row is among the blocks of the naive softmax.
      pub naive_forward-decode_split_k :
          (d : ℕ)
          → h < shape.num_heads
          → d < shape.head_dim
          → 0 < shape.seq_kv
          → 0 < splits
          → b * shape.num_heads + h < softmax_blocks naive_params
          → naive_forward r naive_params mem
              (flat shape.num_heads shape.seq_q shape.head_dim b h 0 d)
            ≡ decode_split_k r split_params mem (b * shape.num_heads + h) d
      unfolding fwd_params decode_params
      naive_forward-decode_split_k d head below some_keys some_splits block =
          let m = dot_scaled r naive_params mem b h 0 0 in
          let query : 0 < shape.seq_q = omega arith in
          let row_block : (b * shape.num_heads + h) * shape.seq_q + 0
              < softmax_blocks naive_params =
            subst (λ n. n < softmax_blocks naive_params) (rw single (omega arith)) block in
          let finite_scores =
            λ (j : ℕ). subst (λ s. r.is_neg_inf s ≡ false) (sym (score_lem j)) (fin j) in
          naive_forward-blend r e naive_params mem b h 0 head query fin d 0 m below some_keys
            (visible 0 some_keys) row_block (fin 0)
          ∙ ap₂ (λ xs ones. r.times (blend r m xs) (r.recip (blend r m ones)))
              (keys-scored _ _ (λ j. sym (value_lem j d)) shape.seq_kv (omega arith))
              (keys-scored _ _ (λ j. refl) shape.seq_kv (omega arith))
          ∙ sym (
              decode_split_k-blend r e split_params mem b h head some_splits finite_scores d m below
                (fin 0))
