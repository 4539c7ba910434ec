-- ===== src/Backends/Naive/Kernel/Exact.antt =====
-- The kernels of src/backends/naive/attention_naive.cu as a softmax average over the visible keys.
use sci_compute_attention.Base.{
  ℕ, ◌+◌, ◌*◌, ◌/◌, ◌%◌, ◌<◌, ◌≡◌, ◌∙◌, refl, sym, ap, ap₂, Bool, true, false, ◌&&◌, List, arith,
  if◌then◌else◌, ltb, subst,
}
use sci_compute_attention.Backends.{FwdParams}
use sci_compute_attention.Backends.Decode.Softmax.{Arithmetic, IsExact, blend, blend-recip}
use sci_compute_attention.Backends.Decode.Splits.{div_lem, mod_lem}
use sci_compute_attention.Backends.Decode.Kernel.{Memory, sum}
use sci_compute_attention.Backends.Naive.Kernel.{
  exceeds, max_of, dot_scaled, naive_qk_scale_mask_kernel, naive_value, naive_pv_kernel,
  naive_row_softmax_kernel, naive_forward, softmax_blocks,
}
use sci_compute_attention.Backends.Naive.Kernel.Laws.{
  flat, flat_lem, sum-cong, sum-times, max_of-cong, max_of_finite, unmasked, masked_score,
  AllFinite-unmasked, sum-blend,
}

module _ {F : Type 0} (r : Arithmetic F) (e : IsExact r) where
  module _ (p : FwdParams) (mem : Memory F) (b h i : ℕ) (head : h < p.num_heads)
      (query : i < p.seq_q)
      (fin : (j : ℕ) → r.is_neg_inf (dot_scaled r p mem b h i j) ≡ false) where
    abbrev hidden : ℕ → Bool
    hidden j = p.causal && exceeds j i p.diagonal

    -- The visible keys of a query, each with its score and a value.
    abbrev pub attended : (ℕ → F) → List (F × F)
    attended x = unmasked r e hidden (dot_scaled r p mem b h i) fin x p.seq_kv

    abbrev cell : ℕ → F
    cell = masked_score r e hidden (dot_scaled r p mem b h i) fin

    qk_cell :
        (j : ℕ)
        → j < p.seq_kv
        → naive_qk_scale_mask_kernel r p mem (flat p.num_heads p.seq_q p.seq_kv b h i j) ≡ cell j
    unfolding naive_qk_scale_mask_kernel
    qk_cell j below =
        let at = flat_lem p.num_heads p.seq_q p.seq_kv b h i j below query head in
        rw (at.0, at.1, at.2, at.3) refl

    unfoldable row : ℕ
    row = (b * p.num_heads + h) * p.seq_q + i

    abbrev top : F
    top = max_of r p.seq_kv cell

    abbrev total : F
    total = sum r p.seq_kv λ j. r.weight (cell j) top

    softmax_cell :
        (j : ℕ)
        → j < p.seq_kv
        → r.is_neg_inf top ≡ false
        → naive_row_softmax_kernel r (naive_qk_scale_mask_kernel r p mem) p.seq_kv row j
          ≡ r.times (r.weight (cell j) top) (r.recip total)
    unfolding naive_row_softmax_kernel row
    softmax_cell j below h =
        let scores = λ (x : ℕ). naive_qk_scale_mask_kernel r p mem (row * p.seq_kv + x) in
        let same_top : max_of r p.seq_kv scores ≡ top =
          max_of-cong r e p.seq_kv scores cell qk_cell in
        let same_total : (m : F)
            → sum r p.seq_kv (λ x. r.weight (scores x) m)
              ≡ sum r p.seq_kv (λ x. r.weight (cell x) m) =
          λ m. sum-cong r e p.seq_kv _ _ (λ x below. ap (λ s. r.weight s m) (qk_cell x below)) in
        rw (same_top, h, qk_cell j below, same_total top) refl

    factor_last : (w c x : F) → r.times (r.times w c) x ≡ r.times (r.times w x) c
    factor_last w c x =
        e.times_assoc w c x ∙ ap (r.times w) (e.times_comm c x) ∙ sym (e.times_assoc w x c)

    total-blend : r.is_neg_inf top ≡ false → total ≡ blend r top (attended λ j. r.one)
    total-blend above =
        sum-cong r e p.seq_kv _ _ (λ j below. sym (e.times_one (r.weight (cell j) top)))
        ∙ sum-blend r e hidden (dot_scaled r p mem b h i) fin (λ j. r.one) top p.seq_kv above

    -- In exact arithmetic and where every score is finite, the three kernels store for a query and an element
    -- the softmax average of V over the keys that the causal mask leaves it, whatever number is subtracted in
    -- the exponent. The query has a visible key, and its row is among the blocks of the second kernel.
    pub naive_forward-blend :
        (d k : ℕ) (m : F)
        → d < p.head_dim
        → k < p.seq_kv
        → (p.causal && exceeds k i p.diagonal) ≡ false
        → (b * p.num_heads + h) * p.seq_q + i < softmax_blocks p
        → r.is_neg_inf m ≡ false
        → naive_forward r p mem (flat p.num_heads p.seq_q p.head_dim b h i d)
          ≡ r.times
              (blend r m (attended λ j. naive_value r p mem b h j d))
              (r.recip (blend r m (attended λ j. r.one)))
    unfolding naive_forward naive_pv_kernel row
    naive_forward-blend d k m below key visible block finite =
        let at = flat_lem p.num_heads p.seq_q p.head_dim b h i d below query head in
        let v = λ (j : ℕ). naive_value r p mem b h j d in
        let visible_finite : r.is_neg_inf (cell k) ≡ false =
          subst (λ t. r.is_neg_inf (if t then r.neg_inf else dot_scaled r p mem b h i k) ≡ false)
            (sym visible) (fin k) in
        let top_finite = max_of_finite r e p.seq_kv k cell key visible_finite in
        let inside_blocks : ltb row (softmax_blocks p) ≡ true = ground arith in
        let probability : (j : ℕ)
            → j < p.seq_kv
            → (if ltb ((row * p.seq_kv + j) / p.seq_kv) (softmax_blocks p)
                then naive_row_softmax_kernel r (naive_qk_scale_mask_kernel r p mem) p.seq_kv
                    ((row * p.seq_kv + j) / p.seq_kv) ((row * p.seq_kv + j) % p.seq_kv)
                else naive_qk_scale_mask_kernel r p mem (row * p.seq_kv + j))
              ≡ r.times (r.weight (cell j) top) (r.recip total) =
          λ j inside.
            rw (div_lem row p.seq_kv j inside, mod_lem row p.seq_kv j inside, inside_blocks)
              (softmax_cell j inside top_finite) in
        let stored : naive_forward r p mem (flat p.num_heads p.seq_q p.head_dim b h i d)
            ≡ r.times (sum r p.seq_kv λ j. r.times (r.weight (cell j) top) (v j)) (r.recip total) =
          rw (at.0, at.1, at.2, at.3)
            (sum-cong r e p.seq_kv _ _ (λ j inside.
                ap (λ w. r.times w (v j)) (probability j inside)
                ∙ factor_last (r.weight (cell j) top) (r.recip total) (v j))
              ∙ sum-times r e p.seq_kv (λ j. r.times (r.weight (cell j) top) (v j))
                  (r.recip total)) in
        stored
        ∙ ap₂ (λ a l. r.times a (r.recip l))
            (sum-blend r e hidden (dot_scaled r p mem b h i) fin v top p.seq_kv top_finite)
            (total-blend top_finite)
        ∙ blend-recip r e m top (attended v) (attended λ j. r.one) finite top_finite
            (AllFinite-unmasked r e hidden (dot_scaled r p mem b h i) fin v p.seq_kv)
            (AllFinite-unmasked r e hidden (dot_scaled r p mem b h i) fin (λ j. r.one) p.seq_kv)
