-- ===== src/Backends/Decode/Kernel/Merge.antt =====
-- What `decode_reduce_kernel` makes of the partial results, and the two kernels together.
use sci_compute_attention.Base.{
  ℕ, zero, suc, ◌+◌, ◌≤◌, ◌<◌, ◌≡◌, ◌∙◌, inl, inr, refl, sym, ap, ap₂, true, false, List, [], ◌++◌,
  arith, if◌then◌else◌, Bool-cases, ltb,
}
use sci_compute_attention.Backends.Decode.Softmax.{
  Arithmetic, IsExact, blend, AllFinite, Represents, nothing, blended, blend-append, blend-weight,
}
use sci_compute_attention.Backends.Decode.Kernel.{max_loop, sum_loop}

abbrev pub concat_from : {F : Type 0} → (ℕ → List F) → ℕ → ℕ → List F
concat_from ys zero s = []
concat_from ys (suc n) s = ys s ++ concat_from ys n (suc s)

module _ {F : Type 0} (r : Arithmetic F) (e : IsExact r) (pm : ℕ → F) (base : ℕ) where
  max_loop_keeps :
      (n s : ℕ) (acc : F)
      → r.is_neg_inf acc ≡ false
      → r.is_neg_inf (max_loop r pm base n s acc) ≡ false
  unfolding max_loop
  max_loop_keeps zero s acc h = h
  max_loop_keeps (suc n) s acc h =
      max_loop_keeps n (suc s) (r.larger acc (pm (base + s))) (e.larger_left acc (pm (base + s)) h)

  -- The maximum is finite if one of its numbers is.
  pub max_loop_finite :
      (n s i : ℕ) (acc : F)
      → s ≤ i
      → i < s + n
      → r.is_neg_inf (pm (base + i)) ≡ false
      → r.is_neg_inf (max_loop r pm base n s acc) ≡ false
  unfolding max_loop
  max_loop_finite zero s i acc from to h = absurd (omega arith)
  max_loop_finite (suc n) s i acc from to h = elim (Bool-cases (ltb s i)) [
    | inl more ↦
        max_loop_finite n (suc s) i (r.larger acc (pm (base + s))) (ground arith) (omega arith) h
    | inr here ↦
        let same : i ≡ s = ground arith in
        max_loop_keeps n (suc s) (r.larger acc (pm (base + s)))
          (e.larger_right acc (pm (base + s)) (rw (← same) h))
  ]

  module _ (part : ℕ → F) (m_all : F) (ys : ℕ → List (F × F)) (splits : ℕ)
      (reps : (i : ℕ) → i < splits → Represents r (pm (base + i)) (part (base + i)) (ys i))
      (all : (i : ℕ) → AllFinite r (ys i))
      (larger : (i : ℕ)
        → i < splits
        → r.is_neg_inf (pm (base + i)) ≡ false
        → r.is_neg_inf m_all ≡ false) where
    -- The summand of one split.
    abbrev merged : ℕ → F → F
    merged s total =
        if r.is_neg_inf (pm (base + s))
        then total
        else r.plus total (r.times (part (base + s)) (r.weight (pm (base + s)) m_all))

    merge_one :
        (s : ℕ) (total m a : F) (xs : List (F × F))
        → Represents r m a xs
        → AllFinite r xs
        → (r.is_neg_inf m ≡ false → r.is_neg_inf m_all ≡ false)
        → (if r.is_neg_inf m then total else r.plus total (r.times a (r.weight m m_all)))
          ≡ r.plus total (blend r m_all xs)
    merge_one s total m a _ (nothing _ _ hm ha) fin up =
        let none_yet : r.is_neg_inf m ≡ true = ap r.is_neg_inf hm ∙ e.neg_inf_lem in
        rw none_yet (sym (e.plus_nought total))
    merge_one s total m a xs (blended _ _ _ hm ha) fin up =
        let scaled : r.times a (r.weight m m_all) ≡ blend r m_all xs =
          e.times_comm a (r.weight m m_all)
          ∙ ap (r.times (r.weight m m_all)) ha
          ∙ blend-weight r e m m_all xs hm (up hm) fin in
        rw hm (ap (r.plus total) scaled)

    pub sum_loop-blend :
        (n s : ℕ) (total : F)
        → s + n ≤ splits
        → sum_loop r pm part m_all base n s total
          ≡ r.plus total (blend r m_all (concat_from ys n s))
    unfolding sum_loop
    sum_loop-blend zero s total h = sym (e.plus_nought total)
    sum_loop-blend (suc n) s total h =
        let one =
          merge_one s total (pm (base + s)) (part (base + s)) (ys s) (reps s (omega arith)) (all s)
            (larger s (omega arith)) in
        sum_loop-blend n (suc s) (merged s total) (omega arith)
        ∙ ap (λ t. r.plus t (blend r m_all (concat_from ys n (suc s)))) one
        ∙ e.plus_assoc total (blend r m_all (ys s)) (blend r m_all (concat_from ys n (suc s)))
        ∙ ap (r.plus total) (sym (blend-append r e m_all (ys s) (concat_from ys n (suc s))))

    -- Where no maximum is finite there was no token.
    pub concat_empty :
        (n s : ℕ) → s + n ≤ splits → r.is_neg_inf m_all ≡ true → concat_from ys n s ≡ []
    concat_empty zero s h none_finite = refl
    concat_empty (suc n) s h none_finite =
        ap₂ ◌++◌
          (empty (pm (base + s)) (part (base + s)) (ys s) (reps s (omega arith))
            (larger s (omega arith)))
          (concat_empty n (suc s) (omega arith) none_finite)
      where
        empty :
            (m a : F) (xs : List (F × F))
            → Represents r m a xs
            → (r.is_neg_inf m ≡ false → r.is_neg_inf m_all ≡ false)
            → xs ≡ []
        empty m a _ (nothing _ _ hm ha) up = refl
        empty m a xs (blended _ _ _ hm ha) up = absurd (ground (arith, up hm, none_finite))
