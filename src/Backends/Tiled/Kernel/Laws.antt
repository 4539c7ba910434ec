-- ===== src/Backends/Tiled/Kernel/Laws.antt =====
-- The update of a row of src/backends/tiled/attention_tiled.cu by a tile.
use mathlib.Core.List.{append_assoc, append-nil}
use sci_compute_attention.Base.{
  ℕ, zero, suc, ◌+◌, ◌<◌, ◌≡◌, ◌∙◌, refl, sym, ap, ap₂, inl, inr, Bool, true, false, List, [], ◌∷◌,
  ◌++◌, arith, if◌then◌else◌, ◌||◌, Bool-cases, subst,
}
use sci_compute_attention.Backends.Decode.Softmax.{
  Arithmetic, IsExact, blend, AllFinite, Represents, nothing, blended, blend-append, blend-weight,
}
use sci_compute_attention.Backends.Decode.Kernel.{sum}
use sci_compute_attention.Backends.Naive.Kernel.{max_of}
use sci_compute_attention.Backends.Naive.Kernel.Laws.{
  max_of_finite, unmasked, masked_score, sum-blend,
}
use sci_compute_attention.Backends.Tiled.Kernel.{skip_sum}

module _ {F : Type 0} (r : Arithmetic F) (e : IsExact r) where
  pub skip_sum_lem : (n : ℕ) (w x : ℕ → F) → skip_sum r n w x ≡ sum r n λ j. r.times (w j) (x j)
  unfolding skip_sum sum
  skip_sum_lem zero w x = refl
  skip_sum_lem (suc n) w x = elim (Bool-cases (r.is_nought (w n))) [
    | inl h ↦ rw h (
        skip_sum_lem n w x
        ∙ sym (e.plus_nought _)
        ∙ ap (r.plus _) (
            sym (
              ap (λ t. r.times t (x n)) (e.is_nought_lem (w n) h)
              ∙ e.times_comm r.nought (x n)
              ∙ e.times_nought (x n))))
    | inr h ↦ rw h (ap (λ t. r.plus t (r.times (w n) (x n))) (skip_sum_lem n w x))
  ]

  sum_noughts : (n : ℕ) (x : ℕ → F) → sum r n (λ j. r.times r.nought (x j)) ≡ r.nought
  unfolding sum
  sum_noughts zero x = refl
  sum_noughts (suc n) x =
      ap₂ r.plus (sum_noughts n x) (e.times_comm r.nought (x n) ∙ e.times_nought (x n))
      ∙ e.plus_nought r.nought

  pub Represents-finite :
      (m a : F) (xs : List (F × F))
      → Represents r m a xs
      → r.is_neg_inf m ≡ false
      → a ≡ blend r m xs
  Represents-finite m a _ (nothing _ _ hm ha) h =
      let low : r.is_neg_inf m ≡ true = ap r.is_neg_inf hm ∙ e.neg_inf_lem in ground arith
  Represents-finite m a xs (blended _ _ _ hm ha) h = ha

  pub Represents-none :
      (m a : F) (xs : List (F × F))
      → Represents r m a xs
      → r.is_neg_inf m ≡ true
      → (a ≡ r.nought) × (xs ≡ [])
  Represents-none m a _ (nothing _ _ hm ha) h = (ha, refl)
  Represents-none m a xs (blended _ _ _ hm ha) h = ground arith

  pub unmasked-cong :
      (hidden hidden' : ℕ → Bool) (s : ℕ → F) (fin : (j : ℕ) → r.is_neg_inf (s j) ≡ false)
      (x y : ℕ → F) (n : ℕ)
      → ((j : ℕ) → j < n → (hidden j ≡ hidden' j) × (x j ≡ y j))
      → unmasked r e hidden s fin x n ≡ unmasked r e hidden' s fin y n
  unfolding unmasked
  unmasked-cong hidden hidden' s fin x y zero h = refl
  unmasked-cong hidden hidden' s fin x y (suc n) h =
      ap₂ (λ xs ys. xs ++ ys)
        (unmasked-cong hidden hidden' s fin x y n (λ j below. h j (omega arith)))
        (ap₂ (λ b t. if b then [] else (s n, t) ∷ []) (h n (omega arith)).0 (h n (omega arith)).1)

  pub Represents-plus :
      {m a t t' : F}
      → {xs : List (F × F)} → t ≡ t'
      → Represents r m (r.plus a t) xs
      → Represents r m (r.plus a t') xs
  Represents-plus {m} {a} {t} {t'} {xs} h = subst (λ u. Represents r m (r.plus a u) xs) h

  -- The keys of a range in two parts.
  pub unmasked-append :
      (hidden : ℕ → Bool) (s : ℕ → F) (fin : (j : ℕ) → r.is_neg_inf (s j) ≡ false) (x : ℕ → F)
      (m n : ℕ)
      → unmasked r e hidden s fin x (m + n)
        ≡ unmasked r e hidden s fin x m
          ++ unmasked r e
              (λ j. hidden (m + j))
              (λ j. s (m + j))
              (λ j. fin (m + j))
              (λ j. x (m + j))
              n
  unfolding unmasked
  unmasked-append hidden s fin x m zero =
      let none_left : m + 0 ≡ m = omega arith in
      ap (unmasked r e hidden s fin x) none_left ∙ sym (append-nil _)
  unmasked-append hidden s fin x m (suc n) =
      let count : m + suc n ≡ suc (m + n) = omega arith in
      ap (unmasked r e hidden s fin x) count
      ∙ ap (λ t. t ++ (if hidden (m + n) then [] else (s (m + n), x (m + n)) ∷ []))
          (unmasked-append hidden s fin x m n)
      ∙ append_assoc (unmasked r e hidden s fin x m)
          (unmasked r e (λ j. hidden (m + j)) (λ j. s (m + j)) (λ j. fin (m + j)) (λ j. x (m + j))
            n)
          (if hidden (m + n) then [] else (s (m + n), x (m + n)) ∷ [])

  module _ (hidden : ℕ → Bool) (s : ℕ → F) (fin : (j : ℕ) → r.is_neg_inf (s j) ≡ false) where
    abbrev cell : ℕ → F
    cell = masked_score r e hidden s fin

    abbrev visible : (ℕ → F) → ℕ → List (F × F)
    visible = unmasked r e hidden s fin

    pub all_hidden : (x : ℕ → F) (n : ℕ) → ((j : ℕ) → j < n → hidden j ≡ true) → visible x n ≡ []
    unfolding unmasked
    all_hidden x zero h = refl
    all_hidden x (suc n) h =
        rw (h n (omega arith), all_hidden x n (λ j below. h j (omega arith))) refl

    -- The keys of a row whose maximum is -inf are hidden.
    hidden_below : (n j : ℕ) → j < n → r.is_neg_inf (max_of r n cell) ≡ true → hidden j ≡ true
    hidden_below n j below h = elim (Bool-cases (hidden j)) [
      | inl shows ↦ shows
      | inr other ↦
          let shown : r.is_neg_inf (cell j) ≡ false =
            subst (λ t. r.is_neg_inf (if t then r.neg_inf else s j) ≡ false) (sym other) (fin j) in
          let big = max_of_finite r e n j cell below shown in ground arith
    ]

    -- The update of a running sum by a tile keeps the representation.
    pub update-Represents :
        (m a : F) (xs : List (F × F)) (x : ℕ → F) (n : ℕ)
        → AllFinite r xs
        → Represents r m a xs
        → Represents r
            (r.larger m (max_of r n cell))
            (r.plus
              (r.times
                (if r.is_neg_inf m || r.is_neg_inf (r.larger m (max_of r n cell))
                  then r.nought
                  else r.weight m (r.larger m (max_of r n cell)))
                a)
              (sum r n λ j.
                r.times
                  (if r.is_neg_inf (r.larger m (max_of r n cell))
                    then r.nought
                    else r.weight (cell j) (r.larger m (max_of r n cell)))
                  (x j)))
            (xs ++ visible x n)
    update-Represents m a xs x n all (blended _ _ _ hm ha) =
        let m' = r.larger m (max_of r n cell) in
        let hm' = e.larger_left m (max_of r n cell) hm in
        blended _ _ _ hm' (
          rw (hm, hm')
            (ap₂ r.plus (ap (r.times (r.weight m m')) ha ∙ blend-weight r e m m' xs hm hm' all)
                (sum-blend r e hidden s fin x m' n hm')
              ∙ sym (blend-append r e m' xs (visible x n))))
    update-Represents m a _ x n all (nothing _ _ hm ha) =
        let m' = r.larger m (max_of r n cell) in
        let low : r.is_neg_inf m ≡ true = ap r.is_neg_inf hm ∙ e.neg_inf_lem in
        elim (Bool-cases (r.is_neg_inf m')) [
          | inr hm' ↦ blended _ _ _ hm' (
              rw (low, hm')
                (ap₂ r.plus (e.times_comm r.nought a ∙ e.times_nought a)
                    (sum-blend r e hidden s fin x m' n hm')
                  ∙ e.nought_plus _))
          | inl hm' ↦
              let gone = all_hidden x n (λ j below. hidden_below n j below (top_low m n hm')) in
              rw gone (
                nothing _ _ (e.neg_inf_unique m' hm') (
                  rw (low, hm')
                    (ap₂ r.plus (e.times_comm r.nought a ∙ e.times_nought a) (sum_noughts n x)
                      ∙ e.plus_nought r.nought)))
        ]
      where
        top_low :
            (m : F) (n : ℕ)
            → r.is_neg_inf (r.larger m (max_of r n cell)) ≡ true
            → r.is_neg_inf (max_of r n cell) ≡ true
        top_low m n h = elim (Bool-cases (r.is_neg_inf (max_of r n cell))) [
          | inl shows ↦ shows
          | inr other ↦ let big = e.larger_right m (max_of r n cell) other in ground arith
        ]
