-- ===== src/Backends/Naive/Kernel/Laws.antt =====
-- Indices, sums and maxima of the naive kernels, and the masked scores of a row of
-- src/backends/naive/attention_naive.cu.
use native.Mathlib.Nat.{div-div-eq-div-mul}
use sci_compute_attention.Base.{
  ℕ, zero, suc, ◌+◌, ◌*◌, ◌/◌, ◌%◌, ◌<◌, ◌≡◌, ◌∙◌, refl, sym, ap, ap₂, inl, inr, Bool, true, false,
  List, [], ◌∷◌, ◌++◌, arith, if◌then◌else◌, Bool-cases, ==→eq, ==→ne, ◌==◌, subst,
}
use sci_compute_attention.Backends.Decode.Softmax.{
  Arithmetic, IsExact, blend, AllFinite, AllFinite-append, blend-append,
}
use sci_compute_attention.Backends.Decode.Splits.{div_lem, mod_lem}
use sci_compute_attention.Backends.Decode.Kernel.{sum}
use sci_compute_attention.Backends.Naive.Kernel.{max_of}

-- The index of an element of a tensor of four dimensions, and its coordinates as the kernels find them.
abbrev pub flat : ℕ → ℕ → ℕ → ℕ → ℕ → ℕ → ℕ → ℕ
flat H S N b h i c = ((b * H + h) * S + i) * N + c

pub flat_lem :
    (H S N b h i c : ℕ)
    → c < N
    → i < S
    → h < H
    → (flat H S N b h i c % N ≡ c)
      × (flat H S N b h i c / N % S ≡ i)
      × (flat H S N b h i c / (N * S) % H ≡ h)
      × (flat H S N b h i c / (N * S * H) ≡ b)
flat_lem H S N b h i c hc hi hh =
    let x = flat H S N b h i c in
    let one : x / N ≡ (b * H + h) * S + i = div_lem ((b * H + h) * S + i) N c hc in
    let two : x / (N * S) ≡ b * H + h =
      sym (div-div-eq-div-mul x N S) ∙ ap (λ y. y / S) one ∙ div_lem (b * H + h) S i hi in
    (
      mod_lem ((b * H + h) * S + i) N c hc,
      ap (λ y. y % S) one ∙ mod_lem (b * H + h) S i hi,
      ap (λ y. y % H) two ∙ mod_lem b H h hh,
      sym (div-div-eq-div-mul x (N * S) H) ∙ ap (λ y. y / H) two ∙ div_lem b H h hh,
    )

module _ {F : Type 0} (r : Arithmetic F) (e : IsExact r) where
  pub sum-cong : (n : ℕ) (f g : ℕ → F) → ((i : ℕ) → i < n → f i ≡ g i) → sum r n f ≡ sum r n g
  unfolding sum
  sum-cong zero f g h = refl
  sum-cong (suc n) f g h =
      ap₂ r.plus (sum-cong n f g (λ i below. h i (omega arith))) (h n (omega arith))

  -- A common factor of a sum.
  pub sum-times :
      (n : ℕ) (f : ℕ → F) (c : F) → sum r n (λ i. r.times (f i) c) ≡ r.times (sum r n f) c
  unfolding sum
  sum-times zero f c = sym (e.times_comm r.nought c ∙ e.times_nought c)
  sum-times (suc n) f c =
      ap (λ t. r.plus t (r.times (f n) c)) (sum-times n f c)
      ∙ ap₂ r.plus (e.times_comm (sum r n f) c) (e.times_comm (f n) c)
      ∙ sym (e.times_plus c (sum r n f) (f n))
      ∙ e.times_comm c (r.plus (sum r n f) (f n))

  pub max_of-cong :
      (n : ℕ) (f g : ℕ → F) → ((i : ℕ) → i < n → f i ≡ g i) → max_of r n f ≡ max_of r n g
  unfolding max_of
  max_of-cong zero f g h = refl
  max_of-cong (suc n) f g h =
      ap₂ r.larger (max_of-cong n f g (λ i below. h i (omega arith))) (h n (omega arith))

  -- A maximum is finite if one of its numbers is.
  pub max_of_finite :
      (n i : ℕ) (f : ℕ → F)
      → i < n
      → r.is_neg_inf (f i) ≡ false
      → r.is_neg_inf (max_of r n f) ≡ false
  unfolding max_of
  max_of_finite zero i f below h = absurd (omega arith)
  max_of_finite (suc n) i f below h = elim (Bool-cases (i == n)) [
    | inl same ↦
        e.larger_right (max_of r n f) (f n)
          (subst (λ k. r.is_neg_inf (f k) ≡ false) (==→eq i n same) h)
    | inr other ↦
        let ne = ==→ne i n other in
        e.larger_left (max_of r n f) (f n) (max_of_finite n i f (omega arith) h)
  ]

  module _ (hidden : ℕ → Bool) (s : ℕ → F) (fin : (j : ℕ) → r.is_neg_inf (s j) ≡ false) where
    -- The keys that are not masked, each with its score and a value.
    unfoldable pub unmasked : (ℕ → F) → ℕ → List (F × F)
    unmasked x zero = []
    unmasked x (suc n) = unmasked x n ++ (if hidden n then [] else (s n, x n) ∷ [])

    abbrev pub masked_score : ℕ → F
    masked_score j = if hidden j then r.neg_inf else s j

    pub AllFinite-unmasked : (x : ℕ → F) (n : ℕ) → AllFinite r (unmasked x n)
    unfolding unmasked
    AllFinite-unmasked x zero = tt
    AllFinite-unmasked x (suc n) =
        AllFinite-append r e (unmasked x n) (if hidden n then [] else (s n, x n) ∷ [])
          (AllFinite-unmasked x n)
          (elim (hidden n) as (λ b. AllFinite r (if b then [] else (s n, x n) ∷ [])) [
            | true ↦ tt
            | false ↦ (fin n, tt)
          ])

    -- The sum over all keys, the masked ones having weight 0, is that over the others.
    pub sum-blend :
        (x : ℕ → F) (m : F) (n : ℕ)
        → r.is_neg_inf m ≡ false
        → sum r n (λ j. r.times (r.weight (masked_score j) m) (x j)) ≡ blend r m (unmasked x n)
    unfolding sum unmasked
    sum-blend x m zero hm = refl
    sum-blend x m (suc n) hm =
        ap₂ r.plus (sum-blend x m n hm) (last (hidden n))
        ∙ sym (blend-append r e m (unmasked x n) (if hidden n then [] else (s n, x n) ∷ []))
      where
        last :
            (b : Bool)
            → r.times (r.weight (if b then r.neg_inf else s n) m) (x n)
              ≡ blend r m (if b then [] else (s n, x n) ∷ [])
        last true =
            ap (λ w. r.times w (x n)) (e.weight_neg_inf m hm)
            ∙ e.times_comm r.nought (x n)
            ∙ e.times_nought (x n)
        last false = sym (e.plus_nought (r.times (r.weight (s n) m) (x n)))
