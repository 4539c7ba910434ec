-- ===== src/Backends/Decode/Softmax.antt =====
-- Sums weighted by exponentials, in the arithmetic that the kernels of the backends stand for.
-- The floats of the kernels are a parameter: a type with the operations that they use and the laws that
-- these have on real numbers with -inf.
use sci_compute_attention.Base.{
  ◌≡◌, sym, ap, ap₂, ◌∙◌, Bool, true, false, not, List, [], ◌∷◌, ◌++◌, arith, if◌then◌else◌,
}

-- `weight a b` is `FastExp2((a - b) * kLog2e)`, `larger` is `fmaxf`, and `recip l` is 1 / l for l > 0
-- and 0 otherwise.
pub record Arithmetic (F : Type 0) : Type 0 where
  pub nought : F
  pub one : F
  pub plus : F → F → F
  pub times : F → F → F
  pub larger : F → F → F
  pub neg_inf : F
  pub is_neg_inf : F → Bool
  pub is_nought : F → Bool
  pub weight : F → F → F
  pub recip : F → F

-- Real arithmetic, without rounding: a semiring, exponentials that multiply, and quotients in which a
-- common exponential factor cancels.
pub record IsExact {F : Type 0} (r : Arithmetic F) : Type 0 where
  pub plus_assoc : (a b c : F) → r.plus (r.plus a b) c ≡ r.plus a (r.plus b c)
  pub plus_nought : (a : F) → r.plus a r.nought ≡ a
  pub nought_plus : (a : F) → r.plus r.nought a ≡ a
  pub times_assoc : (a b c : F) → r.times (r.times a b) c ≡ r.times a (r.times b c)
  pub times_comm : (a b : F) → r.times a b ≡ r.times b a
  pub times_plus : (a b c : F) → r.times a (r.plus b c) ≡ r.plus (r.times a b) (r.times a c)
  pub times_nought : (a : F) → r.times a r.nought ≡ r.nought
  pub times_one : (a : F) → r.times a r.one ≡ a
  pub neg_inf_lem : r.is_neg_inf r.neg_inf ≡ true
  pub neg_inf_unique : (a : F) → r.is_neg_inf a ≡ true → a ≡ r.neg_inf
  pub is_nought_lem : (a : F) → r.is_nought a ≡ true → a ≡ r.nought
  pub larger_left : (a b : F) → r.is_neg_inf a ≡ false → r.is_neg_inf (r.larger a b) ≡ false
  pub larger_right : (a b : F) → r.is_neg_inf b ≡ false → r.is_neg_inf (r.larger a b) ≡ false
  pub weight_neg_inf : (m : F) → r.is_neg_inf m ≡ false → r.weight r.neg_inf m ≡ r.nought
  pub weight_times :
      (a b c : F)
      → r.is_neg_inf a ≡ false
      → r.is_neg_inf b ≡ false
      → r.is_neg_inf c ≡ false
      → r.times (r.weight b c) (r.weight a b) ≡ r.weight a c
  pub weight_cancels :
      (a b x y : F)
      → r.is_neg_inf a ≡ false
      → r.is_neg_inf b ≡ false
      → r.times (r.times (r.weight a b) x) (r.recip (r.times (r.weight a b) y))
        ≡ r.times x (r.recip y)

module _ {F : Type 0} (r : Arithmetic F) where
  abbrev pub is_finite : F → Bool
  is_finite a = not (r.is_neg_inf a)

  -- The sum of `x * exp(s - m)` over scored values.
  abbrev pub blend : F → List (F × F) → F
  blend m [] = r.nought
  blend m ((s, x) ∷ xs) = r.plus (r.times (r.weight s m) x) (blend m xs)

  abbrev pub AllFinite : List (F × F) → Type 0
  AllFinite [] = Unit {0}
  AllFinite ((s, x) ∷ xs) = (r.is_neg_inf s ≡ false) × AllFinite xs

  -- A running maximum with a running sum, as the kernels keep them for the values taken so far.
  pub data Represents : F → F → List (F × F) → Type 0 where
    nothing : (m a : F) → m ≡ r.neg_inf → a ≡ r.nought → Represents m a []
    blended :
        (m a : F) (xs : List (F × F)) → r.is_neg_inf m ≡ false → a ≡ blend m xs → Represents m a xs

-- The step of the online softmax for one component, from (m, a) with a scored value.
module _ {F : Type 0} (r : Arithmetic F) where
  abbrev pub rescale : F → F → F
  rescale m m' = if r.is_neg_inf m then r.nought else r.weight m m'

  abbrev pub online : F → F → F → F → F
  online m a s x =
      let m' = r.larger m s in r.plus (r.times (rescale m m') a) (r.times (r.weight s m') x)

module _ {F : Type 0} (r : Arithmetic F) (e : IsExact r) where
  pub AllFinite-append :
      (xs ys : List (F × F)) → AllFinite r xs → AllFinite r ys → AllFinite r (xs ++ ys)
  AllFinite-append [] ys h g = g
  AllFinite-append (x ∷ xs) ys h g = (h.0, AllFinite-append xs ys h.1 g)

  pub blend-append :
      (m : F) (xs ys : List (F × F)) → blend r m (xs ++ ys) ≡ r.plus (blend r m xs) (blend r m ys)
  blend-append m [] ys = sym (e.nought_plus (blend r m ys))
  blend-append m ((s, x) ∷ xs) ys =
      ap (r.plus (r.times (r.weight s m) x)) (blend-append m xs ys)
      ∙ sym (e.plus_assoc (r.times (r.weight s m) x) (blend r m xs) (blend r m ys))

  -- A sum for one maximum is rescaled to another.
  pub blend-weight :
      (m m' : F) (xs : List (F × F))
      → r.is_neg_inf m ≡ false
      → r.is_neg_inf m' ≡ false
      → AllFinite r xs
      → r.times (r.weight m m') (blend r m xs) ≡ blend r m' xs
  blend-weight m m' [] hm hm' fin = e.times_nought (r.weight m m')
  blend-weight m m' ((s, x) ∷ xs) hm hm' fin =
      e.times_plus (r.weight m m') (r.times (r.weight s m) x) (blend r m xs)
      ∙ ap₂ r.plus
          (sym (e.times_assoc (r.weight m m') (r.weight s m) x)
            ∙ ap (λ w. r.times w x) (e.weight_times s m m' fin.0 hm hm'))
          (blend-weight m m' xs hm hm' fin.1)

  rescale_none : (m m' : F) → m ≡ r.neg_inf → rescale r m m' ≡ r.nought
  rescale_none m m' h = ground (arith, h, e.neg_inf_lem)

  rescale_some : (m m' : F) → r.is_neg_inf m ≡ false → rescale r m m' ≡ r.weight m m'
  rescale_some m m' h = ground (arith, h)

  -- The step keeps the representation.
  pub online-Represents :
      (m a s x : F) (xs : List (F × F))
      → r.is_neg_inf s ≡ false
      → AllFinite r xs
      → Represents r m a xs
      → Represents r (r.larger m s) (online r m a s x) (xs ++ (s, x) ∷ [])
  online-Represents m a s x _ hs fin (nothing _ _ hm ha) =
      let m' = r.larger m s in
      blended m' _ _ (e.larger_right m s hs) (
        ap₂ (λ u b. r.plus (r.times u b) (r.times (r.weight s m') x)) (rescale_none m m' hm) ha
        ∙ ap (λ z. r.plus z (r.times (r.weight s m') x)) (e.times_nought r.nought)
        ∙ e.nought_plus (r.times (r.weight s m') x)
        ∙ sym (e.plus_nought (r.times (r.weight s m') x)))
  online-Represents m a s x xs hs fin (blended _ _ _ hm ha) =
      let m' = r.larger m s in
      let fm' = e.larger_left m s hm in
      blended m' _ _ fm' (
        ap₂ (λ u b. r.plus (r.times u b) (r.times (r.weight s m') x)) (rescale_some m m' hm) ha
        ∙ ap (λ z. r.plus z (r.times (r.weight s m') x)) (blend-weight m m' xs hm fm' fin)
        ∙ ap (r.plus (blend r m' xs)) (sym (e.plus_nought (r.times (r.weight s m') x)))
        ∙ sym (blend-append m' xs ((s, x) ∷ [])))

  -- The softmax average does not depend on the maximum that is subtracted.
  pub blend-recip :
      (m m' : F) (xs ones : List (F × F))
      → r.is_neg_inf m ≡ false
      → r.is_neg_inf m' ≡ false
      → AllFinite r xs
      → AllFinite r ones
      → r.times (blend r m' xs) (r.recip (blend r m' ones))
        ≡ r.times (blend r m xs) (r.recip (blend r m ones))
  blend-recip m m' xs ones hm hm' fin fin' =
      rw (← blend-weight m m' xs hm hm' fin)
        (rw (← blend-weight m m' ones hm hm' fin') (e.weight_cancels m m' _ _ hm hm'))
