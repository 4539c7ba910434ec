-- ===== src/Backends/Decode/Kernel/Laws.antt =====
-- What a warp of the first kernel stores, and what the second kernel makes of it.
use mathlib.Core.List.{append_assoc, append-nil}
use sci_compute_attention.Base.{
  ℕ, zero, suc, ◌+◌, ◌≡◌, ◌∙◌, inl, inr, refl, sym, ap, ap₂, subst, false, none, some, List, [],
  ◌∷◌, ◌++◌, arith, Option-cases,
}
use sci_compute_attention.Backends.{DecodeFwdParams}
use sci_compute_attention.Backends.Decode.Softmax.{
  Arithmetic, IsExact, AllFinite, Represents, online, AllFinite-append, online-Represents,
}
use sci_compute_attention.Backends.Decode.Kernel.{
  Memory, Partial, absorb, score, value, kv_row, take_token, partial_loop,
}

module _ {F : Type 0} (r : Arithmetic F) (p : DecodeFwdParams) (mem : Memory F)
    (batch head : ℕ) where
  -- The mapped tokens of a range, each with its score and the value `x` of its row.
  unfoldable pub scored : (ℕ → F) → ℕ → ℕ → List (F × F)
  scored x zero j = []
  scored x (suc n) j = elim (kv_row p batch j) [
    | none ↦ scored x n (suc j)
    | some row ↦ (score r p mem batch head row, x row) ∷ scored x n (suc j)
  ]

  scored-none :
      (x : ℕ → F) (n j : ℕ) → kv_row p batch j ≡ none → scored x (suc n) j ≡ scored x n (suc j)
  unfolding scored
  scored-none x n j h = rw (scored, h) refl

  scored-some :
      (x : ℕ → F) (n j row : ℕ)
      → kv_row p batch j ≡ some row
      → scored x (suc n) j ≡ (score r p mem batch head row, x row) ∷ scored x n (suc j)
  unfolding scored
  scored-some x n j row h = rw (scored, h) refl

  taken_none :
      (j : ℕ) (st : Partial r) → kv_row p batch j ≡ none → take_token r p mem batch head j st ≡ st
  unfolding take_token
  taken_none j st h = rw (take_token, h) refl

  taken_some :
      (j row : ℕ) (st : Partial r)
      → kv_row p batch j ≡ some row
      → take_token r p mem batch head j st
        ≡ absorb r st (score r p mem batch head row) (value r p mem batch head row)
  unfolding take_token
  taken_some j row st h = rw (take_token, h) refl

  loop_none :
      (n j : ℕ) (st : Partial r)
      → kv_row p batch j ≡ none
      → partial_loop r p mem batch head (suc n) j st ≡ partial_loop r p mem batch head n (suc j) st
  unfolding partial_loop take_token
  loop_none n j st h = ap (partial_loop r p mem batch head n (suc j)) (taken_none j st h)

  loop_some :
      (n j row : ℕ) (st : Partial r)
      → kv_row p batch j ≡ some row
      → partial_loop r p mem batch head (suc n) j st
        ≡ partial_loop r p mem batch head n
            (suc j)
            (absorb r st (score r p mem batch head row) (value r p mem batch head row))
  unfolding partial_loop take_token
  loop_some n j row st h = ap (partial_loop r p mem batch head n (suc j)) (taken_some j row st h)

  -- No score is infinite.
  abbrev pub FiniteScores : Type 0
  FiniteScores = (row : ℕ) → r.is_neg_inf (score r p mem batch head row) ≡ false

  -- A component of the partial result that follows the online softmax of the values `x`.
  abbrev pub Tracks : (Partial r → F) → (ℕ → F) → Type 0
  Tracks component x =
      (st : Partial r) (row : ℕ)
      → component (absorb r st (score r p mem batch head row) (value r p mem batch head row))
        ≡ online r st.m (component st) (score r p mem batch head row) (x row)

  pub AllFinite-scored : FiniteScores → (x : ℕ → F) (n j : ℕ) → AllFinite r (scored x n j)
  unfolding scored
  AllFinite-scored fin x zero j = tt
  AllFinite-scored fin x (suc n) j = elim (Option-cases (kv_row p batch j)) [
    | inl h ↦ subst (AllFinite r) (sym (scored-none x n j h)) (AllFinite-scored fin x n (suc j))
    | inr (row, h) ↦
        subst (AllFinite r) (sym (scored-some x n j row h))
          (fin row, AllFinite-scored fin x n (suc j))
  ]

  pub scored-append :
      (x : ℕ → F) (n m j : ℕ) → scored x (n + m) j ≡ scored x n j ++ scored x m (j + n)
  unfolding scored
  scored-append x zero m j =
      let e : j + 0 ≡ j = omega arith in
      let e' : 0 + m ≡ m = omega arith in ap₂ (λ a b. scored x a b) e' (sym e)
  scored-append x (suc n) m j =
      let shift : suc j + n ≡ j + suc n = omega arith in
      let step : scored x (n + m) (suc j) ≡ scored x n (suc j) ++ scored x m (j + suc n) =
        scored-append x n m (suc j) ∙ ap (λ i. scored x n (suc j) ++ scored x m i) shift in
      let count : suc n + m ≡ suc (n + m) = omega arith in
      elim (Option-cases (kv_row p batch j)) [
        | inl e ↦ rw (count, scored, e) step
        | inr (row, e) ↦
            rw (count, scored, e) (ap (λ t. (score r p mem batch head row, x row) ∷ t) step)
      ]

  module _ (e : IsExact r) (fin : FiniteScores) where
    -- A partial result with the tokens that it adds to `xs`.
    abbrev Loop : (Partial r → F) → List (F × F) → Partial r × List (F × F) → Type 0
    Loop component xs (st, ys) = Represents r st.m (component st) (xs ++ ys)

    abbrev pair : Partial r → List (F × F) → Partial r × List (F × F)
    pair st ys = (st, ys)

    absorbed :
        (component : Partial r → F) (x : ℕ → F)
        → Tracks component x
        → (st : Partial r) (xs : List (F × F)) (row : ℕ) → AllFinite r xs
        → Represents r st.m (component st) xs
        → Represents r
            (absorb r st (score r p mem batch head row) (value r p mem batch head row)).m
            (component (absorb r st (score r p mem batch head row) (value r p mem batch head row)))
            (xs ++ (score r p mem batch head row, x row) ∷ [])
    unfolding absorb
    absorbed component x tracks st xs row all rep =
        let s = score r p mem batch head row in
        subst (λ a. Represents r (r.larger st.m s) a (xs ++ (s, x row) ∷ [])) (sym (tracks st row))
          (online-Represents r e st.m (component st) s (x row) xs (fin row) all rep)

    -- The loop over the tokens keeps the representation.
    pub partial_loop-Represents :
        (component : Partial r → F) (x : ℕ → F)
        → Tracks component x
        → (n j : ℕ) (st : Partial r) (xs : List (F × F)) → AllFinite r xs
        → Represents r st.m (component st) xs
        → Represents r
            (partial_loop r p mem batch head n j st).m
            (component (partial_loop r p mem batch head n j st))
            (xs ++ scored x n j)
    unfolding partial_loop scored
    partial_loop-Represents component x tracks zero j st xs all rep =
        subst (λ ys. Represents r st.m (component st) ys) (sym (append-nil xs)) rep
    partial_loop-Represents component x tracks (suc n) j st xs all rep =
        elim (Option-cases (kv_row p batch j)) [
          | inl h ↦
              subst (Loop component xs) (sym (ap₂ pair (loop_none n j st h) (scored-none x n j h)))
                (partial_loop-Represents component x tracks n (suc j) st xs all rep)
          | inr (row, h) ↦
              let next =
                absorb r st (score r p mem batch head row) (value r p mem batch head row) in
              let token : List (F × F) = (score r p mem batch head row, x row) ∷ [] in
              subst (Loop component xs)
                (sym (ap₂ pair (loop_some n j row st h) (scored-some x n j row h)))
                (subst
                  (λ ys.
                    Represents r (partial_loop r p mem batch head n (suc j) next).m
                      (component (partial_loop r p mem batch head n (suc j) next)) ys)
                  (append_assoc xs token (scored x n (suc j)))
                  (partial_loop-Represents component x tracks n (suc j) next (xs ++ token)
                    (AllFinite-append r e xs token all (fin row, tt))
                    (absorbed component x tracks st xs row all rep)))
        ]
