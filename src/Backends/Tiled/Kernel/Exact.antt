-- ===== src/Backends/Tiled/Kernel/Exact.antt =====
-- The kernel of src/backends/tiled/attention_tiled.cu as a softmax average over the visible keys, and against
-- the naive kernels.
use mathlib.Core.List.{append-nil}
use sci_compute_attention.Base.{
  ℕ, zero, suc, ℤ, ◌+◌, ◌-◌, ◌*◌, ◌/◌, ◌<◌, ◌≤◌, ◌≡◌, ◌∙◌, refl, sym, ap, ap₂, inl, inr, Bool, true,
  false, List, ◌++◌, arith, ◌&&◌, Bool-cases, subst, pos, negsuc,
}
use sci_compute_attention.Backends.{FwdParams}
use sci_compute_attention.Backends.Decode.Softmax.{
  Arithmetic, IsExact, blend, AllFinite, Represents, nothing, blend-recip,
}
use sci_compute_attention.Backends.Decode.Kernel.{Memory, Partial, start}
use sci_compute_attention.Backends.Naive.Kernel.{
  exceeds, dot_scaled, naive_value, naive_forward, softmax_blocks,
}
use sci_compute_attention.Backends.Naive.Kernel.Laws.{flat, sum-cong, unmasked, AllFinite-unmasked}
use sci_compute_attention.Backends.Naive.Kernel.Exact.{attended, naive_forward-blend}
use sci_compute_attention.Backends.Tiled.Kernel.{
  update_row, is_masked, tile_score, tile_value, is_past, tile_loop, tiled_attn_kernel,
}
use sci_compute_attention.Backends.Tiled.Kernel.Laws.{
  Represents-finite, Represents-none, unmasked-cong, skip_sum_lem, Represents-plus, unmasked-append,
  all_hidden, update-Represents,
}

exceeds_later :
    (j j' i i' : ℕ) (d : ℤ) → j ≤ j' → i' ≤ i → exceeds j i d ≡ true → exceeds j' i' d ≡ true
exceeds_later j j' i i' (pos d) hj hi h = ground arith
exceeds_later j j' i i' (negsuc n) hj hi h = ground arith

module _ {F : Type 0} (r : Arithmetic F) (e : IsExact r) (p : FwdParams) (mem : Memory F)
    (block_m block_n batch head i0 row : ℕ) (inside : row < block_m)
    (fin : (j : ℕ) → r.is_neg_inf (dot_scaled r p mem batch head (i0 + row) j) ≡ false) where
  abbrev masked : ℕ → Bool
  masked = is_masked r p mem block_m block_n batch head i0 row

  abbrev keys : (ℕ → F) → ℕ → List (F × F)
  keys = unmasked r e masked (dot_scaled r p mem batch head (i0 + row)) fin

  abbrev step : ℕ → Partial r → Partial r
  step j_base =
      update_row r block_n
        (λ col. tile_score r p mem block_m block_n batch head i0 row (j_base + col))
        (λ col. tile_value r p mem block_m block_n batch head i0 row (j_base + col))

  abbrev value : ℕ → ℕ → F
  value = tile_value r p mem block_m block_n batch head i0 row

  -- A part of the state that the update sums for the values `x`.
  abbrev Sums : (Partial r → F) → (ℕ → F) → Type 0
  Sums part x =
      (j_base : ℕ) (st : Partial r) (xs : List (F × F))
      → AllFinite r xs
      → Represents r st.m (part st) xs
      → Represents r (step j_base st).m (part (step j_base st)) (
          xs
          ++ unmasked r e (λ j. masked (j_base + j))
              (λ j. dot_scaled r p mem batch head (i0 + row) (j_base + j)) (λ j. fin (j_base + j))
              (λ j. x (j_base + j)) block_n)

  Sums-output : (d : ℕ) → Sums (λ st. st.o d) (λ j. value j d)
  unfolding update_row
  Sums-output d j_base st xs all h = Represents-plus r e (sym (skip_sum_lem r e block_n _ _)) (
      update-Represents r e (λ j. masked (j_base + j))
        (λ j. dot_scaled r p mem batch head (i0 + row) (j_base + j)) (λ j. fin (j_base + j)) st.m
        (st.o d) xs (λ j. value (j_base + j) d) block_n all h)

  Sums-sum : Sums (λ st. st.l) (λ j. r.one)
  unfolding update_row
  Sums-sum j_base st xs all h =
      Represents-plus r e (sum-cong r e block_n _ _ (λ j below. e.times_one _)) (
        update-Represents r e (λ j. masked (j_base + j))
          (λ j. dot_scaled r p mem batch head (i0 + row) (j_base + j)) (λ j. fin (j_base + j)) st.m
          st.l xs (λ j. r.one) block_n all h)

  -- What the mask hides from the block at a tile, it hides from the row in all later ones.
  past_masked :
      (j_base j : ℕ)
      → is_past r p mem block_m block_n batch head i0 row j_base ≡ true
      → masked (j_base + j) ≡ true
  past_masked j_base j h = elim (Bool-cases p.causal) [
    | inr other ↦ ground arith
    | inl same ↦
        let hidden =
          exceeds_later j_base (j_base + j) (i0 + block_m - 1) (i0 + row) p.diagonal (omega arith)
            (omega arith) in
        ground arith
  ]

  abbrev later_keys : (ℕ → F) → ℕ → ℕ → List (F × F)
  later_keys x m =
      unmasked r e (λ j. masked (m + j)) (λ j. dot_scaled r p mem batch head (i0 + row) (m + j))
        (λ j. fin (m + j)) (λ j. x (m + j))

  keys-append : (x : ℕ → F) (m n : ℕ) → keys x (m + n) ≡ keys x m ++ later_keys x m n
  keys-append = unmasked-append r e masked (dot_scaled r p mem batch head (i0 + row)) fin

  keys_end : (x : ℕ → F) (m n : ℕ) → ((j : ℕ) → masked (m + j) ≡ true) → keys x (m + n) ≡ keys x m
  keys_end x m n h =
      keys-append x m n
      ∙ ap (λ t. keys x m ++ t)
          (all_hidden r e (λ j. masked (m + j))
            (λ j. dot_scaled r p mem batch head (i0 + row) (m + j)) (λ j. fin (m + j))
            (λ j. x (m + j)) n (λ j below. h j))
      ∙ append-nil (keys x m)

  -- The state after the loop, for the keys of all tiles.
  tile_loop-Represents :
      (part : Partial r → F) (x : ℕ → F)
      → Sums part x
      → (n j0 : ℕ) (st : Partial r) → Represents r st.m (part st) (keys x (j0 * block_n))
      → Represents r
          (tile_loop r p mem block_m block_n batch head i0 row n j0 st).m
          (part (tile_loop r p mem block_m block_n batch head i0 row n j0 st))
          (keys x (j0 * block_n + n * block_n))
  unfolding tile_loop
  tile_loop-Represents part x sums zero j0 st h =
      let none_left : j0 * block_n ≡ j0 * block_n + 0 * block_n = omega arith in
      subst (λ k. Represents r st.m (part st) (keys x k)) none_left h
  tile_loop-Represents part x sums (suc n) j0 st h =
      let j_base = j0 * block_n in
      let later : suc j0 * block_n ≡ j_base + block_n = grind arith in
      let all : suc j0 * block_n + n * block_n ≡ j_base + suc n * block_n = grind arith in
      elim (Bool-cases (is_past r p mem block_m block_n batch head i0 row j_base)) [
        | inl past ↦ rw past (
            subst (λ ks. Represents r st.m (part st) ks)
              (sym (keys_end x j_base (suc n * block_n) (λ j. past_masked j_base j past))) h)
        | inr other ↦
            let next =
              sums j_base st (keys x j_base)
                (AllFinite-unmasked r e masked (dot_scaled r p mem batch head (i0 + row)) fin x
                  j_base)
                h in
            let grown : keys x j_base ++ later_keys x j_base block_n ≡ keys x (suc j0 * block_n) =
              sym (keys-append x j_base block_n) ∙ ap (keys x) (sym later) in
            rw other (
              subst
                (λ k.
                  Represents r
                    (tile_loop r p mem block_m block_n batch head i0 row n (suc j0)
                      (step j_base st)).m
                    (part (
                      tile_loop r p mem block_m block_n batch head i0 row n (suc j0)
                        (step j_base st)))
                    (keys x k))
                all
                (tile_loop-Represents part x sums n (suc j0) (step j_base st) (
                  subst (λ ks. Represents r (step j_base st).m (part (step j_base st)) ks) grown
                    next)))
      ]

  module _ (h : head < p.num_heads) (query : i0 + row < p.seq_q) (some_keys : 0 < block_n) where
    abbrev visible : (ℕ → F) → List (F × F)
    visible x = attended r e p mem batch head (i0 + row) h query fin x

    abbrev tiles : ℕ
    tiles = (p.seq_kv + block_n - 1) / block_n

    -- The keys of all tiles are those that the query sees.
    keys-visible :
        (x y : ℕ → F)
        → ((j : ℕ) → j < p.seq_kv → x j ≡ y j)
        → keys x (0 * block_n + tiles * block_n) ≡ visible y
    keys-visible x y same =
        let covers : p.seq_kv ≤ tiles * block_n = grind arith in
        let extra = tiles * block_n - p.seq_kv in
        let count : 0 * block_n + tiles * block_n ≡ p.seq_kv + extra = omega arith in
        ap (keys x) count
        ∙ keys_end x p.seq_kv extra (λ j. ground arith)
        ∙ unmasked-cong r e masked (λ j. p.causal && exceeds j (i0 + row) p.diagonal)
            (dot_scaled r p mem batch head (i0 + row)) fin x y p.seq_kv
            (λ j below. (ground arith, same j below))

    final_state : Partial r
    final_state = tile_loop r p mem block_m block_n batch head i0 row tiles 0 (start r)

    final-Represents :
        (part : Partial r → F) (x y : ℕ → F)
        → Sums part x
        → part (start r) ≡ r.nought
        → ((j : ℕ) → j < p.seq_kv → x j ≡ y j)
        → Represents r final_state.m (part final_state) (visible y)
    unfolding final_state unmasked
    final-Represents part x y sums empty same =
        let none_yet : 0 ≡ 0 * block_n = omega arith in
        subst (λ ks. Represents r final_state.m (part final_state) ks) (keys-visible x y same)
          (tile_loop-Represents part x sums tiles 0 (start r) (
            subst (λ k. Represents r (start r).m (part (start r)) (keys x k)) none_yet
              (nothing _ _ refl empty)))

    -- In exact arithmetic and where every score is finite, the kernel stores the softmax average of V over the
    -- keys that the query sees.
    pub tiled_attn_kernel-blend :
        (d : ℕ) (m : F)
        → r.is_neg_inf m ≡ false
        → tiled_attn_kernel r p mem block_m block_n batch head i0 row d
          ≡ r.times
              (blend r m (visible λ j. naive_value r p mem batch head j d))
              (r.recip (blend r m (visible λ j. r.one)))
    unfolding tiled_attn_kernel final_state
    tiled_attn_kernel-blend d m finite =
        let v = λ (j : ℕ). naive_value r p mem batch head j d in
        let st = final_state in
        let outputs =
          final-Represents (λ t. t.o d) (λ j. value j d) v (Sums-output d) refl
            (λ j below. ground arith) in
        let sums =
          final-Represents (λ t. t.l) (λ j. r.one) (λ j. r.one) Sums-sum refl (λ j b. refl) in
        let hidden = λ (j : ℕ). p.causal && exceeds j (i0 + row) p.diagonal in
        elim (Bool-cases (r.is_neg_inf st.m)) [
          | inr shown ↦
              ap₂ (λ a l. r.times a (r.recip l))
                (Represents-finite r e st.m (st.o d) (visible v) outputs shown)
                (Represents-finite r e st.m st.l (visible λ j. r.one) sums shown)
              ∙ blend-recip r e m st.m (visible v) (visible λ j. r.one) finite shown
                  (AllFinite-unmasked r e hidden (dot_scaled r p mem batch head (i0 + row)) fin v
                    p.seq_kv)
                  (AllFinite-unmasked r e hidden (dot_scaled r p mem batch head (i0 + row)) fin
                    (λ j. r.one) p.seq_kv)
          | inl low ↦
              let no_values = Represents-none r e st.m (st.o d) (visible v) outputs low in
              let no_ones = Represents-none r e st.m st.l (visible λ j. r.one) sums low in
              rw (no_values.1, no_ones.1) (ap₂ (λ a l. r.times a (r.recip l)) no_values.0 no_ones.0)
        ]

    -- In exact arithmetic and where every score is finite, the tiled kernel stores what the naive kernels store
    -- for the same parameters, whatever the tile. The query has a visible key, and its row is among the blocks
    -- of the naive softmax.
    pub tiled_attn_kernel-naive_forward :
        (d k : ℕ)
        → d < p.head_dim
        → k < p.seq_kv
        → (p.causal && exceeds k (i0 + row) p.diagonal) ≡ false
        → (batch * p.num_heads + head) * p.seq_q + (i0 + row) < softmax_blocks p
        → tiled_attn_kernel r p mem block_m block_n batch head i0 row d
          ≡ naive_forward r p mem (flat p.num_heads p.seq_q p.head_dim batch head (i0 + row) d)
    tiled_attn_kernel-naive_forward d k below key shown block =
        let m = dot_scaled r p mem batch head (i0 + row) 0 in
        tiled_attn_kernel-blend d m (fin 0)
        ∙ sym (
            naive_forward-blend r e p mem batch head (i0 + row) h query fin d k m below key shown
              block (fin 0))
