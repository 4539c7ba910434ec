-- ===== src/Backends/Decode/Kernel/Exact.antt =====
-- The split-K kernels against the softmax over all tokens at once.
use sci_compute_attention.Base.{
  ℕ, zero, suc, ◌+◌, ◌-◌, ◌*◌, ◌/◌, ◌%◌, ◌<◌, ◌≡◌, ◌∙◌, inl, inr, refl, sym, ap, ap₂, subst, min,
  true, false, List, [], ◌++◌, arith, Bool-cases, leb,
}
use sci_compute_attention.Backends.{DecodeFwdParams}
use sci_compute_attention.Backends.Decode.Splits.{
  chunk, chunk_covers, split_begin, split_end, warp_of, warp_of_lem, div_lem, mod_lem, split_range,
}
use sci_compute_attention.Backends.Decode.Softmax.{
  Arithmetic, IsExact, blend, AllFinite, Represents, nothing, blend-recip,
}
use sci_compute_attention.Backends.Decode.Kernel.{
  Memory, Partial, start, absorb, value, seq_len_of, decode_partial_kernel, max_loop, sum_loop,
  decode_reduce_kernel, decode_split_k,
}
use sci_compute_attention.Backends.Decode.Kernel.Laws.{
  scored, scored-append, FiniteScores, Tracks, AllFinite-scored, partial_loop-Represents,
}
use sci_compute_attention.Backends.Decode.Kernel.Merge.{
  concat_from, max_loop_finite, sum_loop-blend, concat_empty,
}

module _ {F : Type 0} (r : Arithmetic F) (e : IsExact r) (p : DecodeFwdParams) (mem : Memory F)
    (b h : ℕ) (head : h < p.num_heads) (some_splits : 0 < p.num_splits)
    (fin : FiniteScores r p mem b h) where
  abbrev len : ℕ
  len = seq_len_of p b

  -- The tokens of a split, and those of all splits.
  abbrev split_tokens : (ℕ → F) → ℕ → List (F × F)
  split_tokens x s =
      scored r p mem b h x (split_end len p.num_splits s - split_begin len p.num_splits s)
        (split_begin len p.num_splits s)

  abbrev count_from : ℕ → ℕ → ℕ
  count_from n s = min (n * chunk len p.num_splits) (len - s * chunk len p.num_splits)

  split_tokens-concat :
      (x : ℕ → F) (n s : ℕ)
      → concat_from (split_tokens x) n s
        ≡ scored r p mem b h x (count_from n s) (s * chunk len p.num_splits)
  unfolding scored
  split_tokens-concat x zero s =
      let none_left : count_from 0 s ≡ 0 = ground arith in
      ap (λ k. scored r p mem b h x k (s * chunk len p.num_splits)) (sym none_left)
  split_tokens-concat x (suc n) s =
      let c = chunk len p.num_splits in
      let (starts, counts) = split_range len p.num_splits s in
      let step : suc s * c ≡ s * c + c = grind arith in
      let rounds : suc n * c ≡ n * c + c = grind arith in
      let mine : split_tokens x s ≡ scored r p mem b h x (min c (len - s * c)) (s * c) =
        ap₂ (scored r p mem b h x) counts starts in
      let rest : concat_from (split_tokens x) n (suc s)
          ≡ scored r p mem b h x (count_from n (suc s)) (s * c + min c (len - s * c)) =
        split_tokens-concat x n (suc s) ∙ moved x n s in
      let total : min c (len - s * c) + count_from n (suc s) ≡ count_from (suc n) s =
        ground (arith, step, rounds) in
      ap₂ ◌++◌ mine rest
      ∙ sym (scored-append r p mem b h x (min c (len - s * c)) (count_from n (suc s)) (s * c))
      ∙ ap (λ k. scored r p mem b h x k (s * c)) total
    where
      moved :
          (x : ℕ → F) (n s : ℕ)
          → scored r p mem b h x (count_from n (suc s)) (suc s * chunk len p.num_splits)
            ≡ scored r p mem b h x (count_from n (suc s)) (
                s * chunk len p.num_splits
                + min (chunk len p.num_splits) (len - s * chunk len p.num_splits))
      moved x n s =
          let c = chunk len p.num_splits in
          let step : suc s * c ≡ s * c + c = grind arith in
          elim (Bool-cases (leb c (len - s * c))) [
            | inl whole ↦
                let same : suc s * c ≡ s * c + min c (len - s * c) = ground (arith, step, whole) in
                ap (scored r p mem b h x (count_from n (suc s))) same
            | inr short ↦
                let none_left : count_from n (suc s) ≡ 0 = ground (arith, step, short) in
                rw none_left refl
          ]

  -- The ranges of the splits are all tokens, in order.
  split_tokens_all :
      (x : ℕ → F) → concat_from (split_tokens x) p.num_splits 0 ≡ scored r p mem b h x len 0
  split_tokens_all x =
      let covers = chunk_covers len p.num_splits some_splits in
      let all : count_from p.num_splits 0 ≡ len = ground (arith, covers) in
      split_tokens-concat x p.num_splits 0 ∙ ap₂ (scored r p mem b h x) all (omega arith)

  -- What the warp of a split stores.
  warp_result :
      (component : Partial r → F) (x : ℕ → F)
      → Tracks r p mem b h component x
      → component (start r) ≡ r.nought
      → (s : ℕ) → s < p.num_splits
      → Represents r
          (decode_partial_kernel r p mem (warp_of p.num_splits p.num_heads b h s)).m
          (component (decode_partial_kernel r p mem (warp_of p.num_splits p.num_heads b h s)))
          (split_tokens x s)
  unfolding decode_partial_kernel
  warp_result component x tracks zero_start s hs =
      let (same_split, same_head, same_batch) =
        warp_of_lem p.num_splits p.num_heads b h s hs head in
      rw (decode_partial_kernel, same_split, same_head, same_batch)
        (partial_loop-Represents r p mem b h e fin component x tracks _ _ (start r) [] tt
          (nothing r.neg_inf _ refl zero_start))

  abbrev base : ℕ
  base = (b * p.num_heads + h) * p.num_splits

  abbrev stored_m : ℕ → F
  stored_m i = (decode_partial_kernel r p mem i).m

  abbrev m_all : F
  m_all = max_loop r stored_m base p.num_splits 0 r.neg_inf

  -- A finite maximum of a split makes that of all splits finite.
  m_all_finite :
      (i : ℕ)
      → i < p.num_splits
      → r.is_neg_inf (stored_m (base + i)) ≡ false
      → r.is_neg_inf m_all ≡ false
  m_all_finite i below finite =
      max_loop_finite r e stored_m base p.num_splits 0 i r.neg_inf (omega arith) (omega arith)
        finite

  module _ (component : Partial r → F) (x part : ℕ → F) (tracks : Tracks r p mem b h component x)
      (zero_start : component (start r) ≡ r.nought)
      (reads : (i : ℕ) → part i ≡ component (decode_partial_kernel r p mem i)) where
    stored_rep :
        (i : ℕ)
        → i < p.num_splits
        → Represents r (stored_m (base + i)) (part (base + i)) (split_tokens x i)
    stored_rep i below =
        subst (λ a. Represents r (stored_m (base + i)) a (split_tokens x i))
          (sym (reads (base + i))) (warp_result component x tracks zero_start i below)

    stored_finite : (i : ℕ) → AllFinite r (split_tokens x i)
    stored_finite i = AllFinite-scored r p mem b h fin x _ _

    -- The merged component is the weighted sum over all tokens.
    merged_result :
        sum_loop r stored_m part m_all base p.num_splits 0 r.nought
        ≡ blend r m_all (scored r p mem b h x len 0)
    merged_result =
        sum_loop-blend r e stored_m base part m_all (split_tokens x) p.num_splits stored_rep
          stored_finite m_all_finite p.num_splits 0 r.nought (omega arith)
        ∙ e.nought_plus (blend r m_all (concat_from (split_tokens x) p.num_splits 0))
        ∙ ap (blend r m_all) (split_tokens_all x)

    no_tokens : r.is_neg_inf m_all ≡ true → scored r p mem b h x len 0 ≡ []
    no_tokens none_finite =
        sym (split_tokens_all x)
        ∙ concat_empty r e stored_m base part m_all (split_tokens x) p.num_splits stored_rep
            stored_finite m_all_finite p.num_splits 0 (omega arith) none_finite

  Tracks-output : (d : ℕ) → Tracks r p mem b h (λ st. st.o d) (λ row. value r p mem b h row d)
  unfolding absorb
  Tracks-output d st row = refl

  Tracks-sum : Tracks r p mem b h (λ st. st.l) (λ row. r.one)
  unfolding absorb
  Tracks-sum st row = ap (r.plus _) (sym (e.times_one _))

  reads_output :
      (d : ℕ)
      → d < p.head_dim
      → (i : ℕ)
      → (decode_partial_kernel r p mem ((i * p.head_dim + d) / p.head_dim)).o
          ((i * p.head_dim + d) % p.head_dim)
        ≡ (decode_partial_kernel r p mem i).o d
  reads_output d below i =
      ap₂ (λ w c. (decode_partial_kernel r p mem w).o c) (div_lem i p.head_dim d below)
        (mod_lem i p.head_dim d below)

  -- In exact arithmetic and where every score is finite, the two kernels store for every head and element
  -- the softmax average of V over the mapped tokens of the whole sequence, whatever number is subtracted in
  -- the exponent and however many splits there are.
  pub decode_split_k-blend :
      (d : ℕ) (m : F)
      → d < p.head_dim
      → r.is_neg_inf m ≡ false
      → decode_split_k r p mem (b * p.num_heads + h) d
        ≡ r.times
            (blend r m (scored r p mem b h (λ row. value r p mem b h row d) len 0))
            (r.recip (blend r m (scored r p mem b h (λ row. r.one) len 0)))
  unfolding decode_split_k decode_reduce_kernel
  decode_split_k-blend d m below finite =
      let xs = scored r p mem b h (λ row. value r p mem b h row d) len 0 in
      let ones = scored r p mem b h (λ row. r.one) len 0 in
      let average = λ (n : F). r.times (blend r n xs) (r.recip (blend r n ones)) in
      let stored_o = λ (i : ℕ).
        (decode_partial_kernel r p mem ((i * p.head_dim + d) / p.head_dim)).o
          ((i * p.head_dim + d) % p.head_dim) in
      let outputs =
        merged_result (λ st. st.o d) (λ row. value r p mem b h row d) stored_o (Tracks-output d)
          refl (reads_output d below) in
      let sums =
        merged_result (λ st. st.l) (λ row. r.one) (λ i. (decode_partial_kernel r p mem i).l)
          Tracks-sum refl (λ i. refl) in
      let same : average m_all ≡ average m = elim (Bool-cases (r.is_neg_inf m_all)) [
        | inr some_finite ↦
            blend-recip r e m m_all xs ones finite some_finite
              (AllFinite-scored r p mem b h fin _ _ _) (AllFinite-scored r p mem b h fin _ _ _)
        | inl none_finite ↦
            let no_values =
              no_tokens (λ st. st.o d) (λ row. value r p mem b h row d) stored_o (Tracks-output d)
                refl (reads_output d below) none_finite in
            let no_ones =
              no_tokens (λ st. st.l) (λ row. r.one) (λ i. (decode_partial_kernel r p mem i).l)
                Tracks-sum refl (λ i. refl) none_finite in
            rw (no_values, no_ones) refl
      ] in
      ap₂ (λ a l. r.times a (r.recip l)) outputs sums ∙ same
