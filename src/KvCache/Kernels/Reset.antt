-- ===== src/KvCache/Kernels/Reset.antt =====
-- `kv_reset_kernel` of src/kv_cache/kv_cache_kernels.cu, byte by byte.
use native.Mathlib.Nat.{mod-lt}
use sci_compute_attention.Base.{
  ℕ, zero, suc, ◌+◌, ◌*◌, ◌/◌, ◌%◌, ◌≤◌, ◌<◌, ◌≡◌, ◌≢◌, inl, inr, refl, sym, ap, ◌∙◌, Option, none,
  some, [], ◌∷◌, List, arith, ℤ, pos, negsuc, minus_one, get_or, set, Bool-cases, ◌==◌, ==→eq,
  ==→ne, lt→leb_false, get_or-set_ne, length, length-set,
}
use sci_compute_attention.Rows.Laws.{row_fits, row_parts, row_index_unique, div_lt}
use sci_compute_attention.KvCache.{KvCacheShape}
use sci_compute_attention.KvCache.Kernels.{
  kv_reset_kernel, reset_from, zero_byte, physical_block, bytes_per_block,
}

set_zero : (xs : List ℕ) (i : ℕ) → get_or (set xs i 0) i 0 ≡ 0
set_zero [] i = refl
set_zero (x ∷ xs) zero = refl
set_zero (x ∷ xs) (suc i) = set_zero xs i

zero_stays : (xs : List ℕ) (i j : ℕ) → get_or xs j 0 ≡ 0 → get_or (set xs i 0) j 0 ≡ 0
zero_stays xs i j h = elim (Bool-cases (i == j)) [
  | inl same ↦ let e = ==→eq i j same in rw e (set_zero xs j)
  | inr other ↦ get_or-set_ne xs i j 0 0 (==→ne i j other) ∙ h
]

module _ (shape : KvCacheShape) (eb : ℕ) (ids : List ℤ) where
  abbrev block_at : ℕ → Option ℕ
  block_at idx = physical_block shape (get_or ids (idx / bytes_per_block shape eb) minus_one)

  zero_byte_stays :
      (b : Option ℕ) (w o : ℕ) (layer : List ℕ) (j : ℕ)
      → get_or layer j 0 ≡ 0
      → get_or (zero_byte b w o layer) j 0 ≡ 0
  unfolding zero_byte
  zero_byte_stays none w o layer j h = h
  zero_byte_stays (some p) w o layer j h = zero_stays layer (p * w + o) j h

  reset_from_stays :
      (idx n : ℕ) (layer : List ℕ) (j : ℕ)
      → get_or layer j 0 ≡ 0
      → get_or (reset_from shape eb ids idx n layer) j 0 ≡ 0
  unfolding reset_from
  reset_from_stays idx zero layer j h = h
  reset_from_stays idx (suc n) layer j h =
      reset_from_stays (suc idx) n _ j (zero_byte_stays (block_at idx) _ _ layer j h)

  reset_from_zeroes :
      (idx n : ℕ) (layer : List ℕ) (k b : ℕ)
      → idx ≤ k
      → k < idx + n
      → block_at k ≡ some b
      → get_or
          (reset_from shape eb ids idx n layer)
          (b * bytes_per_block shape eb + k % bytes_per_block shape eb)
          0
        ≡ 0
  unfolding reset_from zero_byte
  reset_from_zeroes idx zero layer k b h l e = absurd (omega arith)
  reset_from_zeroes idx (suc n) layer k b h l e = elim (Bool-cases (idx == k)) [
    | inl same ↦
        let p = ==→eq idx k same in
        reset_from_stays (suc idx) n _ _ (rw (p, e, zero_byte) (set_zero layer _))
    | inr other ↦
        let q = ==→ne idx k other in
        reset_from_zeroes (suc idx) n _ k b (omega arith) (omega arith) e
  ]

  zero_byte_keeps :
      (c : Option ℕ) (w o : ℕ) (layer : List ℕ) (b x : ℕ)
      → c ≢ some b
      → o < w
      → x < w
      → get_or (zero_byte c w o layer) (b * w + x) 0 ≡ get_or layer (b * w + x) 0
  unfolding zero_byte
  zero_byte_keeps none w o layer b x ne ho hx = refl
  zero_byte_keeps (some p) w o layer b x ne ho hx =
      get_or-set_ne layer (p * w + o) (b * w + x) 0 0
        (λ e. ne (ap some (row_index_unique p b o x w ho hx e).0))

  reset_from_keeps :
      (idx n : ℕ) (layer : List ℕ) (b x : ℕ)
      → ((k : ℕ) → idx ≤ k → k < idx + n → block_at k ≢ some b)
      → x < bytes_per_block shape eb
      → get_or (reset_from shape eb ids idx n layer) (b * bytes_per_block shape eb + x) 0
        ≡ get_or layer (b * bytes_per_block shape eb + x) 0
  unfolding reset_from
  reset_from_keeps idx zero layer b x h hx = refl
  reset_from_keeps idx (suc n) layer b x h hx =
      reset_from_keeps (suc idx) n _ b x (λ k c d. h k (omega arith) (omega arith)) hx
      ∙ zero_byte_keeps (block_at idx) _ _ layer b x (h idx (omega arith) (omega arith))
          (mod-lt idx (omega arith)) hx

  physical_block_eq : (id : ℤ) (b : ℕ) → physical_block shape id ≡ some b → id ≡ pos b
  physical_block_eq (negsuc n) b e = absurd (cc)
  physical_block_eq (pos c) b e = ground arith

  -- `kv_reset_kernel` zeroes every byte of a block of the storage that is among the first
  -- `num_blocks` ids.
  pub kv_reset_zeroes :
      (num_blocks : ℕ) (layer : List ℕ) (i b x : ℕ)
      → i < num_blocks
      → get_or ids i minus_one ≡ pos b
      → b < shape.num_blocks
      → x < bytes_per_block shape eb
      → get_or (kv_reset_kernel shape eb ids num_blocks layer) (b * bytes_per_block shape eb + x) 0
        ≡ 0
  unfolding kv_reset_kernel
  kv_reset_zeroes num_blocks layer i b x hi e hb hx =
      let w = bytes_per_block shape eb in
      let parts = row_parts i x w hx in
      let here : block_at (i * w + x) ≡ some b =
        rw (parts.0, e) (ground (arith, lt→leb_false b shape.num_blocks hb)) in
      ap (λ o. get_or (kv_reset_kernel shape eb ids num_blocks layer) (b * w + o) 0) (sym parts.1)
      ∙ reset_from_zeroes 0 (num_blocks * w) layer (i * w + x) b (omega arith)
          (omega (arith, row_fits i num_blocks w hi)) here

  -- It leaves every byte of a block that is not among them as it was.
  pub kv_reset_keeps :
      (num_blocks : ℕ) (layer : List ℕ) (b x : ℕ)
      → ((i : ℕ) → i < num_blocks → get_or ids i minus_one ≢ pos b)
      → x < bytes_per_block shape eb
      → get_or (kv_reset_kernel shape eb ids num_blocks layer) (b * bytes_per_block shape eb + x) 0
        ≡ get_or layer (b * bytes_per_block shape eb + x) 0
  unfolding kv_reset_kernel
  kv_reset_keeps num_blocks layer b x unnamed hx =
      reset_from_keeps 0 (num_blocks * bytes_per_block shape eb) layer b x
        (λ k _ below e.
          unnamed (k / bytes_per_block shape eb)
            (div_lt k (bytes_per_block shape eb) num_blocks (omega arith))
            (physical_block_eq _ b e))
        hx

length-zero_byte :
    (b : Option ℕ) (w o : ℕ) (layer : List ℕ) → length (zero_byte b w o layer) ≡ length layer
unfolding zero_byte
length-zero_byte none w o layer = refl
length-zero_byte (some p) w o layer = length-set layer (p * w + o) 0

length-reset_from :
    (shape : KvCacheShape) (eb : ℕ) (ids : List ℤ) (idx n : ℕ) (layer : List ℕ)
    → length (reset_from shape eb ids idx n layer) ≡ length layer
unfolding reset_from
length-reset_from shape eb ids idx zero layer = refl
length-reset_from shape eb ids idx (suc n) layer =
    length-reset_from shape eb ids (suc idx) n _
    ∙ length-zero_byte (block_at shape eb ids idx) _ _ layer

pub length-kv_reset_kernel :
    (shape : KvCacheShape) (eb : ℕ) (ids : List ℤ) (n : ℕ) (layer : List ℕ)
    → length (kv_reset_kernel shape eb ids n layer) ≡ length layer
unfolding kv_reset_kernel
length-kv_reset_kernel shape eb ids n layer =
    length-reset_from shape eb ids 0 (n * bytes_per_block shape eb) layer
