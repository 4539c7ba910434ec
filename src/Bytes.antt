-- ===== src/Bytes.antt =====
-- Device buffers as lists of bytes, and the copy loop of src/kv_cache/kv_cache_kernels.cu. A read out
-- of bounds gives 0, a write there does nothing.
use sci_compute_attention.Base.{
  ℕ, zero, suc, ◌+◌, ◌≤◌, ◌<◌, ◌≡◌, ◌⊎◌, inl, refl, ap₂, ◌∙◌, List, [], ◌∷◌, arith, length, get_or,
  set, length-set, get_or-set_self, get_or-set_ne,
}

-- `buffer[start], …, buffer[start + n - 1]`
unfoldable pub read : List ℕ → ℕ → ℕ → List ℕ
read buffer start zero = []
read buffer start (suc n) = get_or buffer start 0 ∷ read buffer (suc start) n

-- `for (b = 0; b < n; ++b) dst[to + b] = src[from + b];`
unfoldable pub copy : List ℕ → ℕ → List ℕ → ℕ → ℕ → List ℕ
copy src from dst to zero = dst
copy src from dst to (suc n) = copy src (suc from) (set dst to (get_or src from 0)) (suc to) n

pub length-copy :
    (src : List ℕ) (from : ℕ) (dst : List ℕ) (to n : ℕ)
    → length (copy src from dst to n) ≡ length dst
unfolding copy
length-copy src from dst to zero = refl
length-copy src from dst to (suc n) =
    length-copy src (suc from) (set dst to (get_or src from 0)) (suc to) n
    ∙ length-set dst to (get_or src from 0)

copy_outside :
    (src : List ℕ) (from : ℕ) (dst : List ℕ) (to n j : ℕ)
    → (j < to) ⊎ (to + n ≤ j)
    → get_or (copy src from dst to n) j 0 ≡ get_or dst j 0
unfolding copy
copy_outside src from dst to zero j h = refl
copy_outside src from dst to (suc n) j h =
    copy_outside src (suc from) (set dst to (get_or src from 0)) (suc to) n j (omega arith)
    ∙ get_or-set_ne dst to j (get_or src from 0) 0 (omega arith)

pub read-eq :
    (xs ys : List ℕ) (start n : ℕ)
    → ((j : ℕ) → start ≤ j → j < start + n → get_or xs j 0 ≡ get_or ys j 0)
    → read xs start n ≡ read ys start n
unfolding read
read-eq xs ys start zero h = refl
read-eq xs ys start (suc n) h =
    ap₂ ◌∷◌ (h start (omega arith) (omega arith))
      (read-eq xs ys (suc start) n (λ j a b. h j (omega arith) (omega arith)))

pub read-copy_other :
    (src : List ℕ) (from : ℕ) (dst : List ℕ) (to n start k : ℕ)
    → (start + k ≤ to) ⊎ (to + n ≤ start)
    → read (copy src from dst to n) start k ≡ read dst start k
read-copy_other src from dst to n start k h =
    read-eq _ _ start k (λ j a b. copy_outside src from dst to n j (omega arith))

pub read-copy :
    (src : List ℕ) (from : ℕ) (dst : List ℕ) (to n : ℕ)
    → to + n ≤ length dst
    → read (copy src from dst to n) to n ≡ read src from n
unfolding read copy
read-copy src from dst to zero h = refl
read-copy src from dst to (suc n) h =
    let dst' = set dst to (get_or src from 0) in
    ap₂ ◌∷◌
      (copy_outside src (suc from) dst' (suc to) n to (inl (omega arith))
        ∙ get_or-set_self dst to (get_or src from 0) 0 (omega arith))
      (read-copy src (suc from) dst' (suc to) n
        (omega (arith, length-set dst to (get_or src from 0))))
