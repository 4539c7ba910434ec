-- ===== src/Rows/Laws.antt =====
-- The loops of Rows, seen from the row that they are given and from the other rows.
use native.Mathlib.Decide.{dec_lt}
use native.Mathlib.Nat.{add-zero, mod-lt, mul_comm, div-add-mod}
use sci_compute_attention.Base.{
  ◌*◌, ◌/◌, ◌%◌, ℕ, zero, suc, ◌+◌, ◌≤◌, ◌<◌, ◌≡◌, ◌≢◌, ◌⊎◌, inl, inr, refl, ap, ap₂, ◌∙◌, List, [],
  ◌∷◌, ◌++◌, map, arith, ℤ, pos, minus_one, length, get_or, set, length-set, get_or-set_self,
  get_or-set_ne,
}
use sci_compute_attention.Rows.{row_of, write_row, clear_row, used_slots, filled_slots}

pub length-write_row :
    (host : List ℤ) (start : ℕ) (ids : List ℤ) → length (write_row host start ids) ≡ length host
unfolding write_row
length-write_row host start [] = refl
length-write_row host start (id ∷ ids) =
    length-write_row (set host start id) (suc start) ids ∙ length-set host start id

pub length-clear_row : (host : List ℤ) (start n : ℕ) → length (clear_row host start n) ≡ length host
unfolding clear_row
length-clear_row host start zero = refl
length-clear_row host start (suc n) =
    length-clear_row (set host start minus_one) (suc start) n ∙ length-set host start minus_one

write_row_outside :
    (host : List ℤ) (start : ℕ) (ids : List ℤ) (j : ℕ) (d : ℤ)
    → (j < start) ⊎ (start + length ids ≤ j)
    → get_or (write_row host start ids) j d ≡ get_or host j d
unfolding write_row
write_row_outside host start [] j d h = refl
write_row_outside host start (id ∷ ids) j d h =
    write_row_outside (set host start id) (suc start) ids j d (omega arith)
    ∙ get_or-set_ne host start j id d (omega arith)

clear_row_outside :
    (host : List ℤ) (start n j : ℕ) (d : ℤ)
    → (j < start) ⊎ (start + n ≤ j)
    → get_or (clear_row host start n) j d ≡ get_or host j d
unfolding clear_row
clear_row_outside host start zero j d h = refl
clear_row_outside host start (suc n) j d h =
    clear_row_outside (set host start minus_one) (suc start) n j d (omega arith)
    ∙ get_or-set_ne host start j minus_one d (omega arith)

row_of-eq :
    (xs ys : List ℤ) (start n : ℕ)
    → ((j : ℕ) → start ≤ j → j < start + n → get_or xs j minus_one ≡ get_or ys j minus_one)
    → row_of xs start n ≡ row_of ys start n
unfolding row_of
row_of-eq xs ys start zero h = refl
row_of-eq xs ys start (suc n) h =
    ap₂ ◌∷◌ (h start (omega arith) (omega arith))
      (row_of-eq xs ys (suc start) n (λ j a b. h j (omega arith) (omega arith)))

-- A row that does not meet the entries written stays as it is.
pub row_of-write_row_other :
    (host : List ℤ) (start : ℕ) (ids : List ℤ) (other n : ℕ)
    → (other + n ≤ start) ⊎ (start + length ids ≤ other)
    → row_of (write_row host start ids) other n ≡ row_of host other n
row_of-write_row_other host start ids other n h =
    row_of-eq _ _ other n (λ j a b. write_row_outside host start ids j minus_one (omega arith))

pub row_of-clear_row_other :
    (host : List ℤ) (start k other n : ℕ)
    → (other + n ≤ start) ⊎ (start + k ≤ other)
    → row_of (clear_row host start k) other n ≡ row_of host other n
row_of-clear_row_other host start k other n h =
    row_of-eq _ _ other n (λ j a b. clear_row_outside host start k j minus_one (omega arith))

-- A row of `n` entries that begins with `ids` and is empty behind them.
abbrev pub padded : ℕ → List ℕ → List ℤ
padded zero ids = []
padded (suc n) [] = minus_one ∷ padded n []
padded (suc n) (id ∷ ids) = pos id ∷ padded n ids

tail_eq : (x y : ℤ) (xs ys : List ℤ) → x ∷ xs ≡ y ∷ ys → xs ≡ ys
tail_eq x y xs ys e = cc

head_eq : (x y : ℤ) (xs ys : List ℤ) → x ∷ xs ≡ y ∷ ys → x ≡ y
head_eq x y xs ys e = cc

row_of-set_before :
    (host : List ℤ) (start : ℕ) (v : ℤ) (n : ℕ)
    → row_of (set host start v) (suc start) n ≡ row_of host (suc start) n
row_of-set_before host start v n =
    row_of-eq _ _ (suc start) n (λ j a b. get_or-set_ne host start j v minus_one (omega arith))

-- Writing ids over an empty row.
pub row_of-write_row :
    (host : List ℤ) (start n : ℕ) (ids : List ℕ)
    → length ids ≤ n
    → start + n ≤ length host
    → row_of host start n ≡ padded n []
    → row_of (write_row host start (map pos ids)) start n ≡ padded n ids
unfolding row_of write_row
row_of-write_row host start zero [] h b e = refl
row_of-write_row host start zero (id ∷ ids) h b e = absurd (omega arith)
row_of-write_row host start (suc n) [] h b e = e
row_of-write_row host start (suc n) (id ∷ ids) h b e =
    ap₂ ◌∷◌
      (write_row_outside (set host start (pos id)) (suc start) (map pos ids) start minus_one
          (inl (omega arith))
        ∙ get_or-set_self host start (pos id) minus_one (omega arith))
      (row_of-write_row (set host start (pos id)) (suc start) n ids (omega arith)
        (omega (arith, length-set host start (pos id)))
        (row_of-set_before host start (pos id) n ∙ tail_eq _ _ _ _ e))

-- Writing `new` behind the `old` ids of a row.
pub row_of-append_row :
    (host : List ℤ) (start n : ℕ) (old new : List ℕ)
    → length old + length new ≤ n
    → start + n ≤ length host
    → row_of host start n ≡ padded n old
    → row_of (write_row host (start + length old) (map pos new)) start n ≡ padded n (old ++ new)
unfolding row_of
row_of-append_row host start n [] new h b e =
    rw add-zero (row_of-write_row host start n new (omega arith) b e)
row_of-append_row host start zero (id ∷ old) new h b e = absurd (omega arith)
row_of-append_row host start (suc n) (id ∷ old) new h b e =
    ap₂ ◌∷◌
      (write_row_outside host (start + suc (length old)) (map pos new) start minus_one
          (inl (omega arith))
        ∙ head_eq _ _ _ _ e)
      (ap (λ k. row_of (write_row host k (map pos new)) (suc start) n) shift
        ∙ row_of-append_row host (suc start) n old new (omega arith) (omega arith)
            (tail_eq _ _ _ _ e))
  where
    shift : start + suc (length old) ≡ suc start + length old
    shift = omega arith

pub row_of-clear_row :
    (host : List ℤ) (start n : ℕ)
    → start + n ≤ length host
    → row_of (clear_row host start n) start n ≡ padded n []
unfolding row_of clear_row
row_of-clear_row host start zero h = refl
row_of-clear_row host start (suc n) h =
    ap₂ ◌∷◌
      (clear_row_outside (set host start minus_one) (suc start) n start minus_one (omega arith)
        ∙ get_or-set_self host start minus_one minus_one (omega arith))
      (row_of-clear_row (set host start minus_one) (suc start) n
        (omega (arith, length-set host start minus_one)))

-- On a row that holds `ids` both loops count them, and the first entries are the ids.
pub used_slots-padded :
    (host : List ℤ) (start n : ℕ) (ids : List ℕ)
    → length ids ≤ n
    → row_of host start n ≡ padded n ids
    → used_slots host start n ≡ length ids
unfolding row_of used_slots
used_slots-padded host start zero [] h e = refl
used_slots-padded host start zero (id ∷ ids) h e = absurd (omega arith)
used_slots-padded host start (suc n) [] h e = rw (head_eq _ _ _ _ e)
used_slots-padded host start (suc n) (id ∷ ids) h e =
    rw (head_eq _ _ _ _ e)
      (ap suc (used_slots-padded host (suc start) n ids (omega arith) (tail_eq _ _ _ _ e)))

pub filled_slots-padded :
    (host : List ℤ) (start n : ℕ) (ids : List ℕ)
    → length ids ≤ n
    → row_of host start n ≡ padded n ids
    → filled_slots host start n ≡ length ids
unfolding row_of filled_slots
filled_slots-padded host start zero [] h e = refl
filled_slots-padded host start zero (id ∷ ids) h e = absurd (omega arith)
filled_slots-padded host start (suc n) [] h e =
    rw (head_eq _ _ _ _ e)
      (omega (arith, filled_slots-padded host (suc start) n [] (omega arith) (tail_eq _ _ _ _ e)))
filled_slots-padded host start (suc n) (id ∷ ids) h e =
    rw (head_eq _ _ _ _ e)
      (omega (arith, filled_slots-padded host (suc start) n ids (omega arith) (tail_eq _ _ _ _ e)))

pub row_of_head :
    (host : List ℤ) (start n : ℕ) (ids : List ℕ)
    → length ids ≤ n
    → row_of host start n ≡ padded n ids
    → row_of host start (length ids) ≡ map pos ids
unfolding row_of
row_of_head host start n [] h e = refl
row_of_head host start zero (id ∷ ids) h e = absurd (omega arith)
row_of_head host start (suc n) (id ∷ ids) h e =
    ap₂ ◌∷◌ (head_eq _ _ _ _ e)
      (row_of_head host (suc start) n ids (omega arith) (tail_eq _ _ _ _ e))

-- The entry of a row at an index.
pub get_or-row_of :
    (host : List ℤ) (start n i : ℕ)
    → i < n
    → get_or (row_of host start n) i minus_one ≡ get_or host (start + i) minus_one
unfolding row_of
get_or-row_of host start zero i h = elim h [ ]
get_or-row_of host start (suc n) zero h = rw add-zero
get_or-row_of host start (suc n) (suc i) h =
    get_or-row_of host (suc start) n i (omega arith)
    ∙ ap (λ j. get_or host j minus_one) (omega arith)

pub get_or-padded :
    (n i : ℕ) (ids : List ℕ) (d : ℕ)
    → i < length ids
    → i < n
    → get_or (padded n ids) i minus_one ≡ pos (get_or ids i d)
get_or-padded zero i ids d h k = elim k [ ]
get_or-padded (suc n) i [] d h k = elim h [ ]
get_or-padded (suc n) zero (id ∷ ids) d h k = refl
get_or-padded (suc n) (suc i) (id ∷ ids) d h k = get_or-padded n i ids d (omega arith) (omega arith)

row_le : (s t w : ℕ) → t < s → t * w + w ≤ s * w
row_le s t w h = grind arith

-- Two rows are one, or lie one before the other.
pub row_bounds_cases : (s t w : ℕ) → (s ≡ t) ⊎ ((s * w + w ≤ t * w) ⊎ (t * w + w ≤ s * w))
row_bounds_cases s t w = elim (dec_lt s t) [
  | yes lt ↦ inr (inl (row_le t s w lt))
  | no ge ↦ elim (dec_lt t s) [ yes gt ↦ inr (inr (row_le s t w gt)) | no le ↦ inl (omega arith) ]
]

-- Row and column are unique.
pub row_index_unique : (b c x y s : ℕ) → x < s → y < s → b * s + x ≡ c * s + y → (b ≡ c) × (x ≡ y)
row_index_unique b c x y s hx hy e = elim (row_bounds_cases b c s) [
  | inl same ↦ (same, cancel same)
  | inr (inl less) ↦ absurd (omega arith)
  | inr (inr more) ↦ absurd (omega arith)
]
  where
    cancel : b ≡ c → x ≡ y
    cancel p = let q = ap (λ k. k * s) p in omega arith

pub div_lt : (k w n : ℕ) → k < n * w → k / w < n
div_lt k w n h = grind arith

-- The row and the column of an index.
pub row_parts : (t h w : ℕ) → h < w → ((t * w + h) / w ≡ t) × ((t * w + h) % w ≡ h)
row_parts t h w lt =
    row_index_unique ((t * w + h) / w) t ((t * w + h) % w) h w (mod-lt (t * w + h) (omega arith)) lt
      (rw (mul_comm ((t * w + h) / w) w) (div-add-mod (t * w + h) w))

-- Rows of a table do not meet.
pub row_bounds : (s t w : ℕ) → s ≢ t → (s * w + w ≤ t * w) ⊎ (t * w + w ≤ s * w)
row_bounds s t w ne = elim (row_bounds_cases s t w) [
  | inl same ↦ absurd (ne same)
  | inr apart ↦ apart
]

pub row_fits : (s n w : ℕ) → s < n → s * w + w ≤ n * w
row_fits s n w h = row_le n s w h
