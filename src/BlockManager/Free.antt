-- ===== src/BlockManager/Free.antt =====
-- `BlockManager::Free` of src/kv_cache/block_manager.cpp, one id at a time.
use sci_compute_attention.Base.{
  ℕ, zero, suc, ◌+◌, ◌≤◌, ◌≡◌, refl, ap, sym, Bool, true, false, Option, none, some, List, [], ◌∷◌,
  arith, ℤ, pos, negsuc, leb, ◌==◌, if◌then◌else◌, length, get_elem?, get_or, set, length-set,
  get_elem?-set, Bool-cases, ==→eq, leb→le, inl, inr, ◌||◌,
}
use sci_compute_attention.BlockManager.{BlockManager, count_double_free, free_block, free_blocks}
use sci_compute_attention.BlockManager.Invariant.{
  IsValid, num_marked-set-false, FreeListMatches-push,
}

get_elem?_of_get_or :
    (us : List Bool) (b : ℕ) → get_or us b false ≡ true → get_elem? us b ≡ some true
get_elem?_of_get_or [] b h = ground arith
get_elem?_of_get_or (u ∷ us) zero h = ap some h
get_elem?_of_get_or (u ∷ us) (suc b) h = get_elem?_of_get_or us b h

count_double_free-IsValid : (m : BlockManager) → IsValid m → IsValid (count_double_free m)
unfolding count_double_free
count_double_free-IsValid m v = record {
  sized = v.sized;
  matches = v.matches;
  all_counted = v.all_counted;
}

release-IsValid :
    (b : ℕ) (m : BlockManager)
    → get_elem? m.in_use b ≡ some true
    → IsValid m
    → IsValid (record m { free_list = b ∷ m.free_list; in_use = set m.in_use b false })
release-IsValid b m e v =
    let sized = v.sized in
    let all = v.all_counted in
    record {
      sized = omega (arith, length-set m.in_use b false);
      matches = FreeListMatches-push b m.free_list m.in_use e v.matches;
      all_counted = omega (arith, num_marked-set-false m.in_use b e);
    }

pub free_block-IsValid : (id : ℤ) (m : BlockManager) → IsValid m → IsValid (free_block id m)
unfolding free_block
free_block-IsValid (negsuc n) m v = count_double_free-IsValid m v
free_block-IsValid (pos b) m v = elim (Bool-cases (leb m.num_blocks b)) [
  | inl out ↦ rw out (count_double_free-IsValid m v)
  | inr within ↦ elim (Bool-cases (get_or m.in_use b false)) [
    | inl marked ↦
        rw (within, marked) (release-IsValid b m (get_elem?_of_get_or m.in_use b marked) v)
    | inr unmarked ↦ rw (within, unmarked) (count_double_free-IsValid m v)
  ]
]

pub free_blocks-IsValid :
    (ids : List ℤ) (m : BlockManager) → IsValid m → IsValid (free_blocks ids m)
unfolding free_blocks
free_blocks-IsValid [] m v = v
free_blocks-IsValid (id ∷ ids) m v =
    free_blocks-IsValid ids (free_block id m) (free_block-IsValid id m v)

-- Is the block among the ids?
abbrev pub is_id : ℤ → ℕ → Bool
is_id (pos n) b = n == b
is_id (negsuc n) b = false

abbrev pub mentions : List ℤ → ℕ → Bool
mentions [] b = false
mentions (id ∷ ids) b = is_id id b || mentions ids b

-- The mark of a block that is released.
abbrev pub released : Option Bool → Option Bool
released none = none
released (some u) = some false

released_unmarked :
    (us : List Bool) (b : ℕ)
    → get_or us b false ≡ false
    → released (get_elem? us b) ≡ get_elem? us b
released_unmarked [] b h = refl
released_unmarked (u ∷ us) zero h = ap some (sym h)
released_unmarked (u ∷ us) (suc b) h = released_unmarked us b h

get_or_beyond : (us : List Bool) (b : ℕ) → length us ≤ b → get_or us b false ≡ false
get_or_beyond [] b h = refl
get_or_beyond (u ∷ us) zero h = absurd (omega arith)
get_or_beyond (u ∷ us) (suc b) h = get_or_beyond us b (omega arith)

-- A round that finds the block unmarked changes no mark, and `released` says the same.
unchanged_mark :
    (us : List Bool) (a b : ℕ)
    → get_or us a false ≡ false
    → get_elem? us b ≡ (if a == b then released (get_elem? us b) else get_elem? us b)
unchanged_mark us a b h = elim (Bool-cases (a == b)) [
  | inl same ↦ rw (same, released_unmarked us b (rw (← ==→eq a b same) h))
  | inr other ↦ rw other
]

pub free_block_mark :
    (id : ℤ) (m : BlockManager) (b : ℕ)
    → IsValid m
    → get_elem? (free_block id m).in_use b
      ≡ (if is_id id b then released (get_elem? m.in_use b) else get_elem? m.in_use b)
unfolding free_block count_double_free
free_block_mark (negsuc n) m b v = refl
free_block_mark (pos a) m b v = elim (Bool-cases (leb m.num_blocks a)) [
  | inl out ↦
      let sized = v.sized in
      let le = leb→le m.num_blocks a out in
      rw out (unchanged_mark m.in_use a b (get_or_beyond m.in_use a (omega arith)))
  | inr within ↦ elim (Bool-cases (get_or m.in_use a false)) [
    | inl marked ↦
        let e = get_elem?_of_get_or m.in_use a marked in
        rw (within, marked) (ground (arith, e, get_elem?-set m.in_use a b true false e))
    | inr unmarked ↦ rw (within, unmarked) (unchanged_mark m.in_use a b unmarked)
  ]
]

pub free_block_events :
    (id : ℤ) (m : BlockManager)
    → length (free_block id m).free_list + (free_block id m).double_free_events
      ≡ length m.free_list + m.double_free_events + 1
unfolding free_block count_double_free
free_block_events (negsuc n) m = omega arith
free_block_events (pos a) m = ground arith

pub free_block_frame :
    (id : ℤ) (m : BlockManager)
    → ((free_block id m).table ≡ m.table)
      × ((free_block id m).num_blocks ≡ m.num_blocks)
      × ((free_block id m).allocation_failures ≡ m.allocation_failures)
unfolding free_block count_double_free
free_block_frame (negsuc n) m = (refl, refl, refl)
free_block_frame (pos a) m = ground arith
