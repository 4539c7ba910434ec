-- ===== src/BlockManager/Invariant.antt =====
-- The invariant of the allocator (src/kv_cache/block_manager.cpp): the free list and the marks of
-- `in_use_` say the same.
use sci_compute_attention.Base.{
  ℕ, zero, suc, ◌+◌, ◌≡◌, refl, Bool, true, false, Option, none, some, List, [], ◌∷◌, arith, length,
  get_elem?, set, count, get_elem?-set,
}
use sci_compute_attention.BlockManager.{BlockManager}

-- How often a block with this mark has to stand in the free list.
abbrev pub free_weight : Option Bool → ℕ
free_weight none = 0
free_weight (some true) = 0
free_weight (some false) = 1

-- Every block below `num_blocks` that is not in use stands in the free list once, and nothing else
-- stands there.
abbrev pub FreeListMatches : List ℕ → List Bool → Type 0
FreeListMatches free in_use = (b : ℕ) → count b free ≡ free_weight (get_elem? in_use b)

-- The number of blocks that are marked.
abbrev pub num_marked : List Bool → ℕ
num_marked [] = 0
num_marked (true ∷ us) = suc (num_marked us)
num_marked (false ∷ us) = num_marked us

pub record IsValid (m : BlockManager) : Type 0 where
  pub sized : length m.in_use ≡ m.num_blocks
  pub matches : FreeListMatches m.free_list m.in_use
  pub all_counted : length m.free_list + num_marked m.in_use ≡ m.num_blocks

pub num_marked-set-true :
    (us : List Bool) (b : ℕ)
    → get_elem? us b ≡ some false
    → num_marked (set us b true) ≡ suc (num_marked us)
num_marked-set-true [] b h = ground arith
num_marked-set-true (true ∷ us) zero h = ground arith
num_marked-set-true (false ∷ us) zero h = refl
num_marked-set-true (true ∷ us) (suc b) h = omega (arith, num_marked-set-true us b h)
num_marked-set-true (false ∷ us) (suc b) h = num_marked-set-true us b h

pub num_marked-set-false :
    (us : List Bool) (b : ℕ)
    → get_elem? us b ≡ some true
    → suc (num_marked (set us b false)) ≡ num_marked us
num_marked-set-false [] b h = ground arith
num_marked-set-false (false ∷ us) zero h = ground arith
num_marked-set-false (true ∷ us) zero h = refl
num_marked-set-false (true ∷ us) (suc b) h = omega (arith, num_marked-set-false us b h)
num_marked-set-false (false ∷ us) (suc b) h = num_marked-set-false us b h

-- A block that the free list has on top is not in use.
pub top_of_free :
    (block : ℕ) (free : List ℕ) (us : List Bool)
    → FreeListMatches (block ∷ free) us
    → get_elem? us block ≡ some false
top_of_free block free us h = weigh (get_elem? us block) (h block)
  where
    weigh : (o : Option Bool) → count block (block ∷ free) ≡ free_weight o → o ≡ some false
    weigh none e = ground arith
    weigh (some true) e = ground arith
    weigh (some false) e = refl

-- Popping a block and marking it keeps the match, and so does pushing one and unmarking it.
pub FreeListMatches-pop :
    (block : ℕ) (free : List ℕ) (us : List Bool)
    → FreeListMatches (block ∷ free) us
    → FreeListMatches free (set us block true)
FreeListMatches-pop block free us h b = ground (
  arith,
  h b,
  top_of_free block free us h,
  get_elem?-set us block b false true (top_of_free block free us h),
)

pub FreeListMatches-push :
    (block : ℕ) (free : List ℕ) (us : List Bool)
    → get_elem? us block ≡ some true
    → FreeListMatches free us
    → FreeListMatches (block ∷ free) (set us block false)
FreeListMatches-push block free us e h b =
    ground (arith, h b, get_elem?-set us block b true false e)
