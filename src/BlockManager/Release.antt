-- ===== src/BlockManager/Release.antt =====
-- `BlockManager::Free` over a whole list, and `Allocate` followed by `Free`.
use sci_compute_attention.Base.{
  ℕ, suc, ◌+◌, ◌≤◌, ◌≡◌, refl, sym, ap, subst, ◌∙◌, Bool, true, false, Option, none, some, List, [],
  ◌∷◌, map, arith, ℤ, pos, ltb, if◌then◌else◌, length, get_elem?, count, get_elem?-ext,
  length-append,
}
use sci_compute_attention.Status.{ok, Result}
use sci_compute_attention.BlockManager.{
  BlockManager, free_block, free_blocks, free, allocate, num_free_blocks,
}
use sci_compute_attention.BlockManager.Invariant.{IsValid, num_marked, free_weight}
use sci_compute_attention.BlockManager.Allocate.{Allocated, Allocates, allocate-Allocates}
use sci_compute_attention.BlockManager.Free.{
  free_blocks-IsValid, free_block-IsValid, free_block_mark, free_block_events, free_block_frame,
  mentions, released,
}

released_again : (o : Option Bool) → released (released o) ≡ released o
released_again none = refl
released_again (some u) = refl

free_blocks_mark :
    (ids : List ℤ) (m : BlockManager) (b : ℕ)
    → IsValid m
    → get_elem? (free_blocks ids m).in_use b
      ≡ (if mentions ids b then released (get_elem? m.in_use b) else get_elem? m.in_use b)
unfolding free_blocks
free_blocks_mark [] m b v = refl
free_blocks_mark (id ∷ ids) m b v = ground (
  arith,
  free_blocks_mark ids (free_block id m) b (free_block-IsValid id m v),
  free_block_mark id m b v,
  released_again (get_elem? m.in_use b),
)

free_blocks_events :
    (ids : List ℤ) (m : BlockManager)
    → length (free_blocks ids m).free_list + (free_blocks ids m).double_free_events
      ≡ length m.free_list + m.double_free_events + length ids
unfolding free_blocks
free_blocks_events [] m = omega arith
free_blocks_events (id ∷ ids) m =
    omega (arith, free_blocks_events ids (free_block id m), free_block_events id m)

free_blocks_frame :
    (ids : List ℤ) (m : BlockManager)
    → ((free_blocks ids m).table ≡ m.table)
      × ((free_blocks ids m).num_blocks ≡ m.num_blocks)
      × ((free_blocks ids m).allocation_failures ≡ m.allocation_failures)
unfolding free_blocks
free_blocks_frame [] m = (refl, refl, refl)
free_blocks_frame (id ∷ ids) m =
    let a = free_blocks_frame ids (free_block id m) in
    let b = free_block_frame id m in (a.0 ∙ b.0, a.1 ∙ b.1, a.2 ∙ b.2)

-- What `Free` does to a manager `m`, given the ids.
pub record Freed (ids : List ℤ) (m m' : BlockManager) : Type 0 where
  pub valid : IsValid m'
  pub marks :
      (b : ℕ)
      → get_elem? m'.in_use b
        ≡ (if mentions ids b then released (get_elem? m.in_use b) else get_elem? m.in_use b)
  pub accounted :
      num_free_blocks m' + m'.double_free_events
      ≡ num_free_blocks m + m.double_free_events + length ids
  pub same_table : m'.table ≡ m.table
  pub same_total : m'.num_blocks ≡ m.num_blocks

-- `Free` on a valid manager, with any ids (repeated, out of range, negative, not allocated): the
-- manager stays valid, exactly the marks of the ids named are cleared, and each id either returns a
-- block to the free list or counts as one double-free event.
pub free-Freed : (ids : List ℤ) (m : BlockManager) → IsValid m → Freed ids m (free (some ids) m)
unfolding free num_free_blocks
free-Freed ids m v =
    let frame = free_blocks_frame ids m in
    record {
      valid = free_blocks-IsValid ids m v;
      marks = λ b. free_blocks_mark ids m b v;
      accounted = free_blocks_events ids m;
      same_table = frame.0;
      same_total = frame.1;
    }

pub mentions-map_pos : (bs : List ℕ) (b : ℕ) → mentions (map pos bs) b ≡ ltb 0 (count b bs)
mentions-map_pos [] b = refl
mentions-map_pos (x ∷ bs) b = ground (arith, mentions-map_pos bs b)

pub length-map_pos : (bs : List ℕ) → length (map pos bs) ≡ length bs
length-map_pos [] = refl
length-map_pos (x ∷ bs) = ap suc (length-map_pos bs)

restore_mark :
    (o : Option Bool) (c : ℕ)
    → c ≤ free_weight o
    → (if ltb 0 c
        then released (if ltb 0 c then some true else o)
        else (if ltb 0 c then some true else o))
      ≡ o
restore_mark none c h = ground arith
restore_mark (some true) c h = ground arith
restore_mark (some false) c h = ground arith

-- What stays when blocks have been handed out and are given back.
pub record Restored (m m' : BlockManager) : Type 0 where
  pub same_marks : m'.in_use ≡ m.in_use
  pub same_free : (b : ℕ) → count b m'.free_list ≡ count b m.free_list
  pub same_number : num_free_blocks m' ≡ num_free_blocks m
  pub same_events : m'.double_free_events ≡ m.double_free_events
  pub same_table : m'.table ≡ m.table

pub free-restores :
    (n : ℕ) (m : BlockManager) (bs : List ℕ) (m' : BlockManager)
    → IsValid m
    → Allocated n m bs m'
    → Restored m (free (some (map pos bs)) m')
unfolding num_free_blocks
free-restores n m bs m' v a =
    let after = free (some (map pos bs)) m' in
    let f = free-Freed (map pos bs) m' a.valid in
    let marks : after.in_use ≡ m.in_use = get_elem?-ext after.in_use m.in_use λ b.
      f.marks b
      ∙ rw (mentions-map_pos bs b, a.marked b)
          (restore_mark (get_elem? m.in_use b) (count b bs) (a.exclusive b)) in
    let counted = ap num_marked marks in
    let now = f.valid.all_counted in
    let before = v.all_counted in
    let total = f.same_total ∙ a.same_total in
    let between = a.valid.all_counted in
    let acc = f.accounted in
    let number : length after.free_list ≡ length m.free_list = omega arith in
    record {
      same_marks = marks;
      same_free = λ b.
          f.valid.matches b ∙ ap (λ us. free_weight (get_elem? us b)) marks ∙ sym (v.matches b);
      same_number = number;
      same_events = omega (
        arith,
        ap length a.from_top,
        length-append bs m'.free_list,
        length-map_pos bs,
        a.enough,
        a.same_events,
      );
      same_table = f.same_table ∙ a.same_table;
    }

Allocated-of_ok :
    (n : ℕ) (m : BlockManager) (r : Result (List ℕ) × BlockManager) (bs : List ℕ)
    (m' : BlockManager)
    → Allocates n m r
    → r ≡ (ok bs, m')
    → Allocated n m bs m'
Allocated-of_ok n m r bs m' h e = let t = subst (Allocates n m) e h in t.2

-- Giving back what a successful `Allocate` on a valid manager returned restores the manager: the
-- same marks, the same blocks free as often, no double-free event and the same page table.
pub free-allocate :
    (n : ℕ) (m : BlockManager) (bs : List ℕ) (m' : BlockManager)
    → IsValid m
    → allocate n m ≡ (ok bs, m')
    → Restored m (free (some (map pos bs)) m')
free-allocate n m bs m' v e =
    free-restores n m bs m' v
      (Allocated-of_ok n m (allocate n m) bs m' (allocate-Allocates n m v) e)
