-- ===== src/BlockManager/Examples.antt =====
-- The theorems on the block manager at a concrete one.
use sci_compute_attention.Base.{
  ℕ, zero, suc, ◌≡◌, refl, true, false, some, [], ◌∷◌, map, arith, pos, negsuc, minus_one, count,
  get_elem?, List, ◌<◌,
}
use sci_compute_attention.Rows.{row_of}
use sci_compute_attention.Status.{ok}
use sci_compute_attention.BlockManager.{
  BlockManager, allocate, take_blocks, free, append_to_table, reset_seq, create, push_blocks,
}
use sci_compute_attention.BlockManager.Invariant.{IsValid, free_weight}
use sci_compute_attention.BlockManager.Allocate.{Allocates, allocate-Allocates}
use sci_compute_attention.BlockManager.Release.{Freed, Restored, free-Freed, free-allocate}
use sci_compute_attention.BlockManager.Table.{
  Holds, RowHolds, Appends, Resets, append_to_table-Appends, reset_seq-Resets,
}
use sci_compute_attention.BlockManager.Mirror.{IsMirrored}

-- Three blocks, of which sequence 0 of two has the second.
abbrev manager : BlockManager
manager = record {
  num_blocks = 3;
  free_list = 0 ∷ 2 ∷ [];
  in_use = false ∷ true ∷ false ∷ [];
  table = record {
    host = pos 1 ∷ minus_one ∷ minus_one ∷ minus_one ∷ [];
    device = some (minus_one ∷ minus_one ∷ minus_one ∷ minus_one ∷ []);
    revision = 1;
    synced_revision = 0;
    max_num_seqs = 2;
    max_blocks_per_seq = 2;
  };
  allocation_failures = 0;
  double_free_events = 0;
}

abbrev owned : ℕ → List ℕ
owned zero = 1 ∷ []
owned (suc s) = []

manager-matches :
    (b : ℕ) → count b (0 ∷ 2 ∷ []) ≡ free_weight (get_elem? (false ∷ true ∷ false ∷ []) b)
manager-matches zero = refl
manager-matches (suc zero) = refl
manager-matches (suc (suc zero)) = refl
manager-matches (suc (suc (suc b))) = ground arith

manager-IsValid : IsValid manager
manager-IsValid = record { sized = refl; matches = manager-matches; all_counted = refl }

manager-rows : (s : ℕ) → s < 2 → RowHolds manager.table s (owned s)
unfolding row_of
manager-rows zero h = record { fits = omega arith; row = refl }
manager-rows (suc zero) h = record { fits = omega arith; row = refl }
manager-rows (suc (suc s)) h = absurd (omega arith)

manager-Holds : Holds manager.table owned
manager-Holds = record { sized = refl; rows = manager-rows }

manager-IsMirrored : IsMirrored manager.table
manager-IsMirrored = record { behind = omega arith; current = λ e. ground arith }

allocate-Allocates_example : Allocates 2 manager (allocate 2 manager)
allocate-Allocates_example = allocate-Allocates 2 manager manager-IsValid

free-Freed_example :
    Freed
      (pos 1 ∷ pos 2 ∷ pos 9 ∷ negsuc 3 ∷ [])
      manager
      (free (some (pos 1 ∷ pos 2 ∷ pos 9 ∷ negsuc 3 ∷ [])) manager)
free-Freed_example = free-Freed (pos 1 ∷ pos 2 ∷ pos 9 ∷ negsuc 3 ∷ []) manager manager-IsValid

free-allocate_example : Restored manager (free (some (map pos (0 ∷ 2 ∷ []))) (allocate 2 manager).1)
unfolding allocate take_blocks
free-allocate_example =
    free-allocate 2 manager (0 ∷ 2 ∷ []) (allocate 2 manager).1 manager-IsValid refl

append_to_table-Appends_example :
    Appends 0 (2 ∷ []) manager owned (append_to_table (pos 0) (some (map pos (2 ∷ []))) manager)
append_to_table-Appends_example =
    append_to_table-Appends 0 2 [] manager owned manager-Holds (omega arith)

reset_seq-Resets_example :
    ((reset_seq (pos 0) manager).0 ≡ ok tt) × Resets 0 manager owned (reset_seq (pos 0) manager).1
reset_seq-Resets_example =
    reset_seq-Resets 0 manager owned manager-IsValid manager-Holds (omega arith)

-- Two free blocks.
abbrev pub fresh_manager : BlockManager
fresh_manager = record {
  num_blocks = 2;
  free_list = 0 ∷ 1 ∷ [];
  in_use = false ∷ false ∷ [];
  table = record {
    host = minus_one ∷ minus_one ∷ minus_one ∷ minus_one ∷ [];
    device = some (minus_one ∷ minus_one ∷ minus_one ∷ minus_one ∷ []);
    revision = 0;
    synced_revision = 0;
    max_num_seqs = 2;
    max_blocks_per_seq = 2;
  };
  allocation_failures = 0;
  double_free_events = 0;
}

pub fresh_manager-created : create 2 2 2 true ≡ ok fresh_manager
unfolding create push_blocks
fresh_manager-created = refl
