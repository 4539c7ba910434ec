-- ===== src/Rows.antt =====
-- The rows of a flat host page table, as src/kv_cache/block_manager.cpp and
-- src/kv_cache/paged_kv_cache.cpp read and write them through `row = host + seq_id * width`.
-- `start` is the index of `row[0]`. An entry of -1 marks an empty slot.
pub mod Laws
use sci_compute_attention.Base.{
  ℕ, zero, suc, ◌+◌, List, [], ◌∷◌, ℤ, minus_one, is_neg, if◌then◌else◌, get_or, set,
}

-- `row[0], …, row[n - 1]`
unfoldable pub row_of : List ℤ → ℕ → ℕ → List ℤ
row_of host start zero = []
row_of host start (suc n) = get_or host start minus_one ∷ row_of host (suc start) n

-- `for (i = 0; i < count; ++i) row[i] = ids[i];`
unfoldable pub write_row : List ℤ → ℕ → List ℤ → List ℤ
write_row host start [] = host
write_row host start (id ∷ ids) = write_row (set host start id) (suc start) ids

-- `for (i = 0; i < n; ++i) row[i] = -1;`
unfoldable pub clear_row : List ℤ → ℕ → ℕ → List ℤ
clear_row host start zero = host
clear_row host start (suc n) = clear_row (set host start minus_one) (suc start) n

-- `while (used < n && row[used] >= 0) ++used;`, started at `used = 0`.
unfoldable pub used_slots : List ℤ → ℕ → ℕ → ℕ
used_slots host start zero = 0
used_slots host start (suc n) =
    if is_neg (get_or host start minus_one) then 0 else suc (used_slots host (suc start) n)

-- `for (i = 0; i < n; ++i) if (row[i] >= 0) ++count;`
pub filled_slots : List ℤ → ℕ → ℕ → ℕ
filled_slots host start zero = 0
filled_slots host start (suc n) =
    (if is_neg (get_or host start minus_one) then 0 else 1) + filled_slots host (suc start) n
