-- ===== src/KvCache/Slots.antt =====
-- `ComputeSlotMapping` over a row that holds the blocks of a sequence.
use native.Mathlib.Nat.{mod-lt, div-add-mod}
use sci_compute_attention.Base.{
  ℕ, zero, suc, ◌+◌, ◌*◌, ◌/◌, ◌%◌, ◌^◌, ◌≤◌, ◌<◌, ◌≡◌, refl, sym, ap₂, ◌∙◌, some, List, [], ◌∷◌,
  arith, ℤ, pos, length, get_or, lt→leb_false,
}
use sci_compute_attention.Rows.Laws.{padded, get_or-padded, row_index_unique, div_lt}
use sci_compute_attention.Status.{ok}
use sci_compute_attention.KvCache.{compute_slot_mapping, slots_from, slot_at, slot_in, to_int32}

-- The slot of a position, for a sequence with the blocks `ids`: block times size plus offset.
abbrev pub slot_of : List ℕ → ℕ → ℕ → ℕ
slot_of ids block_size position =
    get_or ids (position / block_size) 0 * block_size + position % block_size

abbrev pub slots_of : List ℕ → ℕ → ℕ → ℕ → List ℤ
slots_of ids block_size position zero = []
slots_of ids block_size position (suc n) =
    pos (slot_of ids block_size position) ∷ slots_of ids block_size (position + 1) n

-- Every block lies below `num_blocks`.
abbrev pub AllBelow : ℕ → List ℕ → Type 0
AllBelow num_blocks ids = (i : ℕ) → i < length ids → get_or ids i 0 < num_blocks

slot_lt :
    (block offset block_size num_blocks : ℕ)
    → block < num_blocks
    → offset < block_size
    → block * block_size + offset < num_blocks * block_size
slot_lt block offset block_size num_blocks h k = grind arith

to_int32_small : (n : ℕ) → n < 2 ^ 31 → to_int32 n ≡ pos n
to_int32_small n h = ground arith

module _ (ids : List ℕ) (width block_size num_blocks : ℕ) (positive : 0 < block_size)
    (fits : length ids ≤ width) (below : AllBelow num_blocks ids)
    (small : num_blocks * block_size ≤ 2 ^ 31) where
  -- The slot of a position that the sequence has room for lies inside the storage.
  pub slot_of-lt :
      (position : ℕ)
      → position < length ids * block_size
      → slot_of ids block_size position < num_blocks * block_size
  slot_of-lt position h =
      slot_lt _ (position % block_size) block_size num_blocks
        (below (position / block_size) (div_lt position block_size (length ids) h))
        (mod-lt position positive)

  slot_at_lem :
      (position : ℕ)
      → position < length ids * block_size
      → slot_at (padded width ids) position block_size width
        ≡ ok (pos (slot_of ids block_size position))
  unfolding slot_at
  slot_at_lem position h =
      let logical = div_lt position block_size (length ids) h in
      let inside = slot_of-lt position h in
      rw (
        lt→leb_false (position / block_size) width (omega arith),
        get_or-padded width (position / block_size) ids 0 logical (omega arith),
        slot_in,
        to_int32_small (slot_of ids block_size position) (omega arith),
      )

  slots_from_lem :
      (n position : ℕ)
      → position + n ≤ length ids * block_size
      → slots_from (padded width ids) position block_size width n
        ≡ ok (slots_of ids block_size position n)
  unfolding slots_from
  slots_from_lem zero position h = refl
  slots_from_lem (suc n) position h =
      rw (slot_at_lem position (omega arith), slots_from_lem n (position + 1) (omega arith))

  -- `ComputeSlotMapping` on a row that holds the blocks `ids` and is empty behind them: for a
  -- positive number of tokens that the blocks have room for it succeeds, and maps each position to
  -- its block's id times the block size plus the offset in the block.
  pub compute_slot_mapping_lem :
      (start n : ℕ)
      → 0 < n
      → start + n ≤ length ids * block_size
      → compute_slot_mapping (some (padded width ids)) start n block_size width
        ≡ ok (slots_of ids block_size start n)
  unfolding compute_slot_mapping
  compute_slot_mapping_lem start n hn h = ground (arith, slots_from_lem n start h)

-- The base of a list without repetitions: equal entries stand at one index.
abbrev pub IsInjective : List ℕ → Type 0
IsInjective ids =
    (i j : ℕ) → i < length ids → j < length ids → get_or ids i 0 ≡ get_or ids j 0 → i ≡ j

-- Different positions of a sequence have different slots.
pub slot_of-injective :
    (ids : List ℕ) (block_size p q : ℕ)
    → 0 < block_size
    → IsInjective ids
    → p < length ids * block_size
    → q < length ids * block_size
    → slot_of ids block_size p ≡ slot_of ids block_size q
    → p ≡ q
slot_of-injective ids s p q positive inj hp hq e =
    let parts = row_index_unique _ _ (p % s) (q % s) s (mod-lt p positive) (mod-lt q positive) e in
    let same =
      inj (p / s) (q / s) (div_lt p s (length ids) hp) (div_lt q s (length ids) hq) parts.0 in
    sym (div-add-mod p s) ∙ ap₂ (λ k r. s * k + r) same parts.1 ∙ div-add-mod q s
