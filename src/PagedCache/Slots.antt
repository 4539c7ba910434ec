-- ===== src/PagedCache/Slots.antt =====
-- The slots of the tokens of a paged cache: in `ComputeSlotMapping`, and in the kernels' lookup.
use native.Mathlib.Nat.{mod-lt}
use sci_compute_attention.Base.{
  ℕ, zero, suc, ◌+◌, ◌*◌, ◌/◌, ◌%◌, ◌^◌, ◌≤◌, ◌<◌, ◌≡◌, ◌≢◌, inl, inr, refl, sym, ap, ◌∙◌, Bool,
  true, false, Option, none, some, List, [], ◌∷◌, arith, ℤ, pos, minus_one, ◌==◌, length, get_elem?,
  get_or, count, Bool-cases, ==→eq, ==→ne, lt-length_of_get_elem?,
}
use sci_compute_attention.Rows.Laws.{get_or-padded, get_or-row_of, div_lt, row_index_unique}
use sci_compute_attention.Status.{ok}
use sci_compute_attention.Rows.{row_of}
use sci_compute_attention.KvCache.{compute_slot_mapping}
use sci_compute_attention.KvCache.Slots.{
  slot_of, slots_of, AllBelow, IsInjective, slot_of-injective, compute_slot_mapping_lem,
}
use sci_compute_attention.PagedCache.{PagedKvCache, owned, seq_len, force_sync_page_table}
use sci_compute_attention.PagedCache.Append.{mapping}
use sci_compute_attention.PagedCache.Invariant.{IsValid, owners, used_weight, owned_fits}
use sci_compute_attention.PagedCache.PageTable.{page_table_row, page_table_row_lem}

count-get_or : (ids : List ℕ) (i : ℕ) → i < length ids → 0 < count (get_or ids i 0) ids
count-get_or [] i h = absurd (omega arith)
count-get_or (x ∷ ids) zero h = ground arith
count-get_or (x ∷ ids) (suc i) h = ground (arith, count-get_or ids i (omega arith))

IsInjective-of_count : (ids : List ℕ) → ((b : ℕ) → count b ids ≤ 1) → IsInjective ids
IsInjective-of_count [] once i j hi hj e = absurd (omega arith)
IsInjective-of_count (x ∷ ids) once zero zero hi hj e = refl
IsInjective-of_count (x ∷ ids) once zero (suc j) hi hj e =
    ground (arith, once x, count-get_or ids j (omega arith))
IsInjective-of_count (x ∷ ids) once (suc i) zero hi hj e =
    ground (arith, once x, count-get_or ids i (omega arith))
IsInjective-of_count (x ∷ ids) once (suc i) (suc j) hi hj e =
    ap suc
      (IsInjective-of_count ids (λ b. ground (arith, once b)) i j (omega arith) (omega arith) e)

count-owners : (b : ℕ) (xs : List (List ℕ)) (s : ℕ) → count b (get_or xs s []) ≤ owners b xs
count-owners b [] s = omega arith
count-owners b (x ∷ xs) zero = omega arith
count-owners b (x ∷ xs) (suc s) = omega (arith, count-owners b xs s)

count-owners_two :
    (b : ℕ) (xs : List (List ℕ)) (s t : ℕ)
    → s ≢ t
    → count b (get_or xs s []) + count b (get_or xs t []) ≤ owners b xs
count-owners_two b [] s t ne = omega arith
count-owners_two b (x ∷ xs) zero zero ne = absurd (ne refl)
count-owners_two b (x ∷ xs) zero (suc t) ne = omega (arith, count-owners b xs t)
count-owners_two b (x ∷ xs) (suc s) zero ne = omega (arith, count-owners b xs s)
count-owners_two b (x ∷ xs) (suc s) (suc t) ne =
    omega (arith, count-owners_two b xs s t (λ e. ne (ap suc e)))

used_weight_le : (o : Option Bool) → used_weight o ≤ 1
used_weight_le none = omega arith
used_weight_le (some true) = omega arith
used_weight_le (some false) = omega arith

used-exists : (o : Option Bool) → 0 < used_weight o → (u : Bool) × (o ≡ some u)
used-exists none h = absurd (omega arith)
used-exists (some u) h = (u, refl)

module _ (c : PagedKvCache) (v : IsValid c) where
  owned-once : (s b : ℕ) → count b (owned c s) ≤ 1
  owned-once s b = omega (
    arith,
    count-owners b c.seq_blocks s,
    v.core.exclusive b,
    used_weight_le (get_elem? c.blocks.in_use b),
  )

  owned-AllBelow : (s : ℕ) → AllBelow c.cfg.num_blocks (owned c s)
  owned-AllBelow s i hi =
      let b = get_or (owned c s) i 0 in
      let (u, e) = used-exists (get_elem? c.blocks.in_use b) (
        omega (
          arith,
          count-get_or (owned c s) i hi,
          count-owners b c.seq_blocks s,
          v.core.exclusive b,
        )) in
      omega (arith, lt-length_of_get_elem? c.blocks.in_use b u e, v.core.blocks.sized, v.core.total)

  has_room : (s p : ℕ) → p < seq_len c s → p < length (owned c s) * c.cfg.block_size
  has_room s p h = let r = v.core.room s in omega arith

  apart :
      (s t i j : ℕ)
      → s ≢ t
      → i < length (owned c s)
      → j < length (owned c t)
      → get_or (owned c s) i 0 ≢ get_or (owned c t) j 0
  apart s t i j ne hi hj e =
      let b = get_or (owned c s) i 0 in
      let there : 0 < count b (owned c t) = rw e (count-get_or (owned c t) j hj) in
      omega (
        arith,
        count-get_or (owned c s) i hi,
        count-owners_two b c.seq_blocks s t ne,
        v.core.exclusive b,
        used_weight_le (get_elem? c.blocks.in_use b),
      )

-- In a valid cache, two stored tokens have the same slot only if they are the same token of the same
-- sequence.
slots_unique :
    (c : PagedKvCache) (s t p q : ℕ)
    → IsValid c
    → p < seq_len c s
    → q < seq_len c t
    → slot_of (owned c s) c.cfg.block_size p ≡ slot_of (owned c t) c.cfg.block_size q
    → (s ≡ t) × (p ≡ q)
slots_unique c s t p q v hp hq e =
    let size = c.cfg.block_size in
    let rp = has_room c v s p hp in
    let rq = has_room c v t q hq in
    let positive = v.core.positive in
    elim (Bool-cases (s == t)) [
      | inl same ↦
          let st = ==→eq s t same in
          let inj = IsInjective-of_count (owned c s) (owned-once c v s) in
          let rq2 : q < length (owned c s) * size = rw st rq in
          let e2 : slot_of (owned c s) size p ≡ slot_of (owned c s) size q =
            e ∙ ap (λ k. slot_of (owned c k) size q) (sym st) in
          (st, slot_of-injective (owned c s) size p q positive inj rp rq2 e2)
      | inr other ↦
          let parts =
            row_index_unique _ _ (p % size) (q % size) size (mod-lt p positive) (mod-lt q positive)
              e in
          absurd (
            apart c v s t (p / size) (q / size) (==→ne s t other)
              (div_lt p size (length (owned c s)) rp) (div_lt q size (length (owned c t)) rq)
              parts.0)
    ]

-- In a valid cache whose slots fit a 32-bit integer, `AppendTokens` gets from `ComputeSlotMapping`
-- the slots of the next `n` positions of the sequence, if its blocks have room for them.
pub mapping_lem :
    (c : PagedKvCache) (s n : ℕ)
    → IsValid c
    → c.cfg.num_blocks * c.cfg.block_size ≤ 2 ^ 31
    → s < c.cfg.max_num_seqs
    → 0 < n
    → seq_len c s + n ≤ length (owned c s) * c.cfg.block_size
    → mapping c s n ≡ ok (slots_of (owned c s) c.cfg.block_size (seq_len c s) n)
mapping_lem c s n v small hs hn fits = rw (v.rows s hs) (
    compute_slot_mapping_lem (owned c s) c.max_blocks_per_seq c.cfg.block_size c.cfg.num_blocks
      v.core.positive (owned_fits c v.core s hs) (owned-AllBelow c v s) small (seq_len c s) n hn
      fits)

-- The slot that `ComputeSlotMapping` gives for a position below the length of a sequence.
pub stored_slot_lem :
    (c : PagedKvCache) (s t : ℕ)
    → IsValid c
    → c.cfg.num_blocks * c.cfg.block_size ≤ 2 ^ 31
    → s < c.cfg.max_num_seqs
    → t < seq_len c s
    → compute_slot_mapping
        (some (row_of c.page_table_host (s * c.max_blocks_per_seq) c.max_blocks_per_seq))
        t
        1
        c.cfg.block_size
        c.max_blocks_per_seq
      ≡ ok (pos (slot_of (owned c s) c.cfg.block_size t) ∷ [])
stored_slot_lem c s t v small hs ht = rw (v.rows s hs) (
    compute_slot_mapping_lem (owned c s) c.max_blocks_per_seq c.cfg.block_size c.cfg.num_blocks
      v.core.positive (owned_fits c v.core s hs) (owned-AllBelow c v s) small t 1 (omega arith)
      (omega (arith, has_room c v s t ht)))

-- What the device holds; nothing where the allocation is missing.
abbrev pub device_table : PagedKvCache → List ℤ
device_table c = elim c.page_table_device [ none ↦ [] | some table ↦ table ]

lookup_host :
    (c : PagedKvCache) (s p : ℕ)
    → IsValid c
    → s < c.cfg.max_num_seqs
    → p < seq_len c s
    → page_table_row c.page_table_host s p c.cfg.block_size c.max_blocks_per_seq c.cfg.num_blocks
      ≡ pos (slot_of (owned c s) c.cfg.block_size p)
lookup_host c s p v hs hp =
    let size = c.cfg.block_size in
    let w = c.max_blocks_per_seq in
    let logical = div_lt p size (length (owned c s)) (has_room c v s p hp) in
    let fits = owned_fits c v.core s hs in
    page_table_row_lem c.page_table_host s p size w c.cfg.num_blocks
      (get_or (owned c s) (p / size) 0) (omega arith)
      (sym (get_or-row_of c.page_table_host (s * w) w (p / size) (omega arith))
        ∙ ap (λ r. get_or r (p / size) minus_one) (v.rows s hs)
        ∙ get_or-padded w (p / size) (owned c s) 0 logical (omega arith))
      (owned-AllBelow c v s (p / size) logical)

-- After `ForceSyncPageTable` on a valid cache with a device table, the kernels' lookup in that table
-- finds for every stored token of a sequence the slot that belongs to the token.
pub force_sync_page_table-lookup :
    (c : PagedKvCache) (s p : ℕ) (old : List ℤ)
    → IsValid c
    → c.page_table_device ≡ some old
    → s < c.cfg.max_num_seqs
    → p < seq_len c s
    → page_table_row
        (device_table (force_sync_page_table c).1)
        s
        p
        c.cfg.block_size
        c.max_blocks_per_seq
        c.cfg.num_blocks
      ≡ pos (slot_of (owned c s) c.cfg.block_size p)
unfolding force_sync_page_table
force_sync_page_table-lookup c s p old v e hs hp =
    rw (e, force_sync_page_table) (lookup_host c s p v hs hp)

pos_inj : (m n : ℕ) → pos m ≡ pos n → m ≡ n
pos_inj m n e = ground arith

-- In a valid cache `PageTableRow` on the host table gives one row for two stored tokens only if they are
-- the same token of the same sequence.
pub page_table_row_unique :
    (c : PagedKvCache) (s t p q : ℕ)
    → IsValid c
    → s < c.cfg.max_num_seqs
    → t < c.cfg.max_num_seqs
    → p < seq_len c s
    → q < seq_len c t
    → page_table_row c.page_table_host s p c.cfg.block_size c.max_blocks_per_seq c.cfg.num_blocks
      ≡ page_table_row c.page_table_host t q c.cfg.block_size c.max_blocks_per_seq c.cfg.num_blocks
    → (s ≡ t) × (p ≡ q)
page_table_row_unique c s t p q v hs ht hp hq e =
    slots_unique c s t p q v hp hq
      (pos_inj _ _ (sym (lookup_host c s p v hs hp) ∙ e ∙ lookup_host c t q v ht hq))
