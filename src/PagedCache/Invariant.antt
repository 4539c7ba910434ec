-- ===== src/PagedCache/Invariant.antt =====
-- The invariant of the paged cache (src/kv_cache/paged_kv_cache.cpp): who owns which block.
use sci_compute_attention.Base.{
  ℕ, zero, suc, ◌+◌, ◌*◌, ◌≤◌, ◌<◌, ◌≡◌, ◌≢◌, inl, inr, sym, ◌∙◌, Bool, true, false, Option, none,
  some, List, [], ◌∷◌, map, arith, pos, ◌==◌, length, get_elem?, get_or, set, count,
  get_or-set_self, get_or-set_ne, Bool-cases, ==→eq, ==→ne,
}
use sci_compute_attention.Rows.{row_of, clear_row}
use sci_compute_attention.Rows.Laws.{
  padded, length-write_row, length-clear_row, row_of-write_row, row_of-write_row_other,
  row_of-clear_row, row_of-clear_row_other, row_bounds, row_fits,
}
use sci_compute_attention.BlockManager
use sci_compute_attention.BlockManager.{BlockManager, BlockTable}
use sci_compute_attention.BlockManager.Invariant
use sci_compute_attention.BlockManager.Release.{length-map_pos}
use sci_compute_attention.BlockManager.Table.{Holds, update}
use sci_compute_attention.KvCache.Storage.Laws
use sci_compute_attention.PagedCache.{PagedKvCache, owned, seq_len, refresh_row}

-- How often a block stands in the lists of all sequences.
abbrev pub owners : ℕ → List (List ℕ) → ℕ
owners b [] = 0
owners b (ids ∷ rest) = count b ids + owners b rest

-- How often a block with this mark may be owned.
abbrev pub used_weight : Option Bool → ℕ
used_weight none = 0
used_weight (some true) = 1
used_weight (some false) = 0

-- All but the page table that the kernels read.
pub record Core (c : PagedKvCache) : Type 0 where
  pub positive : 0 < c.cfg.block_size
  pub blocks : BlockManager.Invariant.IsValid c.blocks
  pub total : c.blocks.num_blocks ≡ c.cfg.num_blocks
  pub table : Holds c.blocks.table (owned c)
  pub seqs : c.blocks.table.max_num_seqs ≡ c.cfg.max_num_seqs
  pub width : c.blocks.table.max_blocks_per_seq ≡ c.max_blocks_per_seq
  pub lists : length c.seq_blocks ≡ c.cfg.max_num_seqs
  pub lengths : length c.seq_lengths ≡ c.cfg.max_num_seqs
  pub pages : length c.page_table_host ≡ c.cfg.max_num_seqs * c.max_blocks_per_seq
  pub exclusive : (b : ℕ) → owners b c.seq_blocks ≡ used_weight (get_elem? c.blocks.in_use b)
  pub room : (s : ℕ) → seq_len c s ≤ length (owned c s) * c.cfg.block_size
  pub storage : Laws.IsValid c.storage
  pub same_cfg : c.storage.cfg ≡ c.cfg

-- The page table shows the blocks of a sequence in order, and nothing behind them.
abbrev pub PageRow : PagedKvCache → ℕ → Type 0
PageRow c s =
    row_of c.page_table_host (s * c.max_blocks_per_seq) c.max_blocks_per_seq
    ≡ padded c.max_blocks_per_seq (owned c s)

-- A block is owned by one sequence at most, exactly if it is in use; a sequence has room for its
-- tokens; both page tables show what the sequences own.
pub record IsValid (c : PagedKvCache) : Type 0 where
  pub core : Core c
  pub rows : (s : ℕ) → s < c.cfg.max_num_seqs → PageRow c s

pub owners-set :
    (b : ℕ) (xs : List (List ℕ)) (s : ℕ) (ids : List ℕ)
    → s < length xs
    → owners b (set xs s ids) + count b (get_or xs s []) ≡ owners b xs + count b ids
owners-set b [] s ids h = elim h [ ]
owners-set b (x ∷ xs) zero ids h = omega arith
owners-set b (x ∷ xs) (suc s) ids h = omega (arith, owners-set b xs s ids (omega arith))

pub get_or-set_blocks :
    (xs : List (List ℕ)) (s t : ℕ) (ids : List ℕ)
    → s < length xs
    → update (λ o. get_or xs o []) s ids t ≡ get_or (set xs s ids) t []
get_or-set_blocks xs s t ids h = elim (Bool-cases (s == t)) [
  | inl e ↦ let p = ==→eq s t e in rw (e, ← p) (sym (get_or-set_self xs s ids [] h))
  | inr e ↦ rw e (sym (get_or-set_ne xs s t ids [] (==→ne s t e)))
]

-- `Holds` looks at the view one sequence at a time.
pub Holds-cong : (t : BlockTable) (f g : ℕ → List ℕ) → ((s : ℕ) → f s ≡ g s) → Holds t f → Holds t g
Holds-cong t f g e h = record { sized = h.sized; rows = λ s hs. rw (← e s) (h.rows s hs) }

-- The refreshed row shows the sequence's blocks, all other rows are as before.
module _ (c : PagedKvCache) (core : Core c) (s : ℕ) (hs : s < c.cfg.max_num_seqs) where
  pub row_bound : s * c.max_blocks_per_seq + c.max_blocks_per_seq ≤ length c.page_table_host
  row_bound =
      let p = core.pages in omega (arith, row_fits s c.cfg.max_num_seqs c.max_blocks_per_seq hs)

  pub owned_fits : length (owned c s) ≤ c.max_blocks_per_seq
  owned_fits =
      let seqs = core.seqs in
      let w = core.width in omega (arith, (core.table.rows s (omega arith)).fits)

  pub refresh_row-PageRow : PageRow (refresh_row s c) s
  unfolding refresh_row
  refresh_row-PageRow =
      let w = c.max_blocks_per_seq in
      row_of-write_row (clear_row c.page_table_host (s * w) w) (s * w) w (owned c s) owned_fits
        (omega (arith, length-clear_row c.page_table_host (s * w) w, row_bound))
        (row_of-clear_row c.page_table_host (s * w) w row_bound)

  pub refresh_row-PageRow_other : (o : ℕ) → s ≢ o → PageRow c o → PageRow (refresh_row s c) o
  unfolding refresh_row
  refresh_row-PageRow_other o ne h =
      let w = c.max_blocks_per_seq in
      let apart = row_bounds s o w ne in
      row_of-write_row_other (clear_row c.page_table_host (s * w) w) (s * w) (map pos (owned c s))
        (o * w) w
        (elim apart [
          | inl p ↦ inr (omega (arith, length-map_pos (owned c s), owned_fits))
          | inr p ↦ inl p
        ])
      ∙ row_of-clear_row_other c.page_table_host (s * w) w (o * w) w
          (elim apart [ inl p ↦ inr p | inr p ↦ inl p ])
      ∙ h

  pub refresh_row-Core : Core (refresh_row s c)
  unfolding refresh_row
  refresh_row-Core = record {
    positive = core.positive;
    blocks = core.blocks;
    total = core.total;
    table = core.table;
    seqs = core.seqs;
    width = core.width;
    lists = core.lists;
    lengths = core.lengths;
    pages = length-write_row _ _ (map pos (owned c s)) ∙ length-clear_row _ _ _ ∙ core.pages;
    exclusive = core.exclusive;
    room = core.room;
    storage = core.storage;
    same_cfg = core.same_cfg;
  }

-- Refreshing a row makes the cache valid if all other rows were right.
pub refresh_row-IsValid :
    (c : PagedKvCache) (s : ℕ)
    → Core c
    → s < c.cfg.max_num_seqs
    → ((o : ℕ) → o < c.cfg.max_num_seqs → s ≢ o → PageRow c o)
    → IsValid (refresh_row s c)
unfolding refresh_row
refresh_row-IsValid c s core hs others = record {
  core = refresh_row-Core c core s hs;
  rows = λ o ho. elim (Bool-cases (s == o)) [
    | inl e ↦ rw (← ==→eq s o e) (refresh_row-PageRow c core s hs)
    | inr e ↦ refresh_row-PageRow_other c core s hs o (==→ne s o e) (others o ho (==→ne s o e))
  ];
}
