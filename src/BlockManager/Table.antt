-- ===== src/BlockManager/Table.antt =====
-- The page table of the block manager: `AppendToTable`, `ResetSeq` and `SyncTableToDevice` against
-- the view in which each sequence has a list of blocks.
use sci_compute_attention.Base.{
  ℕ, ◌+◌, ◌*◌, ◌≤◌, ◌<◌, ◌≡◌, ◌≢◌, inl, inr, refl, sym, ap, subst, ◌∙◌, some, List, [], ◌∷◌, ◌++◌,
  map, arith, pos, ltb, ◌==◌, if◌then◌else◌, length, length-append, Bool-cases, lt→leb_false,
  get_elem?, ltb→lt, ltb→ge, ==→eq, ==→ne,
}
use sci_compute_attention.Rows.{row_of, write_row, clear_row, used_slots, filled_slots}
use sci_compute_attention.Rows.Laws.{
  padded, length-write_row, length-clear_row, row_of-write_row_other, row_of-clear_row_other,
  row_of-append_row, row_of-clear_row, used_slots-padded, filled_slots-padded, row_of_head,
  row_bounds, row_fits,
}
use sci_compute_attention.Status.{Status, ok, err, attn, kv_capacity_exceeded}
use sci_compute_attention.BlockManager.{
  BlockManager, BlockTable, row_start, next_revision, append_to_table, append_at, reset_seq,
  reset_row, free, free_blocks, num_free_blocks,
}
use sci_compute_attention.BlockManager.Invariant.{IsValid}
use sci_compute_attention.BlockManager.Free.{mentions, released}
use sci_compute_attention.BlockManager.Release.{Freed, free-Freed, length-map_pos}

-- The blocks of each sequence, with one entry replaced.
abbrev pub update : (ℕ → List ℕ) → ℕ → List ℕ → ℕ → List ℕ
update owned s ids t = if s == t then ids else owned t

-- Row `s` of the table holds the blocks `ids`, and is empty behind them.
pub record RowHolds (t : BlockTable) (s : ℕ) (ids : List ℕ) : Type 0 where
  pub fits : length ids ≤ t.max_blocks_per_seq
  pub row : row_of t.host (row_start t s) t.max_blocks_per_seq ≡ padded t.max_blocks_per_seq ids

-- The table holds the blocks `owned s` for each sequence `s`.
pub record Holds (t : BlockTable) (owned : ℕ → List ℕ) : Type 0 where
  pub sized : length t.host ≡ t.max_num_seqs * t.max_blocks_per_seq
  pub rows : (s : ℕ) → s < t.max_num_seqs → RowHolds t s (owned s)

-- A change of one row, seen from all of them.
Holds-update :
    (t t' : BlockTable) (owned : ℕ → List ℕ) (s : ℕ) (ids : List ℕ)
    → t'.max_num_seqs ≡ t.max_num_seqs
    → length t'.host ≡ t'.max_num_seqs * t'.max_blocks_per_seq
    → RowHolds t' s ids
    → ((o : ℕ) → o < t.max_num_seqs → s ≢ o → RowHolds t' o (owned o))
    → Holds t' (update owned s ids)
Holds-update t t' owned s ids e sized here others = record {
  sized = sized;
  rows = λ o h. elim (Bool-cases (s == o)) [
    | inl same ↦ rw same (subst (λ k. RowHolds t' k ids) (==→eq s o same) here)
    | inr other ↦ rw other (others o (omega arith) (==→ne s o other))
  ];
}

module _ (t : BlockTable) (owned : ℕ → List ℕ) (s : ℕ) (h : Holds t owned)
    (hs : s < t.max_num_seqs) where
  bound : row_start t s + t.max_blocks_per_seq ≤ length t.host
  bound = omega (arith, row_fits s t.max_num_seqs t.max_blocks_per_seq hs, h.sized)

  pub used_slots-Holds : used_slots t.host (row_start t s) t.max_blocks_per_seq ≡ length (owned s)
  used_slots-Holds =
      used_slots-padded t.host (row_start t s) t.max_blocks_per_seq (owned s) (h.rows s hs).fits
        (h.rows s hs).row

  pub write-Holds :
      (ids : List ℕ) (r : ℕ)
      → length (owned s) + length ids ≤ t.max_blocks_per_seq
      → Holds
          (record t {
            host = write_row t.host (row_start t s + length (owned s)) (map pos ids);
            revision = r;
          })
          (update owned s (owned s ++ ids))
  write-Holds ids r fits =
      let width = t.max_blocks_per_seq in
      let at = row_start t s + length (owned s) in
      let here = h.rows s hs in
      Holds-update t _ owned s (owned s ++ ids) refl
        (length-write_row t.host at (map pos ids) ∙ h.sized)
        (record {
          fits = omega (arith, length-append (owned s) ids);
          row = row_of-append_row t.host (row_start t s) width (owned s) ids fits bound here.row;
        })
        (λ o ho ne. record {
          fits = (h.rows o ho).fits;
          row =
              row_of-write_row_other t.host at (map pos ids) (row_start t o) width
                (elim (row_bounds s o width ne) [
                  | inl p ↦ inr (omega (arith, length-map_pos ids))
                  | inr p ↦ inl (omega arith)
                ])
              ∙ (h.rows o ho).row;
        })

  pub clear-Holds :
      (r : ℕ)
      → Holds
          (record t { host = clear_row t.host (row_start t s) t.max_blocks_per_seq; revision = r })
          (update owned s [])
  clear-Holds r =
      let width = t.max_blocks_per_seq in
      Holds-update t _ owned s [] refl (length-clear_row t.host (row_start t s) width ∙ h.sized)
        (record { fits = omega arith; row = row_of-clear_row t.host (row_start t s) width bound })
        (λ o ho ne. record {
          fits = (h.rows o ho).fits;
          row =
              row_of-clear_row_other t.host (row_start t s) width (row_start t o) width
                (elim (row_bounds s o width ne) [ inl p ↦ inr p | inr p ↦ inl p ])
              ∙ (h.rows o ho).row;
        })

-- What `AppendToTable` does on a table that holds `owned`.
pub data Appends (s : ℕ) (ids : List ℕ) (m : BlockManager) (owned : ℕ → List ℕ)
    : Status × BlockManager → Type 0 where
  appended :
      (m' : BlockManager)
      → length (owned s) + length ids ≤ m.table.max_blocks_per_seq
      → Holds m'.table (update owned s (owned s ++ ids))
      → m' ≡ record m { table = m'.table }
      → m'.table.revision ≡ next_revision m.table.revision
      → m'.table.max_num_seqs ≡ m.table.max_num_seqs
      → m'.table.max_blocks_per_seq ≡ m.table.max_blocks_per_seq
      → Appends s ids m owned (ok tt, m')
  refused :
      m.table.max_blocks_per_seq < length (owned s) + length ids
      → Appends s ids m owned (err (attn kv_capacity_exceeded), m)

append_at-Appends :
    (s : ℕ) (ids : List ℕ) (m : BlockManager) (owned : ℕ → List ℕ)
    → Holds m.table owned
    → s < m.table.max_num_seqs
    → Appends s ids m owned (append_at s (map pos ids) m)
unfolding append_at
append_at-Appends s ids m owned h hs =
    let t = m.table in
    let used = used_slots-Holds t owned s h hs in
    elim (Bool-cases (ltb t.max_blocks_per_seq (length (owned s) + length ids))) [
      | inl full ↦ rw (used, length-map_pos ids, full) (refused (ltb→lt _ _ full))
      | inr room ↦
          let fits = ltb→ge t.max_blocks_per_seq _ room in
          rw (used, length-map_pos ids, room)
            (appended _ fits (write-Holds t owned s h hs ids _ fits) refl refl refl refl)
    ]

-- `AppendToTable` for an existing sequence, on a table that holds the blocks `owned`: it either
-- puts the new blocks behind those of the sequence, in a table that holds all other rows as before
-- and whose revision has moved on, or fails because the row is too short and changes nothing.
pub append_to_table-Appends :
    (s id : ℕ) (ids : List ℕ) (m : BlockManager) (owned : ℕ → List ℕ)
    → Holds m.table owned
    → s < m.table.max_num_seqs
    → Appends s (id ∷ ids) m owned (append_to_table (pos s) (some (map pos (id ∷ ids))) m)
unfolding append_to_table
append_to_table-Appends s id ids m owned h hs =
    rw (lt→leb_false s m.table.max_num_seqs hs) (append_at-Appends s (id ∷ ids) m owned h hs)

-- `Free` of the entries that `ResetSeq` counted.
row_freed :
    (s : ℕ) (m : BlockManager) (owned : ℕ → List ℕ)
    → Holds m.table owned
    → s < m.table.max_num_seqs
    → (let count = filled_slots m.table.host (row_start m.table s) m.table.max_blocks_per_seq in
        if ltb 0 count then free (some (row_of m.table.host (row_start m.table s) count)) m else m)
      ≡ free (some (map pos (owned s))) m
unfolding free free_blocks
row_freed s m owned h hs =
    let t = m.table in
    let here = h.rows s hs in
    let start = row_start t s in
    let width = t.max_blocks_per_seq in
    rw
      (
        filled_slots-padded t.host start width (owned s) here.fits here.row,
        row_of_head t.host start width (owned s) here.fits here.row,
      )
      (nonempty (owned s))
  where
    nonempty :
        (ids : List ℕ)
        → (if ltb 0 (length ids) then free (some (map pos ids)) m else m)
          ≡ free (some (map pos ids)) m
    nonempty [] = refl
    nonempty (id ∷ ids) = ground arith

-- What `ResetSeq` leaves of a manager whose table holds `owned`.
pub record Resets (s : ℕ) (m : BlockManager) (owned : ℕ → List ℕ) (m' : BlockManager) : Type 0 where
  pub valid : IsValid m'
  pub holds : Holds m'.table (update owned s [])
  pub marks :
      (b : ℕ)
      → get_elem? m'.in_use b ≡ (
          if mentions (map pos (owned s)) b
          then released (get_elem? m.in_use b)
          else get_elem? m.in_use b)
  pub accounted :
      num_free_blocks m' + m'.double_free_events
      ≡ num_free_blocks m + m.double_free_events + length (owned s)
  pub same_total : m'.num_blocks ≡ m.num_blocks
  pub same_seqs : m'.table.max_num_seqs ≡ m.table.max_num_seqs
  pub same_width : m'.table.max_blocks_per_seq ≡ m.table.max_blocks_per_seq
  pub moved : m'.table.revision ≡ next_revision m.table.revision

reset-Freed :
    (s : ℕ) (m f : BlockManager) (owned : ℕ → List ℕ)
    → Holds m.table owned
    → s < m.table.max_num_seqs
    → Freed (map pos (owned s)) m f
    → Resets s m owned (record f {
      table = record (f.table) {
        host = clear_row f.table.host (row_start m.table s) m.table.max_blocks_per_seq;
        revision = next_revision f.table.revision;
      };
    })
unfolding num_free_blocks
reset-Freed s m f owned h hs freed =
    let acc = freed.accounted in
    let cleared = clear-Holds m.table owned s h hs (next_revision m.table.revision) in
    record {
      valid = record {
        sized = freed.valid.sized;
        matches = freed.valid.matches;
        all_counted = freed.valid.all_counted;
      };
      holds =
          subst
            (λ (t : BlockTable).
              Holds
                (record t {
                  host = clear_row t.host (row_start m.table s) m.table.max_blocks_per_seq;
                  revision = next_revision t.revision;
                })
                (update owned s []))
            (sym freed.same_table) cleared;
      marks = freed.marks;
      accounted = omega (arith, length-map_pos (owned s));
      same_total = freed.same_total;
      same_seqs = ap (λ (t : BlockTable). t.max_num_seqs) freed.same_table;
      same_width = ap (λ (t : BlockTable). t.max_blocks_per_seq) freed.same_table;
      moved = ap (λ (t : BlockTable). next_revision t.revision) freed.same_table;
    }

-- `ResetSeq` of an existing sequence, on a valid manager whose table holds `owned`: it succeeds,
-- releases the blocks of that sequence, empties its row and no other, and leaves a valid manager.
pub reset_seq-Resets :
    (s : ℕ) (m : BlockManager) (owned : ℕ → List ℕ)
    → IsValid m
    → Holds m.table owned
    → s < m.table.max_num_seqs
    → ((reset_seq (pos s) m).0 ≡ ok tt) × Resets s m owned (reset_seq (pos s) m).1
unfolding reset_seq reset_row
reset_seq-Resets s m owned v h hs =
    rw (lt→leb_false s m.table.max_num_seqs hs, row_freed s m owned h hs)
      (refl, reset-Freed s m _ owned h hs (free-Freed (map pos (owned s)) m v))
