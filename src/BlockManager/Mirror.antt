-- ===== src/BlockManager/Mirror.antt =====
-- The device mirror of the page table: `SyncTableToDevice` may skip the upload when the revisions
-- agree.
use sci_compute_attention.Base.{
  ◌+◌, ◌^◌, ◌≤◌, ◌<◌, ◌≡◌, ◌⊎◌, inl, inr, Option, some, List, arith, ℤ, Bool-cases, ◌==◌,
}
use sci_compute_attention.Status.{ok}
use sci_compute_attention.BlockManager.{
  BlockManager, BlockTable, next_revision, append_to_table, append_pointer, append_ids, append_at,
  sync_table_to_device, sync_device,
}

-- The last upload is not ahead of the table, and where the revisions agree the device holds the
-- host table.
pub record IsMirrored (t : BlockTable) : Type 0 where
  pub behind : t.synced_revision ≤ t.revision
  pub current : t.synced_revision ≡ t.revision → t.device ≡ some t.host

IsMirrored-moved :
    (t t' : BlockTable)
    → t'.synced_revision ≡ t.synced_revision
    → t'.revision ≡ next_revision t.revision
    → t.revision + 1 < 2 ^ 64
    → IsMirrored t
    → IsMirrored t'
IsMirrored-moved t t' e r small v =
    let behind = v.behind in record { behind = omega arith; current = λ same. absurd (omega arith) }

-- What a change of the table leaves of the revisions.
append_moves :
    (seq_id : ℤ) (ids : Option (List ℤ)) (m : BlockManager)
    → let t' = (append_to_table seq_id ids m).1.table in
      (t' ≡ m.table)
      ⊎ ((t'.synced_revision ≡ m.table.synced_revision)
          × (t'.revision ≡ next_revision m.table.revision))
unfolding append_to_table append_pointer append_ids append_at
append_moves seq_id ids m = ground arith

-- `AppendToTable`, with any arguments, keeps the mirror sound as long as the revision counter does
-- not wrap.
pub append_to_table-IsMirrored :
    (seq_id : ℤ) (ids : Option (List ℤ)) (m : BlockManager)
    → m.table.revision + 1 < 2 ^ 64
    → IsMirrored m.table
    → IsMirrored (append_to_table seq_id ids m).1.table
append_to_table-IsMirrored seq_id ids m small v = elim (append_moves seq_id ids m) [
  | inl same ↦ rw same v
  | inr moved ↦ IsMirrored-moved m.table _ moved.0 moved.1 small v
]

-- `SyncTableToDevice` on an allocated table succeeds, and the device then holds the host table,
-- also where the upload is skipped; nothing but the mirror and its revision changes.
pub sync_table_to_device_lem :
    (m : BlockManager) (old : List ℤ)
    → m.table.device ≡ some old
    → IsMirrored m.table
    → let (status, m') = sync_table_to_device m in
      (status ≡ ok tt)
      × (m'.table.device ≡ some m.table.host)
      × (m'.table.synced_revision ≡ m'.table.revision)
      × (m'.table.revision ≡ m.table.revision)
      × (m'.table.host ≡ m.table.host)
      × (m'.in_use ≡ m.in_use)
      × (m'.free_list ≡ m.free_list)
unfolding sync_table_to_device sync_device
sync_table_to_device_lem m old e v =
    elim (Bool-cases (m.table.synced_revision == m.table.revision)) [
      | inl same ↦ ground (arith, v.current)
      | inr other ↦ ground arith
    ]
