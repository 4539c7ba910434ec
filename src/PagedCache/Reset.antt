-- ===== src/PagedCache/Reset.antt =====
-- `PagedKVCache::ResetSeq` and the invariant of the paged cache.
use sci_compute_attention.KvCache.Storage.{LaunchEnd}
use sci_compute_attention.Base.{
  ℕ, ◌+◌, ◌*◌, ◌≤◌, ◌<◌, ◌≡◌, inl, inr, refl, ◌∙◌, Bool, true, false, Option, none, some, List, [],
  ◌∷◌, map, arith, ℤ, pos, negsuc, ltb, leb, ◌==◌, if◌then◌else◌, length, get_elem?, get_or, set,
  count, length-set, get_or-set_self, get_or-set_ne, Bool-cases, ==→eq, ==→ne, leb→gt,
}
use sci_compute_attention.Status.{Status-cases}
use sci_compute_attention.BlockManager
use sci_compute_attention.BlockManager.{BlockManager, num_free_blocks}
use sci_compute_attention.BlockManager.Free.{released}
use sci_compute_attention.BlockManager.Release.{mentions-map_pos}
use sci_compute_attention.BlockManager.Table.{Resets, reset_seq-Resets}
use sci_compute_attention.KvCache.Storage
use sci_compute_attention.KvCache.Storage.Laws
use sci_compute_attention.Rows.Laws.{
  length-clear_row, row_of-clear_row, row_of-clear_row_other, row_bounds,
}
use sci_compute_attention.PagedCache.{
  PagedKvCache, owned, release_seq, clear_storage, reset_existing, reset_seq,
}
use sci_compute_attention.PagedCache.Append.{store_failed}
use sci_compute_attention.PagedCache.Invariant.{
  IsValid, PageRow, owners, used_weight, owners-set, get_or-set_blocks, Holds-cong, row_bound,
}

released_weight :
    (o : Option Bool) (n rest : ℕ)
    → rest + n ≡ used_weight o
    → rest ≡ used_weight (if ltb 0 n then released o else o)
released_weight none n rest h = ground arith
released_weight (some true) n rest h = ground arith
released_weight (some false) n rest h = ground arith

module _ (c : PagedKvCache) (s : ℕ) (v : IsValid c) (hs : s < c.cfg.max_num_seqs) where
  freed : Resets s c.blocks (owned c) (BlockManager.reset_seq (pos s) c.blocks).1
  freed =
      let seqs = v.core.seqs in
      (reset_seq-Resets s c.blocks (owned c) v.core.blocks v.core.table (omega arith)).1

  inside : s < length c.seq_blocks
  inside = let l = v.core.lists in omega arith

  released_room :
      (t : ℕ)
      → get_or (set c.seq_lengths s 0) t 0
        ≤ length (get_or (set c.seq_blocks s []) t []) * c.cfg.block_size
  released_room t =
      let l = v.core.lengths in
      elim (Bool-cases (s == t)) [
        | inl e ↦
            let p = ==→eq s t e in
            rw (← p, get_or-set_self c.seq_lengths s 0 0 (omega arith)) (omega arith)
        | inr e ↦
            let ne = ==→ne s t e in
            rw (get_or-set_ne c.seq_lengths s t 0 0 ne, get_or-set_ne c.seq_blocks s t [] [] ne)
              (v.core.room t)
      ]

  released_exclusive :
      (b : ℕ)
      → owners b (set c.seq_blocks s [])
        ≡ used_weight (get_elem? (BlockManager.reset_seq (pos s) c.blocks).1.in_use b)
  released_exclusive b =
      rw (freed.marks b, mentions-map_pos (owned c s) b)
        (released_weight (get_elem? c.blocks.in_use b) (count b (owned c s)) _
          (omega (arith, owners-set b c.seq_blocks s [] inside, v.core.exclusive b)))

  cleared_row : (o : ℕ) → o < c.cfg.max_num_seqs → PageRow (release_seq s c) o
  unfolding release_seq
  cleared_row o ho =
      let w = c.max_blocks_per_seq in
      elim (Bool-cases (s == o)) [
        | inl e ↦
            rw (← ==→eq s o e, get_or-set_self c.seq_blocks s [] [] inside)
              (row_of-clear_row c.page_table_host (s * w) w (row_bound c v.core s hs))
        | inr e ↦
            let ne = ==→ne s o e in
            rw (get_or-set_ne c.seq_blocks s o [] [] ne) (
              row_of-clear_row_other c.page_table_host (s * w) w (o * w) w
                (elim (row_bounds s o w ne) [ inl p ↦ inr p | inr p ↦ inl p ])
              ∙ v.rows o ho)
      ]

  release_seq-IsValid : IsValid (release_seq s c)
  unfolding release_seq
  release_seq-IsValid = record {
    core = record {
      positive = v.core.positive;
      blocks = freed.valid;
      total = freed.same_total ∙ v.core.total;
      table = Holds-cong _ _ _ (λ t. get_or-set_blocks c.seq_blocks s t [] inside) freed.holds;
      seqs = freed.same_seqs ∙ v.core.seqs;
      width = freed.same_width ∙ v.core.width;
      lists = length-set c.seq_blocks s [] ∙ v.core.lists;
      lengths = length-set c.seq_lengths s 0 ∙ v.core.lengths;
      pages = length-clear_row _ _ _ ∙ v.core.pages;
      exclusive = released_exclusive;
      room = released_room;
      storage = v.core.storage;
      same_cfg = v.core.same_cfg;
    };
    rows = cleared_row;
  }

clear_storage-IsValid :
    (launched : ℕ → LaunchEnd) (ids : List ℕ) (st : Storage.KvCache)
    → Laws.IsValid st
    → Laws.IsValid (clear_storage launched ids st).1
unfolding clear_storage
clear_storage-IsValid launched [] st v = v
clear_storage-IsValid launched (b ∷ bs) st v =
    Laws.reset-IsValid launched (some (map pos (b ∷ bs))) (length (b ∷ bs)) st v

clear_storage-cfg :
    (launched : ℕ → LaunchEnd) (ids : List ℕ) (st : Storage.KvCache)
    → (clear_storage launched ids st).1.cfg ≡ st.cfg
unfolding clear_storage
clear_storage-cfg launched [] st = refl
clear_storage-cfg launched (b ∷ bs) st = Laws.reset-cfg launched (map pos (b ∷ bs)) _ st

reset_existing-IsValid :
    (launched : ℕ → LaunchEnd) (s : ℕ) (c : PagedKvCache)
    → IsValid c
    → s < c.cfg.max_num_seqs
    → IsValid (reset_existing launched s c).1
unfolding reset_existing
reset_existing-IsValid launched s c v hs =
    let after = clear_storage launched (owned c s) c.storage in
    let st = clear_storage-IsValid launched (owned c s) c.storage v.core.storage in
    let cfg = clear_storage-cfg launched (owned c s) c.storage in
    let stored = store_failed c after.1 st cfg v in
    elim (Status-cases after.0) [
      | inl (e, f) ↦ rw (f, reset_existing) stored
      | inr f ↦
          rw (f, reset_existing) (release_seq-IsValid (record c { storage = after.1 }) s stored hs)
    ]

-- `ResetSeq` on a valid cache, for any sequence id and whatever the device answers: the cache is
-- valid afterwards, whether the call succeeded or failed.
pub reset_seq-IsValid :
    (launched : ℕ → LaunchEnd) (seq_id : ℤ) (c : PagedKvCache)
    → IsValid c
    → IsValid (reset_seq launched seq_id c).1
unfolding reset_seq
reset_seq-IsValid launched (negsuc s) c v = v
reset_seq-IsValid launched (pos s) c v = elim (Bool-cases (leb c.cfg.max_num_seqs s)) [
  | inl outside ↦ rw outside v
  | inr inside ↦ rw inside (reset_existing-IsValid launched s c v (leb→gt _ s inside))
]
