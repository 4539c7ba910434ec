-- ===== src/PagedCache/Attach.antt =====
-- `PagedKVCache::AppendTokens` from the allocation of blocks on, and as a whole, and the invariant.
use sci_compute_attention.KvCache.Storage.{LaunchEnd}
use sci_compute_attention.Base.{
  ℕ, ◌+◌, ◌-◌, ◌*◌, ◌/◌, ◌≤◌, ◌<◌, ◌≡◌, inl, inr, refl, sym, ap, subst, ◌∙◌, Bool, true, false, not,
  ◌||◌, Option, none, some, List, [], ◌∷◌, ◌++◌, map, arith, ℤ, pos, negsuc, ltb, leb, ◌==◌,
  if◌then◌else◌, length, get_elem?, get_or, set, count, length-set, length-append, count-append,
  get_or-set_self, get_or-set_ne, Bool-cases, ==→eq, ==→ne, leb→gt, ◌⊎◌,
}
use native.Mathlib.Nat.{lt-div-mul-add}
use sci_compute_attention.Status.{Status, Result, Error, ok, err, attn, kv_capacity_exceeded}
use sci_compute_attention.Tensor.{Tensor, ndims, dim}
use sci_compute_attention.BlockManager
use sci_compute_attention.BlockManager.{
  BlockManager, BlockTable, append_to_table, allocate, out_of_range,
}
use sci_compute_attention.BlockManager.Invariant.{free_weight}
use sci_compute_attention.BlockManager.Invariant
use sci_compute_attention.BlockManager.Allocate.{Allocated, Allocates, allocate-Allocates}
use sci_compute_attention.BlockManager.Release.{free-Freed, free-restores}
use sci_compute_attention.BlockManager.Table.{
  Holds, update, Appends, appended, refused, append_to_table-Appends,
}
use sci_compute_attention.PagedCache.{
  PagedKvCache, owned, seq_len, refresh_row, attach, to_allocate, append_new, append_tokens,
}
use sci_compute_attention.PagedCache.Append.{write_tokens-IsValid}
use sci_compute_attention.PagedCache.Invariant.{
  Core, IsValid, used_weight, owners-set, get_or-set_blocks, Holds-cong, refresh_row-IsValid,
}

-- Another block manager with the same marks and the same table.
pub blocks_changed :
    (c : PagedKvCache) (m : BlockManager)
    → BlockManager.Invariant.IsValid m
    → m.num_blocks ≡ c.blocks.num_blocks
    → m.table ≡ c.blocks.table
    → m.in_use ≡ c.blocks.in_use
    → IsValid c
    → IsValid (record c { blocks = m })
blocks_changed c m mv total table marks v = record {
  core = record {
    positive = v.core.positive;
    blocks = mv;
    total = total ∙ v.core.total;
    table = rw table v.core.table;
    seqs = rw table v.core.seqs;
    width = rw table v.core.width;
    lists = v.core.lists;
    lengths = v.core.lengths;
    pages = v.core.pages;
    exclusive = λ b. rw marks (v.core.exclusive b);
    room = v.core.room;
    storage = v.core.storage;
    same_cfg = v.core.same_cfg;
  };
  rows = v.rows;
}

used-marked :
    (o : Option Bool) (n : ℕ)
    → n ≤ free_weight o
    → used_weight (if ltb 0 n then some true else o) ≡ used_weight o + n
used-marked none n h = ground arith
used-marked (some true) n h = ground arith
used-marked (some false) n h = ground arith

mul_mono : (a b c : ℕ) → a ≤ b → a * c ≤ b * c
mul_mono a b c h = grind arith

-- The cache with new blocks handed to sequence `s`, before its row is refreshed.
abbrev with_blocks : PagedKvCache → ℕ → List ℕ → BlockManager → PagedKvCache
with_blocks c s new m = record c { blocks = m; seq_blocks = set c.seq_blocks s (owned c s ++ new) }

module _ (c : PagedKvCache) (s n : ℕ) (new : List ℕ) (ma : BlockManager) (v : IsValid c)
    (hs : s < c.cfg.max_num_seqs) (a : Allocated n c.blocks new ma) where
  inside : s < length c.seq_blocks
  inside = let l = v.core.lists in omega arith

  owned_after :
      (t : ℕ) → length (owned c t) ≤ length (get_or (set c.seq_blocks s (owned c s ++ new)) t [])
  owned_after t = elim (Bool-cases (s == t)) [
    | inl e ↦
        let p = ==→eq s t e in
        rw (← p, get_or-set_self c.seq_blocks s (owned c s ++ new) [] inside)
          (omega (arith, length-append (owned c s) new))
    | inr e ↦ rw (get_or-set_ne c.seq_blocks s t (owned c s ++ new) [] (==→ne s t e)) (omega arith)
  ]

  with_blocks-Core :
      (m : BlockManager)
      → Holds m.table (update (owned c) s (owned c s ++ new))
      → m ≡ record ma { table = m.table }
      → m.table.max_num_seqs ≡ ma.table.max_num_seqs
      → m.table.max_blocks_per_seq ≡ ma.table.max_blocks_per_seq
      → Core (with_blocks c s new m)
  with_blocks-Core m holds same seqs width =
      let marks : m.in_use ≡ ma.in_use = ap (λ (x : BlockManager). x.in_use) same in
      let before = a.same_table in
      record {
        positive = v.core.positive;
        blocks = subst BlockManager.Invariant.IsValid (sym same) (record {
          sized = a.valid.sized;
          matches = a.valid.matches;
          all_counted = a.valid.all_counted;
        });
        total = ap (λ (x : BlockManager). x.num_blocks) same ∙ a.same_total ∙ v.core.total;
        table =
            Holds-cong m.table _ (owned (with_blocks c s new m))
              (λ t. get_or-set_blocks c.seq_blocks s t (owned c s ++ new) inside) holds;
        seqs = seqs ∙ ap (λ (t : BlockTable). t.max_num_seqs) before ∙ v.core.seqs;
        width = width ∙ ap (λ (t : BlockTable). t.max_blocks_per_seq) before ∙ v.core.width;
        lists = length-set c.seq_blocks s _ ∙ v.core.lists;
        lengths = v.core.lengths;
        pages = v.core.pages;
        exclusive = λ b.
            let o = owners-set b c.seq_blocks s (owned c s ++ new) inside in
            let u = used-marked (get_elem? c.blocks.in_use b) (count b new) (a.exclusive b) in
            let w = v.core.exclusive b in
            let x = count-append b (owned c s) new in rw (marks, a.marked b) (omega arith);
        room = λ t. omega (
          arith,
          v.core.room t,
          mul_mono (length (owned c t)) _ c.cfg.block_size (owned_after t),
        );
        storage = v.core.storage;
        same_cfg = v.core.same_cfg;
      }

  with_blocks-IsValid :
      (m : BlockManager)
      → Holds m.table (update (owned c) s (owned c s ++ new))
      → m ≡ record ma { table = m.table }
      → m.table.max_num_seqs ≡ ma.table.max_num_seqs
      → m.table.max_blocks_per_seq ≡ ma.table.max_blocks_per_seq
      → IsValid (refresh_row s (with_blocks c s new m))
  with_blocks-IsValid m holds same seqs width =
      refresh_row-IsValid (with_blocks c s new m) s (with_blocks-Core m holds same seqs width) hs
        (λ o ho ne. rw (get_or-set_ne c.seq_blocks s o (owned c s ++ new) [] ne) (v.rows o ho))

-- The two ends of `AppendToTable`, as equations.
Appends-cases :
    (s : ℕ) (ids : List ℕ) (m : BlockManager) (f : ℕ → List ℕ) (r : Status × BlockManager)
    → Appends s ids m f r
    → (r ≡ (err (attn kv_capacity_exceeded), m))
      ⊎ ((m' : BlockManager) × (r ≡ (ok tt, m'))
          × Holds m'.table (update f s (f s ++ ids))
          × (m' ≡ record m { table = m'.table })
          × (m'.table.max_num_seqs ≡ m.table.max_num_seqs)
          × (m'.table.max_blocks_per_seq ≡ m.table.max_blocks_per_seq))
Appends-cases s ids m f _ (appended m' _ holds same _ seqs width) =
    inr (m', refl, holds, same, seqs, width)
Appends-cases s ids m f _ (refused _) = inl refl

-- The room that a sequence needs after new blocks came.
longer_owned :
    (c : PagedKvCache) (s n : ℕ) (new : List ℕ) (need : ℕ)
    → need ≤ (length (owned c s) + n) * c.cfg.block_size
    → s < length c.seq_blocks
    → length new ≡ n
    → need ≤ length (get_or (set c.seq_blocks s (owned c s ++ new)) s []) * c.cfg.block_size
longer_owned c s n new need h hs e =
    rw (get_or-set_self c.seq_blocks s (owned c s ++ new) [] hs, length-append (owned c s) new, e) h

-- Rounding up covers: so many blocks of `b` tokens have room for `n` tokens.
ceil_covers : (n b : ℕ) → 0 < b → n ≤ ((n + b - 1) / b) * b
ceil_covers n b h =
    let a = n + b - 1 in let near : a < a / b * b + b = lt-div-mul-add h in omega arith

enough_owned : (need b own : ℕ) → 0 < b → (need + b - 1) / b - own ≡ 0 → need ≤ own * b
enough_owned need b own h e =
    let q = (need + b - 1) / b in
    let m = mul_mono q own b (omega (arith, e)) in omega (arith, ceil_covers need b h)

enough_new :
    (need b own : ℕ)
    → 0 < b
    → 0 < (need + b - 1) / b - own
    → need ≤ (own + ((need + b - 1) / b - own)) * b
enough_new need b own h e =
    let q = (need + b - 1) / b in
    let m = mul_mono q (own + (q - own)) b (omega arith) in omega (arith, ceil_covers need b h)

-- The two ends of `Allocate` for a positive count, as equations.
Allocates-cases :
    (n : ℕ) (m : BlockManager) (r : Result (List ℕ) × BlockManager)
    → BlockManager.Invariant.IsValid m
    → Allocates n m r
    → ((e : Error) × (m' : BlockManager) × (r ≡ (err e, m'))
        × BlockManager.Invariant.IsValid m'
        × (m'.num_blocks ≡ m.num_blocks)
        × (m'.table ≡ m.table)
        × (m'.in_use ≡ m.in_use))
      ⊎ ((id : ℕ) × (ids : List ℕ) × (m' : BlockManager) × (r ≡ (ok (id ∷ ids), m'))
          × Allocated n m (id ∷ ids) m')
Allocates-cases n m (ok [], m') v (positive, most, a) = absurd (omega (arith, a.enough))
Allocates-cases n m (ok (id ∷ ids), m') v (positive, most, a) = inr (id, ids, m', refl, a)
Allocates-cases n m (err e, m') v (inl (z, code, same)) = inl (
  e,
  m',
  refl,
  subst BlockManager.Invariant.IsValid (sym same) v,
  ap (λ (x : BlockManager). x.num_blocks) same,
  ap (λ (x : BlockManager). x.table) same,
  ap (λ (x : BlockManager). x.in_use) same,
)
Allocates-cases n m (err e, m') v (inr (short, code, same)) = inl (
  e,
  m',
  refl,
  subst BlockManager.Invariant.IsValid (sym same)
      (record { sized = v.sized; matches = v.matches; all_counted = v.all_counted }),
  ap (λ (x : BlockManager). x.num_blocks) same,
  ap (λ (x : BlockManager). x.table) same,
  ap (λ (x : BlockManager). x.in_use) same,
)

module _ (buffer_ok : Bool) (launched : LaunchEnd) (s : ℕ) (layer : ℤ) (k v : Tensor) where
  attach-IsValid :
      (c : PagedKvCache) (n id : ℕ) (ids : List ℕ) (ma : BlockManager)
      → IsValid c
      → s < c.cfg.max_num_seqs
      → Allocated n c.blocks (id ∷ ids) ma
      → seq_len c s + dim k 0 ≤ (length (owned c s) + n) * c.cfg.block_size
      → IsValid (attach buffer_ok launched s layer k v (id ∷ ids) (record c { blocks = ma })).1
  unfolding attach
  attach-IsValid c n id ids ma valid hs a fits =
      let new = id ∷ ids in
      let seqs = valid.core.seqs in
      let lists = valid.core.lists in
      let bound : s < ma.table.max_num_seqs = rw a.same_table (omega arith) in
      let holds : Holds ma.table (owned c) = rw a.same_table valid.core.table in
      elim (Appends-cases s new ma (owned c) _
        (append_to_table-Appends s id ids ma (owned c) holds bound)) [
          | inl full ↦
              let freed = free-Freed (map pos new) ma a.valid in
              let back = free-restores n c.blocks new ma valid.core.blocks a in
              rw (ap (λ x. x.0) full, attach, ap (λ x. x.1) full)
                (blocks_changed c _ freed.valid (freed.same_total ∙ a.same_total) back.same_table
                  back.same_marks valid)
          | inr (m, done, filled, same, t, w) ↦
              let after = with_blocks-IsValid c s n new ma valid hs a m filled same t w in
              rw (ap (λ x. x.0) done, attach, ap (λ x. x.1) done)
                (write_tokens-IsValid buffer_ok launched s layer k v
                  (refresh_row s (with_blocks c s new m)) after hs
                  (longer_owned c s n new _ fits (inside c s n new ma valid hs a) a.enough))
        ]

  append_new-IsValid :
      (c : PagedKvCache)
      → IsValid c
      → s < c.cfg.max_num_seqs
      → IsValid (append_new buffer_ok launched s layer k v c).1
  unfolding append_new
  append_new-IsValid c valid hs =
      let need = seq_len c s + dim k 0 in
      let own = length (owned c s) in
      let size = c.cfg.block_size in
      let todo = to_allocate c s (dim k 0) in
      elim (Bool-cases (todo == 0)) [
        | inl none_new ↦ rw none_new (
            write_tokens-IsValid buffer_ok launched s layer k v (refresh_row s c)
              (refresh_row-IsValid c s valid.core hs (λ o ho ne. valid.rows o ho)) hs
              (enough_owned need size own valid.core.positive (==→eq todo 0 none_new)))
        | inr some_new ↦
            let fits =
              enough_new need size own valid.core.positive (omega (arith, ==→ne todo 0 some_new)) in
            elim (Allocates-cases todo c.blocks _ valid.core.blocks
              (allocate-Allocates todo c.blocks valid.core.blocks)) [
                | inl (e, m, failed, mv, total, table, marks) ↦
                    rw (some_new, ap (λ x. x.0) failed, append_new, ap (λ x. x.1) failed)
                      (blocks_changed c m mv total table marks valid)
                | inr (id, ids, m, done, a) ↦
                    rw (some_new, ap (λ x. x.0) done, append_new, ap (λ x. x.1) done)
                      (attach-IsValid c todo id ids m valid hs a fits)
              ]
      ]

-- `AppendTokens` on a valid cache, for any arguments and whatever the device answers: the cache is
-- valid afterwards, whether the call succeeded or failed at any of its steps.
pub append_tokens-IsValid :
    (buffer_ok : Bool) (launched : LaunchEnd) (seq_id layer : ℤ) (k v : Tensor) (c : PagedKvCache)
    → IsValid c
    → IsValid (append_tokens buffer_ok launched seq_id layer k v c).1
unfolding append_tokens
append_tokens-IsValid buffer_ok launched (negsuc s) layer k v c valid = valid
append_tokens-IsValid buffer_ok launched (pos s) layer k v c valid =
    let bad_rank = not (ndims k == 3) || (not (ndims v == 3) || not (dim k 0 == dim v 0)) in
    elim (Bool-cases (leb c.cfg.max_num_seqs s)) [
      | inl outside ↦ rw outside valid
      | inr ok_seq ↦ elim (Bool-cases (out_of_range layer c.cfg.num_layers)) [
        | inl outside ↦ rw (ok_seq, outside) valid
        | inr ok_layer ↦ elim (Bool-cases bad_rank) [
          | inl bad ↦ rw (ok_seq, ok_layer, bad) valid
          | inr good ↦ elim (Bool-cases (dim k 0 == 0)) [
            | inl z ↦ rw (ok_seq, ok_layer, good, z) valid
            | inr some_new ↦
                rw (ok_seq, ok_layer, good, some_new)
                  (append_new-IsValid buffer_ok launched s layer k v c valid (leb→gt _ s ok_seq))
          ]
        ]
      ]
    ]
