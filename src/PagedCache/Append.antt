-- ===== src/PagedCache/Append.antt =====
-- The end of `PagedKVCache::AppendTokens`, from the slot mapping on, and the invariant.
use sci_compute_attention.KvCache.Storage.{LaunchEnd}
use sci_compute_attention.Base.{
  ℕ, ◌+◌, ◌*◌, ◌≤◌, ◌<◌, ◌≡◌, inl, inr, ◌∙◌, Bool, true, false, none, some, List, arith, ℤ, ltb,
  ◌==◌, if◌then◌else◌, length, get_or, set, length-set, get_or-set_self, get_or-set_ne, Bool-cases,
  ==→eq, ==→ne,
}
use sci_compute_attention.Status.{Result, Status-cases, Result-cases}
use sci_compute_attention.Tensor.{Tensor, dim}
use sci_compute_attention.KvCache.{compute_slot_mapping}
use sci_compute_attention.KvCache.Storage
use sci_compute_attention.Rows.{row_of}
use sci_compute_attention.KvCache.Storage.Laws
use sci_compute_attention.PagedCache.{
  PagedKvCache, owned, seq_len, store_tokens, with_buffer, write_tokens,
}
use sci_compute_attention.PagedCache.Invariant.{IsValid}

-- A change of the storage and of the counters alone.
pub store_failed :
    (c : PagedKvCache) (st : Storage.KvCache)
    → Laws.IsValid st
    → st.cfg ≡ c.storage.cfg
    → IsValid c
    → IsValid (record c { storage = st })
store_failed c st valid same v = record {
  core = record {
    positive = v.core.positive;
    blocks = v.core.blocks;
    total = v.core.total;
    table = v.core.table;
    seqs = v.core.seqs;
    width = v.core.width;
    lists = v.core.lists;
    lengths = v.core.lengths;
    pages = v.core.pages;
    exclusive = v.core.exclusive;
    room = v.core.room;
    storage = valid;
    same_cfg = same ∙ v.core.same_cfg;
  };
  rows = v.rows;
}

longer_room :
    (c : PagedKvCache) (s n t : ℕ)
    → s < length c.seq_lengths
    → seq_len c s + n ≤ length (owned c s) * c.cfg.block_size
    → ((o : ℕ) → seq_len c o ≤ length (owned c o) * c.cfg.block_size)
    → get_or (set c.seq_lengths s (seq_len c s + n)) t 0 ≤ length (owned c t) * c.cfg.block_size
longer_room c s n t hs fits room = elim (Bool-cases (s == t)) [
  | inl e ↦
      let p = ==→eq s t e in rw (← p, get_or-set_self c.seq_lengths s (seq_len c s + n) 0 hs) fits
  | inr e ↦ rw (get_or-set_ne c.seq_lengths s t (seq_len c s + n) 0 (==→ne s t e)) (room t)
]

buffer_changed :
    (c : PagedKvCache) (buffer : Bool) (capacity : ℕ)
    → IsValid c
    → IsValid (record c { slot_buffer = buffer; slot_mapping_capacity = capacity })
buffer_changed c buffer capacity v = record {
  core = record {
    positive = v.core.positive;
    blocks = v.core.blocks;
    total = v.core.total;
    table = v.core.table;
    seqs = v.core.seqs;
    width = v.core.width;
    lists = v.core.lists;
    lengths = v.core.lengths;
    pages = v.core.pages;
    exclusive = v.core.exclusive;
    room = v.core.room;
    storage = v.core.storage;
    same_cfg = v.core.same_cfg;
  };
  rows = v.rows;
}

-- What `AppendTokens` asks of `ComputeSlotMapping`.
abbrev pub mapping : PagedKvCache → ℕ → ℕ → Result (List ℤ)
mapping c s n =
    compute_slot_mapping
      (some (row_of c.page_table_host (s * c.max_blocks_per_seq) c.max_blocks_per_seq))
      (seq_len c s) n c.cfg.block_size c.max_blocks_per_seq

module _ (buffer_ok : Bool) (launched : LaunchEnd) (s : ℕ) (layer : ℤ) (k v : Tensor) where
  store_tokens-IsValid :
      (slots : List ℤ) (c : PagedKvCache)
      → IsValid c
      → s < c.cfg.max_num_seqs
      → seq_len c s + dim k 0 ≤ length (owned c s) * c.cfg.block_size
      → IsValid (store_tokens launched s layer k v slots c).1
  unfolding store_tokens
  store_tokens-IsValid slots c valid hs fits =
      let pointer = if c.slot_buffer then some slots else none in
      let after = Storage.append launched layer k v pointer (dim k 0) c.storage in
      let st =
        Laws.append-IsValid launched layer k v pointer (dim k 0) c.storage valid.core.storage in
      let cfg = Laws.append-cfg launched layer k v pointer (dim k 0) c.storage in
      let lengths = valid.core.lengths in
      elim (Status-cases after.0) [
        | inl (e, f) ↦ rw (f, store_tokens) (store_failed c after.1 st cfg valid)
        | inr f ↦
            rw (f, store_tokens)
              (record {
                core = record {
                  positive = valid.core.positive;
                  blocks = valid.core.blocks;
                  total = valid.core.total;
                  table = valid.core.table;
                  seqs = valid.core.seqs;
                  width = valid.core.width;
                  lists = valid.core.lists;
                  lengths = length-set c.seq_lengths s _ ∙ valid.core.lengths;
                  pages = valid.core.pages;
                  exclusive = valid.core.exclusive;
                  room = λ t. longer_room c s (dim k 0) t (omega arith) fits valid.core.room;
                  storage = st;
                  same_cfg = cfg ∙ valid.core.same_cfg;
                };
                rows = valid.rows;
              })
      ]

  with_buffer-IsValid :
      (slots : List ℤ) (c : PagedKvCache)
      → IsValid c
      → s < c.cfg.max_num_seqs
      → seq_len c s + dim k 0 ≤ length (owned c s) * c.cfg.block_size
      → IsValid (with_buffer buffer_ok launched s layer k v slots c).1
  unfolding with_buffer
  with_buffer-IsValid slots c valid hs fits =
      elim (Bool-cases (ltb c.slot_mapping_capacity (dim k 0))) [
        | inr enough ↦ rw enough (store_tokens-IsValid slots c valid hs fits)
        | inl small ↦ elim (Bool-cases buffer_ok) [
          | inl grown ↦
              rw (small, grown)
                (store_tokens-IsValid slots _ (buffer_changed c true _ valid) hs fits)
          | inr none_left ↦
              rw (small, none_left) (buffer_changed c false c.slot_mapping_capacity valid)
        ]
      ]

  pub write_tokens-IsValid :
      (c : PagedKvCache)
      → IsValid c
      → s < c.cfg.max_num_seqs
      → seq_len c s + dim k 0 ≤ length (owned c s) * c.cfg.block_size
      → IsValid (write_tokens buffer_ok launched s layer k v c).1
  unfolding write_tokens
  write_tokens-IsValid c valid hs fits = elim (Result-cases (mapping c s (dim k 0))) [
    | inl (e, f) ↦ rw (f, write_tokens) valid
    | inr (slots, f) ↦ rw (f, write_tokens) (with_buffer-IsValid slots c valid hs fits)
  ]
