-- ===== src/PagedCache/Examples.antt =====
-- The theorems on the paged cache at a cache of two blocks of one token, and after an append to it.
use sci_compute_attention.Base.{
  ℕ, ◌+◌, ◌*◌, ◌≤◌, ◌<◌, ◌≡◌, ◌^◌, length, refl, true, false, some, [], ◌∷◌, arith, pos, minus_one,
}
use sci_compute_attention.Rows.{row_of, used_slots, write_row, clear_row}
use sci_compute_attention.Status.{ok, sci, error}
use sci_compute_attention.BlockManager.{
  allocate, take_blocks, append_to_table, append_pointer, append_ids, append_at,
}
use sci_compute_attention.KvCache.{compute_slot_mapping, slots_from, slot_at, slot_in}
use sci_compute_attention.KvCache.Storage.{
  append, append_slots, append_layer, wrong_shape, launch_kv_append, clean, refused,
}
use sci_compute_attention.BlockManager.Examples.{fresh_manager, fresh_manager-created}
use sci_compute_attention.KvCache.Slots.{slot_of}
use sci_compute_attention.KvCache.Storage.Examples.{
  cfg, buffers, buffers-IsSized, cache, cache-created, token,
}
use sci_compute_attention.PagedCache.{
  PagedKvCache, create, append_tokens, reset_seq, owned, seq_len, force_sync_page_table,
}
use sci_compute_attention.PagedCache.Attach.{append_tokens-IsValid}
use sci_compute_attention.PagedCache.Create.{create-IsValid}
use sci_compute_attention.PagedCache.Invariant.{IsValid}
use sci_compute_attention.PagedCache.PageTable.{page_table_row}
use sci_compute_attention.PagedCache.Reset.{reset_seq-IsValid}
use sci_compute_attention.PagedCache.Slots.{
  page_table_row_unique, device_table, force_sync_page_table-lookup,
}

abbrev pub empty : PagedKvCache
empty = record {
  cfg = cfg;
  max_blocks_per_seq = 2;
  storage = cache;
  blocks = fresh_manager;
  seq_lengths = 0 ∷ 0 ∷ [];
  seq_blocks = [] ∷ [] ∷ [];
  page_table_host = minus_one ∷ minus_one ∷ minus_one ∷ minus_one ∷ [];
  page_table_device = some (minus_one ∷ minus_one ∷ minus_one ∷ minus_one ∷ []);
  slot_buffer = false;
  slot_mapping_capacity = 0;
  revision = 1;
  synced_revision = 1;
  num_appends = 0;
  num_resets = 0;
}

empty-created : create cfg (some 1000) buffers true true ≡ ok empty
unfolding create
empty-created = rw (cache-created, fresh_manager-created) refl

empty-IsValid : IsValid empty
empty-IsValid =
    create-IsValid cfg (some 1000) buffers true true empty buffers-IsSized (omega arith)
      empty-created

create-IsValid_example : IsValid empty
create-IsValid_example =
    create-IsValid cfg (some 1000) buffers true true empty buffers-IsSized (omega arith)
      empty-created

append_tokens-IsValid_example :
    IsValid (append_tokens true clean (pos 1) (pos 0) token token empty).1
append_tokens-IsValid_example =
    append_tokens-IsValid true clean (pos 1) (pos 0) token token empty empty-IsValid

-- After one token for sequence 1.
abbrev pub after : PagedKvCache
after = (append_tokens true clean (pos 1) (pos 0) token token empty).1

pub after-IsValid : IsValid after
after-IsValid = append_tokens-IsValid true clean (pos 1) (pos 0) token token empty empty-IsValid

reset_seq-IsValid_example : IsValid (reset_seq (λ l. clean) (pos 1) after).1
reset_seq-IsValid_example = reset_seq-IsValid (λ l. clean) (pos 1) after after-IsValid

pub after_len : 0 < seq_len after 1
unfolding append_tokens allocate take_blocks append_to_table append_pointer append_ids append_at
    append append_slots append_layer wrong_shape launch_kv_append compute_slot_mapping slots_from
    slot_at slot_in used_slots write_row clear_row row_of
after_len = omega arith

pub after_device :
    after.page_table_device ≡ some (minus_one ∷ minus_one ∷ minus_one ∷ minus_one ∷ [])
unfolding append_tokens allocate take_blocks append_to_table append_pointer append_ids append_at
    append append_slots append_layer wrong_shape launch_kv_append compute_slot_mapping slots_from
    slot_at slot_in used_slots write_row clear_row row_of
after_device = refl

pub after_seqs : 1 < after.cfg.max_num_seqs
unfolding append_tokens allocate take_blocks append_to_table append_pointer append_ids append_at
    append append_slots append_layer wrong_shape launch_kv_append compute_slot_mapping slots_from
    slot_at slot_in used_slots write_row clear_row row_of
after_seqs = omega arith

pub after_small : after.cfg.num_blocks * after.cfg.block_size ≤ 2 ^ 31
unfolding append_tokens allocate take_blocks append_to_table append_pointer append_ids append_at
    append append_slots append_layer wrong_shape launch_kv_append compute_slot_mapping slots_from
    slot_at slot_in used_slots write_row clear_row row_of
after_small = omega arith

page_table_row_unique_example : (◌≡◌ {A = ℕ} 1 1) × (◌≡◌ {A = ℕ} 0 0)
page_table_row_unique_example =
    page_table_row_unique after 1 1 0 0 after-IsValid after_seqs after_seqs after_len after_len refl

-- An append whose kernel launch fails: the sequence has its block, and no token in it.
abbrev failed : PagedKvCache
failed = (append_tokens true (refused (sci error)) (pos 0) (pos 0) token token empty).1

failed-IsValid : IsValid failed
failed-IsValid =
    append_tokens-IsValid true (refused (sci error)) (pos 0) (pos 0) token token empty empty-IsValid

failed_small : failed.cfg.num_blocks * failed.cfg.block_size ≤ 2 ^ 31
unfolding append_tokens allocate take_blocks append_to_table append_pointer append_ids append_at
    append append_slots append_layer wrong_shape launch_kv_append compute_slot_mapping slots_from
    slot_at slot_in used_slots write_row clear_row row_of
failed_small = omega arith

failed_seqs : 0 < failed.cfg.max_num_seqs
unfolding append_tokens allocate take_blocks append_to_table append_pointer append_ids append_at
    append append_slots append_layer wrong_shape launch_kv_append compute_slot_mapping slots_from
    slot_at slot_in used_slots write_row clear_row row_of
failed_seqs = omega arith

failed_room : seq_len failed 0 + 1 ≤ length (owned failed 0) * failed.cfg.block_size
unfolding append_tokens allocate take_blocks append_to_table append_pointer append_ids append_at
    append append_slots append_layer wrong_shape launch_kv_append compute_slot_mapping slots_from
    slot_at slot_in used_slots write_row clear_row row_of
failed_room = omega arith

force_sync_page_table-lookup_example :
    page_table_row
      (device_table (force_sync_page_table after).1)
      1
      0
      after.cfg.block_size
      after.max_blocks_per_seq
      after.cfg.num_blocks
    ≡ pos (slot_of (owned after 1) after.cfg.block_size 0)
force_sync_page_table-lookup_example =
    force_sync_page_table-lookup after 1 0 (minus_one ∷ minus_one ∷ minus_one ∷ minus_one ∷ [])
      after-IsValid after_device after_seqs after_len
