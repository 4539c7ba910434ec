-- ===== src/KvCache/Examples.antt =====
-- The theorems on the configuration, the slots and the kernels at concrete inputs.
use sci_compute_attention.Base.{
  ℕ, zero, suc, ◌+◌, ◌*◌, ◌<◌, ◌≤◌, ◌≡◌, ◌↔◌, refl, true, some, List, [], ◌∷◌, arith, pos,
  minus_one, get_or,
}
use sci_compute_attention.Types.{float16, block_major, supported_head_dim_index}
use sci_compute_attention.Status.{ok}
use sci_compute_attention.Rows.Laws.{padded}
use sci_compute_attention.KvCache.{
  KvCacheConfig, KvCacheShape, kv_layer_elements, kv_cache_bytes, max_blocks_for_budget,
  compute_slot_mapping, validate_config, is_supported_block_size, is_block_major,
}
use sci_compute_attention.KvCache.Config.{
  IsUsable, cache_bytes, block_bytes, kv_cache_bytes_lem, max_blocks_for_budget_iff,
  validate_config_iff,
}
use sci_compute_attention.KvCache.Slots.{slots_of, AllBelow, compute_slot_mapping_lem}
use sci_compute_attention.KvCache.Kernels.{kv_append_kernel}
use sci_compute_attention.KvCache.Kernels.Append.{layer_row, kv_append_stores}

abbrev cfg : KvCacheConfig
cfg = record {
  num_layers = 1;
  num_kv_heads = 1;
  head_dim = 32;
  block_size = 1;
  num_blocks = 2;
  max_num_seqs = 2;
  dtype = float16;
  layout = block_major;
  enable_stats = true;
}

cfg-IsUsable : IsUsable cfg
unfolding validate_config is_supported_block_size is_block_major supported_head_dim_index
cfg-IsUsable = (validate_config_iff cfg).0 refl

kv_cache_bytes_lem_example : kv_cache_bytes cfg ≡ ok (cache_bytes cfg)
kv_cache_bytes_lem_example = kv_cache_bytes_lem cfg cfg-IsUsable (omega arith)

max_blocks_for_budget_iff_example :
    (7 ≤ max_blocks_for_budget cfg 1000) ↔ (7 * block_bytes cfg ≤ 1000)
max_blocks_for_budget_iff_example = max_blocks_for_budget_iff cfg 1000 7 cfg-IsUsable (omega arith)

blocks-AllBelow : AllBelow 4 (3 ∷ 1 ∷ [])
blocks-AllBelow zero h = omega arith
blocks-AllBelow (suc zero) h = omega arith
blocks-AllBelow (suc (suc i)) h = absurd (omega arith)

compute_slot_mapping_lem_example :
    compute_slot_mapping (some (padded 3 (3 ∷ 1 ∷ []))) 6 5 8 3 ≡ ok (slots_of (3 ∷ 1 ∷ []) 8 6 5)
compute_slot_mapping_lem_example =
    compute_slot_mapping_lem (3 ∷ 1 ∷ []) 3 8 4 (omega arith) (omega arith) blocks-AllBelow
      (omega arith) 6 5 (omega arith) (omega arith)

-- Two blocks of two slots with one head of two elements.
abbrev shape : KvCacheShape
shape = record { num_blocks = 2; block_size = 2; num_kv_heads = 1; head_dim = 2 }

abbrev layer : List ℕ
layer = 1 ∷ 2 ∷ 3 ∷ 4 ∷ 5 ∷ 6 ∷ 7 ∷ 8 ∷ []

abbrev src : List ℕ
src = 11 ∷ 12 ∷ 13 ∷ 14 ∷ []

slots_unique : (t : ℕ) → t < 2 → get_or (pos 3 ∷ pos 0 ∷ []) t minus_one ≡ pos 0 → t ≡ 1
slots_unique zero h e = ground arith
slots_unique (suc zero) h e = refl
slots_unique (suc (suc t)) h e = absurd (omega arith)

kv_append_stores_example :
    layer_row shape 1 (kv_append_kernel shape 1 (pos 3 ∷ pos 0 ∷ []) src 2 layer) (0 * 1 + 0)
    ≡ layer_row shape 1 src (1 * 1 + 0)
unfolding kv_layer_elements
kv_append_stores_example =
    kv_append_stores shape 1 (pos 3 ∷ pos 0 ∷ []) src 2 layer refl 1 0 0 (omega arith) (omega arith)
      (omega arith) refl slots_unique

validate_config_iff_example : (validate_config cfg ≡ ok tt) ↔ IsUsable cfg
validate_config_iff_example = validate_config_iff cfg
