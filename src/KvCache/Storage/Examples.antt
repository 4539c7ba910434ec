-- ===== src/KvCache/Storage/Examples.antt =====
-- The theorems on the storage at a cache of one layer with two blocks of one token.
use sci_compute_attention.Base.{
  ℕ, ◌*◌, ◌≡◌, refl, true, some, none, List, Option, [], ◌∷◌, length, replicate, ap, sym,
}
use sci_compute_attention.Types.{float16, dtype_size, block_major, supported_head_dim_index}
use sci_compute_attention.Tensor.{Tensor, cuda}
use sci_compute_attention.Status.{ok}
use sci_compute_attention.KvCache.{
  KvCacheConfig, to_device_shape, kv_layer_elements, kv_cache_bytes, validate_config,
  is_supported_block_size, is_block_major, not_positive,
}
use sci_compute_attention.KvCache.Storage.{KvCache, create, over_budget, allocate_layers}
use sci_compute_attention.KvCache.Storage.Create.{IsSized}

abbrev pub cfg : KvCacheConfig
cfg = record {
  num_layers = 1;
  num_kv_heads = 1;
  head_dim = 32;
  block_size = 1;
  num_blocks = 2;
  max_num_seqs = 2;
  dtype = float16;
  layout = block_major;
  enable_stats = true;
}

-- An allocator that never fails.
abbrev pub buffers : ℕ → Option (List ℕ × List ℕ)
buffers l = some (replicate 128 0, replicate 128 0)

keys_of : Option (List ℕ × List ℕ) → List ℕ
keys_of none = []
keys_of (some (k, v)) = k

values_of : Option (List ℕ × List ℕ) → List ℕ
values_of none = []
values_of (some (k, v)) = v

pub buffers-IsSized :
    IsSized (kv_layer_elements (to_device_shape cfg) * dtype_size cfg.dtype) buffers
unfolding kv_layer_elements keys_of values_of
buffers-IsSized l k v e =
    (ap (λ o. length (keys_of o)) (sym e), ap (λ o. length (values_of o)) (sym e))

abbrev pub cache : KvCache
cache = record {
  cfg = cfg;
  layer_elements = 64;
  k_layers = replicate 128 0 ∷ [];
  v_layers = replicate 128 0 ∷ [];
  stats = record {
    num_blocks = 2;
    used_blocks = 0;
    free_blocks = 2;
    num_appends = 0;
    num_resets = 0;
    peak_bytes = 256;
    bytes = 256;
  };
}

pub cache-created : create cfg (some 1000) buffers ≡ ok cache
unfolding create over_budget allocate_layers validate_config is_supported_block_size is_block_major
    supported_head_dim_index kv_cache_bytes not_positive
cache-created = refl

-- One new token.
abbrev pub token : Tensor
token = record {
  dims = 1 ∷ 1 ∷ 32 ∷ [];
  dtype = float16;
  device_type = cuda;
  is_contiguous = true;
  bytes = replicate 64 7;
}
