-- ===== src/KvCache/Storage/Append.antt =====
-- `KVCache::Append` of src/kv_cache/kv_cache.cpp: its failures, and where a token is stored.
use sci_compute_attention.Base.{ℕ, ◌+◌, ◌*◌, ◌<◌, ◌≡◌, ◌≢◌, List, [], ℤ, pos, minus_one, get_or}
use sci_compute_attention.Tensor.{Tensor}
use sci_compute_attention.Status.{Status, Error}
use sci_compute_attention.KvCache.{to_device_shape}
use sci_compute_attention.KvCache.Kernels.Append.{layer_row}
use sci_compute_attention.KvCache.Storage.{LaunchEnd, late, KvCache}
use sci_compute_attention.KvCache.Storage.Laws.{elem_bytes, num_slots}

-- What a successful `Append` has stored, in one layer and one of its two buffers.
pub record Stores (l : ℕ) (k : Tensor) (cache : KvCache) (slots : List ℤ) (n : ℕ)
    (before after : List (List ℕ)) : Type 0 where
  pub tokens :
      (token head s : ℕ)
      → token < n
      → head < cache.cfg.num_kv_heads
      → s < num_slots cache
      → get_or slots token minus_one ≡ pos s
      → ((t : ℕ) → t < n → get_or slots t minus_one ≡ pos s → t ≡ token)
      → layer_row
          (to_device_shape cache.cfg)
          (elem_bytes cache)
          (get_or after l [])
          (s * cache.cfg.num_kv_heads + head)
        ≡ layer_row
            (to_device_shape cache.cfg)
            (elem_bytes cache)
            k.bytes
            (token * cache.cfg.num_kv_heads + head)
  pub others :
      (head s : ℕ)
      → head < cache.cfg.num_kv_heads
      → ((t : ℕ) → t < n → get_or slots t minus_one ≢ pos s)
      → layer_row
          (to_device_shape cache.cfg)
          (elem_bytes cache)
          (get_or after l [])
          (s * cache.cfg.num_kv_heads + head)
        ≡ layer_row
            (to_device_shape cache.cfg)
            (elem_bytes cache)
            (get_or before l [])
            (s * cache.cfg.num_kv_heads + head)
  pub layers : (m : ℕ) → l ≢ m → get_or after m [] ≡ get_or before m []

-- What an `Append` leaves that fails: the cache as it was, or, where its launch reported an error although the
-- kernels ran, what a successful one would have stored in the layer, without counting an append.
pub data Fails (launched : LaunchEnd) (l : ℕ) (k v : Tensor) (slots : List ℤ) (n : ℕ)
    (cache : KvCache) : KvCache → Type 0 where
  untouched : Fails launched l k v slots n cache cache
  half_done :
      (e : Error) (after : KvCache)
      → launched ≡ late e
      → Stores l k cache slots n cache.k_layers after.k_layers
      → Stores l v cache slots n cache.v_layers after.v_layers
      → after.cfg ≡ cache.cfg
      → after.stats ≡ cache.stats
      → Fails launched l k v slots n cache after
