-- ===== src/KvCache/Config.antt =====
-- `ValidateConfig`, `KvCacheBytes` and `MaxBlocksForBudget`: what they accept and compute.
use native.Mathlib.Nat.{
  mod-eq_of_lt, add-mul-mod_self_left, div-add-mod, mul_comm, le-div_iff_mul-le,
}
use sci_compute_attention.Base.{
  ℕ, zero, suc, sym, ap, ◌∙◌, ◌+◌, ◌*◌, ◌/◌, ◌%◌, ◌^◌, ◌≤◌, ◌<◌, ◌≡◌, ◌⊎◌, ◌↔◌, true, false, arith,
  is_neg,
}
use sci_compute_attention.Types.{
  DType, dtype_size, is_supported_compute_dtype, supported_head_dim_index,
}
use sci_compute_attention.Status.{ok}
use sci_compute_attention.KvCache.{
  KvCacheConfig, validate_config, kv_cache_bytes, max_blocks_for_budget, not_positive,
}

-- The configurations that the cache is specified for (docs/kv_cache.md).
pub record IsUsable (cfg : KvCacheConfig) : Type 0 where
  pub layers : 0 < cfg.num_layers
  pub heads : 0 < cfg.num_kv_heads
  pub dims : is_neg (supported_head_dim_index cfg.head_dim) ≡ false
  pub page :
      (cfg.block_size ≡ 1)
      ⊎ (cfg.block_size ≡ 8)
      ⊎ (cfg.block_size ≡ 16)
      ⊎ (cfg.block_size ≡ 32)
      ⊎ (cfg.block_size ≡ 64)
  pub blocks : 0 < cfg.num_blocks
  pub seqs : 0 < cfg.max_num_seqs
  pub compute : is_supported_compute_dtype cfg.dtype ≡ true

validate_config_sound : (cfg : KvCacheConfig) → validate_config cfg ≡ ok tt → IsUsable cfg
unfolding validate_config
validate_config_sound cfg h = ground arith

validate_config_complete : (cfg : KvCacheConfig) → IsUsable cfg → validate_config cfg ≡ ok tt
unfolding validate_config
validate_config_complete cfg u = ground arith

-- `ValidateConfig` accepts exactly the usable configurations.
pub validate_config_iff : (cfg : KvCacheConfig) → (validate_config cfg ≡ ok tt) ↔ IsUsable cfg
validate_config_iff cfg = (validate_config_sound cfg, validate_config_complete cfg)

mul-mod_left : (a b m : ℕ) → a % m * b % m ≡ a * b % m
mul-mod_left a b m = sym (ap (λ x. x % m) split ∙ add-mul-mod_self_left (a % m * b) m (a / m * b))
  where
    split : a * b ≡ a % m * b + m * (a / m * b)
    split = grind (arith, div-add-mod a m)

mul-mod_right : (a b m : ℕ) → a * (b % m) % m ≡ a * b % m
mul-mod_right a b m = rw (mul_comm a (b % m), mul-mod_left b a m, mul_comm b a)

-- The two products in the order in which the code forms them, without the wrap-around.
abbrev pub cache_bytes : KvCacheConfig → ℕ
cache_bytes cfg =
    2
    * cfg.num_layers
    * (cfg.num_blocks * cfg.block_size * cfg.num_kv_heads * cfg.head_dim)
    * dtype_size cfg.dtype

abbrev pub block_bytes : KvCacheConfig → ℕ
block_bytes cfg =
    2 * cfg.num_layers * cfg.block_size * cfg.num_kv_heads * cfg.head_dim * dtype_size cfg.dtype

mul_pos : (a b : ℕ) → 0 < a → 0 < b → 0 < a * b
mul_pos a b h k = grind arith

head_dim_pos : (d : ℕ) → is_neg (supported_head_dim_index d) ≡ false → 0 < d
unfolding supported_head_dim_index
head_dim_pos zero h = ground arith
head_dim_pos (suc d) h = omega arith

dtype_size_pos : (d : DType) → 0 < dtype_size d
dtype_size_pos DType.float32 = omega arith
dtype_size_pos _ = omega arith

positive : (n : ℕ) → 0 < n → n < 2 ^ 63 → not_positive n ≡ false
unfolding not_positive
positive n h k = ground arith

cache_bytes_pos : (cfg : KvCacheConfig) → IsUsable cfg → 0 < cache_bytes cfg
cache_bytes_pos cfg u =
    mul_pos _ _
      (mul_pos _ _ (mul_pos 2 _ (omega arith) u.layers)
        (mul_pos _ _ (mul_pos _ _ (mul_pos _ _ u.blocks page) u.heads) (head_dim_pos _ u.dims)))
      (dtype_size_pos cfg.dtype)
  where
    page : 0 < cfg.block_size
    page = ground (arith, u.page)

block_bytes_pos : (cfg : KvCacheConfig) → IsUsable cfg → 0 < block_bytes cfg
block_bytes_pos cfg u =
    mul_pos _ _
      (mul_pos _ _ (mul_pos _ _ (mul_pos _ _ (mul_pos 2 _ (omega arith) u.layers) page) u.heads)
        (head_dim_pos _ u.dims))
      (dtype_size_pos cfg.dtype)
  where
    page : 0 < cfg.block_size
    page = ground (arith, u.page)

-- For a usable configuration whose K and V storage is below 2^63 bytes, `KvCacheBytes` returns that
-- number of bytes.
pub kv_cache_bytes_lem :
    (cfg : KvCacheConfig)
    → IsUsable cfg
    → cache_bytes cfg < 2 ^ 63
    → kv_cache_bytes cfg ≡ ok (cache_bytes cfg)
unfolding kv_cache_bytes
kv_cache_bytes_lem cfg u small = rw (validate_config_complete cfg u) (
    simp (mul-mod_left, mul-mod_right)
      (rw
        (mod-eq_of_lt {m = 2 ^ 64} big, positive (cache_bytes cfg) (cache_bytes_pos cfg u) small)))
  where
    big : cache_bytes cfg < 2 ^ 64
    big = omega arith

-- For a usable configuration whose blocks are below 2^63 bytes, `MaxBlocksForBudget` is the largest
-- number of blocks that fits into the budget: a number of blocks fits exactly if it is at most that.
pub max_blocks_for_budget_iff :
    (cfg : KvCacheConfig) (budget n : ℕ)
    → IsUsable cfg
    → block_bytes cfg < 2 ^ 63
    → (n ≤ max_blocks_for_budget cfg budget) ↔ (n * block_bytes cfg ≤ budget)
unfolding max_blocks_for_budget
max_blocks_for_budget_iff cfg budget n u small = simp mul-mod_left (
    rw (mod-eq_of_lt {m = 2 ^ 64} big, positive (block_bytes cfg) (block_bytes_pos cfg u) small)
      (le-div_iff_mul-le (block_bytes_pos cfg u)))
  where
    big : block_bytes cfg < 2 ^ 64
    big = omega arith
