-- ===== src/KvCache/Storage.antt =====
-- The class `KVCache` of src/kv_cache/kv_cache.cpp, with the launch functions of
-- src/kv_cache/kv_cache_kernels.cu. A layer is the list of its bytes. What the device does is an
-- argument: how a kernel launch ends, the free memory, the fresh buffers of a layer (`none`
-- where an allocation failed).
pub mod Laws
pub mod Append
pub mod Create
pub mod Examples
use sci_compute_attention.Base.{
  ℕ, zero, suc, ◌+◌, ◌*◌, ◌/◌, Bool, true, false, not, ◌||◌, Option, none, some, List, [], ◌∷◌,
  ◌++◌, ℤ, to_ℕ, ltb, leb, ◌==◌, if◌then◌else◌, length, get_or, set, replicate,
}
use sci_compute_attention.Types.{dtype_size, same_dtype}
use sci_compute_attention.Tensor.{Tensor, DeviceType, ndims, dim}
use sci_compute_attention.Status.{
  Result, Status, Error, ok, err, attn, sci, ◌>>=◌, ◌>>◌, shape_mismatch, unsupported_dtype,
  kv_capacity_exceeded, workspace_exceeded, invalid_argument,
}
use sci_compute_attention.BlockManager.{out_of_range}
use sci_compute_attention.KvCache.{
  KvCacheConfig, KvCacheStats, KvCacheShape, to_device_shape, validate_config, kv_cache_bytes,
}
use sci_compute_attention.KvCache.Kernels.{kv_append_kernel, kv_reset_kernel, kv_gather_kernel}

pub record KvCache : Type 0 where
  pub cfg : KvCacheConfig
  pub layer_elements : ℕ
  pub k_layers : List (List ℕ)
  pub v_layers : List (List ℕ)
  pub stats : KvCacheStats

-- Does the cache exceed 0.8 of the free memory? (The code compares doubles.) `none`: no device to ask.
pub over_budget : Option ℕ → ℕ → Bool
over_budget none bytes = false
over_budget (some free_bytes) bytes = ltb (free_bytes * 8) (bytes * 10)

-- The loop over the layers from `layer` on; the first argument counts those that are left.
pub allocate_layers :
    ℕ → (ℕ → Option (List ℕ × List ℕ)) → ℕ → Result (List (List ℕ) × List (List ℕ))
allocate_layers zero fresh layer = ok ([], [])
allocate_layers (suc n) fresh layer = elim (fresh layer) [
  | none ↦ err (attn kv_capacity_exceeded)
  | some (k, v) ↦ allocate_layers n fresh (suc layer) >>= λ rest. ok (k ∷ rest.0, v ∷ rest.1)
]

pub create : KvCacheConfig → Option ℕ → (ℕ → Option (List ℕ × List ℕ)) → Result KvCache
unfolding over_budget allocate_layers
create cfg free_bytes fresh = do
  validate_config cfg
  bytes ← kv_cache_bytes cfg
  (if over_budget free_bytes bytes then err (attn kv_capacity_exceeded) else ok tt)
  layers ← allocate_layers cfg.num_layers fresh 0
  ok (record {
    cfg = cfg;
    layer_elements = cfg.num_blocks * cfg.block_size * cfg.num_kv_heads * cfg.head_dim;
    k_layers = layers.0;
    v_layers = layers.1;
    stats = record {
      num_blocks = cfg.num_blocks;
      used_blocks = 0;
      free_blocks = cfg.num_blocks;
      num_appends = 0;
      num_resets = 0;
      peak_bytes = bytes;
      bytes = bytes;
    };
  })

-- How `LaunchRaw` ends: the kernel is not queued, it is queued and an error is reported all the same (a deferred
-- one, or that of the debug synchronisation), or nothing fails.
pub data LaunchEnd : Type 0 where
  refused late : (e : Error) → LaunchEnd
  clean : LaunchEnd

abbrev pub status_of : LaunchEnd → Status
status_of (refused e) = err e
status_of (late e) = err e
status_of clean = ok tt

abbrev pub has_run : LaunchEnd → Bool
has_run (refused e) = false
has_run (late e) = true
has_run clean = true

-- `LaunchKvAppend` with pointers that are not null: the new layers, where the kernel runs.
unfoldable pub launch_kv_append :
    LaunchEnd
    → List ℕ
    → List ℕ
    → List ℕ
    → List ℕ
    → List ℤ
    → ℕ
    → KvCacheShape
    → ℕ
    → Status × Option (List ℕ × List ℕ)
launch_kv_append launched layer_k layer_v k_new v_new slot_mapping num_tokens shape elem_bytes =
    if num_tokens == 0
    then (err (sci invalid_argument), none)
    else if has_run launched
    then (
      status_of launched,
      some (
        kv_append_kernel shape elem_bytes slot_mapping k_new num_tokens layer_k,
        kv_append_kernel shape elem_bytes slot_mapping v_new num_tokens layer_v,
      ),
    )
    else (status_of launched, none)

unfoldable pub put_layers : ℕ → KvCache → List ℕ × List ℕ → KvCache
put_layers layer cache (k, v) = record cache {
  k_layers = set cache.k_layers layer k;
  v_layers = set cache.v_layers layer v;
}

abbrev pub count_append : KvCache → KvCache
count_append cache =
    let stats = cache.stats in
    record cache { stats = record stats { num_appends = stats.num_appends + 1 } }

-- The cache after the launch; an append is counted where nothing failed.
abbrev pub finish_append : ℕ → KvCache → Status × Option (List ℕ × List ℕ) → Status × KvCache
unfolding put_layers
finish_append layer cache (status, none) = (status, cache)
finish_append layer cache (err e, some layers) = (err e, put_layers layer cache layers)
finish_append layer cache (ok done, some layers) =
    (ok tt, count_append (put_layers layer cache layers))

unfoldable pub append_layer :
    LaunchEnd → ℕ → Tensor → Tensor → List ℤ → ℕ → KvCache → Status × KvCache
unfolding launch_kv_append put_layers
append_layer launched layer k_new v_new slots num_tokens cache = finish_append layer cache (
    launch_kv_append launched (get_or cache.k_layers layer []) (get_or cache.v_layers layer [])
      k_new.bytes v_new.bytes slots num_tokens (to_device_shape cache.cfg)
      (dtype_size cache.cfg.dtype))

unfoldable pub append_slots :
    LaunchEnd → ℕ → Tensor → Tensor → Option (List ℤ) → ℕ → KvCache → Status × KvCache
unfolding append_layer
append_slots launched layer k_new v_new none num_tokens cache = (err (attn shape_mismatch), cache)
append_slots launched layer k_new v_new (some slots) num_tokens cache =
    append_layer launched layer k_new v_new slots num_tokens cache

-- Is `k_new` not [num_tokens, num_kv_heads, head_dim]? `v_new` is not looked at.
unfoldable pub wrong_shape : Tensor → ℕ → KvCacheConfig → Bool
wrong_shape k_new num_tokens cfg =
    not (ndims k_new == 3)
    || (not (dim k_new 0 == num_tokens)
        || (not (dim k_new 1 == cfg.num_kv_heads) || not (dim k_new 2 == cfg.head_dim)))

unfoldable pub append :
    LaunchEnd → ℤ → Tensor → Tensor → Option (List ℤ) → ℕ → KvCache → Status × KvCache
unfolding append_slots wrong_shape
append launched layer k_new v_new slot_mapping num_tokens cache =
    if out_of_range layer cache.cfg.num_layers
    then (err (attn shape_mismatch), cache)
    else if not (same_dtype k_new.dtype cache.cfg.dtype)
        || not (same_dtype v_new.dtype cache.cfg.dtype)
    then (err (attn unsupported_dtype), cache)
    else if wrong_shape k_new num_tokens cache.cfg
    then (err (attn shape_mismatch), cache)
    else append_slots launched (to_ℕ layer) k_new v_new slot_mapping num_tokens cache

-- `GatherInternal`; the buffer of the output tensor is an argument, `none` if it was not allocated.
gather_layer : Status → Bool → ℕ → List ℤ → ℕ → Option (List ℕ) → KvCache → Result Tensor
gather_layer launched is_key layer block_ids num_blocks out cache =
    let shape = to_device_shape cache.cfg in
    let src = if is_key then get_or cache.k_layers layer [] else get_or cache.v_layers layer [] in
    elim out [
      | none ↦ err (attn workspace_exceeded)
      | some buffer ↦
          launched
          >> ok (record {
            dims =
                num_blocks ∷ cache.cfg.block_size ∷ cache.cfg.num_kv_heads ∷ cache.cfg.head_dim
                ∷ [];
            dtype = cache.cfg.dtype;
            device_type = DeviceType.cuda;
            is_contiguous = true;
            bytes =
                kv_gather_kernel shape (dtype_size cache.cfg.dtype) src block_ids num_blocks buffer;
          })
    ]

pub gather : Status → Bool → ℤ → Option (List ℤ) → ℕ → Option (List ℕ) → KvCache → Result Tensor
unfolding gather_layer
gather launched is_key layer block_ids num_blocks out cache =
    if out_of_range layer cache.cfg.num_layers
    then err (attn shape_mismatch)
    else if num_blocks == 0
    then err (attn shape_mismatch)
    else elim block_ids [
      | none ↦ err (attn shape_mismatch)
      | some ids ↦ gather_layer launched is_key (to_ℕ layer) ids num_blocks out cache
    ]

reset_layer : ℕ → List ℤ → ℕ → KvCache → KvCache
unfolding put_layers
reset_layer layer ids num_blocks cache =
    let shape = to_device_shape cache.cfg in
    let elem_bytes = dtype_size cache.cfg.dtype in
    put_layers layer cache (
      kv_reset_kernel shape elem_bytes ids num_blocks (get_or cache.k_layers layer []),
      kv_reset_kernel shape elem_bytes ids num_blocks (get_or cache.v_layers layer []),
    )

-- The loop of `Reset` over the layers from `layer` on, with the launch of each.
reset_layers : (ℕ → LaunchEnd) → List ℤ → ℕ → ℕ → ℕ → KvCache → Status × KvCache
reset_layers launched ids num_blocks layer zero cache =
    let stats = cache.stats in
    (ok tt, record cache { stats = record stats { num_resets = stats.num_resets + 1 } })
reset_layers launched ids num_blocks layer (suc n) cache = elim (launched layer) [
  | refused e ↦ (err e, cache)
  | late e ↦ (err e, reset_layer layer ids num_blocks cache)
  | clean ↦
      reset_layers launched ids num_blocks (suc layer) n (reset_layer layer ids num_blocks cache)
]

pub reset : (ℕ → LaunchEnd) → Option (List ℤ) → ℕ → KvCache → Status × KvCache
unfolding reset_layers reset_layer
reset launched none num_blocks cache = (err (attn shape_mismatch), cache)
reset launched (some ids) num_blocks cache =
    if num_blocks == 0
    then (ok tt, cache)
    else reset_layers launched ids num_blocks 0 cache.cfg.num_layers cache

unfoldable pub memory_bytes : KvCache → ℕ
memory_bytes cache = cache.stats.bytes
