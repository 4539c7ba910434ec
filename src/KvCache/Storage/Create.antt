-- ===== src/KvCache/Storage/Create.antt =====
-- `KVCache::Create` of src/kv_cache/kv_cache.cpp: the cache that it returns.
use sci_compute_attention.Base.{
  ℕ, zero, suc, ◌*◌, ◌<◌, ◌≡◌, inl, inr, refl, ap, Option, none, some, List, [], ◌∷◌, arith, length,
  get_or, subst, if◌then◌else◌, Option-cases,
}
use sci_compute_attention.Types.{dtype_size}
use sci_compute_attention.Status.{
  Error, Result, ok, err, ◌>>=◌, bind-ok, ok_inj, attn, kv_capacity_exceeded,
}
use sci_compute_attention.KvCache.{
  KvCacheConfig, kv_layer_elements, to_device_shape, validate_config, kv_cache_bytes,
}
use sci_compute_attention.KvCache.Storage.{KvCache, create, allocate_layers, over_budget}
use sci_compute_attention.KvCache.Storage.Laws.{IsValid}

-- What the device's allocator hands out: both buffers of a layer have the bytes asked for.
abbrev pub IsSized : ℕ → (ℕ → Option (List ℕ × List ℕ)) → Type 0
IsSized size fresh =
    (l : ℕ) (k v : List ℕ) → fresh l ≡ some (k, v) → (length k ≡ size) × (length v ≡ size)

-- `n` layers of this size on both sides.
abbrev LayersOf : ℕ → ℕ → List (List ℕ) × List (List ℕ) → Type 0
LayersOf size n r =
    (length r.0 ≡ n)
    × (length r.1 ≡ n)
    × ((i : ℕ) → i < n → (length (get_or r.0 i []) ≡ size) × (length (get_or r.1 i []) ≡ size))

LayersOf-cons :
    (size n : ℕ) (k v : List ℕ) (r : List (List ℕ) × List (List ℕ))
    → length k ≡ size
    → length v ≡ size
    → LayersOf size n r
    → LayersOf size (suc n) (k ∷ r.0, v ∷ r.1)
LayersOf-cons size n k v r hk hv (nk, nv, sized) = (ap suc nk, ap suc nv, at)
  where
    at :
        (i : ℕ)
        → i < suc n
        → (length (get_or (k ∷ r.0) i []) ≡ size) × (length (get_or (v ∷ r.1) i []) ≡ size)
    at zero h = (hk, hv)
    at (suc i) h = sized i (omega arith)

-- The body of the loop, given what the allocator answered.
abbrev with_layer :
    ℕ
    → (ℕ → Option (List ℕ × List ℕ))
    → ℕ
    → Option (List ℕ × List ℕ)
    → Result (List (List ℕ) × List (List ℕ))
with_layer n fresh layer none = err (attn kv_capacity_exceeded)
with_layer n fresh layer (some (k, v)) =
    allocate_layers n fresh (suc layer) >>= λ rest. ok (k ∷ rest.0, v ∷ rest.1)

no_layer : (e : Error) (r : List (List ℕ) × List (List ℕ)) (P : Type 0) → err e ≡ ok r → P
no_layer e r P h = ground arith

allocate_layers_lem :
    (size n : ℕ) (fresh : ℕ → Option (List ℕ × List ℕ)) (layer : ℕ)
    (r : List (List ℕ) × List (List ℕ))
    → IsSized size fresh
    → allocate_layers n fresh layer ≡ ok r
    → LayersOf size n r
unfolding allocate_layers
allocate_layers_lem size zero fresh layer r sized h =
    subst (LayersOf size 0) (ok_inj ([], []) r h) (refl, refl, λ i hi. absurd (omega arith))
allocate_layers_lem size (suc n) fresh layer r sized h = elim (Option-cases (fresh layer)) [
  | inl e ↦
      no_layer (attn kv_capacity_exceeded) r _ (subst (λ o. with_layer n fresh layer o ≡ ok r) e h)
  | inr ((k, v), e) ↦
      let step = subst (λ o. with_layer n fresh layer o ≡ ok r) e h in
      let (rest, got, made) = bind-ok (allocate_layers n fresh (suc layer)) _ r step in
      subst (LayersOf size (suc n)) (ok_inj (k ∷ rest.0, v ∷ rest.1) r made) (
        LayersOf-cons size n k v rest (sized layer k v e).0 (sized layer k v e).1
          (allocate_layers_lem size n fresh (suc layer) rest sized got))
]

-- What a successful `Create` promises.
pub record Created (cfg : KvCacheConfig) (cache : KvCache) : Type 0 where
  pub usable : validate_config cfg ≡ ok tt
  pub same_cfg : cache.cfg ≡ cfg
  pub valid : IsValid cache
  pub within : kv_cache_bytes cfg ≡ ok cache.stats.bytes

-- A `Create` that succeeds was given a configuration that `ValidateConfig` accepts, and returns a
-- cache of this configuration with all layers allocated in full, provided that the allocator hands
-- out buffers of the size asked for.
pub create-Created :
    (cfg : KvCacheConfig) (free_bytes : Option ℕ) (fresh : ℕ → Option (List ℕ × List ℕ))
    (cache : KvCache)
    → IsSized (kv_layer_elements (to_device_shape cfg) * dtype_size cfg.dtype) fresh
    → create cfg free_bytes fresh ≡ ok cache
    → Created cfg cache
unfolding create
create-Created cfg free_bytes fresh cache sized h =
    let (u, usable, h1) = bind-ok (validate_config cfg) _ cache h in
    let (bytes, counted, h2) = bind-ok (kv_cache_bytes cfg) _ cache h1 in
    let (within, allowed, h3) =
      bind-ok (if over_budget free_bytes bytes then err (attn kv_capacity_exceeded) else ok tt) _
        cache h2 in
    let (layers, got, h4) = bind-ok (allocate_layers cfg.num_layers fresh 0) _ cache h3 in
    let made = ok_inj _ cache h4 in
    let (keys, values, sizes) = allocate_layers_lem _ cfg.num_layers fresh 0 layers sized got in
    subst (Created cfg) made (record {
      usable = usable;
      same_cfg = refl;
      valid = record {
        keys = record { number = keys; size = λ l hl. (sizes l hl).0 };
        values = record { number = values; size = λ l hl. (sizes l hl).1 };
      };
      within = counted;
    })
