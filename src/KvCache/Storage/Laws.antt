-- ===== src/KvCache/Storage/Laws.antt =====
-- `KVCache` of src/kv_cache/kv_cache.cpp: the sizes of its layers, and the outcomes of `Append`.
use sci_compute_attention.Base.{
  ℕ, zero, suc, ◌*◌, ◌<◌, ◌≡◌, ◌⊎◌, inl, inr, refl, ap, ◌∙◌, Bool, true, false, Option, none, some,
  List, [], arith, ℤ, pos, leb, negsuc, leb→gt, ◌==◌, if◌then◌else◌, length, get_or, set,
  length-set, get_or-set_self, get_or-set_ne, Bool-cases, ==→eq, ==→ne,
}
use sci_compute_attention.Types.{dtype_size}
use sci_compute_attention.Tensor.{Tensor}
use sci_compute_attention.Status.{
  Status, Error, ok, err, attn, sci, invalid_argument, unsupported_dtype, shape_mismatch,
}
use sci_compute_attention.KvCache.{KvCacheConfig, to_device_shape, kv_layer_elements}
use sci_compute_attention.KvCache.Kernels.{kv_append_kernel}
use sci_compute_attention.KvCache.Kernels.Append.{length-kv_append_kernel}
use sci_compute_attention.KvCache.Kernels.Reset.{length-kv_reset_kernel}
use sci_compute_attention.KvCache.Storage.{
  LaunchEnd, refused, late, clean, count_append, KvCache, append, append_slots, append_layer,
  launch_kv_append, put_layers, reset, reset_layers, reset_layer,
}

abbrev pub elem_bytes : KvCache → ℕ
elem_bytes cache = dtype_size cache.cfg.dtype

abbrev pub num_slots : KvCache → ℕ
num_slots cache = cache.cfg.num_blocks * cache.cfg.block_size

-- A list of `n` layers of the configured size.
pub record AreLayers (cfg : KvCacheConfig) (layers : List (List ℕ)) : Type 0 where
  pub number : length layers ≡ cfg.num_layers
  pub size :
      (l : ℕ)
      → l < cfg.num_layers
      → length (get_or layers l []) ≡ kv_layer_elements (to_device_shape cfg) * dtype_size cfg.dtype

pub record IsValid (cache : KvCache) : Type 0 where
  pub keys : AreLayers cache.cfg cache.k_layers
  pub values : AreLayers cache.cfg cache.v_layers

AreLayers-set :
    (cfg : KvCacheConfig) (layers : List (List ℕ)) (l : ℕ) (new : List ℕ)
    → length new ≡ length (get_or layers l [])
    → AreLayers cfg layers
    → AreLayers cfg (set layers l new)
AreLayers-set cfg layers l new same v = record {
  number = length-set layers l new ∙ v.number;
  size = λ k h. elim (Bool-cases (l == k)) [
    | inl e ↦
        let p = ==→eq l k e in
        let n = v.number in
        ap length (rw (← p) (get_or-set_self layers l new [] (omega arith)))
        ∙ same
        ∙ rw p (v.size k h)
    | inr e ↦ ap length (get_or-set_ne layers l k new [] (==→ne l k e)) ∙ v.size k h
  ];
}

put_layers-IsValid :
    (l : ℕ) (cache : KvCache) (k v : List ℕ)
    → length k ≡ length (get_or cache.k_layers l [])
    → length v ≡ length (get_or cache.v_layers l [])
    → IsValid cache
    → IsValid (put_layers l cache (k, v))
unfolding put_layers
put_layers-IsValid l cache k v hk hv valid = record {
  keys = AreLayers-set cache.cfg cache.k_layers l k hk valid.keys;
  values = AreLayers-set cache.cfg cache.v_layers l v hv valid.values;
}

-- The cache with the kernels' results for one layer, and then one more append counted.
abbrev pub written : ℕ → Tensor → Tensor → List ℤ → ℕ → KvCache → KvCache
written l k v slots n cache =
    let shape = to_device_shape cache.cfg in
    let run = λ (src layer : List ℕ).
      kv_append_kernel shape (dtype_size cache.cfg.dtype) slots src n layer in
    record cache {
      k_layers = set cache.k_layers l (run k.bytes (get_or cache.k_layers l []));
      v_layers = set cache.v_layers l (run v.bytes (get_or cache.v_layers l []));
    }

abbrev pub stored : ℕ → Tensor → Tensor → List ℤ → ℕ → KvCache → KvCache
stored l k v slots n cache = count_append (written l k v slots n cache)

-- The outcomes of `Append`.
pub data Appends (launched : LaunchEnd) (layer : ℤ) (k v : Tensor) (slots : Option (List ℤ)) (n : ℕ)
    (cache : KvCache) : Status × KvCache → Type 0 where
  failed : (e : Error) → Appends launched layer k v slots n cache (err e, cache)
  done :
      (l : ℕ) (ids : List ℤ)
      → layer ≡ pos l
      → slots ≡ some ids
      → l < cache.cfg.num_layers
      → 0 < n
      → launched ≡ clean
      → Appends launched layer k v slots n cache (ok tt, stored l k v ids n cache)
  broken :
      (e : Error) (l : ℕ) (ids : List ℤ)
      → layer ≡ pos l
      → slots ≡ some ids
      → l < cache.cfg.num_layers
      → launched ≡ late e
      → Appends launched layer k v slots n cache (err e, written l k v ids n cache)

append_layer-Appends :
    (launched : LaunchEnd) (l : ℕ) (k v : Tensor) (ids : List ℤ) (n : ℕ) (cache : KvCache)
    → l < cache.cfg.num_layers
    → Appends launched (pos l) k v (some ids) n cache (append_layer launched l k v ids n cache)
unfolding append_layer launch_kv_append put_layers
append_layer-Appends (refused e) l k v ids n cache h = elim (Bool-cases (n == 0)) [
  | inl z ↦ rw (z, append_layer) (failed (sci invalid_argument))
  | inr p ↦ rw (p, append_layer) (failed e)
]
append_layer-Appends (late e) l k v ids n cache h = elim (Bool-cases (n == 0)) [
  | inl z ↦ rw (z, append_layer) (failed (sci invalid_argument))
  | inr p ↦ rw (p, append_layer) (broken e l ids refl refl h refl)
]
append_layer-Appends clean l k v ids n cache h = elim (Bool-cases (n == 0)) [
  | inl z ↦ rw (z, append_layer) (failed (sci invalid_argument))
  | inr p ↦
      let positive = ==→ne n 0 p in rw (p, append_layer) (done l ids refl refl h (omega arith) refl)
]

append_slots-Appends :
    (launched : LaunchEnd) (l : ℕ) (k v : Tensor) (slots : Option (List ℤ)) (n : ℕ)
    (cache : KvCache)
    → l < cache.cfg.num_layers
    → Appends launched (pos l) k v slots n cache (append_slots launched l k v slots n cache)
unfolding append_slots
append_slots-Appends launched l k v none n cache h = failed _
append_slots-Appends launched l k v (some ids) n cache h =
    append_layer-Appends launched l k v ids n cache h

append-Appends_checked :
    (launched : LaunchEnd) (l : ℕ) (k v : Tensor) (slots : Option (List ℤ)) (n : ℕ)
    (cache : KvCache) (wrong_dtype wrong : Bool)
    → l < cache.cfg.num_layers
    → Appends launched (pos l) k v slots n cache (
        if wrong_dtype
        then (err (attn unsupported_dtype), cache)
        else if wrong
        then (err (attn shape_mismatch), cache)
        else append_slots launched l k v slots n cache)
append-Appends_checked launched l k v slots n cache true wrong h = failed _
append-Appends_checked launched l k v slots n cache false true h = failed _
append-Appends_checked launched l k v slots n cache false false h =
    append_slots-Appends launched l k v slots n cache h

pub append-Appends :
    (launched : LaunchEnd) (layer : ℤ) (k v : Tensor) (slots : Option (List ℤ)) (n : ℕ)
    (cache : KvCache)
    → Appends launched layer k v slots n cache (append launched layer k v slots n cache)
unfolding append
append-Appends launched (negsuc l) k v slots n cache = failed _
append-Appends launched (pos l) k v slots n cache = elim (Bool-cases (leb cache.cfg.num_layers l)) [
  | inl out ↦ rw out (failed _)
  | inr within ↦
      rw within (append-Appends_checked launched l k v slots n cache _ _ (leb→gt _ _ within))
]

written-IsValid :
    (l : ℕ) (k v : Tensor) (ids : List ℤ) (n : ℕ) (cache : KvCache)
    → IsValid cache
    → IsValid (written l k v ids n cache)
written-IsValid l k v ids n cache valid = record {
  keys =
      AreLayers-set cache.cfg cache.k_layers l _ (length-kv_append_kernel _ _ ids k.bytes n _)
        valid.keys;
  values =
      AreLayers-set cache.cfg cache.v_layers l _ (length-kv_append_kernel _ _ ids v.bytes n _)
        valid.values;
}

Appends-IsValid :
    (launched : LaunchEnd) (layer : ℤ) (k v : Tensor) (slots : Option (List ℤ)) (n : ℕ)
    (cache : KvCache) (r : Status × KvCache)
    → Appends launched layer k v slots n cache r
    → IsValid cache
    → IsValid r.1
Appends-IsValid launched layer k v slots n cache _ (failed e) valid = valid
Appends-IsValid launched layer k v slots n cache _ (done l ids _ _ _ _ _) valid =
    let w = written-IsValid l k v ids n cache valid in record { keys = w.keys; values = w.values }
Appends-IsValid launched layer k v slots n cache _ (broken e l ids _ _ _ _) valid =
    written-IsValid l k v ids n cache valid

LaunchEnd-cases :
    (x : LaunchEnd) → ((e : Error) × (x ≡ refused e)) ⊎ (((e : Error) × (x ≡ late e)) ⊎ (x ≡ clean))
LaunchEnd-cases (refused e) = inl (e, refl)
LaunchEnd-cases (late e) = inr (inl (e, refl))
LaunchEnd-cases clean = inr (inr refl)

reset_layer-IsValid :
    (l : ℕ) (ids : List ℤ) (m : ℕ) (cache : KvCache)
    → IsValid cache
    → IsValid (reset_layer l ids m cache)
unfolding reset_layer
reset_layer-IsValid l ids m cache valid =
    put_layers-IsValid l cache _ _ (length-kv_reset_kernel _ _ ids m _)
      (length-kv_reset_kernel _ _ ids m _) valid

reset_layers-IsValid :
    (launched : ℕ → LaunchEnd) (ids : List ℤ) (m l n : ℕ) (cache : KvCache)
    → IsValid cache
    → IsValid (reset_layers launched ids m l n cache).1
unfolding reset_layers
reset_layers-IsValid launched ids m l zero cache valid = record {
  keys = valid.keys;
  values = valid.values;
}
reset_layers-IsValid launched ids m l (suc n) cache valid =
    let now = reset_layer-IsValid l ids m cache valid in
    elim (LaunchEnd-cases (launched l)) [
      | inl (e, f) ↦ rw (f, reset_layers) valid
      | inr (inl (e, f)) ↦ rw (f, reset_layers) now
      | inr (inr f) ↦
          rw (f, reset_layers)
            (reset_layers-IsValid launched ids m (suc l) n (reset_layer l ids m cache) now)
    ]

-- A history of the storage: `Append` and `Reset` with any arguments and any launch results.
pub append-IsValid :
    (launched : LaunchEnd) (layer : ℤ) (k v : Tensor) (slots : Option (List ℤ)) (n : ℕ)
    (cache : KvCache)
    → IsValid cache
    → IsValid (append launched layer k v slots n cache).1
append-IsValid launched layer k v slots n cache valid =
    Appends-IsValid launched layer k v slots n cache _
      (append-Appends launched layer k v slots n cache) valid

pub reset-IsValid :
    (launched : ℕ → LaunchEnd) (ids : Option (List ℤ)) (m : ℕ) (cache : KvCache)
    → IsValid cache
    → IsValid (reset launched ids m cache).1
unfolding reset
reset-IsValid launched none m cache valid = valid
reset-IsValid launched (some ids) m cache valid = elim (Bool-cases (m == 0)) [
  | inl z ↦ rw z valid
  | inr p ↦ rw p (reset_layers-IsValid launched ids m 0 cache.cfg.num_layers cache valid)
]

pub append-cfg :
    (launched : LaunchEnd) (layer : ℤ) (k v : Tensor) (slots : Option (List ℤ)) (n : ℕ)
    (cache : KvCache)
    → (append launched layer k v slots n cache).1.cfg ≡ cache.cfg
append-cfg launched layer k v slots n cache =
    same _ (append-Appends launched layer k v slots n cache)
  where
    same : (r : Status × KvCache) → Appends launched layer k v slots n cache r → r.1.cfg ≡ cache.cfg
    same _ (failed e) = refl
    same _ (done l ids _ _ _ _ _) = refl
    same _ (broken e l ids _ _ _ _) = refl

reset_layers-cfg :
    (launched : ℕ → LaunchEnd) (ids : List ℤ) (m l n : ℕ) (cache : KvCache)
    → (reset_layers launched ids m l n cache).1.cfg ≡ cache.cfg
unfolding reset_layers reset_layer put_layers
reset_layers-cfg launched ids m l zero cache = refl
reset_layers-cfg launched ids m l (suc n) cache = elim (LaunchEnd-cases (launched l)) [
  | inl (e, f) ↦ rw (f, reset_layers)
  | inr (inl (e, f)) ↦ rw (f, reset_layers)
  | inr (inr f) ↦
      rw (f, reset_layers) (reset_layers-cfg launched ids m (suc l) n (reset_layer l ids m cache))
]

pub reset-cfg :
    (launched : ℕ → LaunchEnd) (ids : List ℤ) (m : ℕ) (cache : KvCache)
    → (reset launched (some ids) m cache).1.cfg ≡ cache.cfg
unfolding reset
reset-cfg launched ids m cache = elim (Bool-cases (m == 0)) [
  | inl z ↦ rw z
  | inr p ↦ rw p (reset_layers-cfg launched ids m 0 cache.cfg.num_layers cache)
]
