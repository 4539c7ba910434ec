-- ===== src/Dispatcher/Laws.antt =====
-- Which backend runs a call, and what is known of the call when it does.
use sci_compute_attention.Base.{
  ◌*◌, ◌≤◌, ◌<◌, ◌&&◌, leb, ◌≡◌, ◌⊎◌, inl, inr, refl, Bool, true, false, not, List, [], ◌∷◌, arith,
  if◌then◌else◌, Bool-cases,
}
use sci_compute_attention.Types.{BackendKind, auto, decode, tiled, flash, AttentionShape}
use sci_compute_attention.Tensor.{Tensor}
use sci_compute_attention.Status.{
  Result, Error, ok, err, attn, bind-ok, Status-cases, shape_mismatch, device_capability,
}
use sci_compute_attention.Config.{AttentionConfig, validate, recommend_tile}
use sci_compute_attention.Config.Laws.{IsAccepted, validate-IsAccepted}
use sci_compute_attention.Dispatcher.{
  Backends, DispatchDecision, get_backend, is_auto, infer_shape, preferred_backend, fallback_chain,
  report_of, fall_back, select_valid, select, run_backend, forward,
}

-- A backend of a list.
pub data IsIn (kind : BackendKind) : List BackendKind → Type 0 where
  first : (kinds : List BackendKind) → IsIn kind (kind ∷ kinds)
  later :
      (other : BackendKind) (kinds : List BackendKind) → IsIn kind kinds → IsIn kind (other ∷ kinds)

-- None of the backends of a list supports the call.
abbrev pub NoneSupports :
    {Output : Type 0}
    → Backends Output
    → AttentionConfig
    → AttentionShape
    → List BackendKind
    → Type 0
NoneSupports bs cfg shape [] = Unit
NoneSupports bs cfg shape (kind ∷ kinds) =
    ((report_of bs cfg shape kind).supported ≡ false) × NoneSupports bs cfg shape kinds

-- What `Select` decides for an accepted configuration.
pub data Selects {Output : Type 0} (bs : Backends Output) (cfg : AttentionConfig)
    (shape : AttentionShape) : BackendKind → Type 0 where
  preferred :
      (report_of bs cfg shape (preferred_backend cfg shape)).supported ≡ true
      → Selects bs cfg shape (preferred_backend cfg shape)
  refused :
      (report_of bs cfg shape (preferred_backend cfg shape)).supported ≡ false
      → cfg.allow_fallback ≡ false
      → Selects bs cfg shape (preferred_backend cfg shape)
  replaced :
      (kind : BackendKind)
      → (report_of bs cfg shape (preferred_backend cfg shape)).supported ≡ false
      → cfg.allow_fallback ≡ true
      → IsIn kind (fallback_chain (preferred_backend cfg shape))
      → (report_of bs cfg shape kind).supported ≡ true
      → Selects bs cfg shape kind
  exhausted :
      (report_of bs cfg shape (preferred_backend cfg shape)).supported ≡ false
      → cfg.allow_fallback ≡ true
      → NoneSupports bs cfg shape (fallback_chain (preferred_backend cfg shape))
      → Selects bs cfg shape (preferred_backend cfg shape)

-- The first candidate that supports the call, or none.
fall_back_lem :
    {Output : Type 0} (bs : Backends Output) (cfg : AttentionConfig) (shape : AttentionShape)
    (kinds : List BackendKind) (decision : DispatchDecision)
    → ((fall_back bs cfg shape kinds decision ≡ decision) × NoneSupports bs cfg shape kinds)
      ⊎ ((kind : BackendKind) × ((fall_back bs cfg shape kinds decision).backend ≡ kind)
          × IsIn kind kinds
          × ((report_of bs cfg shape kind).supported ≡ true))
unfolding fall_back
fall_back_lem bs cfg shape [] decision = inl (refl, tt)
fall_back_lem bs cfg shape (kind ∷ kinds) decision =
    elim (Bool-cases (report_of bs cfg shape kind).supported) [
      | inl able ↦ inr (kind, rw able refl, first kinds, able)
      | inr unable ↦ elim (fall_back_lem bs cfg shape kinds decision) [
        | inl (same, nothing) ↦ inl (rw unable same, (unable, nothing))
        | inr (other, is, among, able) ↦ inr (other, rw unable is, later kind kinds among, able)
      ]
    ]

select_valid-Selects :
    {Output : Type 0} (bs : Backends Output) (cfg : AttentionConfig) (shape : AttentionShape)
    → Selects bs cfg shape (select_valid bs cfg shape).backend
unfolding select_valid
select_valid-Selects bs cfg shape =
    let kind = preferred_backend cfg shape in
    let report = report_of bs cfg shape kind in
    let without : DispatchDecision = record {
      backend = kind;
      tile = recommend_tile cfg shape;
      workspace_bytes = report.workspace_bytes;
    } in
    elim (Bool-cases report.supported) [
      | inl able ↦ rw able (preferred able)
      | inr unable ↦ elim (Bool-cases cfg.allow_fallback) [
        | inr strict ↦ simp (unable, strict) (refused unable strict)
        | inl lax ↦ elim (fall_back_lem bs cfg shape (fallback_chain kind) without) [
          | inl (same, nothing) ↦ simp (unable, lax, same) (exhausted unable lax nothing)
          | inr (other, is, among, helps) ↦
              simp (unable, lax, is) (replaced other unable lax among helps)
        ]
      ]
    ]

-- `Select` for an accepted configuration picks the preferred backend if that supports the call. If it
-- does not, it stays with it unless fallback is allowed, and then takes a backend of the fallback chain
-- that supports the call; it stays with the preferred one only if none of the chain does.
pub select-Selects :
    {Output : Type 0} (bs : Backends Output) (cfg : AttentionConfig) (shape : AttentionShape)
    → IsAccepted cfg shape
    → Selects bs cfg shape (select bs cfg shape).backend
unfolding select
select-Selects bs cfg shape a =
    rw (select, (validate-IsAccepted cfg shape).1 a) (select_valid-Selects bs cfg shape)

-- Everything that is known when a backend runs.
pub record Runs {Output : Type 0} (bs : Backends Output) (q k v : Tensor) (cfg : AttentionConfig)
    (out : Output) : Type 0 where
  pub shape : AttentionShape
  pub inferred : infer_shape q k v cfg.layout ≡ ok shape
  pub accepted : IsAccepted cfg shape
  pub supported : (report_of bs cfg shape (select bs cfg shape).backend).supported ≡ true
  pub result : (get_backend bs (select bs cfg shape).backend).forward q k v cfg ≡ ok out

select_invalid :
    {Output : Type 0} (bs : Backends Output) (cfg : AttentionConfig) (shape : AttentionShape)
    (e : Error)
    → validate cfg shape ≡ err e
    → (select bs cfg shape).backend ≡ auto
unfolding select
select_invalid bs cfg shape e h = rw (select, h) refl

guard_result :
    {Output : Type 0} (test : Bool) (e : Error) (rest : Result Output) (out : Output)
    → (if test then err e else rest) ≡ ok out
    → (test ≡ false) × (rest ≡ ok out)
guard_result true e rest out h = ground arith
guard_result false e rest out h = (refl, h)

pub clash : (b : Bool) (P : Type 0) → b ≡ true → b ≡ false → P
clash true P h g = ground arith
clash false P h g = ground arith

-- `Forward` returns a result only from a backend that says that it supports the call, on a
-- configuration that `Validate` accepts for the shape of the tensors.
pub forward-Runs :
    {Output : Type 0} (bs : Backends Output) (q k v : Tensor) (cfg : AttentionConfig) (out : Output)
    → forward bs q k v cfg ≡ ok out
    → Runs bs q k v cfg out
unfolding forward run_backend
forward-Runs bs q k v cfg out h =
    let (shape, inferred, h1) = bind-ok (infer_shape q k v cfg.layout) _ out h in
    let kind = (select bs cfg shape).backend in
    let (chosen, h2) =
      guard_result (is_auto kind) (attn shape_mismatch)
        (if not (report_of bs cfg shape kind).supported
          then err (attn device_capability)
          else (get_backend bs kind).forward q k v cfg)
        out h1 in
    let (able, h3) =
      guard_result (not (report_of bs cfg shape kind).supported) (attn device_capability)
        ((get_backend bs kind).forward q k v cfg) out h2 in
    record {
      shape = shape;
      inferred = inferred;
      accepted = elim (Status-cases (validate cfg shape)) [
        | inr fine ↦ (validate-IsAccepted cfg shape).0 fine
        | inl (e, bad) ↦
            let wrong : is_auto kind ≡ true = rw (select_invalid bs cfg shape e bad) refl in
            clash (is_auto kind) _ wrong chosen
      ];
      supported = ground arith;
      result = h3;
    }

-- A backend that `Select` chose and that supports the call computes it.
pub forward-get_backend :
    {Output : Type 0} (bs : Backends Output) (q k v : Tensor) (cfg : AttentionConfig)
    (shape : AttentionShape) (kind : BackendKind)
    → infer_shape q k v cfg.layout ≡ ok shape
    → (select bs cfg shape).backend ≡ kind
    → is_auto kind ≡ false
    → (report_of bs cfg shape kind).supported ≡ true
    → forward bs q k v cfg ≡ (get_backend bs kind).forward q k v cfg
unfolding forward run_backend
forward-get_backend bs q k v cfg shape kind inferred chosen named able =
    rw (forward, inferred) (rw (chosen) (rw (named, able) refl))

-- A preferred backend that supports the call is chosen.
pub Selects-supported :
    {Output : Type 0} (bs : Backends Output) (cfg : AttentionConfig) (shape : AttentionShape)
    (kind : BackendKind)
    → (report_of bs cfg shape (preferred_backend cfg shape)).supported ≡ true
    → Selects bs cfg shape kind
    → kind ≡ preferred_backend cfg shape
Selects-supported bs cfg shape _ able (preferred h) = refl
Selects-supported bs cfg shape _ able (refused unable strict) = refl
Selects-supported bs cfg shape kind able (replaced _ unable lax among helps) =
    clash (report_of bs cfg shape (preferred_backend cfg shape)).supported _ able unable
Selects-supported bs cfg shape _ able (exhausted unable lax nothing) = refl

-- What is preferred where no backend is named.
pub data Prefers (shape : AttentionShape) : BackendKind → Type 0 where
  one_query : shape.seq_q ≤ 1 → 256 ≤ shape.seq_kv → Prefers shape decode
  short_keys : shape.seq_kv ≤ 128 → Prefers shape tiled
  long_keys : 128 < shape.seq_kv → Prefers shape flash

pub preferred_backend-Prefers :
    (cfg : AttentionConfig) (shape : AttentionShape)
    → cfg.backend ≡ auto
    → Prefers shape (preferred_backend cfg shape)
unfolding preferred_backend
preferred_backend-Prefers cfg shape free =
    rw (preferred_backend, free)
      (elim (Bool-cases (leb shape.seq_q 1 && leb 256 shape.seq_kv)) [
        | inl e ↦ rw e (one_query (ground (arith, e)) (ground (arith, e)))
        | inr e ↦ elim (Bool-cases (leb (shape.seq_q * 8) shape.seq_kv && leb 256 shape.seq_kv)) [
          | inl f ↦ rw (e, f) (long_keys (ground (arith, f)))
          | inr f ↦ elim (Bool-cases (leb shape.seq_kv 128)) [
            | inl g ↦ rw (e, f, g) (short_keys (ground (arith, g)))
            | inr g ↦ rw (e, f, g) (long_keys (ground (arith, g)))
          ]
        ]
      ])
