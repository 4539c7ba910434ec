-- ===== src/Dispatcher.antt =====
-- src/runtime/dispatcher.cpp with src/runtime/dispatch_table.inc and `GetBackend` of
-- src/runtime/backend_lookup.cpp: which backend computes a call. A backend is the interface
-- `IAttentionBackend` (include/scicompute_attention/backends.hpp): what it supports, and its forward
-- pass, whose result type is a parameter. Texts are left out, so a decision has no reason.
pub mod Laws
pub mod Infer
pub mod Api
mod Examples
use sci_compute_attention.Base.{
  ℕ, ◌*◌, Bool, true, false, not, ◌&&◌, ◌||◌, List, [], ◌∷◌, leb, ◌==◌, if◌then◌else◌,
}
use sci_compute_attention.Types.{
  DType, AttnLayout, bhsd, bshd, BackendKind, auto, naive, tiled, flash, decode, paged,
  AttentionShape, same_dtype, is_supported_compute_dtype,
}
use sci_compute_attention.Tensor.{Tensor, DeviceType, cpu, cuda, cpu_pinned, ndims, dim}
use sci_compute_attention.Status.{
  Result, Status, ok, err, attn, ◌>>=◌, ◌>>◌, shape_mismatch, layout_mismatch, unsupported_dtype,
  unsupported_feature, unsupported_layout, device_capability,
}
use sci_compute_attention.Config.{
  AttentionConfig, TileConfig, layout_supported, no_tile, is_empty, validate, recommend_tile,
}

pub record CapabilityReport : Type 0 where
  pub supported : Bool
  pub recommended_backend : BackendKind
  pub tile : TileConfig
  pub workspace_bytes : ℕ

pub record Backend (Output : Type 0) : Type 0 where
  pub supports : AttentionConfig → AttentionShape → CapabilityReport
  pub forward : Tensor → Tensor → Tensor → AttentionConfig → Result Output

-- The five instances.
pub record Backends (Output : Type 0) : Type 0 where
  pub naive_backend : Backend Output
  pub tiled_backend : Backend Output
  pub flash_backend : Backend Output
  pub decode_backend : Backend Output
  pub paged_backend : Backend Output

abbrev pub get_backend : {Output : Type 0} → Backends Output → BackendKind → Backend Output
get_backend bs naive = bs.naive_backend
get_backend bs tiled = bs.tiled_backend
get_backend bs flash = bs.flash_backend
get_backend bs decode = bs.decode_backend
get_backend bs paged = bs.paged_backend
get_backend bs auto = bs.naive_backend

abbrev pub is_auto : BackendKind → Bool
is_auto auto = true
is_auto _ = false

unfoldable pub is_cuda : DeviceType → Bool
is_cuda cuda = true
is_cuda cpu = false
is_cuda cpu_pinned = false

-- The body of the loop over q, k and v.
unfoldable pub check_tensor : Tensor → Status
check_tensor t =
    if not (ndims t == 4)
    then err (attn shape_mismatch)
    else if not t.is_contiguous
    then err (attn layout_mismatch)
    else if not (is_supported_compute_dtype t.dtype)
    then err (attn unsupported_dtype)
    else if not (is_cuda t.device_type)
    then err (attn unsupported_feature)
    else ok tt

-- The shape that q and k show in a layout.
abbrev pub shape_of : AttnLayout → Tensor → Tensor → AttentionShape
shape_of bhsd q k = record {
  batch = dim q 0;
  num_heads = dim q 1;
  seq_q = dim q 2;
  head_dim = dim q 3;
  seq_kv = dim k 2;
  num_kv_heads = dim k 1;
}
shape_of bshd q k = record {
  batch = dim q 0;
  seq_q = dim q 1;
  num_heads = dim q 2;
  head_dim = dim q 3;
  seq_kv = dim k 1;
  num_kv_heads = dim k 2;
}

-- Does v differ from that shape?
abbrev pub wrong_values : AttnLayout → AttentionShape → Tensor → Bool
wrong_values bhsd shape v =
    not (dim v 1 == shape.num_kv_heads)
    || (not (dim v 2 == shape.seq_kv) || not (dim v 3 == shape.head_dim))
wrong_values bshd shape v =
    not (dim v 1 == shape.seq_kv)
    || (not (dim v 2 == shape.num_kv_heads) || not (dim v 3 == shape.head_dim))

abbrev pub mixed_dtypes : Tensor → Tensor → Tensor → Bool
mixed_dtypes q k v = not (same_dtype q.dtype k.dtype) || not (same_dtype q.dtype v.dtype)

abbrev pub wrong_batch : AttentionShape → Tensor → Tensor → Bool
wrong_batch shape k v = not (dim k 0 == shape.batch) || not (dim v 0 == shape.batch)

unfoldable pub infer_shape : Tensor → Tensor → Tensor → AttnLayout → Result AttentionShape
infer_shape q k v layout = do
  (if not (layout_supported layout) then err (attn unsupported_layout) else ok tt)
  check_tensor q
  check_tensor k
  check_tensor v
  (if mixed_dtypes q k v then err (attn unsupported_dtype) else ok tt)
  let shape = shape_of layout q k
  (if wrong_values layout shape v then err (attn shape_mismatch) else ok tt)
  (if wrong_batch shape k v then err (attn shape_mismatch) else ok tt)
  ok shape

pub record DispatchDecision : Type 0 where
  pub backend : BackendKind
  pub tile : TileConfig
  pub workspace_bytes : ℕ

-- `kDispatchThresholds`
abbrev decode_max_seq_q : ℕ
decode_max_seq_q = 1

abbrev decode_min_seq_kv : ℕ
decode_min_seq_kv = 256

abbrev tiled_max_seq_kv : ℕ
tiled_max_seq_kv = 128

-- The backend that `Select` tries first.
pub preferred_backend : AttentionConfig → AttentionShape → BackendKind
preferred_backend cfg shape =
    if not (is_auto cfg.backend)
    then cfg.backend
    else if leb shape.seq_q decode_max_seq_q && leb decode_min_seq_kv shape.seq_kv
    then decode
    else if leb (shape.seq_q * 8) shape.seq_kv && leb decode_min_seq_kv shape.seq_kv
    then flash
    else if leb shape.seq_kv tiled_max_seq_kv
    then tiled
    else flash

pub fallback_chain : BackendKind → List BackendKind
fallback_chain flash = tiled ∷ naive ∷ []
fallback_chain decode = flash ∷ tiled ∷ naive ∷ []
fallback_chain paged = decode ∷ tiled ∷ naive ∷ []
fallback_chain tiled = naive ∷ []
fallback_chain naive = []
fallback_chain auto = []

abbrev pub report_of :
    {Output : Type 0}
    → Backends Output
    → AttentionConfig
    → AttentionShape
    → BackendKind
    → CapabilityReport
report_of bs cfg shape kind = (get_backend bs kind).supports cfg shape

-- The decision for a backend that supports the call.
abbrev pub decision_of : TileConfig → BackendKind → CapabilityReport → DispatchDecision
decision_of tile kind report = record {
  backend = kind;
  tile = if not (is_empty report.tile) then report.tile else tile;
  workspace_bytes = report.workspace_bytes;
}

-- The loop over the candidates; the last argument is the decision without any.
pub fall_back :
    {Output : Type 0}
    → Backends Output
    → AttentionConfig
    → AttentionShape
    → List BackendKind
    → DispatchDecision
    → DispatchDecision
fall_back bs cfg shape [] decision = decision
fall_back bs cfg shape (candidate ∷ candidates) decision =
    let report = report_of bs cfg shape candidate in
    let rest = fall_back bs cfg shape candidates decision in
    if report.supported then decision_of decision.tile candidate report else rest

pub select_valid :
    {Output : Type 0} → Backends Output → AttentionConfig → AttentionShape → DispatchDecision
select_valid bs cfg shape =
    let preferred = preferred_backend cfg shape in
    let tile = recommend_tile cfg shape in
    let report = report_of bs cfg shape preferred in
    let without : DispatchDecision = record {
      backend = preferred;
      tile = tile;
      workspace_bytes = report.workspace_bytes;
    } in
    if report.supported
    then decision_of tile preferred report
    else if not cfg.allow_fallback
    then without
    else fall_back bs cfg shape (fallback_chain preferred) without

pub select :
    {Output : Type 0} → Backends Output → AttentionConfig → AttentionShape → DispatchDecision
select bs cfg shape = elim (validate cfg shape) [
  | err e ↦ record { backend = auto; tile = no_tile; workspace_bytes = 0 }
  | ok valid ↦ select_valid bs cfg shape
]

-- `Forward` once a backend is chosen.
pub run_backend :
    {Output : Type 0}
    → Backends Output
    → Tensor
    → Tensor
    → Tensor
    → AttentionConfig
    → AttentionShape
    → BackendKind
    → Result Output
run_backend bs q k v cfg shape kind =
    if is_auto kind
    then err (attn shape_mismatch)
    else if not (report_of bs cfg shape kind).supported
    then err (attn device_capability)
    else (get_backend bs kind).forward q k v cfg

pub forward :
    {Output : Type 0} → Backends Output → Tensor → Tensor → Tensor → AttentionConfig → Result Output
forward bs q k v cfg = infer_shape q k v cfg.layout >>= λ shape.
    run_backend bs q k v cfg shape (select bs cfg shape).backend

-- The entry points of src/api/attention_api.cpp.
abbrev pub with_backend : BackendKind → AttentionConfig → AttentionConfig
with_backend kind cfg = record cfg { backend = kind }

pub attention :
    {Output : Type 0} → Backends Output → Tensor → Tensor → Tensor → AttentionConfig → Result Output
attention bs q k v cfg = forward bs q k v cfg

pub decode_attention :
    {Output : Type 0} → Backends Output → Tensor → Tensor → Tensor → AttentionConfig → Result Output
decode_attention bs q k v cfg = attention bs q k v (with_backend decode cfg)
