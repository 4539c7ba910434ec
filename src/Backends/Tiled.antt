-- ===== src/Backends/Tiled.antt =====
-- src/backends/tiled/tiled_backend.cpp: the backend that keeps the scores in shared memory.
pub mod Laws
pub mod Tiles
pub mod Kernel
use sci_compute_attention.Base.{
  ℕ, ◌*◌, ◌≡◌, Bool, true, false, not, ◌&&◌, Option, none, some, List, [], ◌∷◌, is_neg, ltb, leb,
  ◌==◌, if◌then◌else◌,
}
use sci_compute_attention.Types.{
  DType, float32, float16, dtype_size, tiled, AttentionShape, supported_head_dim_index,
}
use sci_compute_attention.Tensor.{Tensor}
use sci_compute_attention.Status.{
  Result, Status, ok, err, attn, ◌>>=◌, ◌>>◌, unsupported_dtype, unsupported_feature,
  device_capability,
}
use sci_compute_attention.Config.{AttentionConfig, TileConfig, above_zero, no_tile}
use sci_compute_attention.Dispatcher.{CapabilityReport}
use sci_compute_attention.Backends.{
  Env, DtypeId, dtype_id_for, Buffer, AttentionResult, smem_limit, checked_shape, new_output,
  new_lse, fwd_params,
}
use sci_compute_attention.Backends.Launchers.{tiled_smem_bytes, launch_tiled_forward}

pub record TileCandidate : Type 0 where
  pub block_m : ℕ
  pub block_n : ℕ
  pub warps : ℕ

abbrev candidate : ℕ → ℕ → ℕ → TileCandidate
candidate m n w = record { block_m = m; block_n = n; warps = w }

abbrev pub fp16_candidates : List TileCandidate
fp16_candidates = candidate 64 64 4 ∷ candidate 64 32 4 ∷ candidate 128 32 8 ∷ []

abbrev pub fp32_candidates : List TileCandidate
fp32_candidates = candidate 64 32 4 ∷ candidate 64 64 4 ∷ candidate 128 32 8 ∷ []

abbrev pub candidates_for : DType → List TileCandidate
candidates_for float32 = fp32_candidates
candidates_for other = fp16_candidates

abbrev pub max_tiled_head_dim : ℕ
max_tiled_head_dim = 128

-- `bytes > 0 && bytes <= smem_limit`
abbrev pub within : Option ℕ → ℕ → Bool
within none limit = false
within (some bytes) limit = ltb 0 bytes && leb bytes limit

abbrev pub fits : ℕ → ℕ → ℕ → TileCandidate → Bool
fits head_dim elem_bytes limit c =
    within (tiled_smem_bytes head_dim elem_bytes c.block_m c.block_n) limit

-- The loop over the candidates.
pub first_fit : ℕ → ℕ → ℕ → List TileCandidate → Option TileCandidate
first_fit head_dim elem_bytes limit [] = none
first_fit head_dim elem_bytes limit (c ∷ cs) =
    if fits head_dim elem_bytes limit c then some c else first_fit head_dim elem_bytes limit cs

pub select_tile : DType → ℕ → ℕ → Option TileCandidate
select_tile dtype head_dim limit =
    first_fit head_dim (dtype_size dtype) limit (candidates_for dtype)

abbrev pub tile_config : TileCandidate → TileConfig
tile_config c = record {
  block_m = c.block_m;
  block_n = c.block_n;
  warps = c.warps;
  stages = 1;
  use_tma = false;
}

abbrev report_of : Bool → TileConfig → CapabilityReport
report_of supported tile = record {
  supported = supported;
  recommended_backend = tiled;
  tile = tile;
  workspace_bytes = 0;
}

-- The tile is chosen for FP16, whatever the tensors will be.
pub supports : Env → AttentionConfig → AttentionShape → CapabilityReport
supports env cfg shape =
    let probed : CapabilityReport = elim (select_tile float16 shape.head_dim (smem_limit env)) [
      | none ↦ report_of false no_tile
      | some tile ↦ report_of true (tile_config tile)
    ] in
    if not env.cuda_available
    then report_of false no_tile
    else if is_neg (supported_head_dim_index shape.head_dim)
    then report_of false no_tile
    else if ltb max_tiled_head_dim shape.head_dim
    then report_of false no_tile
    else if above_zero cfg.sliding_window
    then report_of false no_tile
    else probed

pub workspace_bytes : AttentionConfig → AttentionShape → ℕ
workspace_bytes cfg shape = 0

abbrev pub result_of : TileCandidate → Buffer → Option Buffer → AttentionResult
result_of tile out lse = record {
  out = out;
  lse = lse;
  stats = record {
    used_backend = tiled;
    tile = tile_config tile;
    workspace_bytes = 0;
    kv_bytes = 0;
    num_splits = 0;
    materialized_score_bytes = 0;
  };
}

-- `Forward` from the choice of a tile on.
pub compute :
    Env → Tensor → Tensor → Tensor → AttentionConfig → AttentionShape → Result AttentionResult
compute env q k v cfg shape = elim (select_tile q.dtype shape.head_dim (smem_limit env)) [
  | none ↦ err (attn device_capability)
  | some tile ↦ elim (dtype_id_for q.dtype) [
    | none ↦ err (attn unsupported_dtype)
    | some dtype ↦ do
      out ← new_output env shape q.dtype
      lse ← new_lse env cfg shape
      launch_tiled_forward env (fwd_params env q k v out lse cfg shape dtype) tile.block_m
          tile.block_n tile.warps
      ok (result_of tile out lse)
  ]
]

pub forward : Env → Tensor → Tensor → Tensor → AttentionConfig → Result AttentionResult
forward env q k v cfg = do
  shape ← checked_shape q k v cfg
  (if ltb max_tiled_head_dim shape.head_dim then err (attn device_capability) else ok tt)
  compute env q k v cfg shape

pub forward_varlen : Result AttentionResult
forward_varlen = err (attn unsupported_feature)

-- The entry point of tiled_attention.hpp.
abbrev pub tiled_attention :
    Env → Tensor → Tensor → Tensor → AttentionConfig → Result AttentionResult
tiled_attention env q k v cfg = forward env q k v cfg
