-- ===== src/Backends/Flash.antt =====
-- src/backends/flash/flash_backend.cpp, but for sequences of varying length (Backends/Varlen).
pub mod Laws
use sci_compute_attention.Base.{
  ℕ, ◌≡◌, Bool, true, false, not, Option, none, some, ltb, ◌==◌, if◌then◌else◌,
}
use sci_compute_attention.Types.{DType, float16, bfloat16, dtype_size, flash, AttentionShape}
use sci_compute_attention.Tensor.{Tensor}
use sci_compute_attention.Status.{
  Result, Status, ok, err, attn, ◌>>=◌, ◌>>◌, unsupported_head_dim, unsupported_dtype,
  unsupported_feature, device_capability,
}
use sci_compute_attention.Config.{
  AttentionConfig, TileConfig, FlashTile, find_flash_tile, above_zero, no_tile,
}
use sci_compute_attention.Dispatcher.{CapabilityReport}
use sci_compute_attention.Backends.{
  Env, DtypeId, fp16, bf16, Buffer, AttentionResult, smem_limit, checked_shape, new_output, new_lse,
  fwd_params,
}
use sci_compute_attention.Backends.Launchers.{flash_tile_smem_bytes, launch_flash_fwd}

-- The ids 1 and 2; the id 0 is `none`.
abbrev pub flash_dtype_id : DType → Option DtypeId
flash_dtype_id float16 = some fp16
flash_dtype_id bfloat16 = some bf16
flash_dtype_id other = none

-- `ValidateFlashRequest` once the tile is found.
pub check_tile : Env → DType → AttentionConfig → AttentionShape → FlashTile → Result FlashTile
check_tile env dtype cfg shape tile =
    if ltb (smem_limit env) (flash_tile_smem_bytes tile shape.head_dim (dtype_size dtype))
    then err (attn device_capability)
    else if above_zero cfg.sliding_window
    then err (attn unsupported_feature)
    else ok tile

-- The result is the tile that the code stores in `tile_out`, with the id of the dtype.
unfoldable pub validate_flash_request :
    Env → DType → AttentionConfig → AttentionShape → Result (FlashTile × DtypeId)
unfolding check_tile
validate_flash_request env dtype cfg shape =
    if not env.cuda_available then err (attn unsupported_feature) else elim (flash_dtype_id dtype) [
      | none ↦ err (attn unsupported_dtype)
      | some id ↦ elim (find_flash_tile shape.head_dim) [
        | none ↦ err (attn unsupported_head_dim)
        | some tile ↦ check_tile env dtype cfg shape tile >>= λ checked. ok (checked, id)
      ]
    ]

abbrev pub tile_config : FlashTile → TileConfig
tile_config t = record {
  block_m = t.block_m;
  block_n = t.block_n;
  warps = t.warps;
  stages = t.stages;
  use_tma = false;
}

abbrev report_of : Bool → TileConfig → CapabilityReport
report_of supported tile = record {
  supported = supported;
  recommended_backend = flash;
  tile = tile;
  workspace_bytes = 0;
}

-- The footprint is computed for elements of two bytes.
pub supports : Env → AttentionConfig → AttentionShape → CapabilityReport
supports env cfg shape =
    if not env.cuda_available
    then report_of false no_tile
    else elim (find_flash_tile shape.head_dim) [
      | none ↦ report_of false no_tile
      | some tile ↦
          if above_zero cfg.sliding_window
          then report_of false no_tile
          else if ltb (smem_limit env) (flash_tile_smem_bytes tile shape.head_dim 2)
          then report_of false no_tile
          else report_of true (tile_config tile)
    ]

pub workspace_bytes : AttentionConfig → AttentionShape → ℕ
workspace_bytes cfg shape = 0

abbrev pub result_of : FlashTile → Buffer → Option Buffer → AttentionResult
result_of tile out lse = record {
  out = out;
  lse = lse;
  stats = record {
    used_backend = flash;
    tile = tile_config tile;
    workspace_bytes = 0;
    kv_bytes = 0;
    num_splits = 0;
    materialized_score_bytes = 0;
  };
}

pub forward : Env → Tensor → Tensor → Tensor → AttentionConfig → Result AttentionResult
forward env q k v cfg = do
  shape ← checked_shape q k v cfg
  request ← validate_flash_request env q.dtype cfg shape
  out ← new_output env shape q.dtype
  lse ← new_lse env cfg shape
  launch_flash_fwd env (fwd_params env q k v out lse cfg shape request.1)
  ok (result_of request.0 out lse)

-- The entry point of flash_attention.hpp.
abbrev pub flash_attention :
    Env → Tensor → Tensor → Tensor → AttentionConfig → Result AttentionResult
flash_attention env q k v cfg = forward env q k v cfg
