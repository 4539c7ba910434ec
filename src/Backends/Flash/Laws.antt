-- ===== src/Backends/Flash/Laws.antt =====
-- When the flash backend computes a call, and with what.
use sci_compute_attention.Base.{
  ◌≤◌, ◌≡◌, ◌≢◌, true, false, none, some, arith, is_neg, refl, inl, inr, Option-cases,
}
use sci_compute_attention.Types.{DType, dtype_size, AttentionShape, supported_head_dim_index}
use sci_compute_attention.Tensor.{Tensor}
use sci_compute_attention.Status.{ok, err, attn, unsupported_dtype}
use sci_compute_attention.Config.{AttentionConfig, FlashTile, find_flash_tile, above_zero}
use sci_compute_attention.Config.Laws.{IsAccepted}
use sci_compute_attention.Dispatcher.{infer_shape}
use sci_compute_attention.Backends.{Env, DtypeId, fp32, AttentionResult, smem_limit, fwd_params}
use sci_compute_attention.Backends.Laws.{
  IsHealthy, checked_shape_accepts, output_buffer, new_output_healthy, new_lse_healthy,
}
use sci_compute_attention.Backends.Launchers.{flash_tile_smem_bytes, launch_flash_fwd}
use sci_compute_attention.Backends.Launchers.Laws.{launch_flash_fwd_healthy}
use sci_compute_attention.Backends.Flash.{
  flash_dtype_id, check_tile, validate_flash_request, supports, forward, result_of, tile_config,
}

-- A request that is served with this tile.
pub record IsServed (env : Env) (dtype : DType) (cfg : AttentionConfig) (shape : AttentionShape)
    (tile : FlashTile) (id : DtypeId) : Type 0 where
  pub cuda : env.cuda_available ≡ true
  pub narrow : flash_dtype_id dtype ≡ some id
  pub found : find_flash_tile shape.head_dim ≡ some tile
  pub fits : flash_tile_smem_bytes tile shape.head_dim 2 ≤ smem_limit env
  pub no_window : above_zero cfg.sliding_window ≡ false

narrow_size : (dtype : DType) (id : DtypeId) → flash_dtype_id dtype ≡ some id → dtype_size dtype ≡ 2
narrow_size dtype id h = ground arith

id-ne-fp32 : (dtype : DType) (id : DtypeId) → flash_dtype_id dtype ≡ some id → id ≢ fp32
id-ne-fp32 dtype id h = ground arith

module _ (env : Env) (dtype : DType) (cfg : AttentionConfig) (shape : AttentionShape) where
  pub validate_flash_request-IsServed :
      (tile : FlashTile) (id : DtypeId)
      → validate_flash_request env dtype cfg shape ≡ ok (tile, id)
      → IsServed env dtype cfg shape tile id
  unfolding validate_flash_request check_tile
  validate_flash_request-IsServed tile id h = ground (arith, narrow_size dtype id)

  refuse_wide :
      env.cuda_available ≡ true
      → flash_dtype_id dtype ≡ none
      → validate_flash_request env dtype cfg shape ≡ err (attn unsupported_dtype)
  unfolding validate_flash_request
  refuse_wide cuda wide = rw (validate_flash_request, cuda, wide) refl

  pub IsServed-validate_flash_request :
      (tile : FlashTile) (id : DtypeId)
      → IsServed env dtype cfg shape tile id
      → validate_flash_request env dtype cfg shape ≡ ok (tile, id)
  unfolding validate_flash_request check_tile
  IsServed-validate_flash_request tile id s = ground (arith, narrow_size dtype id)

-- `Supports` says yes exactly where a request of a two-byte type is served.
pub supports-IsServed :
    (env : Env) (dtype : DType) (id : DtypeId) (cfg : AttentionConfig) (shape : AttentionShape)
    → flash_dtype_id dtype ≡ some id
    → (supports env cfg shape).supported ≡ true
    → (tile : FlashTile) × IsServed env dtype cfg shape tile id
unfolding supports
supports-IsServed env dtype id cfg shape narrow yes_answer =
    elim (Option-cases (find_flash_tile shape.head_dim)) [
      | inl e ↦ absurd (ground (arith, e))
      | inr (tile, e) ↦ (
        tile,
        record {
          cuda = ground (arith, e);
          narrow = narrow;
          found = e;
          fits = ground (arith, e);
          no_window = ground (arith, e);
        },
      )
    ]

pub IsServed-supports :
    (env : Env) (dtype : DType) (id : DtypeId) (cfg : AttentionConfig) (shape : AttentionShape)
    (tile : FlashTile)
    → IsServed env dtype cfg shape tile id
    → ((supports env cfg shape).supported ≡ true)
      × ((supports env cfg shape).tile ≡ tile_config tile)
unfolding supports
IsServed-supports env dtype id cfg shape tile s = ground arith

-- 87040 bytes of shared memory are enough for every tile of the table.
pub supports_accepts :
    (env : Env) (cfg : AttentionConfig) (shape : AttentionShape)
    → env.cuda_available ≡ true
    → is_neg (supported_head_dim_index shape.head_dim) ≡ false
    → above_zero cfg.sliding_window ≡ false
    → 87_040 ≤ smem_limit env
    → (supports env cfg shape).supported ≡ true
unfolding supports supported_head_dim_index find_flash_tile flash_tile_smem_bytes
supports_accepts env cfg shape cuda dim no_window room = ground arith

-- What a result of `Forward` says of the call.
pub record Serves (env : Env) (q k v : Tensor) (cfg : AttentionConfig) (r : AttentionResult)
    : Type 0 where
  pub shape : AttentionShape
  pub inferred : infer_shape q k v cfg.layout ≡ ok shape
  pub accepted : IsAccepted cfg shape
  pub tile : FlashTile
  pub id : DtypeId
  pub served : IsServed env q.dtype cfg shape tile id
  pub result : r ≡ result_of tile (output_buffer shape q.dtype r.out.address) r.lse
  pub launched : launch_flash_fwd env (fwd_params env q k v r.out r.lse cfg shape id) ≡ ok tt

-- A type of another width is refused, whatever else holds.
pub forward_refuses :
    (env : Env) (q k v : Tensor) (cfg : AttentionConfig) (shape : AttentionShape)
    → infer_shape q k v cfg.layout ≡ ok shape
    → IsAccepted cfg shape
    → env.cuda_available ≡ true
    → flash_dtype_id q.dtype ≡ none
    → forward env q k v cfg ≡ err (attn unsupported_dtype)
unfolding forward
forward_refuses env q k v cfg shape inferred a cuda wide =
    rw (checked_shape_accepts q k v cfg shape inferred a) (rw (refused) refl)
  where
    refused : validate_flash_request env q.dtype cfg shape ≡ err (attn unsupported_dtype)
    refused = refuse_wide env q.dtype cfg shape cuda wide

module _ (env : Env) (healthy : IsHealthy env) (q k v : Tensor) (cfg : AttentionConfig)
    (shape : AttentionShape) where
  -- On a machine where nothing fails, an accepted call of a two-byte type is computed where `Supports`
  -- says yes.
  pub forward_healthy :
      (id : DtypeId)
      → infer_shape q k v cfg.layout ≡ ok shape
      → IsAccepted cfg shape
      → flash_dtype_id q.dtype ≡ some id
      → (supports env cfg shape).supported ≡ true
      → (r : AttentionResult) × (forward env q k v cfg ≡ ok r)
  unfolding forward fwd_params
  forward_healthy id inferred a narrow yes_answer =
      let (tile, served) = supports-IsServed env q.dtype id cfg shape narrow yes_answer in
      let (lse, kept) = new_lse_healthy env healthy cfg shape in
      let out = output_buffer shape q.dtype healthy.out in
      (
        result_of tile out lse,
        rw (checked_shape_accepts q k v cfg shape inferred a) (
            rw (IsServed-validate_flash_request env q.dtype cfg shape tile id served) (
              rw (new_output_healthy env healthy shape q.dtype) (
                rw (kept) (
                  rw
                    (launch_flash_fwd_healthy env healthy
                      (fwd_params env q k v out lse cfg shape id) tile
                      (ground
                        (arith, healthy.has_memory q, healthy.has_memory k, healthy.has_memory v))
                      (id-ne-fp32 q.dtype id narrow) served.found a.seq_q
                      (omega (arith, a.heads, a.kv_heads)) a.batch)
                    refl)))),
      )
