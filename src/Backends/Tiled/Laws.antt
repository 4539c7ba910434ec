-- ===== src/Backends/Tiled/Laws.antt =====
-- When the tiled backend computes a call, and with which tile.
use sci_compute_attention.Base.{
  ℕ, ◌≤◌, ◌≡◌, ◌∙◌, true, false, some, arith, refl, inl, inr, ltb, if◌then◌else◌, Option-cases,
  is_neg,
}
use sci_compute_attention.Types.{float16, dtype_size, AttentionShape, supported_head_dim_index}
use sci_compute_attention.Tensor.{Tensor}
use sci_compute_attention.Status.{
  Result, Status, ok, err, attn, ◌>>=◌, ◌>>◌, bind-ok, ok_inj, device_capability,
}
use sci_compute_attention.Config.{AttentionConfig, above_zero}
use sci_compute_attention.Config.Laws.{IsAccepted}
use sci_compute_attention.Dispatcher.{infer_shape}
use sci_compute_attention.Backends.{
  Env, DtypeId, dtype_id_for, AttentionResult, smem_limit, checked_shape, new_output, new_lse,
  fwd_params,
}
use sci_compute_attention.Backends.Laws.{
  IsHealthy, checked_shape-ok, checked_shape_accepts, output_buffer, new_output-ok,
  new_output_healthy, new_lse_healthy,
}
use sci_compute_attention.Backends.Launchers.{
  tiled_smem_bytes, is_tiled_head_dim, launch_tiled_forward,
}
use sci_compute_attention.Backends.Launchers.Laws.{launch_tiled_healthy}
use sci_compute_attention.Backends.Tiled.{
  TileCandidate, max_tiled_head_dim, first_fit, select_tile, supports, compute, forward, result_of,
}
use sci_compute_attention.Backends.Tiled.Tiles.{
  select_tile-fits, select_tile_narrow, IsTile, tile_bytes, is_candidate-IsTile,
  select_tile-tile_bytes,
}

-- What a result of `Forward` says of the call: its tile fits the limit for the elements of the call.
pub record FitsTile (env : Env) (q k v : Tensor) (cfg : AttentionConfig) (r : AttentionResult)
    : Type 0 where
  pub shape : AttentionShape
  pub inferred : infer_shape q k v cfg.layout ≡ ok shape
  pub accepted : IsAccepted cfg shape
  pub head_dim : shape.head_dim ≤ max_tiled_head_dim
  pub tile : TileCandidate
  pub fits_limit :
      tile_bytes shape.head_dim (dtype_size q.dtype) tile.block_m tile.block_n ≤ smem_limit env
  pub of_table : IsTile tile
  pub id : DtypeId
  pub known : dtype_id_for q.dtype ≡ some id
  pub result : r ≡ result_of tile (output_buffer shape q.dtype r.out.address) r.lse
  pub launched :
      launch_tiled_forward env
        (fwd_params env q k v r.out r.lse cfg shape id)
        tile.block_m
        tile.block_n
        tile.warps
      ≡ ok tt

-- The steps after the checks.
abbrev after_checks :
    Env
    → Tensor
    → Tensor
    → Tensor
    → AttentionConfig
    → AttentionShape
    → TileCandidate
    → DtypeId
    → Result AttentionResult
after_checks env q k v cfg shape tile id = do
  out ← new_output env shape q.dtype
  lse ← new_lse env cfg shape
  launch_tiled_forward env (fwd_params env q k v out lse cfg shape id) tile.block_m tile.block_n
      tile.warps
  ok (result_of tile out lse)

compute_cases :
    (env : Env) (q k v : Tensor) (cfg : AttentionConfig) (shape : AttentionShape)
    (r : AttentionResult)
    → compute env q k v cfg shape ≡ ok r
    → (tile : TileCandidate) × (id : DtypeId) × (select_tile q.dtype shape.head_dim (smem_limit env)
        ≡ some tile)
      × (dtype_id_for q.dtype ≡ some id)
      × (after_checks env q k v cfg shape tile id ≡ ok r)
unfolding compute
compute_cases env q k v cfg shape r h =
    elim (Option-cases (select_tile q.dtype shape.head_dim (smem_limit env))) [
      | inl e ↦ absurd (ground (arith, e, h))
      | inr (tile, e) ↦ elim (Option-cases (dtype_id_for q.dtype)) [
        | inl d ↦ absurd (ground (arith, e, d, h))
        | inr (id, d) ↦ (tile, id, e, d, ground (arith, e, d, h))
      ]
    ]

compute_lem :
    (env : Env) (q k v : Tensor) (cfg : AttentionConfig) (shape : AttentionShape)
    (tile : TileCandidate) (id : DtypeId)
    → select_tile q.dtype shape.head_dim (smem_limit env) ≡ some tile
    → dtype_id_for q.dtype ≡ some id
    → compute env q k v cfg shape ≡ after_checks env q k v cfg shape tile id
unfolding compute
compute_lem env q k v cfg shape tile id e d = rw (compute, e, d) refl

abbrev dim_guard : AttentionShape → Status
dim_guard shape =
    if ltb max_tiled_head_dim shape.head_dim then err (attn device_capability) else ok tt

pub forward-FitsTile :
    (env : Env) (q k v : Tensor) (cfg : AttentionConfig) (r : AttentionResult)
    → forward env q k v cfg ≡ ok r
    → FitsTile env q k v cfg r
unfolding forward
forward-FitsTile env q k v cfg r h =
    let (shape, checked, h1) = bind-ok (checked_shape q k v cfg) _ r h in
    let (u, small, h2) = bind-ok (dim_guard shape) _ r h1 in
    let (tile, id, chosen, known, h3) = compute_cases env q k v cfg shape r h2 in
    let (out, made, h4) = bind-ok (new_output env shape q.dtype) _ r h3 in
    let (lse, kept, h5) = bind-ok (new_lse env cfg shape) _ r h4 in
    let (u', launched, h6) =
      bind-ok
        (launch_tiled_forward env (fwd_params env q k v out lse cfg shape id) tile.block_m
          tile.block_n tile.warps)
        _ r h5 in
    let same = ok_inj (result_of tile out lse) r h6 in
    let (inferred, accepted) = checked_shape-ok q k v cfg shape checked in
    let listed = (select_tile-fits q.dtype shape.head_dim (smem_limit env) tile chosen).1 in
    record {
      shape = shape;
      inferred = inferred;
      accepted = accepted;
      head_dim = ground (arith, small);
      tile = tile;
      fits_limit = select_tile-tile_bytes q.dtype shape.head_dim (smem_limit env) tile chosen;
      of_table = is_candidate-IsTile tile listed;
      id = id;
      known = known;
      result = rw (← same) (rw (← new_output-ok env shape q.dtype out made) refl);
      launched = rw (← same) launched;
    }

-- The head dimensions that both the table and the limit of 128 allow are instantiated.
dim_known :
    (d : ℕ)
    → is_neg (supported_head_dim_index d) ≡ false
    → ltb max_tiled_head_dim d ≡ false
    → is_tiled_head_dim d ≡ true
unfolding supported_head_dim_index is_tiled_head_dim
dim_known d h small = ground arith

-- Does `Supports` say yes? Then the tests that it makes have passed.
pub supports_cases :
    (env : Env) (cfg : AttentionConfig) (shape : AttentionShape)
    → (supports env cfg shape).supported ≡ true
    → (ltb max_tiled_head_dim shape.head_dim ≡ false)
      × (is_neg (supported_head_dim_index shape.head_dim) ≡ false)
      × (tile : TileCandidate) × (select_tile float16 shape.head_dim (smem_limit env) ≡ some tile)
unfolding supports
supports_cases env cfg shape h =
    elim (Option-cases (select_tile float16 shape.head_dim (smem_limit env))) [
      | inl e ↦ absurd (ground (arith, e, h))
      | inr (tile, e) ↦ (ground (arith, e, h), ground (arith, e, h), tile, e)
    ]

-- 70400 bytes of shared memory are enough for a tile of two-byte elements.
pub supports_accepts :
    (env : Env) (cfg : AttentionConfig) (shape : AttentionShape)
    → env.cuda_available ≡ true
    → is_neg (supported_head_dim_index shape.head_dim) ≡ false
    → shape.head_dim ≤ max_tiled_head_dim
    → above_zero cfg.sliding_window ≡ false
    → 70_400 ≤ smem_limit env
    → (supports env cfg shape).supported ≡ true
unfolding supports supported_head_dim_index select_tile first_fit tiled_smem_bytes
supports_accepts env cfg shape cuda dim small no_window room = ground arith

module _ (env : Env) (healthy : IsHealthy env) (q k v : Tensor) (cfg : AttentionConfig)
    (shape : AttentionShape) where
  -- On a machine where nothing fails, an accepted call is computed where `Supports` says yes and a tile
  -- fits for the dtype of the call.
  pub forward_healthy :
      (id : DtypeId) (tile : TileCandidate)
      → infer_shape q k v cfg.layout ≡ ok shape
      → IsAccepted cfg shape
      → dtype_id_for q.dtype ≡ some id
      → (supports env cfg shape).supported ≡ true
      → select_tile q.dtype shape.head_dim (smem_limit env) ≡ some tile
      → (r : AttentionResult) × (forward env q k v cfg ≡ ok r)
  unfolding forward fwd_params
  forward_healthy id tile inferred a known yes_answer chosen =
      let (small, dim_ok, t, probed) = supports_cases env cfg shape yes_answer in
      let (lse, kept) = new_lse_healthy env healthy cfg shape in
      let out = output_buffer shape q.dtype healthy.out in
      (
        result_of tile out lse,
        rw (checked_shape_accepts q k v cfg shape inferred a) (
            rw (small) (
              rw (compute_lem env q k v cfg shape tile id chosen known) (
                rw (new_output_healthy env healthy shape q.dtype) (
                  rw (kept) (
                    rw
                      (launch_tiled_healthy env healthy (fwd_params env q k v out lse cfg shape id)
                        tile.block_m tile.block_n tile.warps
                        (ground
                          (arith, healthy.has_memory q, healthy.has_memory k, healthy.has_memory v))
                        (dim_known shape.head_dim dim_ok small)
                        (select_tile-fits q.dtype shape.head_dim (smem_limit env) tile chosen).1
                        a.seq_q (omega (arith, a.heads, a.kv_heads)) a.batch)
                      refl))))),
      )

  -- An answer of `Supports` is right for tensors of two bytes.
  pub forward_healthy_narrow :
      (id : DtypeId)
      → infer_shape q k v cfg.layout ≡ ok shape
      → IsAccepted cfg shape
      → dtype_id_for q.dtype ≡ some id
      → dtype_size q.dtype ≡ 2
      → (supports env cfg shape).supported ≡ true
      → (r : AttentionResult) × (forward env q k v cfg ≡ ok r)
  forward_healthy_narrow id inferred a known narrow yes_answer =
      let (small, dim_ok, t, probed) = supports_cases env cfg shape yes_answer in
      forward_healthy id t inferred a known yes_answer
        (select_tile_narrow q.dtype shape.head_dim (smem_limit env) narrow ∙ probed)
