-- ===== src/Backends/Naive.antt =====
-- src/backends/naive/naive_backend.cpp: the reference backend, which stores the score matrix.
pub mod Laws
pub mod Kernel
use sci_compute_attention.Base.{
  ℕ, ◌*◌, ◌/◌, ◌≡◌, Bool, true, false, not, ◌&&◌, ◌||◌, Option, none, some, ℤ, pos, is_neg, ltb,
  ◌==◌, if◌then◌else◌,
}
use sci_compute_attention.Types.{naive, AttentionShape, supported_head_dim_index}
use sci_compute_attention.Tensor.{Tensor}
use sci_compute_attention.Status.{
  Result, Status, ok, err, attn, ◌>>=◌, ◌>>◌, shape_mismatch, unsupported_dtype,
  unsupported_feature, workspace_exceeded,
}
use sci_compute_attention.Config.{AttentionConfig, above_zero, no_tile}
use sci_compute_attention.KvCache.{mul64}
use sci_compute_attention.ScratchPool.{ScratchPool, scores_fp32, acquire_scratch_fp32}
use sci_compute_attention.Dispatcher.{CapabilityReport}
use sci_compute_attention.Backends.{
  Env, DtypeId, dtype_id_for, NaiveFwdParams, Buffer, AttentionResult, checked_shape, new_output,
  new_lse, fwd_params, staged, with_scratch,
}
use sci_compute_attention.Backends.Launchers.{launch_naive_forward}

-- A product of size_t wraps.
pub score_bytes : AttentionShape → ℕ
score_bytes shape =
    mul64 (mul64 (mul64 (mul64 shape.batch shape.num_heads) shape.seq_q) shape.seq_kv) 4

pub effective_workspace_limit : Env → AttentionConfig → ℕ
effective_workspace_limit env cfg =
    if not (cfg.workspace_limit_bytes == 0)
    then cfg.workspace_limit_bytes
    else env.capability.free_mem_bytes / 2

-- A limit of 0 is none.
pub over_limit : Env → AttentionConfig → AttentionShape → Bool
unfolding effective_workspace_limit score_bytes
over_limit env cfg shape =
    let limit = effective_workspace_limit env cfg in
    not (limit == 0) && ltb limit (score_bytes shape)

unfoldable pub supports : Env → AttentionConfig → AttentionShape → CapabilityReport
unfolding over_limit score_bytes
supports env cfg shape = record {
  supported =
      if not env.cuda_available
      then false
      else if is_neg (supported_head_dim_index shape.head_dim)
      then false
      else if above_zero cfg.sliding_window
      then false
      else not (over_limit env cfg shape);
  recommended_backend = naive;
  tile = no_tile;
  workspace_bytes = score_bytes shape;
}

pub workspace_bytes : AttentionConfig → AttentionShape → ℕ
workspace_bytes cfg shape = score_bytes shape

-- `Forward` up to the scratch buffer.
pub prepare : Env → Tensor → Tensor → Tensor → AttentionConfig → Result (AttentionShape × DtypeId)
prepare env q k v cfg = do
  shape ← checked_shape q k v cfg
  (if over_limit env cfg shape then err (attn workspace_exceeded) else ok tt)
  (if cfg.causal && ltb shape.seq_kv shape.seq_q then err (attn shape_mismatch) else ok tt)
  elim (dtype_id_for q.dtype) [
    | none ↦ err (attn unsupported_dtype)
    | some dtype ↦ ok (shape, dtype)
  ]

abbrev pub result_of : AttentionShape → Buffer → Option Buffer → AttentionResult
result_of shape out lse = record {
  out = out;
  lse = lse;
  stats = record {
    used_backend = naive;
    tile = no_tile;
    workspace_bytes = score_bytes shape;
    kv_bytes = 0;
    num_splits = 0;
    materialized_score_bytes = score_bytes shape;
  };
}

-- `Forward` from the allocation of the output on.
pub compute :
    Env
    → Tensor
    → Tensor
    → Tensor
    → AttentionConfig
    → AttentionShape
    → DtypeId
    → Result AttentionResult
compute env q k v cfg shape dtype = do
  out ← new_output env shape q.dtype
  lse ← new_lse env cfg shape
  launch_naive_forward env (record {
    base = fwd_params env q k v out lse cfg shape dtype;
    scores = some env.scratch_address;
  })
  ok (result_of shape out lse)

pub forward :
    Env
    → Tensor
    → Tensor
    → Tensor
    → AttentionConfig
    → ScratchPool
    → Result AttentionResult × ScratchPool
forward env q k v cfg pool = staged (prepare env q k v cfg) pool λ p.
    with_scratch
      (acquire_scratch_fp32 env.scratch_ok scores_fp32 (score_bytes p.0 / 4) env.device_id pool)
      (compute env q k v cfg p.0 p.1)

pub forward_varlen : Result AttentionResult
forward_varlen = err (attn unsupported_feature)

-- The entry point of naive_attention.hpp.
abbrev pub naive_attention :
    Env
    → Tensor
    → Tensor
    → Tensor
    → AttentionConfig
    → ScratchPool
    → Result AttentionResult × ScratchPool
naive_attention env q k v cfg pool = forward env q k v cfg pool
