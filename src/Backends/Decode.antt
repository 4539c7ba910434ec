-- ===== src/Backends/Decode.antt =====
-- src/backends/decode/decode_config.hpp and decode_backend.cpp: one query token over a long cache, in
-- splits whose partial results are merged.
pub mod Splits
pub mod Softmax
pub mod Signs
pub mod Kernel
pub mod Laws
pub mod Partitions
use sci_compute_attention.Base.{
  ℕ, zero, suc, ◌+◌, ◌-◌, ◌*◌, ◌/◌, ◌%◌, ◌≡◌, min, Bool, true, false, not, ◌||◌, Option, none, some,
  ℤ, pos, negsuc, is_neg, to_ℕ, ltb, ◌==◌, if◌then◌else◌,
}
use sci_compute_attention.Types.{bhsd, decode, AttentionShape, supported_head_dim_index}
use sci_compute_attention.Tensor.{Tensor}
use sci_compute_attention.Status.{
  Result, Status, ok, err, attn, ◌>>=◌, ◌>>◌, unsupported_head_dim, unsupported_dtype,
  unsupported_feature,
}
use sci_compute_attention.Config.{AttentionConfig, above_zero, no_tile, effective_scale}
use sci_compute_attention.Capability.{DeviceCapability}
use sci_compute_attention.KvCache.{mul64}
use sci_compute_attention.Layout.{strides_for}
use sci_compute_attention.ScratchPool.{ScratchPool, decode_partials, acquire_scratch_fp32}
use sci_compute_attention.Dispatcher.{CapabilityReport}
use sci_compute_attention.Backends.{
  Env, DtypeId, dtype_id_for, DecodeFwdParams, Buffer, AttentionResult, checked_shape, new_output,
  staged, with_scratch,
}
use sci_compute_attention.Backends.Launchers.{launch_decode_split_k}

abbrev pub tokens_per_split : ℕ
tokens_per_split = 512

abbrev pub max_splits : ℕ
max_splits = 16

abbrev pub native_seq_q : ℕ
native_seq_q = 1

pub splits_for : ℕ → ℕ → ℕ
splits_for seq_kv sm_count =
    let wanted = (seq_kv + tokens_per_split - 1) / tokens_per_split in
    let concurrency_cap = if ltb 0 sm_count then sm_count * 2 else max_splits in
    let capped = if ltb concurrency_cap wanted then concurrency_cap else wanted in
    let splits = if ltb max_splits capped then max_splits else capped in
    if seq_kv == 0 then 1 else if ltb splits 1 then 1 else splits

pub partial_elements : ℕ → ℕ → ℕ → ℕ → ℕ
partial_elements batch heads_q num_splits head_dim =
    let base = mul64 (mul64 batch heads_q) num_splits in mul64 base (2 + head_dim)

unfoldable pub partial_bytes : AttentionShape → ℕ → ℕ
unfolding partial_elements
partial_bytes shape splits =
    mul64 (partial_elements shape.batch shape.num_heads splits shape.head_dim) 4

-- A request of splits is capped; `kv_len` is the bound that the automatic choice goes by.
unfoldable pub resolve_splits : AttentionConfig → ℕ → DeviceCapability → ℕ
unfolding splits_for
resolve_splits cfg kv_len cap =
    if above_zero cfg.num_splits
    then min (to_ℕ cfg.num_splits) max_splits
    else splits_for kv_len cap.sm_count

pub supports : Env → AttentionConfig → AttentionShape → CapabilityReport
supports env cfg shape = record {
  supported =
      if not env.cuda_available
      then false
      else if not (shape.seq_q == native_seq_q)
      then false
      else if is_neg (supported_head_dim_index shape.head_dim)
      then false
      else if not (shape.head_dim % 32 == 0)
      then false
      else not (above_zero cfg.sliding_window);
  recommended_backend = decode;
  tile = no_tile;
  workspace_bytes = partial_bytes shape (resolve_splits cfg shape.seq_kv env.capability);
}

pub workspace_bytes : Env → AttentionConfig → AttentionShape → ℕ
workspace_bytes env cfg shape = partial_bytes shape (resolve_splits cfg shape.seq_kv env.capability)

-- `Forward` up to the scratch buffer.
pub prepare : Tensor → Tensor → Tensor → AttentionConfig → Result (AttentionShape × DtypeId)
prepare q k v cfg = do
  shape ← checked_shape q k v cfg
  (if not (shape.seq_q == native_seq_q) then err (attn unsupported_feature) else ok tt)
  (if not (shape.head_dim % 32 == 0) then err (attn unsupported_head_dim) else ok tt)
  elim (dtype_id_for q.dtype) [
    | none ↦ err (attn unsupported_dtype)
    | some dtype ↦ ok (shape, dtype)
  ]

-- The three regions of the scratch buffer, which holds floats: `base` maxima, `base` sums, the outputs.
abbrev pub region_l : ℕ → ℕ → ℕ
region_l scratch base = scratch + 4 * base

abbrev pub region_o : ℕ → ℕ → ℕ
region_o scratch base = region_l scratch base + 4 * base

unfoldable pub decode_params :
    Env
    → Tensor
    → Tensor
    → Tensor
    → Buffer
    → AttentionConfig
    → AttentionShape
    → DtypeId
    → ℕ
    → DecodeFwdParams
decode_params env q k v out cfg shape dtype splits =
    let base = mul64 (mul64 shape.batch shape.num_heads) splits in
    let kv_stride = strides_for cfg.layout shape.seq_kv shape.num_kv_heads shape.head_dim in
    record {
      q = env.data_of q;
      k = env.data_of k;
      v = env.data_of v;
      out = some out.address;
      partial_m = some env.scratch_address;
      partial_l = some (region_l env.scratch_address base);
      partial_o = some (region_o env.scratch_address base);
      batch = shape.batch;
      num_heads = shape.num_heads;
      num_kv_heads = shape.num_kv_heads;
      seq_kv = shape.seq_kv;
      head_dim = shape.head_dim;
      num_splits = splits;
      q_stride = strides_for cfg.layout shape.seq_q shape.num_heads shape.head_dim;
      k_stride = kv_stride;
      v_stride = kv_stride;
      o_stride = strides_for bhsd shape.seq_q shape.num_heads shape.head_dim;
      scale = effective_scale env.inverse_sqrt cfg shape;
      dtype = dtype;
      page_table = none;
      block_size = 0;
      max_blocks_per_seq = 0;
      num_kv_blocks = 0;
      seq_lens = none;
    }

abbrev pub result_of : AttentionShape → ℕ → Buffer → AttentionResult
result_of shape splits out = record {
  out = out;
  lse = none;
  stats = record {
    used_backend = decode;
    tile = no_tile;
    workspace_bytes = partial_bytes shape splits;
    kv_bytes = 0;
    num_splits = splits;
    materialized_score_bytes = 0;
  };
}

-- `Forward` from the allocation of the output on.
pub compute :
    Env
    → Tensor
    → Tensor
    → Tensor
    → AttentionConfig
    → AttentionShape
    → DtypeId
    → ℕ
    → Result AttentionResult
compute env q k v cfg shape dtype splits = do
  out ← new_output env shape q.dtype
  launch_decode_split_k env (decode_params env q k v out cfg shape dtype splits)
  ok (result_of shape splits out)

pub forward :
    Env
    → Tensor
    → Tensor
    → Tensor
    → AttentionConfig
    → ScratchPool
    → Result AttentionResult × ScratchPool
forward env q k v cfg pool = staged (prepare q k v cfg) pool λ p.
    let splits = resolve_splits cfg p.0.seq_kv env.capability in
    with_scratch
      (acquire_scratch_fp32 env.scratch_ok decode_partials (partial_bytes p.0 splits / 4)
        env.device_id pool)
      (compute env q k v cfg p.0 p.1 splits)

pub forward_varlen : Result AttentionResult
forward_varlen = err (attn unsupported_feature)

pub record DecodeConfig : Type 0 where
  pub num_splits : ℤ
  pub max_splits : ℕ
  pub use_splitk : Bool

pub recommend_decode_config : AttentionShape → DeviceCapability → DecodeConfig
recommend_decode_config shape cap = record {
  num_splits = pos (splits_for shape.seq_kv cap.sm_count);
  max_splits = max_splits;
  use_splitk = true;
}

-- The entry points of decode_attention.hpp.
abbrev pub decode_attention :
    Env
    → Tensor
    → Tensor
    → Tensor
    → AttentionConfig
    → ScratchPool
    → Result AttentionResult × ScratchPool
decode_attention env q k v cfg pool = forward env q k v cfg pool

abbrev pub decode_attention_with :
    Env
    → Tensor
    → Tensor
    → Tensor
    → AttentionConfig
    → DecodeConfig
    → ScratchPool
    → Result AttentionResult × ScratchPool
decode_attention_with env q k v cfg decode_cfg pool =
    forward env q k v (record cfg { num_splits = decode_cfg.num_splits }) pool
