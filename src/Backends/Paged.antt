-- ===== src/Backends/Paged.antt =====
-- src/backends/paged: decode attention over the pages of a cache, and the entry points of
-- paged_attention.hpp and of src/api/attention_api.cpp.
pub mod Laws
mod Examples
use sci_compute_attention.Base.{
  ℕ, ◌*◌, ◌/◌, ◌%◌, ◌+◌, Bool, true, false, not, ◌||◌, Option, none, some, List, [], ◌∷◌, ℤ, pos,
  is_neg, to_ℕ, ltb, leb, ◌==◌, if◌then◌else◌,
}
use sci_compute_attention.Types.{
  AttnLayout, BackendKind, decode, paged, AttentionShape, supported_head_dim_index,
}
use sci_compute_attention.Tensor.{Tensor, ndims, dim}
use sci_compute_attention.Status.{
  Result, Status, ok, err, attn, sci, ◌>>=◌, ◌>>◌, shape_mismatch, unsupported_head_dim,
  unsupported_dtype, unsupported_feature, invalid_argument,
}
use sci_compute_attention.Config.{AttentionConfig, no_tile, effective_scale}
use sci_compute_attention.Layout.{Strides}
use sci_compute_attention.ScratchPool.{ScratchPool, decode_partials, acquire_scratch_fp32}
use sci_compute_attention.KvCache.Storage.{memory_bytes}
use sci_compute_attention.PagedCache.{PagedKvCache}
use sci_compute_attention.Dispatcher.{CapabilityReport, with_backend}
use sci_compute_attention.Backends.{
  Env, DtypeId, dtype_id_for, DecodeFwdParams, Buffer, AttentionResult, new_output, is_set, staged,
  with_scratch,
}
use sci_compute_attention.Backends.Launchers.{launch_decode_split_k_paged}
use sci_compute_attention.KvCache.{mul64}
use sci_compute_attention.Backends.Decode.{
  native_seq_q, partial_bytes, partial_elements, resolve_splits, splits_for,
}

pub record PagedAttentionParams : Type 0 where
  pub page_table : Option (List ℤ)
  pub seq_lens : Option (List ℕ)
  pub num_seqs : ℕ
  pub block_size : ℕ
  pub max_blocks_per_seq : ℕ
  pub layer : ℤ

-- The initial values of the fields.
abbrev pub default_params : PagedAttentionParams
default_params = record {
  page_table = none;
  seq_lens = none;
  num_seqs = 0;
  block_size = 16;
  max_blocks_per_seq = 0;
  layer = pos 0;
}

abbrev pub or_else {ℓ} : {A : Type ℓ} → Option A → Option A → Option A
or_else none b = b
or_else (some a) b = some a

-- `a > 0 ? a : b`
abbrev pub positive_or : ℕ → ℕ → ℕ
positive_or a b = if a == 0 then b else a

-- `RunPaged` up to the page table.
pub prepare : Tensor → PagedKvCache → PagedAttentionParams → Result (DtypeId × List ℤ)
prepare q kv params = do
  (if not (ndims q == 4) then err (attn shape_mismatch) else ok tt)
  (if not (dim q 2 == native_seq_q) then err (attn unsupported_feature) else ok tt)
  (if dim q 0 == 0 || ltb kv.cfg.max_num_seqs (dim q 0) then err (attn shape_mismatch) else ok tt)
  (if is_neg params.layer || leb kv.storage.cfg.num_layers (to_ℕ params.layer)
      then err (attn shape_mismatch)
      else ok tt)
  dtype ← elim (dtype_id_for q.dtype) [ none ↦ err (attn unsupported_dtype) | some id ↦ ok id ]
  (if not (dim q 3 % 32 == 0) || is_neg (supported_head_dim_index (dim q 3))
      then err (attn unsupported_head_dim)
      else ok tt)
  elim (or_else params.page_table kv.page_table_device) [
    | none ↦ err (attn shape_mismatch)
    | some table ↦ ok (dtype, table)
  ]

-- The length of the keys is an upper bound.
pub paged_shape : Tensor → PagedKvCache → PagedAttentionParams → AttentionShape
paged_shape q kv params = record {
  batch = dim q 0;
  seq_q = dim q 2;
  seq_kv = kv.storage.cfg.num_blocks * positive_or params.block_size kv.cfg.block_size;
  num_heads = dim q 1;
  num_kv_heads = kv.storage.cfg.num_kv_heads;
  head_dim = dim q 3;
}

abbrev query_strides : AttentionShape → Strides
query_strides shape = record {
  s_b = shape.num_heads * shape.seq_q * shape.head_dim;
  s_h = shape.seq_q * shape.head_dim;
  s_s = shape.head_dim;
  s_d = 1;
}

abbrev row_strides : AttentionShape → Strides
row_strides shape = record {
  s_b = 0;
  s_h = shape.head_dim;
  s_s = shape.num_kv_heads * shape.head_dim;
  s_d = 1;
}

-- `k_layer` and `v_layer` are the addresses of the layer's storage.
pub paged_params :
    Env
    → Option ℕ
    → Option ℕ
    → Tensor
    → PagedKvCache
    → PagedAttentionParams
    → AttentionConfig
    → DtypeId
    → List ℤ
    → ℕ
    → Buffer
    → DecodeFwdParams
unfolding paged_shape
paged_params env k_layer v_layer q kv params cfg dtype table splits out =
    let shape = paged_shape q kv params in
    let base = mul64 (mul64 shape.batch shape.num_heads) splits in
    record {
      q = env.data_of q;
      k = k_layer;
      v = v_layer;
      out = some out.address;
      partial_m = some env.scratch_address;
      partial_l = some (env.scratch_address + 4 * base);
      partial_o = some (env.scratch_address + 4 * (2 * base));
      batch = shape.batch;
      num_heads = shape.num_heads;
      num_kv_heads = shape.num_kv_heads;
      seq_kv = shape.seq_kv;
      head_dim = shape.head_dim;
      num_splits = splits;
      q_stride = query_strides shape;
      k_stride = row_strides shape;
      v_stride = row_strides shape;
      o_stride = query_strides shape;
      scale = effective_scale env.inverse_sqrt cfg shape;
      dtype = dtype;
      page_table = some table;
      block_size = positive_or params.block_size kv.cfg.block_size;
      max_blocks_per_seq = positive_or params.max_blocks_per_seq kv.max_blocks_per_seq;
      num_kv_blocks = kv.storage.cfg.num_blocks;
      seq_lens = params.seq_lens;
    }

-- `LaunchPagedAttention`, whose record of the page table repeats what the parameters hold.
pub launch_paged_attention : Env → DecodeFwdParams → Status
launch_paged_attention env p =
    if not (is_set p.page_table)
    then err (sci invalid_argument)
    else launch_decode_split_k_paged env p

-- `RunPaged` from the allocation of the output on.
pub compute :
    Env
    → Option ℕ
    → Option ℕ
    → Tensor
    → PagedKvCache
    → PagedAttentionParams
    → AttentionConfig
    → DtypeId
    → List ℤ
    → ℕ
    → Result AttentionResult
compute env k_layer v_layer q kv params cfg dtype table splits = do
  let shape = paged_shape q kv params
  out ← new_output env shape q.dtype
  launch_paged_attention env
      (paged_params env k_layer v_layer q kv params cfg dtype table splits out)
  ok (record {
    out = out;
    lse = none;
    stats = record {
      used_backend = paged;
      tile = no_tile;
      workspace_bytes = partial_bytes shape splits;
      kv_bytes = memory_bytes kv.storage;
      num_splits = splits;
      materialized_score_bytes = 0;
    };
  })

pub run_paged :
    Env
    → Option ℕ
    → Option ℕ
    → Tensor
    → PagedKvCache
    → PagedAttentionParams
    → AttentionConfig
    → ScratchPool
    → Result AttentionResult × ScratchPool
run_paged env k_layer v_layer q kv params cfg pool = staged (prepare q kv params) pool λ p.
    let shape = paged_shape q kv params in
    let splits = resolve_splits cfg shape.seq_kv env.capability in
    with_scratch
      (acquire_scratch_fp32 env.scratch_ok decode_partials (partial_bytes shape splits / 4)
        env.device_id pool)
      (compute env k_layer v_layer q kv params cfg p.0 p.1 splits)

pub supports : Env → AttentionConfig → AttentionShape → CapabilityReport
supports env cfg shape = record {
  supported =
      if not env.cuda_available
      then false
      else if not (shape.seq_q == native_seq_q)
      then false
      else shape.head_dim % 32 == 0;
  recommended_backend = decode;
  tile = no_tile;
  workspace_bytes = 0;
}

-- The request of splits is not capped here.
pub workspace_bytes : Env → AttentionConfig → AttentionShape → ℕ
workspace_bytes env cfg shape =
    let requested = to_ℕ cfg.num_splits in
    let splits =
      if requested == 0 then splits_for shape.seq_kv env.capability.sm_count else requested in
    partial_elements shape.batch shape.num_heads splits shape.head_dim * 4

pub forward : Result AttentionResult
forward = err (attn unsupported_feature)

pub forward_varlen : Result AttentionResult
forward_varlen = err (attn unsupported_feature)

-- `paged_attention` with and without parameters, and `paged` of the API.
abbrev pub cache_params : PagedKvCache → PagedAttentionParams
cache_params kv = record {
  page_table = kv.page_table_device;
  seq_lens = none;
  num_seqs = kv.cfg.max_num_seqs;
  block_size = kv.cfg.block_size;
  max_blocks_per_seq = kv.max_blocks_per_seq;
  layer = pos 0;
}

abbrev pub paged_attention :
    Env
    → Option ℕ
    → Option ℕ
    → Tensor
    → PagedKvCache
    → AttentionConfig
    → ScratchPool
    → Result AttentionResult × ScratchPool
paged_attention env k_layer v_layer q kv cfg pool =
    run_paged env k_layer v_layer q kv (cache_params kv) cfg pool

abbrev pub paged_api :
    Env
    → Option ℕ
    → Option ℕ
    → Tensor
    → PagedKvCache
    → AttentionConfig
    → ScratchPool
    → Result AttentionResult × ScratchPool
paged_api env k_layer v_layer q kv cfg pool =
    run_paged env k_layer v_layer q kv default_params (with_backend paged cfg) pool
