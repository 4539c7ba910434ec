-- ===== src/Backends/Varlen.antt =====
-- `ForwardVarlen` of src/backends/flash/flash_backend.cpp: packed sequences of varying length, one launch
-- for each. The offsets are signed and nothing checks the first one, so a row may lie before its buffer: an
-- address wraps at 2^64. Both lists have one more entry than there are sequences. A difference of two offsets
-- does not overflow.
pub mod Laws
mod Examples
use sci_compute_attention.Base.{
  ℕ, zero, suc, ◌+◌, ◌-◌, ◌*◌, ◌%◌, ◌≡◌, Bool, true, false, not, ◌&&◌, ◌||◌, Option, none, some,
  List, [], ◌∷◌, ltb, ℤ, pos, negsuc, ◌^◌, ◌==◌, if◌then◌else◌, get_or,
}
use sci_compute_attention.Types.{DType, dtype_size, same_dtype, flash, AttentionShape}
use sci_compute_attention.Tensor.{Tensor, ndims, dim}
use sci_compute_attention.Status.{
  Result, Status, ok, err, attn, ◌>>=◌, ◌>>◌, shape_mismatch, unsupported_dtype,
  unsupported_feature,
}
use sci_compute_attention.Config.{at_most, gap, AttentionConfig, FlashTile, Float, effective_scale}
use sci_compute_attention.Layout.{Strides}
use sci_compute_attention.Dispatcher.{is_cuda, mixed_dtypes}
use sci_compute_attention.Backends.{
  Env, DtypeId, FwdParams, Buffer, AttentionResult, allocated, diagonal_of, is_set,
}
use sci_compute_attention.Backends.Launchers.{launch_flash_fwd}
use sci_compute_attention.Backends.Flash
use sci_compute_attention.Backends.Flash.{flash_dtype_id, validate_flash_request}

-- The body of the loop over q, k and v.
pub check_packed : Tensor → Status
check_packed t =
    if not (ndims t == 3)
    then err (attn shape_mismatch)
    else if not (is_cuda t.device_type)
    then err (attn unsupported_feature)
    else ok tt

abbrev pub wrong_heads : Tensor → Tensor → Tensor → Bool
wrong_heads q k v =
    not (dim k 2 == dim q 2) || (not (dim v 2 == dim q 2) || not (dim v 1 == dim k 1))

abbrev pub probe_shape : Tensor → Tensor → ℕ → ℕ → AttentionShape
probe_shape q k max_seq_q max_seq_kv = record {
  batch = 1;
  seq_q = max_seq_q;
  seq_kv = max_seq_kv;
  num_heads = dim q 1;
  num_kv_heads = dim k 1;
  head_dim = dim q 2;
}

-- The checks before the allocation of the output.
pub check_request :
    Env
    → Tensor
    → Tensor
    → Tensor
    → ℕ
    → Option (List ℤ)
    → Option (List ℤ)
    → ℕ
    → ℕ
    → AttentionConfig
    → Result (FlashTile × DtypeId)
check_request env q k v num_seqs cu_q cu_kv max_seq_q max_seq_kv cfg = do
  (if not (is_set cu_q) || not (is_set cu_kv) then err (attn shape_mismatch) else ok tt)
  (if num_seqs == 0 then err (attn shape_mismatch) else ok tt)
  (if cfg.return_lse then err (attn unsupported_feature) else ok tt)
  (if cfg.causal && ltb max_seq_kv max_seq_q then err (attn shape_mismatch) else ok tt)
  check_packed q
  check_packed k
  check_packed v
  (if not (is_set (flash_dtype_id q.dtype)) then err (attn unsupported_dtype) else ok tt)
  (if mixed_dtypes q k v then err (attn unsupported_dtype) else ok tt)
  (if wrong_heads q k v then err (attn shape_mismatch) else ok tt)
  (if not (dim q 1 % dim k 1 == 0) then err (attn shape_mismatch) else ok tt)
  validate_flash_request env q.dtype cfg (probe_shape q k max_seq_q max_seq_kv)

abbrev pub at : List ℤ → ℕ → ℤ
at cu s = get_or cu s (pos 0)

-- The tokens of sequence `s`, if there are any.
abbrev pub tokens : List ℤ → ℕ → ℕ
tokens cu s = gap (at cu (suc s)) (at cu s)

-- The address of a token, `width` bytes each.
abbrev pub token_address : ℕ → ℤ → ℕ → ℕ
token_address base (pos n) width = base + n * width
token_address base (negsuc n) width = (base + 2 ^ 64 - suc n * width % 2 ^ 64) % 2 ^ 64

abbrev pub shifted : Option ℕ → ℤ → ℕ → Option ℕ
shifted none token width = none
shifted (some base) token width = some (token_address base token width)

abbrev pub token_bytes : ℕ → Tensor → ℕ
token_bytes heads q = heads * dim q 2 * dtype_size q.dtype

abbrev packed_strides : ℕ → ℕ → ℕ → Strides
packed_strides len heads head_dim = record {
  s_b = len * heads * head_dim;
  s_h = head_dim;
  s_s = heads * head_dim;
  s_d = 1;
}

-- The parameters of the launch for sequence `s`.
pub sequence_params :
    Env
    → Tensor
    → Tensor
    → Tensor
    → Buffer
    → List ℤ
    → List ℤ
    → AttentionConfig
    → DtypeId
    → Float
    → ℕ
    → FwdParams
sequence_params env q k v out cu_q cu_kv cfg dtype scale s =
    let heads = dim q 1 in
    let kv_heads = dim k 1 in
    let head_dim = dim q 2 in
    let sq = tokens cu_q s in
    let skv = tokens cu_kv s in
    record {
      q = shifted (env.data_of q) (at cu_q s) (token_bytes heads q);
      k = shifted (env.data_of k) (at cu_kv s) (token_bytes kv_heads q);
      v = shifted (env.data_of v) (at cu_kv s) (token_bytes kv_heads q);
      out = some (token_address out.address (at cu_q s) (token_bytes heads q));
      lse = none;
      batch = 1;
      num_heads = heads;
      num_kv_heads = kv_heads;
      seq_q = sq;
      seq_kv = skv;
      head_dim = head_dim;
      q_stride = packed_strides sq heads head_dim;
      k_stride = packed_strides skv kv_heads head_dim;
      v_stride = packed_strides skv kv_heads head_dim;
      o_stride = packed_strides sq heads head_dim;
      scale = scale;
      causal = cfg.causal;
      return_lse = false;
      diagonal = diagonal_of cfg sq skv;
      dtype = dtype;
    }

-- A sequence without queries or without keys.
abbrev pub is_degenerate : List ℤ → List ℤ → ℕ → Bool
is_degenerate cu_q cu_kv s =
    at_most (at cu_q (suc s)) (at cu_q s) || at_most (at cu_kv (suc s)) (at cu_kv s)

-- The loop over the sequences from `s` on, with `n` left; `params` are those of a sequence.
pub launch_sequences : Env → (ℕ → FwdParams) → List ℤ → List ℤ → ℕ → ℕ → Status
launch_sequences env params cu_q cu_kv zero s = ok tt
launch_sequences env params cu_q cu_kv (suc n) s =
    let rest = launch_sequences env params cu_q cu_kv n (suc s) in
    if is_degenerate cu_q cu_kv s
    then err (attn shape_mismatch)
    else launch_flash_fwd env (params s) >> rest

-- A null pointer is refused before the lists are read.
abbrev pub offsets : Option (List ℤ) → List ℤ
offsets none = []
offsets (some cu) = cu

pub forward_varlen :
    Env
    → Tensor
    → Tensor
    → Tensor
    → ℕ
    → Option (List ℤ)
    → Option (List ℤ)
    → ℕ
    → ℕ
    → AttentionConfig
    → Result AttentionResult
forward_varlen env q k v num_seqs cu_q cu_kv max_seq_q max_seq_kv cfg = do
  request ← check_request env q k v num_seqs cu_q cu_kv max_seq_q max_seq_kv cfg
  out ← allocated env.out_address (dim q 0 ∷ dim q 1 ∷ dim q 2 ∷ []) q.dtype
  let scale = effective_scale env.inverse_sqrt cfg (probe_shape q k max_seq_q max_seq_kv)
  launch_sequences env
      (sequence_params env q k v out (offsets cu_q) (offsets cu_kv) cfg request.1 scale)
      (offsets cu_q) (offsets cu_kv) num_seqs 0
  ok (Flash.result_of request.0 out none)
