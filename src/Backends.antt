-- ===== src/Backends.antt =====
-- What the five backends of src/backends share: the answers of the machine, the parameters of a kernel,
-- a kernel launch (src/runtime/launcher.cu) and the result of a call
-- (include/scicompute_attention/attention_result.hpp). An address is a number of bytes, and `none` the
-- null pointer. The contents of the tensors that a kernel writes are not part of a result; the texts of
-- notes and errors are left out, and so are streams.
pub mod Laws
pub mod Launchers
pub mod Naive
pub mod Tiled
pub mod Flash
pub mod Varlen
pub mod Decode
pub mod Paged
pub mod Dispatch
pub mod Examples
use sci_compute_attention.Base.{
  ℕ, ◌+◌, ◌-◌, ◌*◌, Bool, not, ◌||◌, Option, none, some, List, [], ◌∷◌, ℤ, pos, negsuc, ltb, leb,
  ◌==◌, if◌then◌else◌,
}
use sci_compute_attention.Types.{
  DType, float32, float16, bfloat16, AttnLayout, bhsd, BackendKind, AttentionShape,
}
use sci_compute_attention.Tensor.{Tensor}
use sci_compute_attention.Status.{
  Result, Status, ok, err, attn, sci, ◌>>=◌, ◌>>◌, workspace_exceeded, invalid_argument,
}
use sci_compute_attention.Config.{AttentionConfig, Float, TileConfig, effective_scale, validate}
use sci_compute_attention.Capability.{DeviceCapability, smem_limit_per_block}
use sci_compute_attention.Layout.{Strides, strides_for}
use sci_compute_attention.ScratchPool.{ScratchPool}
use sci_compute_attention.Dispatcher.{infer_shape}

-- `NaiveDtype`, `TiledDtype` and `DecodeDtype` are one enumeration.
pub data DtypeId : Type 0 where
  fp32 fp16 bf16 : DtypeId

abbrev pub dtype_id_for : DType → Option DtypeId
dtype_id_for float32 = some fp32
dtype_id_for float16 = some fp16
dtype_id_for bfloat16 = some bf16
dtype_id_for other = none

-- The parameters of the tiled and the flash kernel, and of the naive ones with the score matrix.
pub record FwdParams : Type 0 where
  pub q : Option ℕ
  pub k : Option ℕ
  pub v : Option ℕ
  pub out : Option ℕ
  pub lse : Option ℕ
  pub batch : ℕ
  pub num_heads : ℕ
  pub num_kv_heads : ℕ
  pub seq_q : ℕ
  pub seq_kv : ℕ
  pub head_dim : ℕ
  pub q_stride : Strides
  pub k_stride : Strides
  pub v_stride : Strides
  pub o_stride : Strides
  pub scale : Float
  pub causal : Bool
  pub return_lse : Bool
  pub diagonal : ℤ
  pub dtype : DtypeId

pub record NaiveFwdParams : Type 0 where
  pub base : FwdParams
  pub scores : Option ℕ

-- The partial results are addresses of floats. No page table: the rows of K and V are contiguous.
pub record DecodeFwdParams : Type 0 where
  pub q : Option ℕ
  pub k : Option ℕ
  pub v : Option ℕ
  pub out : Option ℕ
  pub partial_m : Option ℕ
  pub partial_l : Option ℕ
  pub partial_o : Option ℕ
  pub batch : ℕ
  pub num_heads : ℕ
  pub num_kv_heads : ℕ
  pub seq_kv : ℕ
  pub head_dim : ℕ
  pub num_splits : ℕ
  pub q_stride : Strides
  pub k_stride : Strides
  pub v_stride : Strides
  pub o_stride : Strides
  pub scale : Float
  pub dtype : DtypeId
  pub page_table : Option (List ℤ)
  pub block_size : ℕ
  pub max_blocks_per_seq : ℕ
  pub num_kv_blocks : ℕ
  pub seq_lens : Option (List ℕ)

-- A kernel with its arguments. The flash kernel is instantiated for a tile and a causal mask.
pub data Kernel : Type 0 where
  naive_qk_scale_mask : NaiveFwdParams → Kernel
  naive_row_softmax :
      (scores : Option ℕ) (lse : Option ℕ) (rows cols : ℕ) (write_lse : Bool) → Kernel
  naive_pv : NaiveFwdParams → Kernel
  tiled_attn : (block_m block_n warps : ℕ) → FwdParams → Kernel
  flash_fwd : (block_m block_n stages splits_d : ℕ) (causal : Bool) → FwdParams → Kernel
  decode_partial : DecodeFwdParams → Kernel
  decode_reduce : DecodeFwdParams → Kernel

pub record Launch : Type 0 where
  pub kernel : Kernel
  pub grid_x : ℕ
  pub grid_y : ℕ
  pub grid_z : ℕ
  pub threads : ℕ
  pub smem_bytes : ℕ

-- What the machine answers in one call. `smem_env` is SCI_ATTENTION_MAX_SMEM_BYTES, `data_of` the address
-- behind a tensor; `scratch_ok` says whether the scratch pool could grow and `scratch_address` where its
-- buffer lies; `out_address` and `lse_address` are those of the new tensors, if they could be allocated;
-- `raise_smem` and `cuda_launch` are what the CUDA runtime says of a launch.
pub record Env : Type 0 where
  pub cuda_available : Bool
  pub capability : DeviceCapability
  pub smem_env : Option ℤ
  pub inverse_sqrt : ℕ → Float
  pub data_of : Tensor → Option ℕ
  pub device_id : ℕ
  pub scratch_ok : Bool
  pub scratch_address : ℕ
  pub out_address : Option ℕ
  pub lse_address : Option ℕ
  pub raise_smem : Launch → Status
  pub cuda_launch : Launch → Status
  pub last_error : Status

-- A tensor that the call allocates.
pub record Buffer : Type 0 where
  pub dims : List ℕ
  pub dtype : DType
  pub address : ℕ

pub record AttentionRuntimeStats : Type 0 where
  pub used_backend : BackendKind
  pub tile : TileConfig
  pub workspace_bytes : ℕ
  pub kv_bytes : ℕ
  pub num_splits : ℕ
  pub materialized_score_bytes : ℕ

pub record AttentionResult : Type 0 where
  pub out : Buffer
  pub lse : Option Buffer
  pub stats : AttentionRuntimeStats

abbrev pub is_set {ℓ} : {A : Type ℓ} → Option A → Bool
is_set none = Bool.false
is_set (some a) = Bool.true

abbrev pub smem_limit : Env → ℕ
smem_limit env = smem_limit_per_block env.smem_env env.capability

-- 48 KB need no attribute of the kernel. The cache of the attributes that are set is left out.
pub ensure_smem_limit : Env → Launch → Status
ensure_smem_limit env l = if leb l.smem_bytes (48 * 1024) then ok tt else env.raise_smem l

pub launch_raw : Env → Launch → Status
unfolding ensure_smem_limit
launch_raw env l =
    if l.grid_x == 0 || (l.grid_y == 0 || l.grid_z == 0)
    then err (sci invalid_argument)
    else if l.threads == 0
    then err (sci invalid_argument)
    else ensure_smem_limit env l >> env.cuda_launch l

-- The start of every `Forward`.
pub checked_shape : Tensor → Tensor → Tensor → AttentionConfig → Result AttentionShape
checked_shape q k v cfg = do shape ← infer_shape q k v cfg.layout; validate cfg shape; ok shape

-- A call that has passed its checks, with the pool as it was where it has not.
abbrev pub staged {ℓ κ} :
    {P : Type ℓ} {A : Type κ}
    → Result P
    → ScratchPool
    → (P → Result A × ScratchPool)
    → Result A × ScratchPool
staged (err e) pool run = (err e, pool)
staged (ok p) pool run = run p

-- The rest of a call after its scratch buffer is asked for.
abbrev pub with_scratch {ℓ} :
    {A : Type ℓ} → Status × ScratchPool → Result A → Result A × ScratchPool
with_scratch acquired rest = (acquired.0 >> rest, acquired.1)

-- `seq_kv - seq_q` of a causal call.
abbrev pub difference : ℕ → ℕ → ℤ
difference a b = if leb b a then pos (a - b) else negsuc (b - a - 1)

abbrev pub diagonal_of : AttentionConfig → ℕ → ℕ → ℤ
diagonal_of cfg seq_q seq_kv = if cfg.causal then difference seq_kv seq_q else pos 0

abbrev pub allocated : Option ℕ → List ℕ → DType → Result Buffer
allocated none dims dtype = err (attn workspace_exceeded)
allocated (some a) dims dtype = ok (record { dims = dims; dtype = dtype; address = a })

pub new_output : Env → AttentionShape → DType → Result Buffer
new_output env shape dtype =
    allocated env.out_address (shape.batch ∷ shape.num_heads ∷ shape.seq_q ∷ shape.head_dim ∷ [])
      dtype

pub new_lse : Env → AttentionConfig → AttentionShape → Result (Option Buffer)
new_lse env cfg shape =
    if not cfg.return_lse
    then ok none
    else allocated env.lse_address (shape.batch ∷ shape.num_heads ∷ shape.seq_q ∷ []) float32
      >>= λ lse. ok (some lse)

abbrev pub address_of : Option Buffer → Option ℕ
address_of none = none
address_of (some b) = some b.address

unfoldable pub fwd_params :
    Env
    → Tensor
    → Tensor
    → Tensor
    → Buffer
    → Option Buffer
    → AttentionConfig
    → AttentionShape
    → DtypeId
    → FwdParams
fwd_params env q k v out lse cfg shape dtype =
    let kv_stride = strides_for cfg.layout shape.seq_kv shape.num_kv_heads shape.head_dim in
    record {
      q = env.data_of q;
      k = env.data_of k;
      v = env.data_of v;
      out = some out.address;
      lse = address_of lse;
      batch = shape.batch;
      num_heads = shape.num_heads;
      num_kv_heads = shape.num_kv_heads;
      seq_q = shape.seq_q;
      seq_kv = shape.seq_kv;
      head_dim = shape.head_dim;
      q_stride = strides_for cfg.layout shape.seq_q shape.num_heads shape.head_dim;
      k_stride = kv_stride;
      v_stride = kv_stride;
      o_stride = strides_for bhsd shape.seq_q shape.num_heads shape.head_dim;
      scale = effective_scale env.inverse_sqrt cfg shape;
      causal = cfg.causal;
      return_lse = cfg.return_lse;
      diagonal = diagonal_of cfg shape.seq_q shape.seq_kv;
      dtype = dtype;
    }
