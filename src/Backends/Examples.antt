-- ===== src/Backends/Examples.antt =====
-- The theorems on the backends at a machine on which nothing fails and at small calls.
use sci_compute_attention.Base.{
  ℕ, ◌≤◌, ◌<◌, ◌≡◌, refl, ap₂, inr, true, false, none, some, [], ◌∷◌, pos, arith,
}
use sci_compute_attention.Types.{
  auto, bhsd, float16, float32, AttentionShape, supported_head_dim_index,
}
use sci_compute_attention.Tensor.{Tensor, cuda}
use sci_compute_attention.Status.{Result, ok}
use sci_compute_attention.Config.{
  AttentionConfig, finite, validate, layout_supported, is_reference_only_backend, FlashTile,
  find_flash_tile,
}
use sci_compute_attention.Config.Laws.{IsAccepted, validate-IsAccepted}
use sci_compute_attention.Capability.{DeviceCapability, no_capability, smem_limit_per_block}
use sci_compute_attention.Layout.{strides_for}
use sci_compute_attention.ScratchPool.{ScratchPool, no_entry}
use sci_compute_attention.Dispatcher
use sci_compute_attention.Dispatcher.{infer_shape, check_tensor, is_cuda}
use sci_compute_attention.Backends.{Env, FwdParams, AttentionResult, fp16, smem_limit}
use sci_compute_attention.Backends.Laws.{IsHealthy}
use sci_compute_attention.Backends.Launchers.Laws.{IsTableLaunch, launch_flash_fwd_lem}
use sci_compute_attention.Backends.Naive
use sci_compute_attention.Backends.Naive.Laws as NaiveLaws
use sci_compute_attention.Backends.Tiled
use sci_compute_attention.Backends.Tiled.Laws as TiledLaws
use sci_compute_attention.Backends.Flash
use sci_compute_attention.Backends.Flash.Laws as FlashLaws
use sci_compute_attention.Backends.Decode
use sci_compute_attention.Backends.Decode.Laws as DecodeLaws
use sci_compute_attention.Backends.Decode.Splits.{split_begin, split_end, split_unique}
use sci_compute_attention.Backends.Dispatch.{Output, backends}
use sci_compute_attention.Backends.Dispatch.Laws.{forward_total}

abbrev pub device : DeviceCapability
device = record no_capability {
  sm_count = 36;
  smem_per_sm = 102400;
  smem_per_block_default = 49152;
  smem_per_block_optin = 101376;
  free_mem_bytes = 8000000;
}

abbrev pub env : Env
env = record {
  cuda_available = true;
  capability = device;
  smem_env = none;
  inverse_sqrt = λ n. finite false 1 (pos 0);
  data_of = λ t. some 4096;
  device_id = 0;
  scratch_ok = true;
  scratch_address = 1048576;
  out_address = some 8192;
  lse_address = some 16384;
  raise_smem = λ l. ok tt;
  cuda_launch = λ l. ok tt;
  last_error = ok tt;
}

abbrev pub healthy : IsHealthy env
healthy = record {
  cuda = refl;
  scratch = refl;
  out = 8192;
  out_allocated = refl;
  lse = 16384;
  lse_allocated = refl;
  memory = λ t. 4096;
  has_memory = λ t. refl;
  raises = λ l. refl;
  launches = λ l. refl;
  no_error = refl;
}

abbrev pub pool : ScratchPool
pool = record { entry = λ k. no_entry; high_water_bytes = 0 }

abbrev pub call : AttentionConfig
call = record {
  backend = auto;
  layout = bhsd;
  causal = true;
  return_lse = false;
  scale = finite false 0 (pos 0);
  softcap = finite false 0 (pos 0);
  sliding_window = pos 0;
  num_splits = pos 0;
  workspace_limit_bytes = 0;
  allow_fallback = true;
  cu_seqlens_q = none;
  cu_seqlens_kv = none;
}

-- A tensor of two heads of dimension 32.
abbrev pub tensor : ℕ → Tensor
tensor len = record {
  dims = 1 ∷ 2 ∷ len ∷ 32 ∷ [];
  dtype = float16;
  device_type = cuda;
  is_contiguous = true;
  bytes = [];
}

abbrev pub shape : ℕ → ℕ → AttentionShape
shape sq skv = record {
  batch = 1;
  seq_q = sq;
  seq_kv = skv;
  num_heads = 2;
  num_kv_heads = 2;
  head_dim = 32;
}

call-IsAccepted : IsAccepted call (shape 4 200)
unfolding validate supported_head_dim_index layout_supported is_reference_only_backend
call-IsAccepted = (validate-IsAccepted call (shape 4 200)).0 refl

call_inferred : infer_shape (tensor 4) (tensor 200) (tensor 200) bhsd ≡ ok (shape 4 200)
unfolding infer_shape check_tensor is_cuda layout_supported
call_inferred = refl

room : 87_040 ≤ smem_limit env
unfolding smem_limit_per_block
room = omega arith

forward_total_example :
    (out : Output) × (Dispatcher.forward
        (backends env pool)
        (tensor 4)
        (tensor 200)
        (tensor 200)
        call
      ≡ ok out)
forward_total_example =
    forward_total env healthy pool (tensor 4) (tensor 200) (tensor 200) call (shape 4 200)
      call-IsAccepted call_inferred fp16 refl room (omega arith) refl (inr (omega arith))

abbrev wide : ℕ → Tensor
wide len = record (tensor len) { dtype = float32 }

abbrev params : FwdParams
params = record {
  q = some 0;
  k = some 0;
  v = some 0;
  out = some 0;
  lse = none;
  batch = 1;
  num_heads = 2;
  num_kv_heads = 2;
  seq_q = 4;
  seq_kv = 200;
  head_dim = 160;
  q_stride = strides_for bhsd 4 2 160;
  k_stride = strides_for bhsd 200 2 160;
  v_stride = strides_for bhsd 200 2 160;
  o_stride = strides_for bhsd 4 2 160;
  scale = finite false 1 (pos 0);
  causal = false;
  return_lse = false;
  diagonal = pos 0;
  dtype = fp16;
}

abbrev tile : FlashTile
tile = record { block_m = 64; block_n = 32; warps = 8; stages = 2; splits_d = 2 }

tile_found : find_flash_tile 160 ≡ some tile
unfolding find_flash_tile
tile_found = refl

launch_flash_fwd_lem_example : IsTableLaunch env params tile
launch_flash_fwd_lem_example = launch_flash_fwd_lem env params tile refl (ground arith) tile_found

split_unique_example :
    (s : ℕ) × (s < 3)
    × (split_begin 1000 3 s ≤ 700)
    × (700 < split_end 1000 3 s)
    × ((t : ℕ) → split_begin 1000 3 t ≤ 700 → 700 < split_end 1000 3 t → t ≡ s)
split_unique_example = split_unique 1000 3 700 (omega arith) (omega arith)

-- The same call on the reference backend.
naive_supported : (Naive.supports env call (shape 4 200)).supported ≡ true
unfolding Naive.supports supported_head_dim_index
naive_supported = refl

abbrev naive_result : Result AttentionResult × ScratchPool
naive_result = Naive.forward env (tensor 4) (tensor 200) (tensor 200) call pool

naive_computed : (r : AttentionResult) × (naive_result.0 ≡ ok r)
naive_computed =
    NaiveLaws.forward_healthy env healthy (tensor 4) (tensor 200) (tensor 200) call (shape 4 200)
      pool fp16 call_inferred call-IsAccepted refl naive_supported (omega arith)

forward-StoresScores_example :
    NaiveLaws.StoresScores env
      (tensor 4)
      (tensor 200)
      (tensor 200)
      call
      (shape 4 200)
      naive_result.1
      naive_computed.0
forward-StoresScores_example =
    NaiveLaws.forward-StoresScores env (tensor 4) (tensor 200) (tensor 200) call (shape 4 200) pool
      naive_result.1 naive_computed.0 call_inferred (omega arith)
      (ap₂ (λ a b. (a, b)) naive_computed.1 refl)

-- One query over 300 keys on the decode backend.
decode_inferred : infer_shape (tensor 1) (tensor 300) (tensor 300) bhsd ≡ ok (shape 1 300)
unfolding infer_shape check_tensor is_cuda layout_supported
decode_inferred = refl

decode-IsAccepted : IsAccepted call (shape 1 300)
unfolding validate supported_head_dim_index layout_supported is_reference_only_backend
decode-IsAccepted = (validate-IsAccepted call (shape 1 300)).0 refl

abbrev decode_result : Result AttentionResult × ScratchPool
decode_result = Decode.forward env (tensor 1) (tensor 300) (tensor 300) call pool

decode_computed : (r : AttentionResult) × (decode_result.0 ≡ ok r)
decode_computed =
    DecodeLaws.forward_healthy env healthy (tensor 1) (tensor 300) (tensor 300) call (shape 1 300)
      pool decode-IsAccepted fp16 decode_inferred refl
      (DecodeLaws.supports_accepts env call (shape 1 300) refl refl decode-IsAccepted.head_dim refl)
      (omega arith)

forward-SplitsKeys_example :
    DecodeLaws.SplitsKeys env
      (tensor 1)
      (tensor 300)
      (tensor 300)
      call
      pool
      decode_result.1
      decode_computed.0
forward-SplitsKeys_example =
    DecodeLaws.forward-SplitsKeys env (tensor 1) (tensor 300) (tensor 300) call (shape 1 300) pool
      decode_result.1 decode_computed.0 decode_inferred (omega arith)
      (ap₂ (λ a b. (a, b)) decode_computed.1 refl)

-- A short call on the tiled and on the flash backend.
short_inferred : infer_shape (tensor 4) (tensor 100) (tensor 100) bhsd ≡ ok (shape 4 100)
unfolding infer_shape check_tensor is_cuda layout_supported
short_inferred = refl

short-IsAccepted : IsAccepted call (shape 4 100)
unfolding validate supported_head_dim_index layout_supported is_reference_only_backend
short-IsAccepted = (validate-IsAccepted call (shape 4 100)).0 refl

tiled_room : 70_400 ≤ smem_limit env
unfolding smem_limit_per_block
tiled_room = omega arith

tiled_computed :
    (r : AttentionResult) × (Tiled.forward env (tensor 4) (tensor 100) (tensor 100) call ≡ ok r)
tiled_computed =
    TiledLaws.forward_healthy_narrow env healthy (tensor 4) (tensor 100) (tensor 100) call
      (shape 4 100) fp16 short_inferred short-IsAccepted refl refl
      (TiledLaws.supports_accepts env call (shape 4 100) refl short-IsAccepted.head_dim
        (omega arith) refl tiled_room)

forward-FitsTile_example :
    TiledLaws.FitsTile env (tensor 4) (tensor 100) (tensor 100) call tiled_computed.0
forward-FitsTile_example =
    TiledLaws.forward-FitsTile env (tensor 4) (tensor 100) (tensor 100) call tiled_computed.0
      tiled_computed.1
