-- ===== src/Dispatcher/Examples.antt =====
-- The theorems on the dispatcher at concrete calls, with backends of which only the naive one works.
use sci_compute_attention.Base.{◌≡◌, ◌↔◌, refl, ℕ, true, false, none, [], ◌∷◌, pos}
use sci_compute_attention.Types.{
  AttentionShape, bhsd, flash, naive, float16, supported_head_dim_index,
}
use sci_compute_attention.Tensor.{Tensor, cuda}
use sci_compute_attention.Status.{ok}
use sci_compute_attention.Config.{
  AttentionConfig, finite, no_tile, validate, layout_supported, is_reference_only_backend,
}
use sci_compute_attention.Config.Laws.{IsAccepted, validate-IsAccepted}
use sci_compute_attention.Dispatcher.{
  Backend, Backends, infer_shape, check_tensor, is_cuda, select, select_valid, preferred_backend,
  fallback_chain, fall_back, forward, run_backend,
}
use sci_compute_attention.Dispatcher.Infer.{HasShape, infer_shape_iff}
use sci_compute_attention.Dispatcher.Laws.{Selects, Runs, select-Selects, forward-Runs}

abbrev broken : Backend ℕ
broken = record {
  supports = λ cfg shape. record {
    supported = false;
    recommended_backend = naive;
    tile = no_tile;
    workspace_bytes = 0;
  };
  forward = λ q k v cfg. ok 0;
}

abbrev working : Backend ℕ
working = record {
  supports = λ cfg shape. record {
    supported = true;
    recommended_backend = naive;
    tile = no_tile;
    workspace_bytes = 64;
  };
  forward = λ q k v cfg. ok 7;
}

abbrev backends : Backends ℕ
backends = record {
  naive_backend = working;
  tiled_backend = broken;
  flash_backend = broken;
  decode_backend = broken;
  paged_backend = broken;
}

abbrev call : AttentionConfig
call = record {
  backend = flash;
  layout = bhsd;
  causal = true;
  return_lse = false;
  scale = finite false 0 (pos 0);
  softcap = finite false 0 (pos 0);
  sliding_window = pos 0;
  num_splits = pos 0;
  workspace_limit_bytes = 0;
  allow_fallback = true;
  cu_seqlens_q = none;
  cu_seqlens_kv = none;
}

abbrev input : Tensor
input = record {
  dims = 1 ∷ 2 ∷ 4 ∷ 32 ∷ [];
  dtype = float16;
  device_type = cuda;
  is_contiguous = true;
  bytes = [];
}

abbrev shape : AttentionShape
shape = record { batch = 1; seq_q = 4; seq_kv = 4; num_heads = 2; num_kv_heads = 2; head_dim = 32 }

call-IsAccepted : IsAccepted call shape
unfolding validate supported_head_dim_index layout_supported is_reference_only_backend
call-IsAccepted = (validate-IsAccepted call shape).0 refl

select-Selects_example : Selects backends call shape (select backends call shape).backend
select-Selects_example = select-Selects backends call shape call-IsAccepted

forward-Runs_example : Runs backends input input input call 7
unfolding forward infer_shape check_tensor is_cuda select select_valid preferred_backend
    fallback_chain fall_back run_backend validate supported_head_dim_index layout_supported
    is_reference_only_backend
forward-Runs_example = forward-Runs backends input input input call 7 refl

infer_shape_iff_example :
    (infer_shape input input input bhsd ≡ ok shape) ↔ HasShape input input input bhsd shape
infer_shape_iff_example = infer_shape_iff input input input bhsd shape

abbrev strict : AttentionConfig
strict = record call { allow_fallback = false }

abbrev decoding : Backends ℕ
decoding = record backends { decode_backend = working }
