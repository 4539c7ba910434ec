-- ===== src/Backends/Tiled/Kernel/Examples.antt =====
-- The theorem on the tiled kernel in the field of three elements: the first query of a causal call, over
-- three keys in tiles of two by two.
use sci_compute_attention.Base.{◌≡◌, refl, arith}
use sci_compute_attention.Backends.Decode.Signs.{signs, signs-IsExact}
use sci_compute_attention.Backends.Naive.Kernel.{naive_forward}
use sci_compute_attention.Backends.Naive.Kernel.Examples.{params, memory, score_finite}
use sci_compute_attention.Backends.Tiled.Kernel.{tiled_attn_kernel}
use sci_compute_attention.Backends.Tiled.Kernel.Exact.{tiled_attn_kernel-naive_forward}

tiled_attn_kernel-naive_forward_example :
    tiled_attn_kernel signs params memory 2 2 0 0 0 0 1 ≡ naive_forward signs params memory 1
tiled_attn_kernel-naive_forward_example =
    tiled_attn_kernel-naive_forward signs signs-IsExact params memory 2 2 0 0 0 0 (omega arith)
      score_finite (omega arith) (omega arith) (omega arith) 1 1 (omega arith) (omega arith) refl
      (omega arith)
