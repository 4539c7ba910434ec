-- ===== src/Backends/Naive/Kernel/Examples.antt =====
-- The theorem on the naive kernels in the field of three elements, for one head of dimension 2 with a
-- causal mask: two queries over three keys, of which the first query sees two.
use sci_compute_attention.Base.{
  ℕ, ◌%◌, ◌≡◌, refl, true, false, none, some, arith, pos, ◌==◌, if◌then◌else◌,
}
use sci_compute_attention.Config.{finite}
use sci_compute_attention.Layout.{Strides}
use sci_compute_attention.Backends.{FwdParams, fp16}
use sci_compute_attention.Backends.Decode.Softmax.{blend}
use sci_compute_attention.Backends.Decode.Signs.{
  Sign, nil, plus, minus, multiply, is_nil, signs, signs-IsExact,
}
use sci_compute_attention.Backends.Decode.Kernel.{Memory, sum}
use sci_compute_attention.Backends.Naive.Kernel.{dot_scaled, naive_forward, naive_value}
use sci_compute_attention.Backends.Naive.Kernel.Exact.{attended, naive_forward-blend}

abbrev row : Strides
row = record { s_b = 8; s_h = 8; s_s = 2; s_d = 1 }

abbrev pub params : FwdParams
params = record {
  q = some 0;
  k = some 0;
  v = some 0;
  out = some 0;
  lse = none;
  batch = 1;
  num_heads = 1;
  num_kv_heads = 1;
  seq_q = 2;
  seq_kv = 3;
  head_dim = 2;
  q_stride = row;
  k_stride = row;
  v_stride = row;
  o_stride = row;
  scale = finite false 1 (pos 0);
  causal = true;
  return_lse = false;
  diagonal = pos 1;
  dtype = fp16;
}

-- The queries are (1, 0), the keys (1, 1), and V is 1 or -1 by turns of three.
abbrev pub memory : Memory Sign
memory = record {
  q = λ i. if i % 2 == 0 then plus else nil;
  k = λ i. plus;
  v = λ i. if i % 3 == 0 then minus else plus;
  scale = plus;
}

pub score_finite : (j : ℕ) → is_nil (dot_scaled signs params memory 0 0 0 j) ≡ false
unfolding dot_scaled sum
score_finite j = refl

naive_forward-blend_example :
    naive_forward signs params memory 1
    ≡ multiply
        (blend signs plus (
          attended signs signs-IsExact params memory 0 0 0
            (omega arith)
            (omega arith)
            score_finite
            (λ j. naive_value signs params memory 0 0 j 1)))
        (blend signs plus (
          attended signs signs-IsExact params memory 0 0 0
            (omega arith)
            (omega arith)
            score_finite
            (λ j. plus)))
naive_forward-blend_example =
    naive_forward-blend signs signs-IsExact params memory 0 0 0 (omega arith) (omega arith)
      score_finite 1 1 plus (omega arith) (omega arith) refl (omega arith) refl
