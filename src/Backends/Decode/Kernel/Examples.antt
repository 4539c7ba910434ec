-- ===== src/Backends/Decode/Kernel/Examples.antt =====
-- The theorem on the decode kernels in the field of three elements, where exponentials are signs, for one
-- head of dimension 32 over three tokens in two splits.
use sci_compute_attention.Base.{
  ℕ, ◌%◌, ◌≡◌, refl, false, none, some, arith, pos, ◌==◌, if◌then◌else◌,
}
use sci_compute_attention.Config.{finite}
use sci_compute_attention.Layout.{Strides}
use sci_compute_attention.Backends.{DecodeFwdParams, fp16}
use sci_compute_attention.Backends.Decode.Softmax.{blend}
use sci_compute_attention.Backends.Decode.Signs.{
  Sign, nil, plus, minus, multiply, is_nil, signs, signs-IsExact,
}
use sci_compute_attention.Backends.Decode.Kernel.{Memory, decode_split_k, value, score, sum}
use sci_compute_attention.Backends.Decode.Kernel.Laws.{scored}
use sci_compute_attention.Backends.Decode.Kernel.Exact.{decode_split_k-blend}

abbrev row : Strides
row = record { s_b = 32; s_h = 32; s_s = 32; s_d = 1 }

abbrev params : DecodeFwdParams
params = record {
  q = some 0;
  k = some 0;
  v = some 0;
  out = some 0;
  partial_m = some 0;
  partial_l = some 8;
  partial_o = some 16;
  batch = 1;
  num_heads = 1;
  num_kv_heads = 1;
  seq_kv = 3;
  head_dim = 32;
  num_splits = 2;
  q_stride = row;
  k_stride = row;
  v_stride = row;
  o_stride = row;
  scale = finite false 1 (pos 0);
  dtype = fp16;
  page_table = none;
  block_size = 0;
  max_blocks_per_seq = 0;
  num_kv_blocks = 0;
  seq_lens = none;
}

-- The first element of the query is 1 and all others are 0; the keys are 1, and V is 1 or -1 by turns.
abbrev memory : Memory Sign
memory = record {
  q = λ i. if i == 0 then plus else nil;
  k = λ i. plus;
  v = λ i. if i % 2 == 0 then plus else minus;
  scale = plus;
}

score_finite : (r : ℕ) → is_nil (score signs params memory 0 0 r) ≡ false
unfolding score sum
score_finite r = refl

decode_split_k-blend_example :
    decode_split_k signs params memory 0 5
    ≡ multiply
        (blend signs plus
          (scored signs params memory 0 0 (λ r. value signs params memory 0 0 r 5) 3 0))
        (blend signs plus (scored signs params memory 0 0 (λ r. plus) 3 0))
decode_split_k-blend_example =
    decode_split_k-blend signs signs-IsExact params memory 0 0 (omega arith) (omega arith)
      score_finite 5 plus (omega arith) refl
