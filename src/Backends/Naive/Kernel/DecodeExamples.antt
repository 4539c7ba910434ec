-- ===== src/Backends/Naive/Kernel/DecodeExamples.antt =====
-- The theorem on the naive and the decode kernels in the field of three elements, for the second head of a
-- call with one query of dimension 32 over three tokens in two splits.
use sci_compute_attention.Base.{ℕ, ◌%◌, ◌≡◌, refl, false, none, arith, [], ◌∷◌, ◌==◌, if◌then◌else◌}
use sci_compute_attention.Types.{float16}
use sci_compute_attention.Layout.{strides_for}
use sci_compute_attention.Backends.{Buffer, FwdParams, DecodeFwdParams, fp16, fwd_params}
use sci_compute_attention.Backends.Decode.{decode_params}
use sci_compute_attention.Backends.Decode.Signs.{
  Sign, nil, plus, minus, is_nil, signs, signs-IsExact,
}
use sci_compute_attention.Backends.Decode.Kernel.{Memory, sum, decode_split_k}
use sci_compute_attention.Backends.Naive.Kernel.{dot_scaled, naive_forward}
use sci_compute_attention.Backends.Naive.Kernel.Decode.{naive_forward-decode_split_k}
use sci_compute_attention.Backends.Examples.{env, call, tensor, shape}

abbrev out : Buffer
out = record { dims = 1 ∷ 2 ∷ 1 ∷ 32 ∷ []; dtype = float16; address = 0 }

abbrev naive_params : FwdParams
naive_params = fwd_params env (tensor 1) (tensor 3) (tensor 3) out none call (shape 1 3) fp16

abbrev split_params : DecodeFwdParams
split_params = decode_params env (tensor 1) (tensor 3) (tensor 3) out call (shape 1 3) fp16 2

-- The first element of a query is 1 and all others are 0; the keys are 1, and V is 1 or -1 by turns.
abbrev memory : Memory Sign
memory = record {
  q = λ i. if i % 32 == 0 then plus else nil;
  k = λ i. plus;
  v = λ i. if i % 2 == 0 then plus else minus;
  scale = plus;
}

score_finite : (j : ℕ) → is_nil (dot_scaled signs naive_params memory 0 1 0 j) ≡ false
unfolding dot_scaled sum fwd_params strides_for
score_finite j = refl

naive_forward-decode_split_k_example :
    naive_forward signs naive_params memory 37 ≡ decode_split_k signs split_params memory 1 5
unfolding fwd_params
naive_forward-decode_split_k_example =
    naive_forward-decode_split_k signs signs-IsExact env (tensor 1) (tensor 3) (tensor 3) out out
      none call (shape 1 3) fp16 2 memory 0 1 refl score_finite refl 5 (omega arith) (omega arith)
      (omega arith) (omega arith) (omega arith)
