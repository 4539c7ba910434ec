-- ===== src/Backends/Decode/Signs.antt =====
-- The field of three elements with signs for exponentials: an arithmetic of Softmax.antt, of the decode
-- and naive kernels of src/backends, in which exact laws hold.
use sci_compute_attention.Base.{refl, Bool, true, false, arith}
use sci_compute_attention.Backends.Decode.Softmax.{Arithmetic, IsExact}

pub data Sign : Type 0 where
  nil plus minus : Sign

abbrev pub add : Sign → Sign → Sign
add nil b = b
add plus nil = plus
add plus plus = minus
add plus minus = nil
add minus nil = minus
add minus plus = nil
add minus minus = plus

abbrev pub multiply : Sign → Sign → Sign
multiply nil b = nil
multiply plus b = b
multiply minus nil = nil
multiply minus plus = minus
multiply minus minus = plus

abbrev pub greater : Sign → Sign → Sign
greater nil b = b
greater minus b = minus
greater plus nil = plus
greater plus plus = plus
greater plus minus = minus

abbrev pub is_nil : Sign → Bool
is_nil nil = true
is_nil plus = false
is_nil minus = false

-- The sign of the difference of the exponents.
abbrev pub power : Sign → Sign → Sign
power a b = multiply a b

abbrev pub signs : Arithmetic Sign
signs = record {
  nought = nil;
  one = plus;
  plus = add;
  times = multiply;
  larger = greater;
  neg_inf = nil;
  is_neg_inf = is_nil;
  is_nought = is_nil;
  weight = power;
  recip = λ a. a;
}

pub signs-IsExact : IsExact signs
signs-IsExact = record {
  plus_assoc = λ a b c. ground arith;
  plus_nought = λ a. ground arith;
  nought_plus = λ a. ground arith;
  times_assoc = λ a b c. ground arith;
  times_comm = λ a b. ground arith;
  times_plus = λ a b c. ground arith;
  times_nought = λ a. ground arith;
  times_one = λ a. ground arith;
  neg_inf_lem = refl;
  neg_inf_unique = λ a h. ground arith;
  is_nought_lem = λ a h. ground arith;
  larger_left = λ a b h. ground arith;
  larger_right = λ a b h. ground arith;
  weight_neg_inf = λ m h. ground arith;
  weight_times = λ a b c ha hb hc. ground arith;
  weight_cancels = λ a b x y ha hb. ground arith;
}
