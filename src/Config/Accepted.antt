-- ===== src/Config/Accepted.antt =====
-- The calls that `Validate` (src/api/api_validate.cpp) accepts, in terms of the values of their
-- fields.
use sci_compute_attention.Base.{
  ℕ, zero, suc, ◌%◌, ◌≤◌, ◌<◌, ◌≡◌, ◌≢◌, ◌⊎◌, ◌↔◌, refl, true, false, Option, none, some, arith, ℤ,
  pos, negsuc, is_neg,
}
use sci_compute_attention.Types.{AttentionShape, BackendKind, auto, flash, supported_head_dim_index}
use sci_compute_attention.Status.{ok}
use sci_compute_attention.Config.{
  AttentionConfig, Float, nan, inf, finite, is_positive, is_negative, above_zero, is_null,
  is_reference_only_backend, validate,
}
use sci_compute_attention.Config.Laws.{IsAccepted, validate-IsAccepted}

-- A number above 0, or below 0; NaN is neither.
pub data IsAbove : Float → Type 0 where
  number : (m : ℕ) (e : ℤ) → 0 < m → IsAbove (finite false m e)
  infinite : IsAbove (inf false)

pub data IsBelow : Float → Type 0 where
  number : (m : ℕ) (e : ℤ) → 0 < m → IsBelow (finite true m e)
  infinite : IsBelow (inf true)

abbrev pub IsHeadDim : ℕ → Type 0
IsHeadDim d =
    (d ≡ 32) ⊎ ((d ≡ 64) ⊎ ((d ≡ 96) ⊎ ((d ≡ 128) ⊎ ((d ≡ 160) ⊎ ((d ≡ 192) ⊎ (d ≡ 256))))))

-- The backends that take a logit cap.
abbrev pub Caps : BackendKind → Type 0
Caps b = (b ≡ auto) ⊎ (b ≡ flash)

-- What the fields of an accepted call say.
pub record IsCall (cfg : AttentionConfig) (shape : AttentionShape) : Type 0 where
  pub batch : 0 < shape.batch
  pub seq_q : 0 < shape.seq_q
  pub seq_kv : 0 < shape.seq_kv
  pub kv_heads : 0 < shape.num_kv_heads
  pub heads : shape.num_kv_heads ≤ shape.num_heads
  pub groups : shape.num_heads % shape.num_kv_heads ≡ 0
  pub head_dim : IsHeadDim shape.head_dim
  pub causal : cfg.causal ≡ true → shape.seq_q ≤ shape.seq_kv
  pub no_window : (w : ℕ) → cfg.sliding_window ≢ pos (suc w)
  pub softcap : ¬ (IsBelow cfg.softcap)
  pub capped : IsAbove cfg.softcap → Caps cfg.backend
  pub scale : ¬ (IsBelow cfg.scale)
  pub splits : (n : ℕ) → cfg.num_splits ≢ negsuc n
  pub seqlens : cfg.cu_seqlens_kv ≡ none → cfg.cu_seqlens_q ≡ none

is_positive_lem : (x : Float) → is_positive x ≡ true → IsAbove x
is_positive_lem nan h = absurd (ground arith)
is_positive_lem (inf true) h = absurd (ground arith)
is_positive_lem (inf false) h = infinite
is_positive_lem (finite true m e) h = absurd (ground arith)
is_positive_lem (finite false m e) h = number m e (ground arith)

is_positive-IsAbove : (x : Float) → IsAbove x → is_positive x ≡ true
is_positive-IsAbove _ (number m e h) = ground arith
is_positive-IsAbove _ infinite = refl

is_negative_lem : (x : Float) → ¬ (IsBelow x) → is_negative x ≡ false
is_negative_lem nan h = refl
is_negative_lem (inf true) h = absurd (h infinite)
is_negative_lem (inf false) h = refl
is_negative_lem (finite false m e) h = refl
is_negative_lem (finite true zero e) h = refl
is_negative_lem (finite true (suc m) e) h = absurd (h (number (suc m) e (omega arith)))

is_negative-IsBelow : (x : Float) → is_negative x ≡ false → ¬ (IsBelow x)
is_negative-IsBelow _ h (number m e some_m) = ground arith
is_negative-IsBelow _ h infinite = ground arith

above_zero_lem : (x : ℤ) → ((w : ℕ) → x ≢ pos (suc w)) → above_zero x ≡ false
above_zero_lem (pos zero) h = refl
above_zero_lem (pos (suc w)) h = absurd (h w refl)
above_zero_lem (negsuc n) h = refl

is_neg_lem : (x : ℤ) → ((n : ℕ) → x ≢ negsuc n) → is_neg x ≡ false
is_neg_lem (pos n) h = refl
is_neg_lem (negsuc n) h = absurd (h n refl)

head_dim_lem : (d : ℕ) → is_neg (supported_head_dim_index d) ≡ false → IsHeadDim d
unfolding supported_head_dim_index
head_dim_lem d h = ground arith

head_dim-IsHeadDim : (d : ℕ) → IsHeadDim d → is_neg (supported_head_dim_index d) ≡ false
unfolding supported_head_dim_index
head_dim-IsHeadDim d h = ground arith

caps_lem : (b : BackendKind) → is_reference_only_backend b ≡ false → Caps b
unfolding is_reference_only_backend
caps_lem b h = ground arith

is_reference_only_backend-Caps : (b : BackendKind) → Caps b → is_reference_only_backend b ≡ false
unfolding is_reference_only_backend
is_reference_only_backend-Caps b h = ground arith

is_null_lem : {A : Type 0} (x : Option A) → is_null x ≡ true → x ≡ none
is_null_lem none h = refl
is_null_lem (some a) h = absurd (ground arith)

IsAccepted-IsCall :
    (cfg : AttentionConfig) (shape : AttentionShape) → IsAccepted cfg shape → IsCall cfg shape
IsAccepted-IsCall cfg shape a = record {
  batch = a.batch;
  seq_q = a.seq_q;
  seq_kv = a.seq_kv;
  kv_heads = a.kv_heads;
  heads = a.heads;
  groups = a.groups;
  head_dim = head_dim_lem shape.head_dim a.head_dim;
  causal = a.causal;
  no_window = λ w e. ground (arith, a.no_window, e);
  softcap = is_negative-IsBelow cfg.softcap a.softcap;
  capped = λ c. caps_lem cfg.backend (a.capped (is_positive-IsAbove cfg.softcap c));
  scale = is_negative-IsBelow cfg.scale a.scale;
  splits = λ n e. ground (arith, a.splits, e);
  seqlens = λ e. is_null_lem cfg.cu_seqlens_q (ground (arith, e, a.seqlens));
}

IsCall-IsAccepted :
    (cfg : AttentionConfig) (shape : AttentionShape) → IsCall cfg shape → IsAccepted cfg shape
IsCall-IsAccepted cfg shape a = record {
  batch = a.batch;
  seq_q = a.seq_q;
  seq_kv = a.seq_kv;
  kv_heads = a.kv_heads;
  heads = a.heads;
  groups = a.groups;
  head_dim = head_dim-IsHeadDim shape.head_dim a.head_dim;
  causal = a.causal;
  no_window = above_zero_lem cfg.sliding_window a.no_window;
  softcap = is_negative_lem cfg.softcap a.softcap;
  capped =
      λ c. is_reference_only_backend-Caps cfg.backend (a.capped (is_positive_lem cfg.softcap c));
  scale = is_negative_lem cfg.scale a.scale;
  splits = is_neg_lem cfg.num_splits a.splits;
  seqlens = λ given. ground (arith, given, a.seqlens);
}

-- `Validate` accepts a call exactly if all extents are positive, the heads are a multiple of the K/V heads,
-- the head dimension is one of the seven that are supported, a causal call has no more queries than keys,
-- there is no sliding window, the logit cap and the scale are not negative, a positive logit cap goes with no
-- backend or the flash backend, the number of splits is not negative, and offsets of queries come with
-- offsets of keys.
pub validate_iff :
    (cfg : AttentionConfig) (shape : AttentionShape)
    → (validate cfg shape ≡ ok tt) ↔ IsCall cfg shape
validate_iff cfg shape =
    let (sound, complete) = validate-IsAccepted cfg shape in
    (λ h. IsAccepted-IsCall cfg shape (sound h), λ a. complete (IsCall-IsAccepted cfg shape a))
