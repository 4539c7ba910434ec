-- ===== src/Status.antt =====
-- Error codes and results: include/scicompute_attention/status.hpp and src/api/status.cpp.
-- `Result` keeps the code of an error; the texts of messages are left out.
use sci_compute_attention.Base.{ℕ, ◌≡◌, ◌⊎◌, inl, inr, refl, ap, arith}

pub data AttnStatusCode : Type 0 where
  ok_code unsupported_head_dim unsupported_dtype unsupported_layout layout_mismatch : AttnStatusCode
  shape_mismatch seq_too_long kv_capacity_exceeded workspace_exceeded : AttnStatusCode
  unsupported_feature device_capability : AttnStatusCode

-- `sci::StatusCode`, as far as this repository names its members.
pub data StatusCode : Type 0 where
  sci_ok error invalid_argument resource_exhausted not_implemented invalid_operation : StatusCode

-- The number of an enumerator.
abbrev pub code_value : AttnStatusCode → ℕ
code_value ok_code = 0
code_value unsupported_head_dim = 2001
code_value unsupported_dtype = 2002
code_value unsupported_layout = 2003
code_value layout_mismatch = 2004
code_value shape_mismatch = 2005
code_value seq_too_long = 2006
code_value kv_capacity_exceeded = 2007
code_value workspace_exceeded = 2008
code_value unsupported_feature = 2009
code_value device_capability = 2010

abbrev pub to_sci_code : AttnStatusCode → StatusCode
to_sci_code ok_code = sci_ok
to_sci_code unsupported_head_dim = invalid_argument
to_sci_code unsupported_dtype = invalid_argument
to_sci_code unsupported_layout = invalid_argument
to_sci_code layout_mismatch = invalid_argument
to_sci_code shape_mismatch = invalid_argument
to_sci_code seq_too_long = invalid_argument
to_sci_code kv_capacity_exceeded = resource_exhausted
to_sci_code workspace_exceeded = resource_exhausted
to_sci_code unsupported_feature = not_implemented
to_sci_code device_capability = invalid_operation

-- An error made by `MakeStatus`, or one that carries an upstream code alone.
pub data Error : Type 0 where
  attn : AttnStatusCode → Error
  sci : StatusCode → Error

pub data Result {ℓ} (A : Type ℓ) : Type ℓ where
  ok : A → Result A
  err : Error → Result A

-- `sci::Status`
abbrev pub Status : Type 0
Status = Result (Unit {0})

infixl 5 ◌>>=◌ ◌>>◌
abbrev pub ◌>>=◌ {ℓ κ} : {A : Type ℓ} {B : Type κ} → Result A → (A → Result B) → Result B
ok a >>= f = f a
err e >>= f = err e

abbrev pub ◌>>◌ {ℓ} : {B : Type ℓ} → Status → Result B → Result B
m >> k = m >>= λ _. k

pub Status-cases : (s : Status) → ((e : Error) × (s ≡ err e)) ⊎ (s ≡ ok tt)
Status-cases (err e) = inl (e, refl)
Status-cases (ok u) = inr refl

pub Result-cases {ℓ} :
    {A : Type ℓ} (r : Result A) → ((e : Error) × (r ≡ err e)) ⊎ ((a : A) × (r ≡ ok a))
Result-cases (err e) = inl (e, refl)
Result-cases (ok a) = inr (a, refl)

-- What a chain that succeeded says of its first step.
pub bind-ok {ℓ κ} :
    {A : Type ℓ} {B : Type κ} (r : Result A) (f : A → Result B) (b : B)
    → (r >>= f) ≡ ok b
    → (a : A) × (r ≡ ok a) × (f a ≡ ok b)
bind-ok (err e) f b h = ground arith
bind-ok (ok a) f b h = (a, refl, h)

value_or {ℓ} : {A : Type ℓ} → Result A → A → A
value_or (ok x) y = x
value_or (err e) y = y

pub ok_inj {ℓ} : {A : Type ℓ} (a b : A) → ok a ≡ ok b → a ≡ b
unfolding value_or
ok_inj a b h = ap (λ r. value_or r a) h
