-- ===== src/Backends/Laws.antt =====
-- What the common steps of a forward pass leave, and a machine on which nothing fails.
use sci_compute_attention.Base.{
  ℕ, ◌≡◌, ◌≢◌, true, Option, none, some, [], ◌∷◌, arith, refl, ap, inl, inr, Bool-cases,
  Option-cases,
}
use sci_compute_attention.Types.{DType, float32, AttentionShape}
use sci_compute_attention.Tensor.{Tensor}
use sci_compute_attention.Status.{Result, Status, ok, err, bind-ok, ok_inj}
use sci_compute_attention.Config.{AttentionConfig, validate}
use sci_compute_attention.Config.Laws.{IsAccepted, validate-IsAccepted}
use sci_compute_attention.ScratchPool.{ScratchPool}
use sci_compute_attention.Dispatcher.{infer_shape}
use sci_compute_attention.Backends.{
  Env, Launch, Buffer, checked_shape, new_output, new_lse, launch_raw, ensure_smem_limit, staged,
  with_scratch,
}

-- Every allocation succeeds, every tensor has memory, and the CUDA runtime reports no error.
pub record IsHealthy (env : Env) : Type 0 where
  pub cuda : env.cuda_available ≡ true
  pub scratch : env.scratch_ok ≡ true
  pub out : ℕ
  pub out_allocated : env.out_address ≡ some out
  pub lse : ℕ
  pub lse_allocated : env.lse_address ≡ some lse
  pub memory : Tensor → ℕ
  pub has_memory : (t : Tensor) → env.data_of t ≡ some (memory t)
  pub raises : (l : Launch) → env.raise_smem l ≡ ok tt
  pub launches : (l : Launch) → env.cuda_launch l ≡ ok tt
  pub no_error : env.last_error ≡ ok tt

pub checked_shape-ok :
    (q k v : Tensor) (cfg : AttentionConfig) (shape : AttentionShape)
    → checked_shape q k v cfg ≡ ok shape
    → (infer_shape q k v cfg.layout ≡ ok shape) × IsAccepted cfg shape
unfolding checked_shape
checked_shape-ok q k v cfg shape h =
    let (s, inferred, h1) = bind-ok (infer_shape q k v cfg.layout) _ shape h in
    let (u, valid, h2) = bind-ok (validate cfg s) _ shape h1 in
    let same : s ≡ shape = ok_inj s shape h2 in
    (rw (← same) inferred, rw (← same) ((validate-IsAccepted cfg s).0 (valid)))

pub checked_shape_accepts :
    (q k v : Tensor) (cfg : AttentionConfig) (shape : AttentionShape)
    → infer_shape q k v cfg.layout ≡ ok shape
    → IsAccepted cfg shape
    → checked_shape q k v cfg ≡ ok shape
unfolding checked_shape
checked_shape_accepts q k v cfg shape h accepted =
    rw (h) (rw ((validate-IsAccepted cfg shape).1 accepted) refl)

-- The buffer that an output is.
abbrev pub output_buffer : AttentionShape → DType → ℕ → Buffer
output_buffer shape dtype address = record {
  dims = shape.batch ∷ shape.num_heads ∷ shape.seq_q ∷ shape.head_dim ∷ [];
  dtype = dtype;
  address = address;
}

pub new_output-ok :
    (env : Env) (shape : AttentionShape) (dtype : DType) (out : Buffer)
    → new_output env shape dtype ≡ ok out
    → out ≡ output_buffer shape dtype out.address
unfolding new_output
new_output-ok env shape dtype out h = elim (Option-cases env.out_address) [
  | inl e ↦ ground (arith, e, h)
  | inr (a, e) ↦ ground (arith, e, h)
]

module _ (env : Env) (healthy : IsHealthy env) where
  pub new_output_healthy :
      (shape : AttentionShape) (dtype : DType)
      → new_output env shape dtype ≡ ok (output_buffer shape dtype healthy.out)
  unfolding new_output
  new_output_healthy shape dtype = rw (healthy.out_allocated) refl

  pub new_lse_healthy :
      (cfg : AttentionConfig) (shape : AttentionShape)
      → (lse : Option Buffer) × (new_lse env cfg shape ≡ ok lse)
  unfolding new_lse
  new_lse_healthy cfg shape = elim (Bool-cases cfg.return_lse) [
    | inl e ↦ (
      some (record {
        dims = shape.batch ∷ shape.num_heads ∷ shape.seq_q ∷ [];
        dtype = float32;
        address = healthy.lse;
      }),
      rw e (rw (healthy.lse_allocated) refl),
    )
    | inr e ↦ (none, rw e refl)
  ]

  -- A launch with a grid and threads runs.
  pub launch_raw_healthy :
      (l : Launch)
      → l.grid_x ≢ 0
      → l.grid_y ≢ 0
      → l.grid_z ≢ 0
      → l.threads ≢ 0
      → launch_raw env l ≡ ok tt
  unfolding launch_raw ensure_smem_limit
  launch_raw_healthy l x y z t = ground (arith, healthy.raises l, healthy.launches l)

-- What a staged call that succeeded says of its checks.
pub staged-ok {ℓ κ} :
    {P : Type ℓ} {A : Type κ} (r : Result P) (pool : ScratchPool) (run : P → Result A × ScratchPool)
    (a : A) (pool' : ScratchPool)
    → staged r pool run ≡ (ok a, pool')
    → (p : P) × (r ≡ ok p) × (run p ≡ (ok a, pool'))
staged-ok (err e) pool run a pool' h = ground (arith, h)
staged-ok (ok p) pool run a pool' h = (p, refl, h)

-- A call that succeeded had its scratch buffer.
pub with_scratch-ok {ℓ} :
    {A : Type ℓ} (acquired : Status × ScratchPool) (rest : Result A) (a : A) (pool' : ScratchPool)
    → with_scratch acquired rest ≡ (ok a, pool')
    → (acquired ≡ (ok tt, pool')) × (rest ≡ ok a)
with_scratch-ok (err e, pool) rest a pool' h = ground (arith, h)
with_scratch-ok (ok u, pool) rest a pool' h = (ap (λ x. (ok tt, x.1)) h, ap (λ x. x.0) h)
