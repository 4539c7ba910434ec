-- ===== src/Backends/Naive/Laws.antt =====
-- When the naive backend computes a call, and what it stores.
use sci_compute_attention.Base.{
  ℕ, ◌^◌, ◌⊎◌, ◌∙◌, ◌==◌, ==→eq, Bool-cases, sym, subst, ◌*◌, ◌/◌, ◌≤◌, ◌<◌, ◌≡◌, ◌≢◌, true, false,
  ◌&&◌, Option, some, arith, refl, inl, inr, ltb, if◌then◌else◌, Option-cases,
}
use sci_compute_attention.Types.{AttentionShape}
use sci_compute_attention.Tensor.{Tensor}
use sci_compute_attention.Status.{
  Status, ok, err, attn, bind-ok, ok_inj, workspace_exceeded, shape_mismatch,
}
use sci_compute_attention.Config.{AttentionConfig}
use sci_compute_attention.Config.Laws.{IsAccepted}
use sci_compute_attention.KvCache.{mul64}
use sci_compute_attention.ScratchPool.{ScratchPool, key_of, scores_fp32, acquire_scratch_fp32}
use sci_compute_attention.ScratchPool.Laws.{acquire_scratch_fp32_grows, acquired-fits}
use sci_compute_attention.Dispatcher.{infer_shape}
use sci_compute_attention.Backends.{
  Env, DtypeId, dtype_id_for, NaiveFwdParams, Buffer, AttentionResult, checked_shape, new_output,
  new_lse, fwd_params,
}
use sci_compute_attention.Backends.Laws.{
  IsHealthy, checked_shape-ok, checked_shape_accepts, output_buffer, new_output-ok,
  new_output_healthy, new_lse_healthy, staged-ok, with_scratch-ok,
}
use sci_compute_attention.Backends.Launchers.{launch_naive_forward}
use sci_compute_attention.Backends.Launchers.Laws.{launch_naive_healthy}
use sci_compute_attention.Backends.Naive.{
  score_bytes, effective_workspace_limit, over_limit, supports, prepare, compute, forward,
  result_of,
}

abbrev naive_params :
    Env
    → Tensor
    → Tensor
    → Tensor
    → Buffer
    → Option Buffer
    → AttentionConfig
    → AttentionShape
    → DtypeId
    → NaiveFwdParams
naive_params env q k v out lse cfg shape id = record {
  base = fwd_params env q k v out lse cfg shape id;
  scores = some env.scratch_address;
}

abbrev pub scores : AttentionShape → ℕ
scores shape = shape.batch * shape.num_heads * shape.seq_q * shape.seq_kv

le_product : (a b : ℕ) → 0 < b → a ≤ a * b
le_product a b some_b = grind arith

pub score_bytes_lem :
    (cfg : AttentionConfig) (shape : AttentionShape)
    → IsAccepted cfg shape
    → scores shape * 4 < 2 ^ 64
    → score_bytes shape ≡ scores shape * 4
unfolding score_bytes
score_bytes_lem cfg shape a small =
    let rows : shape.batch * shape.num_heads ≤ shape.batch * shape.num_heads * shape.seq_q =
      le_product (shape.batch * shape.num_heads) shape.seq_q a.seq_q in
    let all : shape.batch * shape.num_heads * shape.seq_q ≤ scores shape =
      le_product (shape.batch * shape.num_heads * shape.seq_q) shape.seq_kv a.seq_kv in
    let heads : mul64 shape.batch shape.num_heads ≡ shape.batch * shape.num_heads =
      omega (arith, rows, all, small) in
    let queries : mul64 (shape.batch * shape.num_heads) shape.seq_q
        ≡ shape.batch * shape.num_heads * shape.seq_q =
      omega (arith, all, small) in
    let keys : mul64 (shape.batch * shape.num_heads * shape.seq_q) shape.seq_kv ≡ scores shape =
      omega (arith, small) in
    rw (heads, queries, keys) (omega (arith, small))

-- What the steps before the scratch buffer leave.
pub record IsPrepared (env : Env) (q k v : Tensor) (cfg : AttentionConfig) (shape : AttentionShape)
    (id : DtypeId) : Type 0 where
  pub inferred : infer_shape q k v cfg.layout ≡ ok shape
  pub accepted : IsAccepted cfg shape
  pub within_limit :
      effective_workspace_limit env cfg ≢ 0 → score_bytes shape ≤ effective_workspace_limit env cfg
  pub known : dtype_id_for q.dtype ≡ some id

limit_reading :
    (env : Env) (cfg : AttentionConfig) (shape : AttentionShape)
    → over_limit env cfg shape ≡ false
    → effective_workspace_limit env cfg ≢ 0
    → score_bytes shape ≤ effective_workspace_limit env cfg
unfolding over_limit
limit_reading env cfg shape h some_limit = ground (arith, h, some_limit)

limit_cases :
    (env : Env) (cfg : AttentionConfig) (bytes : ℕ)
    → (effective_workspace_limit env cfg ≢ 0 → bytes ≤ effective_workspace_limit env cfg)
    → (bytes ≤ cfg.workspace_limit_bytes)
      ⊎ ((cfg.workspace_limit_bytes ≡ 0)
          × ((env.capability.free_mem_bytes / 2 ≡ 0) ⊎ (bytes ≤ env.capability.free_mem_bytes / 2)))
unfolding effective_workspace_limit
limit_cases env cfg bytes h = elim (Bool-cases (cfg.workspace_limit_bytes == 0)) [
  | inr given ↦ inl (ground (arith, given, h))
  | inl none_given ↦ inr (==→eq _ _ none_given, ground (arith, none_given, h))
]

module _ (env : Env) (q k v : Tensor) (cfg : AttentionConfig) where
  abbrev limit_guard : AttentionShape → Status
  limit_guard shape = if over_limit env cfg shape then err (attn workspace_exceeded) else ok tt

  abbrev causal_guard : AttentionShape → Status
  causal_guard shape =
      if cfg.causal && ltb shape.seq_kv shape.seq_q then err (attn shape_mismatch) else ok tt

  prepare-IsPrepared :
      (shape : AttentionShape) (id : DtypeId)
      → prepare env q k v cfg ≡ ok (shape, id)
      → IsPrepared env q k v cfg shape id
  unfolding prepare
  prepare-IsPrepared shape id h =
      let (s, checked, h1) = bind-ok (checked_shape q k v cfg) _ (shape, id) h in
      let (u, small, h2) = bind-ok (limit_guard s) _ (shape, id) h1 in
      let (u', square, h3) = bind-ok (causal_guard s) _ (shape, id) h2 in
      let known : (dtype_id_for q.dtype ≡ some id) × (s ≡ shape) =
        elim (Option-cases (dtype_id_for q.dtype)) [
          | inl d ↦ absurd (ground (arith, d, h3))
          | inr (i, d) ↦ (ground (arith, d, h3), ground (arith, d, h3))
        ] in
      let (inferred, accepted) = checked_shape-ok q k v cfg s checked in
      rw (← known.1) (record {
        inferred = inferred;
        accepted = accepted;
        within_limit = limit_reading env cfg s (ground (arith, small));
        known = known.0;
      })

  prepare_accepts :
      (shape : AttentionShape) (id : DtypeId)
      → infer_shape q k v cfg.layout ≡ ok shape
      → IsAccepted cfg shape
      → over_limit env cfg shape ≡ false
      → dtype_id_for q.dtype ≡ some id
      → prepare env q k v cfg ≡ ok (shape, id)
  unfolding prepare
  prepare_accepts shape id inferred a small known =
      let square : (cfg.causal && ltb shape.seq_kv shape.seq_q) ≡ false =
        ground (arith, a.causal) in
      rw (checked_shape_accepts q k v cfg shape inferred a) (rw (small, square, known) refl)

  -- What a result of `Forward` says of the call: the score matrix of four bytes for each score keeps the limit,
  -- which is the one of the configuration or else half of the free memory, and the buffer of the pool holds it.
  pub record StoresScores (shape : AttentionShape) (pool' : ScratchPool) (r : AttentionResult)
      : Type 0 where
    pub id : DtypeId
    pub prepared : IsPrepared env q k v cfg shape id
    pub within_limit :
        (scores shape * 4 ≤ cfg.workspace_limit_bytes)
        ⊎ ((cfg.workspace_limit_bytes ≡ 0)
            × ((env.capability.free_mem_bytes / 2 ≡ 0)
                ⊎ (scores shape * 4 ≤ env.capability.free_mem_bytes / 2)))
    pub room : scores shape ≤ (pool'.entry (key_of env.device_id scores_fp32)).elements
    pub result : r ≡ result_of shape (output_buffer shape q.dtype r.out.address) r.lse
    pub launched :
        launch_naive_forward env (naive_params env q k v r.out r.lse cfg shape id) ≡ ok tt

  compute-ok :
      (shape : AttentionShape) (id : DtypeId) (r : AttentionResult)
      → compute env q k v cfg shape id ≡ ok r
      → (r ≡ result_of shape (output_buffer shape q.dtype r.out.address) r.lse)
        × (launch_naive_forward env (naive_params env q k v r.out r.lse cfg shape id) ≡ ok tt)
  unfolding compute
  compute-ok shape id r h =
      let (out, made, h1) = bind-ok (new_output env shape q.dtype) _ r h in
      let (lse, kept, h2) = bind-ok (new_lse env cfg shape) _ r h1 in
      let (u, launched, h3) =
        bind-ok (launch_naive_forward env (naive_params env q k v out lse cfg shape id)) _ r h2 in
      let same = ok_inj (result_of shape out lse) r h3 in
      (rw (← same) (rw (← new_output-ok env shape q.dtype out made) refl), rw (← same) launched)

  pub forward-StoresScores :
      (shape : AttentionShape) (pool pool' : ScratchPool) (r : AttentionResult)
      → infer_shape q k v cfg.layout ≡ ok shape
      → scores shape * 4 < 2 ^ 64
      → forward env q k v cfg pool ≡ (ok r, pool')
      → StoresScores shape pool' r
  unfolding forward
  forward-StoresScores shape pool pool' r inferred small h =
      let (p, done, h1) = staged-ok (prepare env q k v cfg) pool _ r pool' h in
      let (acquired, finished) =
        with_scratch-ok
          (acquire_scratch_fp32 env.scratch_ok scores_fp32 (score_bytes p.0 / 4) env.device_id pool)
          (compute env q k v cfg p.0 p.1) r pool' h1 in
      let (result, launched) = compute-ok p.0 p.1 r finished in
      let prepared = prepare-IsPrepared p.0 p.1 done in
      let same : p.0 ≡ shape = ok_inj p.0 shape (sym prepared.inferred ∙ inferred) in
      let small' = subst (λ x. scores x * 4 < 2 ^ 64) (sym same) small in
      let bytes = score_bytes_lem cfg p.0 prepared.accepted small' in
      let room =
        acquired-fits env.scratch_ok scores_fp32 (score_bytes p.0 / 4) env.device_id pool pool'
          acquired in
      subst (λ x. StoresScores x pool' r) same
        (record {
          id = p.1;
          prepared = prepared;
          within_limit =
              limit_cases env cfg (scores p.0 * 4) (λ ne. rw (← bytes) (prepared.within_limit ne));
          room = omega (arith, room, bytes);
          result = result;
          launched = launched;
        })

supports_limit :
    (env : Env) (cfg : AttentionConfig) (shape : AttentionShape)
    → (supports env cfg shape).supported ≡ true
    → over_limit env cfg shape ≡ false
unfolding supports
supports_limit env cfg shape h = ground (arith, h)

positive_product : (a b : ℕ) → 0 < a → 0 < b → 0 < a * b
positive_product a b ha hb = grind arith

some_scores :
    (cfg : AttentionConfig) (shape : AttentionShape)
    → IsAccepted cfg shape
    → scores shape * 4 < 2 ^ 64
    → score_bytes shape / 4 ≢ 0
some_scores cfg shape a small =
    let heads =
      positive_product shape.batch shape.num_heads a.batch (omega (arith, a.heads, a.kv_heads)) in
    let rows = positive_product (shape.batch * shape.num_heads) shape.seq_q heads a.seq_q in
    let all =
      positive_product (shape.batch * shape.num_heads * shape.seq_q) shape.seq_kv rows a.seq_kv in
    omega (arith, all, score_bytes_lem cfg shape a small)

module _ (env : Env) (healthy : IsHealthy env) (q k v : Tensor) (cfg : AttentionConfig)
    (shape : AttentionShape) (pool : ScratchPool) where
  compute_healthy : (id : DtypeId) → (r : AttentionResult) × (compute env q k v cfg shape id ≡ ok r)
  unfolding compute fwd_params
  compute_healthy id =
      let (lse, kept) = new_lse_healthy env healthy cfg shape in
      let out = output_buffer shape q.dtype healthy.out in
      (
        result_of shape out lse,
        rw (new_output_healthy env healthy shape q.dtype) (
            rw (kept) (
              rw
                (launch_naive_healthy env healthy (naive_params env q k v out lse cfg shape id)
                  (ground (arith, healthy.has_memory q, healthy.has_memory k, healthy.has_memory v))
                  refl)
                refl)),
      )

  -- On a machine where nothing fails, an accepted call is computed where `Supports` says yes.
  pub forward_healthy :
      (id : DtypeId)
      → infer_shape q k v cfg.layout ≡ ok shape
      → IsAccepted cfg shape
      → dtype_id_for q.dtype ≡ some id
      → (supports env cfg shape).supported ≡ true
      → scores shape * 4 < 2 ^ 64
      → (r : AttentionResult) × ((forward env q k v cfg pool).0 ≡ ok r)
  unfolding forward
  forward_healthy id inferred a known yes_answer small =
      let (r, computed) = compute_healthy id in
      (
        r,
        rw
            (prepare_accepts env q k v cfg shape id inferred a
              (supports_limit env cfg shape yes_answer) known)
            (rw
              (acquire_scratch_fp32_grows env.scratch_ok scores_fp32 (score_bytes shape / 4)
                env.device_id pool healthy.scratch (some_scores cfg shape a small))
              computed),
      )
