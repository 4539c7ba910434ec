-- ===== src/Backends/Decode/Laws.antt =====
-- When the decode backend computes a call, with how many splits, and where the partial results lie.
use sci_compute_attention.Base.{
  ℕ, ◌^◌, ◌∙◌, sym, subst, ◌+◌, ◌*◌, ◌/◌, ◌%◌, ◌≤◌, ◌<◌, ◌≡◌, ◌≢◌, true, false, not, some, arith,
  refl, inl, inr, ◌==◌, if◌then◌else◌, Option-cases, is_neg,
}
use sci_compute_attention.Types.{AttentionShape, supported_head_dim_index}
use sci_compute_attention.Tensor.{Tensor}
use sci_compute_attention.Status.{
  Status, ok, err, attn, bind-ok, ok_inj, unsupported_feature, unsupported_head_dim,
}
use sci_compute_attention.Config.{AttentionConfig, above_zero}
use sci_compute_attention.Config.Laws.{IsAccepted}
use sci_compute_attention.Capability.{DeviceCapability}
use sci_compute_attention.ScratchPool.{ScratchPool, decode_partials, key_of, acquire_scratch_fp32}
use sci_compute_attention.ScratchPool.Laws.{acquire_scratch_fp32_grows, acquired-fits}
use sci_compute_attention.Dispatcher.{infer_shape}
use sci_compute_attention.Backends.{
  Env, DtypeId, dtype_id_for, AttentionResult, checked_shape, new_output,
}
use sci_compute_attention.Backends.Laws.{
  IsHealthy, checked_shape-ok, checked_shape_accepts, output_buffer, new_output-ok,
  new_output_healthy, staged-ok, with_scratch-ok,
}
use sci_compute_attention.Backends.Launchers.{launch_decode_split_k, is_instantiated}
use sci_compute_attention.Backends.Launchers.Laws.{launch_decode_healthy}
use sci_compute_attention.Backends.Decode.{
  native_seq_q, max_splits, splits_for, partial_bytes, resolve_splits, supports, prepare,
  decode_params, compute, forward, result_of,
}
use sci_compute_attention.Backends.Decode.Partitions.{
  most_partial_bytes, partial_bytes_lem, Partitions, decode_params-Partitions,
}

splits_for_bounds :
    (seq_kv sm_count : ℕ)
    → (1 ≤ splits_for seq_kv sm_count) × (splits_for seq_kv sm_count ≤ max_splits)
unfolding splits_for
splits_for_bounds seq_kv sm_count = ground arith

-- There are 1 to 16 splits, whatever is asked for and whatever the device has.
pub resolve_splits_bounds :
    (cfg : AttentionConfig) (kv_len : ℕ) (cap : DeviceCapability)
    → (1 ≤ resolve_splits cfg kv_len cap) × (resolve_splits cfg kv_len cap ≤ max_splits)
unfolding resolve_splits
resolve_splits_bounds cfg kv_len cap = ground (arith, splits_for_bounds kv_len cap.sm_count)

-- What the steps before the scratch buffer leave.
pub record IsPrepared (q k v : Tensor) (cfg : AttentionConfig) (shape : AttentionShape)
    (id : DtypeId) : Type 0 where
  pub inferred : infer_shape q k v cfg.layout ≡ ok shape
  pub accepted : IsAccepted cfg shape
  pub one_query : shape.seq_q ≡ native_seq_q
  pub known : dtype_id_for q.dtype ≡ some id

module _ (q k v : Tensor) (cfg : AttentionConfig) where
  abbrev query_guard : AttentionShape → Status
  query_guard shape =
      if not (shape.seq_q == native_seq_q) then err (attn unsupported_feature) else ok tt

  abbrev dim_guard : AttentionShape → Status
  dim_guard shape =
      if not (shape.head_dim % 32 == 0) then err (attn unsupported_head_dim) else ok tt

  prepare-IsPrepared :
      (shape : AttentionShape) (id : DtypeId)
      → prepare q k v cfg ≡ ok (shape, id)
      → IsPrepared q k v cfg shape id
  unfolding prepare
  prepare-IsPrepared shape id h =
      let (s, checked, h1) = bind-ok (checked_shape q k v cfg) _ (shape, id) h in
      let (u, one, h2) = bind-ok (query_guard s) _ (shape, id) h1 in
      let (u', square, h3) = bind-ok (dim_guard s) _ (shape, id) h2 in
      let known : (dtype_id_for q.dtype ≡ some id) × (s ≡ shape) =
        elim (Option-cases (dtype_id_for q.dtype)) [
          | inl d ↦ absurd (ground (arith, d, h3))
          | inr (i, d) ↦ (ground (arith, d, h3), ground (arith, d, h3))
        ] in
      let (inferred, accepted) = checked_shape-ok q k v cfg s checked in
      rw (← known.1) (record {
        inferred = inferred;
        accepted = accepted;
        one_query = ground (arith, one);
        known = known.0;
      })

  prepare_accepts :
      (shape : AttentionShape) (id : DtypeId)
      → infer_shape q k v cfg.layout ≡ ok shape
      → IsAccepted cfg shape
      → shape.seq_q ≡ native_seq_q
      → shape.head_dim % 32 ≡ 0
      → dtype_id_for q.dtype ≡ some id
      → prepare q k v cfg ≡ ok (shape, id)
  unfolding prepare
  prepare_accepts shape id inferred a one even known =
      let g1 : (not (shape.seq_q == native_seq_q)) ≡ false = ground (arith, one) in
      let g2 : (not (shape.head_dim % 32 == 0)) ≡ false = ground (arith, even) in
      rw (checked_shape_accepts q k v cfg shape inferred a) (rw (g1, g2, known) refl)

-- What a result of `Forward` says of the call.
pub record SplitsKeys (env : Env) (q k v : Tensor) (cfg : AttentionConfig)
    (pool pool' : ScratchPool) (r : AttentionResult) : Type 0 where
  pub shape : AttentionShape
  pub id : DtypeId
  pub prepared : IsPrepared q k v cfg shape id
  pub splits : ℕ
  pub chosen : splits ≡ resolve_splits cfg shape.seq_kv env.capability
  pub at_least_one : 1 ≤ splits
  pub at_most_max : splits ≤ max_splits
  pub regions :
      Partitions
        (decode_params env q k v r.out cfg shape id splits)
        env.scratch_address
        (pool'.entry (key_of env.device_id decode_partials)).elements
  pub result : r ≡ result_of shape splits (output_buffer shape q.dtype r.out.address)
  pub launched :
      launch_decode_split_k env (decode_params env q k v r.out cfg shape id splits) ≡ ok tt

module _ (env : Env) (q k v : Tensor) (cfg : AttentionConfig) where
  compute-ok :
      (shape : AttentionShape) (id : DtypeId) (splits : ℕ) (r : AttentionResult)
      → compute env q k v cfg shape id splits ≡ ok r
      → (r ≡ result_of shape splits (output_buffer shape q.dtype r.out.address))
        × (launch_decode_split_k env (decode_params env q k v r.out cfg shape id splits) ≡ ok tt)
  unfolding compute
  compute-ok shape id splits r h =
      let (out, made, h1) = bind-ok (new_output env shape q.dtype) _ r h in
      let (u, launched, h2) =
        bind-ok (launch_decode_split_k env (decode_params env q k v out cfg shape id splits)) _ r
          h1 in
      let same = ok_inj (result_of shape splits out) r h2 in
      (rw (← same) (rw (← new_output-ok env shape q.dtype out made) refl), rw (← same) launched)

  pub forward-SplitsKeys :
      (shape : AttentionShape) (pool pool' : ScratchPool) (r : AttentionResult)
      → infer_shape q k v cfg.layout ≡ ok shape
      → most_partial_bytes shape.batch shape.num_heads shape.head_dim < 2 ^ 64
      → forward env q k v cfg pool ≡ (ok r, pool')
      → SplitsKeys env q k v cfg pool pool' r
  unfolding forward
  forward-SplitsKeys shape pool pool' r inferred small h =
      let (p, done, h1) = staged-ok (prepare q k v cfg) pool _ r pool' h in
      let splits = resolve_splits cfg p.0.seq_kv env.capability in
      let (acquired, finished) =
        with_scratch-ok
          (acquire_scratch_fp32 env.scratch_ok decode_partials (partial_bytes p.0 splits / 4)
            env.device_id pool)
          (compute env q k v cfg p.0 p.1 splits) r pool' h1 in
      let (result, launched) = compute-ok p.0 p.1 splits r finished in
      let bounds = resolve_splits_bounds cfg p.0.seq_kv env.capability in
      let room =
        acquired-fits env.scratch_ok decode_partials (partial_bytes p.0 splits / 4) env.device_id
          pool pool' acquired in
      let prepared = prepare-IsPrepared q k v cfg p.0 p.1 done in
      let same : shape ≡ p.0 = ok_inj shape p.0 (sym inferred ∙ prepared.inferred) in
      let small' =
        subst (λ (x : AttentionShape). most_partial_bytes x.batch x.num_heads x.head_dim < 2 ^ 64)
          same small in
      record {
        shape = p.0;
        id = p.1;
        prepared = prepared;
        splits = splits;
        chosen = refl;
        at_least_one = bounds.0;
        at_most_max = bounds.1;
        regions =
            decode_params-Partitions env q k v r.out cfg p.0 p.1 splits _ bounds.0 bounds.1 small'
              room;
        result = result;
        launched = launched;
      }

supports_cases :
    (env : Env) (cfg : AttentionConfig) (shape : AttentionShape)
    → (supports env cfg shape).supported ≡ true
    → (shape.seq_q ≡ native_seq_q)
      × (is_neg (supported_head_dim_index shape.head_dim) ≡ false)
      × (shape.head_dim % 32 ≡ 0)
unfolding supports
supports_cases env cfg shape h = ground (arith, h)

-- `Supports` says yes to one query of a known head dimension.
pub supports_accepts :
    (env : Env) (cfg : AttentionConfig) (shape : AttentionShape)
    → env.cuda_available ≡ true
    → shape.seq_q ≡ native_seq_q
    → is_neg (supported_head_dim_index shape.head_dim) ≡ false
    → above_zero cfg.sliding_window ≡ false
    → (supports env cfg shape).supported ≡ true
unfolding supports supported_head_dim_index
supports_accepts env cfg shape cuda one dim no_window = ground arith

dim_known : (d : ℕ) → is_neg (supported_head_dim_index d) ≡ false → is_instantiated d ≡ true
unfolding supported_head_dim_index is_instantiated
dim_known d h = ground arith

some_partials :
    (shape : AttentionShape) (splits : ℕ)
    → 0 < shape.batch
    → 0 < shape.num_heads
    → 1 ≤ splits
    → splits ≤ max_splits
    → most_partial_bytes shape.batch shape.num_heads shape.head_dim < 2 ^ 64
    → partial_bytes shape splits / 4 ≢ 0
some_partials shape splits batch heads lo hi small =
    let bytes = partial_bytes_lem shape splits lo hi small in
    let some_results : 0 < shape.batch * shape.num_heads * splits * (2 + shape.head_dim) =
      grind arith in
    omega (arith, bytes, some_results)

module _ (env : Env) (healthy : IsHealthy env) (q k v : Tensor) (cfg : AttentionConfig)
    (shape : AttentionShape) (pool : ScratchPool) (a : IsAccepted cfg shape) where
  some_heads : 0 < shape.num_heads
  some_heads = omega (arith, a.heads, a.kv_heads)

  compute_healthy :
      (id : DtypeId) (splits : ℕ)
      → 0 < splits
      → (r : AttentionResult) × (compute env q k v cfg shape id splits ≡ ok r)
  unfolding compute decode_params
  compute_healthy id splits some_splits =
      let out = output_buffer shape q.dtype healthy.out in
      (
        result_of shape splits out,
        rw (new_output_healthy env healthy shape q.dtype) (
            rw
              (launch_decode_healthy env healthy (decode_params env q k v out cfg shape id splits)
                (ground (arith, healthy.has_memory q, healthy.has_memory k, healthy.has_memory v))
                (dim_known shape.head_dim a.head_dim) some_splits some_heads a.batch)
              refl),
      )

  -- On a machine where nothing fails, an accepted call is computed where `Supports` says yes.
  pub forward_healthy :
      (id : DtypeId)
      → infer_shape q k v cfg.layout ≡ ok shape
      → dtype_id_for q.dtype ≡ some id
      → (supports env cfg shape).supported ≡ true
      → most_partial_bytes shape.batch shape.num_heads shape.head_dim < 2 ^ 64
      → (r : AttentionResult) × ((forward env q k v cfg pool).0 ≡ ok r)
  unfolding forward
  forward_healthy id inferred known yes_answer small =
      let (one, dim_ok, even) = supports_cases env cfg shape yes_answer in
      let splits = resolve_splits cfg shape.seq_kv env.capability in
      let (some_splits, few) = resolve_splits_bounds cfg shape.seq_kv env.capability in
      let (r, computed) = compute_healthy id splits some_splits in
      (
        r,
        rw (prepare_accepts q k v cfg shape id inferred a one even known) (
            rw
              (acquire_scratch_fp32_grows env.scratch_ok decode_partials
                (partial_bytes shape splits / 4) env.device_id pool healthy.scratch
                (some_partials shape splits a.batch some_heads some_splits few small))
              computed),
      )
