-- ===== src/Backends/Dispatch/Laws.antt =====
-- The dispatcher over the real backends: which calls are computed.
use sci_compute_attention.Base.{
  ◌^◌, ◌≤◌, ◌<◌, ◌≡◌, ◌⊎◌, ◌∙◌, inl, inr, refl, true, false, some, arith,
}
use sci_compute_attention.Types.{BackendKind, auto, AttentionShape, dtype_size}
use sci_compute_attention.Tensor.{Tensor}
use sci_compute_attention.Status.{Result, ok, err}
use sci_compute_attention.Config.{AttentionConfig}
use sci_compute_attention.Config.Laws.{IsAccepted}
use sci_compute_attention.ScratchPool.{ScratchPool}
use sci_compute_attention.Dispatcher
use sci_compute_attention.Dispatcher.{
  infer_shape, is_auto, select, preferred_backend, get_backend, report_of,
}
use sci_compute_attention.Dispatcher.Laws.{
  select-Selects, Selects-supported, forward-get_backend, Prefers, one_query, short_keys, long_keys,
  preferred_backend-Prefers,
}
use sci_compute_attention.Backends.{Env, AttentionResult, DtypeId, dtype_id_for, smem_limit}
use sci_compute_attention.Backends.Laws.{IsHealthy}
use sci_compute_attention.Backends.Tiled
use sci_compute_attention.Backends.Tiled.Laws as TiledLaws
use sci_compute_attention.Backends.Flash
use sci_compute_attention.Backends.Flash.{flash_dtype_id}
use sci_compute_attention.Backends.Flash.Laws as FlashLaws
use sci_compute_attention.Backends.Decode.Partitions.{most_partial_bytes}
use sci_compute_attention.Backends.Decode
use sci_compute_attention.Backends.Decode.Laws as DecodeLaws
use sci_compute_attention.Backends.Dispatch.{Output, with_pool, backends}

with_pool-ok :
    (x : Result AttentionResult × ScratchPool) (r : AttentionResult)
    → x.0 ≡ ok r
    → with_pool x ≡ ok (r, x.1)
with_pool-ok (ok s, pool) r h = ground (arith, h)
with_pool-ok (err e, pool) r h = ground (arith, h)

known_of_narrow :
    (q : Tensor) (id : DtypeId)
    → flash_dtype_id q.dtype ≡ some id
    → (dtype_id_for q.dtype ≡ some id) × (dtype_size q.dtype ≡ 2)
known_of_narrow q id h = ground (arith, h)

module _ (env : Env) (healthy : IsHealthy env) (pool : ScratchPool) (q k v : Tensor)
    (cfg : AttentionConfig) (shape : AttentionShape) (a : IsAccepted cfg shape)
    (inferred : infer_shape q k v cfg.layout ≡ ok shape) (id : DtypeId)
    (narrow : flash_dtype_id q.dtype ≡ some id) (room : 87_040 ≤ smem_limit env)
    (small : most_partial_bytes shape.batch shape.num_heads shape.head_dim < 2 ^ 64) where
  -- The backend that is preferred supports the call and computes it.
  Computes : BackendKind → Type 0
  Computes kind =
      (is_auto kind ≡ false)
      × ((report_of (backends env pool) cfg shape kind).supported ≡ true)
      × (out : Output) × ((get_backend (backends env pool) kind).forward q k v cfg ≡ ok out)

  preferred-Computes :
      (kind : BackendKind)
      → (shape.head_dim ≤ 128) ⊎ (128 < shape.seq_kv)
      → Prefers shape kind
      → Computes kind
  unfolding Computes backends
  preferred-Computes _ shallow (one_query few many) =
      let one : shape.seq_q ≡ 1 = omega (arith, a.seq_q) in
      let able =
        DecodeLaws.supports_accepts env cfg shape healthy.cuda one a.head_dim a.no_window in
      let (r, done) =
        DecodeLaws.forward_healthy env healthy q k v cfg shape pool a id inferred
          (known_of_narrow q id narrow).0 able small in
      (refl, able, (r, (Decode.forward env q k v cfg pool).1), with_pool-ok _ r done)
  preferred-Computes _ (inr long) (short_keys short) = absurd (omega arith)
  preferred-Computes _ (inl shallow) (short_keys short) =
      let able =
        TiledLaws.supports_accepts env cfg shape healthy.cuda a.head_dim shallow a.no_window
          (omega arith) in
      let (known, size) = known_of_narrow q id narrow in
      let (r, done) =
        TiledLaws.forward_healthy_narrow env healthy q k v cfg shape id inferred a known size
          able in
      (refl, able, (r, pool), with_pool-ok (Tiled.forward env q k v cfg, pool) r done)
  preferred-Computes _ shallow (long_keys long) =
      let able =
        FlashLaws.supports_accepts env cfg shape healthy.cuda a.head_dim a.no_window room in
      let (r, done) =
        FlashLaws.forward_healthy env healthy q k v cfg shape id inferred a narrow able in
      (refl, able, (r, pool), with_pool-ok (Flash.forward env q k v cfg, pool) r done)

  -- Where nothing fails on the machine and a block has 87040 bytes of shared memory, a call of tensors of
  -- two-byte elements that are accepted is computed, if no backend is named, the head dimension is at most
  -- 128 or there are more than 128 keys, and the partial results of 16 splits take fewer than 2^64 bytes.
  pub forward_total :
      cfg.backend ≡ auto
      → (shape.head_dim ≤ 128) ⊎ (128 < shape.seq_kv)
      → (out : Output) × (Dispatcher.forward (backends env pool) q k v cfg ≡ ok out)
  unfolding Computes
  forward_total free shallow =
      let bs = backends env pool in
      let kind = preferred_backend cfg shape in
      let (named, able, out, done) =
        preferred-Computes kind shallow (preferred_backend-Prefers cfg shape free) in
      let chosen = Selects-supported bs cfg shape _ able (select-Selects bs cfg shape a) in
      (out, forward-get_backend bs q k v cfg shape kind inferred chosen named able ∙ done)
