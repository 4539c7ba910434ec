-- ===== src/Backends/Paged/Laws.antt =====
-- What paged attention asks of a call, and which rows its kernels read.
use sci_compute_attention.Base.{
  ℕ, pos, [], ◌∷◌, refl, ◌+◌, ◌^◌, ◌*◌, ◌/◌, ◌%◌, ◌≤◌, ◌<◌, ◌≡◌, sym, ap, inl, inr, false, not,
  ◌||◌, Option, none, some, List, ℤ, arith, is_neg, to_ℕ, ltb, leb, ◌==◌, if◌then◌else◌,
  Option-cases,
}
use sci_compute_attention.Types.{supported_head_dim_index}
use sci_compute_attention.Tensor.{Tensor, ndims, dim}
use sci_compute_attention.Status.{
  Result, Status, ok, err, attn, bind-ok, ok_inj, shape_mismatch, unsupported_feature,
  unsupported_dtype, unsupported_head_dim,
}
use sci_compute_attention.Config.{AttentionConfig}
use sci_compute_attention.ScratchPool.{ScratchPool, decode_partials, key_of, acquire_scratch_fp32}
use sci_compute_attention.ScratchPool.Laws.{acquired-fits}
use sci_compute_attention.Rows.{row_of}
use sci_compute_attention.KvCache.{mul64, compute_slot_mapping}
use sci_compute_attention.KvCache.Slots.{slot_of}
use sci_compute_attention.PagedCache.{PagedKvCache, owned, seq_len, force_sync_page_table}
use sci_compute_attention.PagedCache.Invariant.{IsValid}
use sci_compute_attention.PagedCache.Slots.{
  stored_slot_lem, device_table, force_sync_page_table-lookup,
}
use sci_compute_attention.Backends.{Env, DtypeId, dtype_id_for, Buffer, AttentionResult, new_output}
use sci_compute_attention.Backends.Laws.{output_buffer, new_output-ok, staged-ok, with_scratch-ok}
use sci_compute_attention.Backends.Decode.{native_seq_q, max_splits, partial_bytes, resolve_splits}
use sci_compute_attention.Backends.Decode.Laws.{resolve_splits_bounds}
use sci_compute_attention.Backends.Decode.Partitions.{
  Partitions, most_partial_bytes, no_wrap, partial_bytes_lem,
}
use sci_compute_attention.Backends.Decode.Kernel.{kv_row}
use sci_compute_attention.Backends.Paged.{
  PagedAttentionParams, cache_params, or_else, positive_or, prepare, paged_shape, paged_params,
  launch_paged_attention, compute, run_paged,
}

-- What the checks of a call leave.
pub record IsPrepared (q : Tensor) (kv : PagedKvCache) (params : PagedAttentionParams)
    (id : DtypeId) (table : List ℤ) : Type 0 where
  pub rank : ndims q ≡ 4
  pub one_query : dim q 2 ≡ native_seq_q
  pub some_seqs : 0 < dim q 0
  pub seqs : dim q 0 ≤ kv.cfg.max_num_seqs
  pub layer : is_neg params.layer ≡ false
  pub layer_below : to_ℕ params.layer < kv.storage.cfg.num_layers
  pub known : dtype_id_for q.dtype ≡ some id
  pub head_dim : is_neg (supported_head_dim_index (dim q 3)) ≡ false
  pub has_table : or_else params.page_table kv.page_table_device ≡ some table

module _ (q : Tensor) (kv : PagedKvCache) (params : PagedAttentionParams) where
  abbrev rank_guard : Status
  rank_guard = if not (ndims q == 4) then err (attn shape_mismatch) else ok tt

  abbrev query_guard : Status
  query_guard = if not (dim q 2 == native_seq_q) then err (attn unsupported_feature) else ok tt

  abbrev seqs_guard : Status
  seqs_guard =
      if dim q 0 == 0 || ltb kv.cfg.max_num_seqs (dim q 0) then err (attn shape_mismatch) else ok tt

  abbrev layer_guard : Status
  layer_guard =
      if is_neg params.layer || leb kv.storage.cfg.num_layers (to_ℕ params.layer)
      then err (attn shape_mismatch)
      else ok tt

  abbrev dtype_check : Result DtypeId
  dtype_check = elim (dtype_id_for q.dtype) [ none ↦ err (attn unsupported_dtype) | some i ↦ ok i ]

  abbrev dim_guard : Status
  dim_guard =
      if not (dim q 3 % 32 == 0) || is_neg (supported_head_dim_index (dim q 3))
      then err (attn unsupported_head_dim)
      else ok tt

  prepare-IsPrepared :
      (id : DtypeId) (table : List ℤ)
      → prepare q kv params ≡ ok (id, table)
      → IsPrepared q kv params id table
  unfolding prepare
  prepare-IsPrepared id table h =
      let (u1, rank, h1) = bind-ok rank_guard _ (id, table) h in
      let (u2, one, h2) = bind-ok query_guard _ (id, table) h1 in
      let (u3, seqs, h3) = bind-ok seqs_guard _ (id, table) h2 in
      let (u4, layer, h4) = bind-ok layer_guard _ (id, table) h3 in
      let (i, typed, h5) = bind-ok dtype_check _ (id, table) h4 in
      let (u6, head_dim, h6) = bind-ok dim_guard _ (id, table) h5 in
      let found : (or_else params.page_table kv.page_table_device ≡ some table) × (i ≡ id) =
        elim (Option-cases (or_else params.page_table kv.page_table_device)) [
          | inl t ↦ absurd (ground (arith, t, h6))
          | inr (other, t) ↦ (ground (arith, t, h6), ground (arith, t, h6))
        ] in
      record {
        rank = ground (arith, rank);
        one_query = ground (arith, one);
        some_seqs = ground (arith, seqs);
        seqs = ground (arith, seqs);
        layer = ground (arith, layer);
        layer_below = ground (arith, layer);
        known = ground (arith, typed, found.1);
        head_dim = ground (arith, head_dim);
        has_table = found.0;
      }

paged_params-Partitions :
    (env : Env) (k_layer v_layer : Option ℕ) (q : Tensor) (kv : PagedKvCache)
    (params : PagedAttentionParams) (cfg : AttentionConfig) (id : DtypeId) (table : List ℤ)
    (splits elements : ℕ) (out : Buffer)
    → 1 ≤ splits
    → splits ≤ max_splits
    → most_partial_bytes (dim q 0) (dim q 1) (dim q 3) < 2 ^ 64
    → partial_bytes (paged_shape q kv params) splits / 4 ≤ elements
    → Partitions
        (paged_params env k_layer v_layer q kv params cfg id table splits out)
        env.scratch_address
        elements
unfolding paged_params paged_shape
paged_params-Partitions env k_layer v_layer q kv params cfg id table splits elements out lo hi small
      room =
    let (base, all) = no_wrap (dim q 0) (dim q 1) splits (dim q 3) lo hi small in
    let bytes = partial_bytes_lem (paged_shape q kv params) splits lo hi small in
    let pointer =
      λ (n : ℕ). env.scratch_address + 4 * (n * mul64 (mul64 (dim q 0) (dim q 1)) splits) in
    record {
      l = env.scratch_address + 4 * mul64 (mul64 (dim q 0) (dim q 1)) splits;
      o = pointer 2;
      maxima = refl;
      sums = refl;
      outputs = refl;
      end_of_maxima = omega (arith, base);
      end_of_sums = omega (arith, base);
      end_of_outputs = grind (arith, base, bytes, room);
    }

-- What a result of paged attention says of the call.
pub record Runs (env : Env) (k_layer v_layer : Option ℕ) (q : Tensor) (kv : PagedKvCache)
    (params : PagedAttentionParams) (cfg : AttentionConfig) (pool' : ScratchPool)
    (r : AttentionResult) : Type 0 where
  pub id : DtypeId
  pub table : List ℤ
  pub prepared : IsPrepared q kv params id table
  pub splits : ℕ
  pub at_least_one : 1 ≤ splits
  pub at_most_max : splits ≤ max_splits
  pub regions :
      Partitions
        (paged_params env k_layer v_layer q kv params cfg id table splits r.out)
        env.scratch_address
        (pool'.entry (key_of env.device_id decode_partials)).elements
  pub result : r.out ≡ output_buffer (paged_shape q kv params) q.dtype r.out.address
  pub splits_told : r.stats.num_splits ≡ splits
  pub launched :
      launch_paged_attention env
        (paged_params env k_layer v_layer q kv params cfg id table splits r.out)
      ≡ ok tt

module _ (env : Env) (k_layer v_layer : Option ℕ) (q : Tensor) (kv : PagedKvCache)
    (params : PagedAttentionParams) (cfg : AttentionConfig) where
  compute-ok :
      (id : DtypeId) (table : List ℤ) (splits : ℕ) (r : AttentionResult)
      → compute env k_layer v_layer q kv params cfg id table splits ≡ ok r
      → (r.out ≡ output_buffer (paged_shape q kv params) q.dtype r.out.address)
        × (r.stats.num_splits ≡ splits)
        × (launch_paged_attention env
              (paged_params env k_layer v_layer q kv params cfg id table splits r.out)
            ≡ ok tt)
  unfolding compute
  compute-ok id table splits r h =
      let shape = paged_shape q kv params in
      let (out, made, h1) = bind-ok (new_output env shape q.dtype) _ r h in
      let (u, launched, h2) =
        bind-ok
          (launch_paged_attention env
            (paged_params env k_layer v_layer q kv params cfg id table splits out))
          _ r h1 in
      let same = ok_inj _ r h2 in
      (
        rw (← ap (λ x. x.out) same) (new_output-ok env shape q.dtype out made),
        sym (ap (λ x. x.stats.num_splits) same),
        rw (← ap (λ x. x.out) same) launched,
      )

  -- A result of paged attention comes from one query for each of at most the sequences of the cache, on a
  -- layer that exists, with 1 to 16 splits, and from launches that succeeded. The maxima, sums and outputs of
  -- the splits, at the pointers that the kernels get, do not overlap and lie in the scratch buffer that the
  -- pool holds, if those of 16 splits take fewer than 2^64 bytes.
  pub run_paged-Runs :
      (pool pool' : ScratchPool) (r : AttentionResult)
      → most_partial_bytes (dim q 0) (dim q 1) (dim q 3) < 2 ^ 64
      → run_paged env k_layer v_layer q kv params cfg pool ≡ (ok r, pool')
      → Runs env k_layer v_layer q kv params cfg pool' r
  unfolding run_paged paged_shape
  run_paged-Runs pool pool' r small h =
      let (p, done, h1) = staged-ok (prepare q kv params) pool _ r pool' h in
      let shape = paged_shape q kv params in
      let splits = resolve_splits cfg shape.seq_kv env.capability in
      let (acquired, finished) =
        with_scratch-ok
          (acquire_scratch_fp32 env.scratch_ok decode_partials (partial_bytes shape splits / 4)
            env.device_id pool)
          (compute env k_layer v_layer q kv params cfg p.0 p.1 splits) r pool' h1 in
      let (result, told, launched) = compute-ok p.0 p.1 splits r finished in
      let bounds = resolve_splits_bounds cfg shape.seq_kv env.capability in
      let room =
        acquired-fits env.scratch_ok decode_partials (partial_bytes shape splits / 4) env.device_id
          pool pool' acquired in
      record {
        id = p.0;
        table = p.1;
        prepared = prepare-IsPrepared q kv params p.0 p.1 done;
        splits = splits;
        at_least_one = bounds.0;
        at_most_max = bounds.1;
        regions =
            paged_params-Partitions env k_layer v_layer q kv params cfg p.0 p.1 splits _ r.out
              bounds.0 bounds.1 small room;
        result = result;
        splits_told = told;
        launched = launched;
      }

positive_or_self : (a : ℕ) → positive_or a a ≡ a
positive_or_self a = ground arith

-- The call without parameters, on a valid cache whose table was just synchronised, whose sequences lie within
-- the cache and whose slots fit a 32-bit integer, reads for every position below the length of a sequence the
-- row that `ComputeSlotMapping` gives `AppendTokens` for that position.
pub paged_params-kv_row :
    (env : Env) (k_layer v_layer : Option ℕ) (q : Tensor) (cfg : AttentionConfig) (id : DtypeId)
    (splits : ℕ) (out : Buffer) (c : PagedKvCache) (s t : ℕ) (old : List ℤ)
    → IsValid c
    → c.cfg.num_blocks * c.cfg.block_size ≤ 2 ^ 31
    → c.page_table_device ≡ some old
    → s < c.cfg.max_num_seqs
    → t < seq_len c s
    → (row : ℕ) × (compute_slot_mapping
          (some (row_of c.page_table_host (s * c.max_blocks_per_seq) c.max_blocks_per_seq))
          t
          1
          c.cfg.block_size
          c.max_blocks_per_seq
        ≡ ok (pos row ∷ []))
      × (kv_row
            (paged_params env k_layer v_layer q
              (force_sync_page_table c).1
              (cache_params (force_sync_page_table c).1)
              cfg
              id
              (device_table (force_sync_page_table c).1)
              splits
              out)
            s
            t
          ≡ some row)
unfolding kv_row paged_params force_sync_page_table
paged_params-kv_row env k_layer v_layer q cfg id splits out c s t old v small has hs ht =
    let same_blocks = ap (λ k. k.num_blocks) v.core.same_cfg in
    let found = force_sync_page_table-lookup c s t old v has hs ht in
    (
      slot_of (owned c s) c.cfg.block_size t,
      stored_slot_lem c s t v small hs ht,
      ground (
        arith,
        found,
        has,
        same_blocks,
        positive_or_self c.cfg.block_size,
        positive_or_self c.max_blocks_per_seq,
      ),
    )
