-- ===== src/Backends/Paged/Examples.antt =====
-- The theorems on paged attention at the cache of two blocks of one token.
use sci_compute_attention.Base.{
  ℕ, ◌*◌, pos, arith, ◌≡◌, refl, ap₂, none, some, [], ◌∷◌, minus_one, true,
}
use sci_compute_attention.KvCache.Storage.{memory_bytes}
use sci_compute_attention.Config.{no_tile, effective_scale}
use sci_compute_attention.Types.{paged, float16, supported_head_dim_index}
use sci_compute_attention.Tensor.{Tensor, cuda}
use sci_compute_attention.Status.{Result, ok}
use sci_compute_attention.ScratchPool.{ScratchPool, acquire_scratch_fp32}
use sci_compute_attention.PagedCache.{force_sync_page_table}
use sci_compute_attention.PagedCache.Slots.{device_table}
use sci_compute_attention.Rows.{row_of}
use sci_compute_attention.KvCache.{compute_slot_mapping}
use sci_compute_attention.PagedCache.Examples.{
  empty, after, after-IsValid, after_device, after_seqs, after_len, after_small,
}
use sci_compute_attention.Backends.{
  AttentionResult, fp16, new_output, launch_raw, ensure_smem_limit,
}
use sci_compute_attention.Backends.Examples.{env, call, pool}
use sci_compute_attention.Backends.Launchers.{launch_decode_split_k_paged, is_instantiated}
use sci_compute_attention.Backends.Decode.{resolve_splits, partial_bytes}
use sci_compute_attention.Backends.Decode.Kernel.{kv_row}
use sci_compute_attention.Backends.Paged.{
  cache_params, default_params, prepare, paged_shape, paged_params, compute, run_paged,
  launch_paged_attention,
}
use sci_compute_attention.Backends.Paged.Laws.{Runs, run_paged-Runs, paged_params-kv_row}

abbrev query : Tensor
query = record {
  dims = 1 ∷ 2 ∷ 1 ∷ 32 ∷ [];
  dtype = float16;
  device_type = cuda;
  is_contiguous = true;
  bytes = [];
}

paged_params-kv_row_example :
    (row : ℕ) × (compute_slot_mapping
        (some
          (row_of after.page_table_host (1 * after.max_blocks_per_seq) after.max_blocks_per_seq))
        0
        1
        after.cfg.block_size
        after.max_blocks_per_seq
      ≡ ok (pos row ∷ []))
    × (kv_row
          (paged_params env
            (some 0)
            (some 0)
            query
            (force_sync_page_table after).1
            (cache_params (force_sync_page_table after).1)
            call
            fp16
            (device_table (force_sync_page_table after).1)
            1
            (record { dims = []; dtype = float16; address = 8192 }))
          1
          0
        ≡ some row)
paged_params-kv_row_example =
    paged_params-kv_row env (some 0) (some 0) query call fp16 1
      (record { dims = []; dtype = float16; address = 8192 }) after 1 0
      (minus_one ∷ minus_one ∷ minus_one ∷ minus_one ∷ []) after-IsValid after_small after_device
      after_seqs after_len

abbrev run : Result AttentionResult × ScratchPool
run = run_paged env (some 0) (some 0) query empty (cache_params empty) call pool

abbrev result : AttentionResult
result = record {
  out = record { dims = 1 ∷ 2 ∷ 1 ∷ 32 ∷ []; dtype = float16; address = 8192 };
  lse = none;
  stats = record {
    used_backend = paged;
    tile = no_tile;
    workspace_bytes = 272;
    kv_bytes = memory_bytes empty.storage;
    num_splits = 1;
    materialized_score_bytes = 0;
  };
}

run_computed : run.0 ≡ ok result
unfolding run_paged prepare paged_shape compute new_output launch_paged_attention
    launch_decode_split_k_paged launch_raw ensure_smem_limit resolve_splits partial_bytes
    acquire_scratch_fp32 supported_head_dim_index paged_params effective_scale is_instantiated
run_computed = refl

run_paged-Runs_example :
    Runs env (some 0) (some 0) query empty (cache_params empty) call run.1 result
run_paged-Runs_example =
    run_paged-Runs env (some 0) (some 0) query empty (cache_params empty) call pool run.1 result
      (omega arith) (ap₂ (λ a b. (a, b)) run_computed refl)

-- The entry point of the API takes the page size of the parameters, which is 16 before they are filled in,
-- for that of the cache, which is 1 here: the second token of sequence 1 is looked for in its first page.
api_page_size :
    (paged_params env
      (some 0)
      (some 0)
      query
      empty
      default_params
      call
      fp16
      []
      1
      result.out).block_size
    ≡ 16
unfolding paged_params
api_page_size = refl
