-- ===== src/Backends/Varlen/Examples.antt =====
-- The theorems on packed calls at two sequences of two and three tokens, and at offsets that stand still.
use sci_compute_attention.Base.{
  ℕ, ℤ, inl, zero, suc, ◌≡◌, ◌≤◌, ◌<◌, refl, none, List, [], ◌∷◌, arith, true, pos,
}
use sci_compute_attention.Types.{float16}
use sci_compute_attention.Tensor.{Tensor, cuda}
use sci_compute_attention.Status.{err, attn, shape_mismatch}
use sci_compute_attention.Config.{find_flash_tile, finite}
use sci_compute_attention.Backends.{AttentionResult, FwdParams, fp16, launch_raw, ensure_smem_limit}
use sci_compute_attention.Backends.Launchers.{launch_flash_fwd, flash_layout_bytes}
use sci_compute_attention.Backends.Flash
use sci_compute_attention.Backends.Examples.{env, call}
use sci_compute_attention.Backends.Varlen.{launch_sequences, sequence_params}
use sci_compute_attention.Backends.Varlen.Laws.{Launched, launch_sequences_stops}

abbrev packed : Tensor
packed = record {
  dims = 5 ∷ 2 ∷ 32 ∷ [];
  dtype = float16;
  device_type = cuda;
  is_contiguous = true;
  bytes = [];
}

abbrev cu : List ℤ
cu = pos 0 ∷ pos 2 ∷ pos 5 ∷ []

abbrev result : AttentionResult
result =
    Flash.result_of (record { block_m = 64; block_n = 64; warps = 4; stages = 2; splits_d = 1 })
      (record { dims = 5 ∷ 2 ∷ 32 ∷ []; dtype = float16; address = 8192 }) none

-- The second sequence has no tokens.
abbrev still : List ℤ
still = pos 0 ∷ pos 2 ∷ pos 2 ∷ []

abbrev params : ℕ → FwdParams
params =
    sequence_params env packed packed packed (record { dims = []; dtype = float16; address = 8192 })
      still still call fp16 (finite true 1 (pos 0))

first_runs : Launched env params still still 0
unfolding sequence_params launch_flash_fwd find_flash_tile launch_raw ensure_smem_limit
    flash_layout_bytes
first_runs = record { queries = refl; keys = refl; runs = refl }

launch_sequences_stops_example :
    launch_sequences env params still still 2 0 ≡ err (attn shape_mismatch)
launch_sequences_stops_example =
    launch_sequences_stops env params still still 2 0 1 (omega arith) (omega arith) before
      (inl refl)
  where
    before : (j : ℕ) → 0 ≤ j → j < 1 → Launched env params still still j
    before zero lo hi = first_runs
    before (suc j) lo hi = absurd (omega arith)
