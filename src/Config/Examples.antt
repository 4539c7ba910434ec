-- ===== src/Config/Examples.antt =====
-- The theorems on configurations at concrete ones.
use sci_compute_attention.Base.{
  ℕ, suc, ◌<◌, ◌≤◌, ◌≡◌, ◌↔◌, refl, true, false, none, [], ◌∷◌, List, ℤ, pos, get_or,
}
use sci_compute_attention.Types.{AttentionShape, bhsd, auto}
use sci_compute_attention.Status.{ok}
use sci_compute_attention.Config.{
  AttentionConfig, finite, validate, at_most, gap, starts_at_zero, validate_varlen_host,
  varlen_from,
}
use sci_compute_attention.Config.Laws.{validate_varlen_host_lem}
use sci_compute_attention.Config.Accepted.{IsCall, validate_iff}

abbrev call : AttentionConfig
call = record {
  backend = auto;
  layout = bhsd;
  causal = false;
  return_lse = false;
  scale = finite false 1 (pos 0);
  softcap = finite false 0 (pos 0);
  sliding_window = pos 0;
  num_splits = pos 4;
  workspace_limit_bytes = 0;
  allow_fallback = false;
  cu_seqlens_q = none;
  cu_seqlens_kv = none;
}

abbrev shape : AttentionShape
shape = record {
  batch = 1;
  seq_q = 1;
  seq_kv = 300;
  num_heads = 8;
  num_kv_heads = 2;
  head_dim = 64;
}

validate_iff_example : (validate call shape ≡ ok tt) ↔ IsCall call shape
validate_iff_example = validate_iff call shape

abbrev offsets : List ℤ
offsets = pos 0 ∷ pos 3 ∷ pos 10 ∷ []

validate_varlen_host_lem_example :
    (0 < 2)
    × (starts_at_zero (get_or offsets 0 (pos 0)) ≡ true)
    × ((j : ℕ)
        → j < 2
        → (at_most (get_or offsets (suc j) (pos 0)) (get_or offsets j (pos 0)) ≡ false)
          × (gap (get_or offsets (suc j) (pos 0)) (get_or offsets j (pos 0)) ≤ 7))
unfolding validate_varlen_host varlen_from
validate_varlen_host_lem_example = validate_varlen_host_lem offsets 2 7 refl
