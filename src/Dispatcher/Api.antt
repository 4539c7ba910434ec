-- ===== src/Dispatcher/Api.antt =====
-- The entry point `decode` of src/api/attention_api.cpp: which backend computes its result.
use sci_compute_attention.Base.{◌≡◌, subst, false, refl}
use sci_compute_attention.Types.{BackendKind, decode, AttentionShape}
use sci_compute_attention.Tensor.{Tensor}
use sci_compute_attention.Status.{ok}
use sci_compute_attention.Config.{AttentionConfig}
use sci_compute_attention.Dispatcher.{
  Backends, get_backend, with_backend, attention, decode_attention, preferred_backend,
}
use sci_compute_attention.Dispatcher.Laws.{
  Selects, preferred, refused, replaced, exhausted, clash, select-Selects, forward-Runs,
}

-- Without fallback the preferred backend is the one that is selected.
Selects-preferred_backend :
    {Output : Type 0} (bs : Backends Output) (cfg : AttentionConfig) (shape : AttentionShape)
    (kind : BackendKind)
    → cfg.allow_fallback ≡ false
    → Selects bs cfg shape kind
    → kind ≡ preferred_backend cfg shape
Selects-preferred_backend bs cfg shape _ strict (preferred able) = refl
Selects-preferred_backend bs cfg shape _ strict (refused unable no_fallback) = refl
Selects-preferred_backend bs cfg shape kind strict (replaced _ unable lax among helps) =
    clash cfg.allow_fallback _ lax strict
Selects-preferred_backend bs cfg shape _ strict (exhausted unable lax nothing) = refl

-- What `decode` returns without fallback is what the decode backend computes, whatever backend the
-- configuration named.
pub decode_attention_lem :
    {Output : Type 0} (bs : Backends Output) (q k v : Tensor) (cfg : AttentionConfig) (out : Output)
    → cfg.allow_fallback ≡ false
    → decode_attention bs q k v cfg ≡ ok out
    → bs.decode_backend.forward q k v (with_backend decode cfg) ≡ ok out
unfolding decode_attention attention preferred_backend
decode_attention_lem bs q k v cfg out strict h =
    let asked = with_backend decode cfg in
    let r = forward-Runs bs q k v asked out h in
    let chosen =
      Selects-preferred_backend bs asked r.shape _ strict
        (select-Selects bs asked r.shape r.accepted) in
    subst (λ kind. (get_backend bs kind).forward q k v asked ≡ ok out) chosen r.result
