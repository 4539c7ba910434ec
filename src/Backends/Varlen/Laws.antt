-- ===== src/Backends/Varlen/Laws.antt =====
-- What a packed call of sequences of varying length launches.
use sci_compute_attention.Base.{
  ℕ, ℤ, to_ℕ, ◌⊎◌, zero, suc, ◌+◌, ◌-◌, ◌*◌, ◌≤◌, ◌<◌, ◌≡◌, inl, inr, refl, Bool, true, false, some,
  List, arith, ◌==◌, if◌then◌else◌, Bool-cases, ==→eq, ==→ne, subst,
}
use sci_compute_attention.Tensor.{Tensor, dim}
use sci_compute_attention.Status.{Status, ok, err, attn, bind-ok, shape_mismatch}
use sci_compute_attention.Config.{at_most, AttentionConfig}
use sci_compute_attention.Backends.{Env, FwdParams, AttentionResult}
use sci_compute_attention.Backends.Launchers.{launch_flash_fwd}
use sci_compute_attention.Backends.Varlen.{at, is_degenerate, token_bytes, launch_sequences}

-- What the loop over the sequences did: each has queries and keys, and its launch succeeded.
pub record Launched (env : Env) (params : ℕ → FwdParams) (cu_q cu_kv : List ℤ) (s : ℕ)
    : Type 0 where
  pub queries : at_most (at cu_q (suc s)) (at cu_q s) ≡ false
  pub keys : at_most (at cu_kv (suc s)) (at cu_kv s) ≡ false
  pub runs : launch_flash_fwd env (params s) ≡ ok tt

module _ (env : Env) (params : ℕ → FwdParams) (cu_q cu_kv : List ℤ) where
  pub launch_sequences-Launched :
      (n s : ℕ)
      → launch_sequences env params cu_q cu_kv n s ≡ ok tt
      → (i : ℕ) → s ≤ i
      → i < s + n
      → Launched env params cu_q cu_kv i
  unfolding launch_sequences
  launch_sequences-Launched zero s h i from to = absurd (omega arith)
  launch_sequences-Launched (suc n) s h i from to =
      let rest = launch_sequences env params cu_q cu_kv n (suc s) in
      let (sound, h1) = guard_rest (is_degenerate cu_q cu_kv s) _ h in
      let (u, first_runs, later_run) =
        bind-ok (launch_flash_fwd env (params s)) (λ _. rest) tt h1 in
      elim (Bool-cases (s == i)) [
        | inl e ↦ subst (Launched env params cu_q cu_kv) (==→eq s i e) (record {
          queries = ground (arith, sound);
          keys = ground (arith, sound);
          runs = first_runs;
        })
        | inr e ↦
            let other = ==→ne s i e in
            launch_sequences-Launched n (suc s) later_run i (omega arith) (omega arith)
      ]
    where
      guard_rest :
          (test : Bool) (next : Status)
          → (if test then err (attn shape_mismatch) else next) ≡ ok tt
          → (test ≡ false) × (next ≡ ok tt)
      guard_rest true next g = ground (arith, g)
      guard_rest false next g = (refl, g)

  -- The loop stops at the first sequence without queries or without keys; those before it have run.
  pub launch_sequences_stops :
      (n s i : ℕ)
      → s ≤ i
      → i < s + n
      → ((j : ℕ) → s ≤ j → j < i → Launched env params cu_q cu_kv j)
      → (at_most (at cu_q (suc i)) (at cu_q i) ≡ true)
        ⊎ (at_most (at cu_kv (suc i)) (at cu_kv i) ≡ true)
      → launch_sequences env params cu_q cu_kv n s ≡ err (attn shape_mismatch)
  unfolding launch_sequences
  launch_sequences_stops zero s i from to before bad = absurd (omega arith)
  launch_sequences_stops (suc n) s i from to before bad = elim (Bool-cases (s == i)) [
    | inl e ↦
        let same : i ≡ s = ground (arith, e) in
        let found : is_degenerate cu_q cu_kv i ≡ true = ground (arith, bad) in
        let here = subst (λ t. is_degenerate cu_q cu_kv t ≡ true) same found in rw here refl
    | inr e ↦
        let other = ==→ne s i e in
        let now = before s (omega arith) (omega arith) in
        let sound : is_degenerate cu_q cu_kv s ≡ false = ground (arith, now.queries, now.keys) in
        rw (sound, now.runs)
          (launch_sequences_stops n (suc s) i (omega arith) (omega arith)
            (λ j lo hi. before j (omega arith) hi) bad)
  ]

-- An offset as a number of tokens, where it is not negative.
abbrev pub start_of : List ℤ → ℕ → ℕ
start_of cu s = to_ℕ (at cu s)

-- What a packed call that succeeded says: every sequence was launched, with rows of Q and of the output that
-- begin where those of the sequences before it end.
pub record Packed (env : Env) (q k v : Tensor) (n : ℕ) (cu_q cu_kv : List ℤ) (cfg : AttentionConfig)
    (r : AttentionResult) : Type 0 where
  pub params : ℕ → FwdParams
  pub each : (s : ℕ) → s < n → Launched env params cu_q cu_kv s
  pub written :
      (s : ℕ)
      → s < n
      → (params s).out ≡ some (r.out.address + start_of cu_q s * token_bytes (dim q 1) q)
  pub rows : (s : ℕ) → s < n → (params s).seq_q ≡ start_of cu_q (suc s) - start_of cu_q s
  pub apart :
      (s t : ℕ)
      → s < t
      → t < n
      → start_of cu_q s * token_bytes (dim q 1) q + (params s).seq_q * token_bytes (dim q 1) q
        ≤ start_of cu_q t * token_bytes (dim q 1) q
  pub inside :
      (s : ℕ)
      → s < n
      → start_of cu_q s * token_bytes (dim q 1) q + (params s).seq_q * token_bytes (dim q 1) q
        ≤ dim q 0 * token_bytes (dim q 1) q
