-- ===== src/Config/Laws.antt =====
-- What `Validate` and `ValidateVarlenHost` accept.
use sci_compute_attention.Base.{
  ℕ, zero, suc, ◌+◌, ◌%◌, ◌≤◌, ◌<◌, ◌≡◌, ◌↔◌, inl, inr, refl, max, Bool, true, false, not, ◌&&◌,
  some, List, arith, ℤ, pos, is_neg, ltb, ◌==◌, if◌then◌else◌, get_or, Bool-cases, subst, ==→eq,
  ==→ne,
}
use sci_compute_attention.Types.{AttentionShape, supported_head_dim_index}
use sci_compute_attention.Status.{
  Result, Status, Error, ok, err, attn, ok_inj, shape_mismatch, unsupported_head_dim,
  unsupported_layout, unsupported_feature,
}
use sci_compute_attention.Config.{
  AttentionConfig, validate, layout_supported, is_reference_only_backend, is_positive, is_negative,
  above_zero, is_null, at_most, gap, varlen_from, starts_at_zero, validate_varlen_host,
}

-- The tests of `Validate`, passed.
pub record IsAccepted (cfg : AttentionConfig) (shape : AttentionShape) : Type 0 where
  pub batch : 0 < shape.batch
  pub seq_q : 0 < shape.seq_q
  pub seq_kv : 0 < shape.seq_kv
  pub kv_heads : 0 < shape.num_kv_heads
  pub heads : shape.num_kv_heads ≤ shape.num_heads
  pub groups : shape.num_heads % shape.num_kv_heads ≡ 0
  pub head_dim : is_neg (supported_head_dim_index shape.head_dim) ≡ false
  pub causal : cfg.causal ≡ true → shape.seq_q ≤ shape.seq_kv
  pub no_window : above_zero cfg.sliding_window ≡ false
  pub softcap : is_negative cfg.softcap ≡ false
  pub capped : is_positive cfg.softcap ≡ true → is_reference_only_backend cfg.backend ≡ false
  pub scale : is_negative cfg.scale ≡ false
  pub splits : is_neg cfg.num_splits ≡ false
  pub seqlens : is_null cfg.cu_seqlens_q ≡ false → is_null cfg.cu_seqlens_kv ≡ false

layout_supported_lem : (cfg : AttentionConfig) → layout_supported cfg.layout ≡ true
unfolding layout_supported
layout_supported_lem cfg = ground arith

guard_ok :
    (test : Bool) (e : Error) (rest : Result ℕ) (m : ℕ)
    → (if test then err e else rest) ≡ ok m
    → (test ≡ false) × (rest ≡ ok m)
guard_ok true e rest m h = ground arith
guard_ok false e rest m h = (refl, h)

guard_passed :
    (test : Bool) (e : Error) (rest : Status)
    → (if test then err e else rest) ≡ ok tt
    → (test ≡ false) × (rest ≡ ok tt)
guard_passed true e rest h = ground arith
guard_passed false e rest h = (refl, h)

validate_sound :
    (cfg : AttentionConfig) (shape : AttentionShape)
    → validate cfg shape ≡ ok tt
    → IsAccepted cfg shape
unfolding validate
validate_sound cfg shape h =
    let (g1, h1) = guard_passed (not (layout_supported cfg.layout)) (attn unsupported_layout) _ h in
    let (g2, h2) = guard_passed (ltb shape.batch 1) (attn shape_mismatch) _ h1 in
    let (g3, h3) = guard_passed (ltb shape.seq_q 1) (attn shape_mismatch) _ h2 in
    let (g4, h4) = guard_passed (ltb shape.seq_kv 1) (attn shape_mismatch) _ h3 in
    let (g5, h5) = guard_passed (ltb shape.num_heads 1) (attn shape_mismatch) _ h4 in
    let (g6, h6) = guard_passed (ltb shape.num_kv_heads 1) (attn shape_mismatch) _ h5 in
    let (g7, h7) =
      guard_passed (is_neg (supported_head_dim_index shape.head_dim)) (attn unsupported_head_dim) _
        h6 in
    let (g8, h8) =
      guard_passed (not (shape.num_heads % shape.num_kv_heads == 0)) (attn shape_mismatch) _ h7 in
    let (g9, h9) =
      guard_passed (cfg.causal && ltb shape.seq_kv shape.seq_q) (attn shape_mismatch) _ h8 in
    let (g10, h10) =
      guard_passed (ltb shape.num_heads shape.num_kv_heads) (attn shape_mismatch) _ h9 in
    let (g11, h11) =
      guard_passed (above_zero cfg.sliding_window) (attn unsupported_feature) _ h10 in
    let (g12, h12) = guard_passed (is_negative cfg.softcap) (attn shape_mismatch) _ h11 in
    let (g13, h13) =
      guard_passed (is_positive cfg.softcap && is_reference_only_backend cfg.backend)
        (attn unsupported_feature) _ h12 in
    let (g14, h14) = guard_passed (is_negative cfg.scale) (attn shape_mismatch) _ h13 in
    let (g15, h15) = guard_passed (is_neg cfg.num_splits) (attn shape_mismatch) _ h14 in
    let (g16, h16) =
      guard_passed (not (is_null cfg.cu_seqlens_q) && is_null cfg.cu_seqlens_kv)
        (attn shape_mismatch) _ h15 in
    record {
      batch = ground (arith, g2);
      seq_q = ground (arith, g3);
      seq_kv = ground (arith, g4);
      kv_heads = ground (arith, g6);
      heads = ground (arith, g10);
      groups = ground (arith, g8);
      head_dim = g7;
      causal = λ c. ground (arith, c, g9);
      no_window = g11;
      softcap = g12;
      capped = λ c. ground (arith, c, g13);
      scale = g14;
      splits = g15;
      seqlens = λ c. ground (arith, c, g16);
    }

validate_complete :
    (cfg : AttentionConfig) (shape : AttentionShape)
    → IsAccepted cfg shape
    → validate cfg shape ≡ ok tt
unfolding validate
validate_complete cfg shape a =
    let p1 : (not (layout_supported cfg.layout)) ≡ false =
      ground (arith, layout_supported_lem cfg) in
    let p2 : (ltb shape.batch 1) ≡ false = ground (arith, a.batch) in
    let p3 : (ltb shape.seq_q 1) ≡ false = ground (arith, a.seq_q) in
    let p4 : (ltb shape.seq_kv 1) ≡ false = ground (arith, a.seq_kv) in
    let p5 : (ltb shape.num_heads 1) ≡ false = ground (arith, a.heads, a.kv_heads) in
    let p6 : (ltb shape.num_kv_heads 1) ≡ false = ground (arith, a.kv_heads) in
    let p7 : (is_neg (supported_head_dim_index shape.head_dim)) ≡ false = a.head_dim in
    let p8 : (not (shape.num_heads % shape.num_kv_heads == 0)) ≡ false = ground (arith, a.groups) in
    let p9 : (cfg.causal && ltb shape.seq_kv shape.seq_q) ≡ false = ground (arith, a.causal) in
    let p10 : (ltb shape.num_heads shape.num_kv_heads) ≡ false = ground (arith, a.heads) in
    let p11 : (above_zero cfg.sliding_window) ≡ false = a.no_window in
    let p12 : (is_negative cfg.softcap) ≡ false = a.softcap in
    let p13 : (is_positive cfg.softcap && is_reference_only_backend cfg.backend) ≡ false =
      ground (arith, a.capped) in
    let p14 : (is_negative cfg.scale) ≡ false = a.scale in
    let p15 : (is_neg cfg.num_splits) ≡ false = a.splits in
    let p16 : (not (is_null cfg.cu_seqlens_q) && is_null cfg.cu_seqlens_kv) ≡ false =
      ground (arith, a.seqlens) in
    rw (p1, p2, p3, p4, p5, p6, p7, p8, p9, p10, p11, p12, p13, p14, p15, p16) refl

pub validate-IsAccepted :
    (cfg : AttentionConfig) (shape : AttentionShape)
    → (validate cfg shape ≡ ok tt) ↔ IsAccepted cfg shape
validate-IsAccepted cfg shape = (validate_sound cfg shape, validate_complete cfg shape)

varlen_from_bounds :
    (cu : List ℤ) (i n acc m : ℕ)
    → varlen_from cu i n acc ≡ ok m
    → (acc ≤ m)
      × ((j : ℕ)
          → i ≤ j
          → j < i + n
          → (at_most (get_or cu (suc j) (pos 0)) (get_or cu j (pos 0)) ≡ false)
            × (gap (get_or cu (suc j) (pos 0)) (get_or cu j (pos 0)) ≤ m))
unfolding varlen_from
varlen_from_bounds cu i zero acc m h =
    let e = ok_inj acc m h in (omega arith, λ j lo hi. absurd (omega arith))
varlen_from_bounds cu i (suc n) acc m h =
    let hi = get_or cu (suc i) (pos 0) in
    let lo = get_or cu i (pos 0) in
    let (grows, passed) =
      guard_ok (at_most hi lo) (attn shape_mismatch)
        (varlen_from cu (suc i) n (max acc (gap hi lo))) m h in
    let (most, later) = varlen_from_bounds cu (suc i) n (max acc (gap hi lo)) m passed in
    (
      ground (arith, most),
      λ j from to. elim (Bool-cases (i == j)) [
        | inl e ↦
            subst
              (λ k.
                (at_most (get_or cu (suc k) (pos 0)) (get_or cu k (pos 0)) ≡ false)
                × (gap (get_or cu (suc k) (pos 0)) (get_or cu k (pos 0)) ≤ m))
              (==→eq i j e) (grows, ground (arith, most))
        | inr ne ↦ let d = ==→ne i j ne in later j (omega arith) (omega arith)
      ],
    )

-- Where `ValidateVarlenHost` succeeds, the offsets start at 0 and grow strictly over the whole batch,
-- and no sequence is longer than the maximum that it stores.
pub validate_varlen_host_lem :
    (cu : List ℤ) (batch m : ℕ)
    → validate_varlen_host (some cu) batch ≡ ok m
    → (0 < batch)
      × (starts_at_zero (get_or cu 0 (pos 0)) ≡ true)
      × ((j : ℕ)
          → j < batch
          → (at_most (get_or cu (suc j) (pos 0)) (get_or cu j (pos 0)) ≡ false)
            × (gap (get_or cu (suc j) (pos 0)) (get_or cu j (pos 0)) ≤ m))
unfolding validate_varlen_host
validate_varlen_host_lem cu batch m h =
    let (some_batch, h1) = guard_ok (ltb batch 1) (attn shape_mismatch) _ m h in
    let (zero_first, h2) =
      guard_ok (not (starts_at_zero (get_or cu 0 (pos 0)))) (attn shape_mismatch)
        (varlen_from cu 0 batch 0) m h1 in
    let bounds = varlen_from_bounds cu 0 batch 0 m h2 in
    (ground arith, ground arith, λ j hj. bounds.1 j (omega arith) (omega arith))
