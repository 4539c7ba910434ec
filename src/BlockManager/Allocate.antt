-- ===== src/BlockManager/Allocate.antt =====
-- `BlockManager::Allocate`: what it takes, what it leaves alone, and when it refuses.
use sci_compute_attention.Base.{
  ℕ, zero, suc, ◌+◌, ◌≤◌, ◌<◌, ◌≡◌, refl, ap, ◌⊎◌, inl, inr, Bool, true, false, some, List, [], ◌∷◌,
  ◌++◌, arith, ltb, ◌==◌, if◌then◌else◌, length, get_elem?, set, count, length-set, get_elem?-set,
  count-append, Bool-cases, ltb→lt, ltb→ge, ==→eq, ==→ne,
}
use sci_compute_attention.Status.{Result, ok, err, attn, shape_mismatch, kv_capacity_exceeded}
use sci_compute_attention.BlockManager.{BlockManager, take_blocks, allocate}
use sci_compute_attention.BlockManager.Invariant.{
  IsValid, FreeListMatches, free_weight, num_marked, num_marked-set-true, top_of_free,
  FreeListMatches-pop,
}

take_blocks-append :
    (n : ℕ) (fs : List ℕ) (us : List Bool)
    → n ≤ length fs
    → let (bs, fs', us') = take_blocks n fs us in (bs ++ fs' ≡ fs) × (length bs ≡ n)
unfolding take_blocks
take_blocks-append zero fs us h = (refl, refl)
take_blocks-append (suc n) [] us h = absurd (omega arith)
take_blocks-append (suc n) (b ∷ fs) us h =
    let ih = take_blocks-append n fs (set us b true) (omega arith) in (ap (◌∷◌ b) ih.0, ap suc ih.1)

take_blocks-FreeListMatches :
    (n : ℕ) (fs : List ℕ) (us : List Bool)
    → FreeListMatches fs us
    → let (bs, fs', us') = take_blocks n fs us in FreeListMatches fs' us'
unfolding take_blocks
take_blocks-FreeListMatches zero fs us h = h
take_blocks-FreeListMatches (suc n) [] us h = h
take_blocks-FreeListMatches (suc n) (b ∷ fs) us h =
    take_blocks-FreeListMatches n fs (set us b true) (FreeListMatches-pop b fs us h)

take_blocks_counts :
    (n : ℕ) (fs : List ℕ) (us : List Bool)
    → FreeListMatches fs us
    → let (bs, fs', us') = take_blocks n fs us in
      (length us' ≡ length us) × (length fs' + num_marked us' ≡ length fs + num_marked us)
unfolding take_blocks
take_blocks_counts zero fs us h = (refl, refl)
take_blocks_counts (suc n) [] us h = (refl, refl)
take_blocks_counts (suc n) (b ∷ fs) us h = omega (
  arith,
  take_blocks_counts n fs (set us b true) (FreeListMatches-pop b fs us h),
  length-set us b true,
  num_marked-set-true us b (top_of_free b fs us h),
)

-- The marks afterwards: those of the blocks taken are set, all others are as before.
take_blocks_marks :
    (n : ℕ) (fs : List ℕ) (us : List Bool) (c : ℕ)
    → FreeListMatches fs us
    → let (bs, fs', us') = take_blocks n fs us in
      get_elem? us' c ≡ (if ltb 0 (count c bs) then some true else get_elem? us c)
unfolding take_blocks
take_blocks_marks zero fs us c h = refl
take_blocks_marks (suc n) [] us c h = refl
take_blocks_marks (suc n) (b ∷ fs) us c h = ground (
  arith,
  take_blocks_marks n fs (set us b true) c (FreeListMatches-pop b fs us h),
  get_elem?-set us b c false true (top_of_free b fs us h),
)

-- What a successful call promises of the blocks `bs` and the new state.
pub record Allocated (n : ℕ) (m : BlockManager) (bs : List ℕ) (m' : BlockManager) : Type 0 where
  pub enough : length bs ≡ n
  pub from_top : bs ++ m'.free_list ≡ m.free_list
  pub exclusive : (b : ℕ) → count b bs ≤ free_weight (get_elem? m.in_use b)
  pub marked :
      (b : ℕ)
      → get_elem? m'.in_use b ≡ (if ltb 0 (count b bs) then some true else get_elem? m.in_use b)
  pub same_table : m'.table ≡ m.table
  pub same_total : m'.num_blocks ≡ m.num_blocks
  pub same_events : m'.double_free_events ≡ m.double_free_events
  pub valid : IsValid m'

abbrev pub Allocates : ℕ → BlockManager → Result (List ℕ) × BlockManager → Type 0
Allocates n m (ok bs, m') = (0 < n) × (n ≤ length m.free_list) × Allocated n m bs m'
Allocates n m (err e, m') =
    ((n ≡ 0) × (e ≡ attn shape_mismatch) × (m' ≡ m))
    ⊎ ((length m.free_list < n)
        × (e ≡ attn kv_capacity_exceeded)
        × (m' ≡ record m { allocation_failures = m.allocation_failures + 1 }))

take_blocks-Allocated :
    (n : ℕ) (m : BlockManager)
    → IsValid m
    → n ≤ length m.free_list
    → let (bs, fs, us) = take_blocks n m.free_list m.in_use in
      Allocated n m bs (record m { free_list = fs; in_use = us })
take_blocks-Allocated n m v h =
    let t = take_blocks n m.free_list m.in_use in
    let split = take_blocks-append n m.free_list m.in_use h in
    let counts = take_blocks_counts n m.free_list m.in_use v.matches in
    let all = v.all_counted in
    let sized = v.sized in
    record {
      enough = split.1;
      from_top = split.0;
      exclusive = λ b. omega (arith, v.matches b, count-append b t.0 t.1, ap (count b) split.0);
      marked = λ b. take_blocks_marks n m.free_list m.in_use b v.matches;
      same_table = refl;
      same_total = refl;
      same_events = refl;
      valid = record {
        sized = omega arith;
        matches = take_blocks-FreeListMatches n m.free_list m.in_use v.matches;
        all_counted = omega arith;
      };
    }

-- `Allocate` on a valid manager: with a positive count of at most the free blocks it returns that
-- many blocks off the top of the free list, each free before and handed out once, marks exactly
-- these, and leaves a valid manager; with more it fails with kv_capacity_exceeded and only the
-- failure counter moves; with zero it fails with shape_mismatch and nothing moves.
pub allocate-Allocates : (n : ℕ) (m : BlockManager) → IsValid m → Allocates n m (allocate n m)
unfolding allocate
allocate-Allocates n m v = elim (Bool-cases (n == 0)) [
  | inl z ↦ rw z (inl (==→eq n 0 z, refl, refl))
  | inr p ↦ elim (Bool-cases (ltb (length m.free_list) n)) [
    | inl short ↦ rw (p, short) (inr (ltb→lt _ n short, refl, refl))
    | inr fits ↦
        let h : n ≤ length m.free_list = ltb→ge (length m.free_list) n fits in
        rw (p, fits) (omega (arith, ==→ne n 0 p), h, take_blocks-Allocated n m v h)
  ]
]
