-- ===== src/ScratchPool/Laws.antt =====
-- `AcquireScratchFp32` and `KeyOf` of src/runtime/scratch_pool.cpp.
use sci_compute_attention.Base.{
  ℕ, ◌≤◌, ◌<◌, ◌≡◌, ◌≢◌, inl, inr, refl, ap, Bool, true, false, not, ◌||◌, ltb, ◌==◌, arith,
  Bool-cases,
}
use sci_compute_attention.Status.{Status, ok, err, attn, workspace_exceeded}
use sci_compute_attention.ScratchPool.{
  ScratchKind, scores_fp32, decode_partials, generic, kind_value, ScratchPool, key_of, grow,
  acquire_scratch_fp32,
}

-- What a request leaves of the other buffers and of the high-water mark.
pub record Keeps (key : ℕ) (pool pool' : ScratchPool) : Type 0 where
  pub others : (k : ℕ) → k ≢ key → pool'.entry k ≡ pool.entry k
  pub mark : pool.high_water_bytes ≤ pool'.high_water_bytes

-- What a request promises.
pub data Acquires (key elements : ℕ) (pool : ScratchPool) : Status × ScratchPool → Type 0 where
  acquired :
      (pool' : ScratchPool)
      → (pool'.entry key).allocated ≡ true
      → elements ≤ (pool'.entry key).elements
      → Keeps key pool pool'
      → Acquires key elements pool (ok tt, pool')
  failed :
      (pool' : ScratchPool)
      → Keeps key pool pool'
      → Acquires key elements pool (err (attn workspace_exceeded), pool')

grow-Acquires :
    (buffer_ok : Bool) (key elements : ℕ) (pool : ScratchPool)
    → Acquires key elements pool (grow buffer_ok key elements pool)
unfolding grow
grow-Acquires false key elements pool =
    failed _ (record { others = λ k ne. ground arith; mark = omega arith })
grow-Acquires true key elements pool =
    acquired _ (ground arith) (ground arith)
      (record { others = λ k ne. ground arith; mark = ground arith })

-- `AcquireScratchFp32`, for any request and whatever the allocator answers: on success the buffer of
-- the device and kind has memory for the elements asked for; on success and on failure no other buffer
-- changes and the high-water mark does not fall.
pub acquire_scratch_fp32-Acquires :
    (buffer_ok : Bool) (kind : ScratchKind) (elements device_id : ℕ) (pool : ScratchPool)
    → Acquires
        (key_of device_id kind)
        elements
        pool
        (acquire_scratch_fp32 buffer_ok kind elements device_id pool)
unfolding acquire_scratch_fp32
acquire_scratch_fp32-Acquires buffer_ok kind elements device_id pool =
    let key = key_of device_id kind in
    let e = pool.entry key in
    elim (Bool-cases (elements == 0)) [
      | inl z ↦ rw z (failed pool (record { others = λ k ne. refl; mark = omega arith }))
      | inr positive ↦ elim (Bool-cases (not e.allocated || ltb e.elements elements)) [
        | inl small ↦ rw (positive, small) (grow-Acquires buffer_ok key elements pool)
        | inr large ↦
            rw (positive, large)
              (acquired pool (ground arith) (ground arith)
                (record { others = λ k ne. refl; mark = omega arith }))
      ]
    ]

Acquires-fits :
    (key elements : ℕ) (pool pool' : ScratchPool) (out : Status × ScratchPool)
    → Acquires key elements pool out
    → out ≡ (ok tt, pool')
    → elements ≤ (pool'.entry key).elements
Acquires-fits key elements pool pool' _ (acquired p has fits keeps) e =
    let same : p ≡ pool' = ap (λ x. x.1) e in rw (← same) fits
Acquires-fits key elements pool pool' _ (failed p keeps) e = ground arith

-- A buffer that was handed out has the elements that were asked for.
pub acquired-fits :
    (buffer_ok : Bool) (kind : ScratchKind) (elements device_id : ℕ) (pool pool' : ScratchPool)
    → acquire_scratch_fp32 buffer_ok kind elements device_id pool ≡ (ok tt, pool')
    → elements ≤ (pool'.entry (key_of device_id kind)).elements
acquired-fits buffer_ok kind elements device_id pool pool' e =
    Acquires-fits (key_of device_id kind) elements pool pool' _
      (acquire_scratch_fp32-Acquires buffer_ok kind elements device_id pool) e

-- A request of some elements succeeds where the allocator does.
pub acquire_scratch_fp32_grows :
    (buffer_ok : Bool) (kind : ScratchKind) (elements device_id : ℕ) (pool : ScratchPool)
    → buffer_ok ≡ true
    → elements ≢ 0
    → (acquire_scratch_fp32 buffer_ok kind elements device_id pool).0 ≡ ok tt
unfolding acquire_scratch_fp32 grow
acquire_scratch_fp32_grows buffer_ok kind elements device_id pool grows some_elements = ground arith

-- Different pairs of device and kind have different keys.
pub key_of_unique :
    (d d' : ℕ) (kind kind' : ScratchKind)
    → key_of d kind ≡ key_of d' kind'
    → (d ≡ d') × (kind_value kind ≡ kind_value kind')
unfolding key_of
key_of_unique d d' kind kind' e = omega (arith, small kind, small kind')
  where
    small : (k : ScratchKind) → kind_value k < 16
    small scores_fp32 = omega arith
    small decode_partials = omega arith
    small generic = omega arith
