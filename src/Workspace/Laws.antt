-- ===== src/Workspace/Laws.antt =====
-- `Workspace::Slice` of src/runtime/workspace.cpp: the ranges that it hands out.
use sci_compute_attention.Base.{
  ℕ, ◌+◌, ◌-◌, ◌%◌, ◌≤◌, ◌<◌, ◌≡◌, ◌⊎◌, inl, inr, refl, max, Bool, true, false, not, ◌&&◌, ◌||◌,
  List, [], ◌∷◌, ◌++◌, arith, ltb, leb, ◌==◌, if◌then◌else◌, Bool-cases, subst, sym,
}
use sci_compute_attention.Status.{Result, Error, ok, err, attn, workspace_exceeded}
use sci_compute_attention.Workspace.{Workspace, scan, take_slice, slice_live, slice}

-- Every slice lies before the range or behind it.
abbrev pub ApartFrom : ℕ → ℕ → List (ℕ × ℕ) → Type 0
ApartFrom begin end [] = Unit
ApartFrom begin end ((first, second) ∷ slices) =
    ((end ≤ first) ⊎ (second ≤ begin)) × ApartFrom begin end slices

-- The slices are not empty, lie in a buffer of this size, and do not overlap.
abbrev pub AreSlices : ℕ → List (ℕ × ℕ) → Type 0
AreSlices size [] = Unit
AreSlices size ((first, second) ∷ slices) =
    (first < second) × (second ≤ size) × ApartFrom first second slices × AreSlices size slices

pub record IsValid (ws : Workspace) : Type 0 where
  pub slices : AreSlices ws.bytes ws.slices
  pub peak : ws.peak_bytes ≤ ws.bytes

scan_found :
    (begin end : ℕ) (slices : List (ℕ × ℕ)) (identical : Bool)
    → (scan begin end slices identical true).1 ≡ true
unfolding scan
scan_found begin end [] identical = refl
scan_found begin end ((first, second) ∷ slices) identical =
    elim (Bool-cases (leb end first || leb second begin)) [
      | inl e ↦ rw (scan, e) (scan_found begin end slices _)
      | inr e ↦ rw (scan, e) (scan_found begin end slices _)
    ]

-- No overlap found: the range is apart from all slices.
scan_apart :
    (begin end : ℕ) (slices : List (ℕ × ℕ)) (identical : Bool)
    → (scan begin end slices identical false).1 ≡ false
    → ApartFrom begin end slices
unfolding scan
scan_apart begin end [] identical h = tt
scan_apart begin end ((first, second) ∷ slices) identical h =
    let same = if begin == first && end == second then true else identical in
    let flag =
      λ (d : Bool). (scan begin end slices same (if not d then true else false)).1 ≡ false in
    elim (Bool-cases (leb end first || leb second begin)) [
      | inl e ↦ (ground arith, scan_apart begin end slices same (subst flag e h))
      | inr e ↦
          let wrong = subst flag e h in let found = scan_found begin end slices same in ground arith
    ]

-- The range is one of the slices.
pub data IsSlice (begin end : ℕ) : List (ℕ × ℕ) → Type 0 where
  here : (slices : List (ℕ × ℕ)) → IsSlice begin end ((begin, end) ∷ slices)
  there :
      (s : ℕ × ℕ) (slices : List (ℕ × ℕ))
      → IsSlice begin end slices
      → IsSlice begin end (s ∷ slices)

IsSlice-at :
    (begin end first second : ℕ) (slices : List (ℕ × ℕ))
    → (begin == first && end == second) ≡ true
    → IsSlice begin end ((first, second) ∷ slices)
IsSlice-at begin end first second slices e =
    let p : begin ≡ first = ground arith in
    let q : end ≡ second = ground arith in
    subst (λ x. IsSlice begin end ((x, second) ∷ slices)) p
      (subst (λ y. IsSlice begin end ((begin, y) ∷ slices)) q (here slices))

scan_identical :
    (begin end : ℕ) (slices : List (ℕ × ℕ)) (identical overlaps : Bool)
    → (scan begin end slices identical overlaps).0 ≡ true
    → (identical ≡ true) ⊎ IsSlice begin end slices
unfolding scan
scan_identical begin end [] identical overlaps h = inl h
scan_identical begin end ((first, second) ∷ slices) identical overlaps h =
    let flag = if not (leb end first || leb second begin) then true else overlaps in
    elim (Bool-cases (begin == first && end == second)) [
      | inl e ↦ inr (IsSlice-at begin end first second slices e)
      | inr e ↦
          let h' =
            subst
              (λ (d : Bool). (scan begin end slices (if d then true else identical) flag).0 ≡ true)
              e h in
          elim (scan_identical begin end slices identical flag h') [
            | inl t ↦ inl t
            | inr m ↦ inr (there (first, second) slices m)
          ]
    ]

AreSlices-append :
    (size begin end : ℕ) (slices : List (ℕ × ℕ))
    → begin < end
    → end ≤ size
    → AreSlices size slices
    → ApartFrom begin end slices
    → AreSlices size (slices ++ ((begin, end) ∷ []))
AreSlices-append size begin end [] positive fits v a = (positive, fits, tt, tt)
AreSlices-append size begin end ((first, second) ∷ slices) positive fits (p, f, apart, v)
      (a, rest) =
    (
      p,
      f,
      ApartFrom-append first second begin end slices a apart,
      AreSlices-append size begin end slices positive fits v rest,
    )
  where
    ApartFrom-append :
        (first second begin end : ℕ) (ss : List (ℕ × ℕ))
        → (end ≤ first) ⊎ (second ≤ begin)
        → ApartFrom first second ss
        → ApartFrom first second (ss ++ ((begin, end) ∷ []))
    ApartFrom-append first second begin end [] (inl x) h = (inr x, tt)
    ApartFrom-append first second begin end [] (inr x) h = (inl x, tt)
    ApartFrom-append first second begin end ((f, s) ∷ ss) x (h, hs) =
        (h, ApartFrom-append first second begin end ss x hs)

-- What `Slice` does with a range.
pub data Slices (offset bytes align : ℕ) (ws : Workspace) : Result ℕ × Workspace → Type 0 where
  refused : (e : Error) → Slices offset bytes align ws (err e, ws)
  reused :
      0 < bytes
      → offset % align ≡ 0
      → offset + bytes ≤ ws.bytes
      → IsSlice offset (offset + bytes) ws.slices
      → Slices offset bytes align ws
          (ok offset, record ws { peak_bytes = max ws.peak_bytes (offset + bytes) })
  granted :
      0 < bytes
      → offset % align ≡ 0
      → offset + bytes ≤ ws.bytes
      → ApartFrom offset (offset + bytes) ws.slices
      → Slices offset bytes align ws (
        ok offset,
        record ws {
          slices = ws.slices ++ ((offset, offset + bytes) ∷ []);
          peak_bytes = max ws.peak_bytes (offset + bytes);
        },
      )

was-IsSlice :
    (begin end : ℕ) (slices : List (ℕ × ℕ))
    → (scan begin end slices false false).0 ≡ true
    → IsSlice begin end slices
was-IsSlice begin end slices h = elim (scan_identical begin end slices false false h) [
  | inl e ↦ ground arith
  | inr m ↦ m
]

take_slice-Slices :
    (offset bytes align : ℕ) (ws : Workspace)
    → 0 < bytes
    → offset % align ≡ 0
    → offset + bytes ≤ ws.bytes
    → Slices offset bytes align ws (take_slice offset (offset + bytes) ws)
unfolding take_slice
take_slice-Slices offset bytes align ws positive aligned fits =
    let found = scan offset (offset + bytes) ws.slices false false in
    elim (Bool-cases found.0) [
      | inl same ↦
          rw (same, take_slice)
            (elim (Bool-cases found.1) [
              | inl clash ↦ rw clash (
                  reused positive aligned fits (was-IsSlice offset (offset + bytes) ws.slices same))
              | inr free ↦ rw free (
                  reused positive aligned fits (was-IsSlice offset (offset + bytes) ws.slices same))
            ])
      | inr new ↦ elim (Bool-cases found.1) [
        | inl clash ↦ rw (new, clash) (refused _)
        | inr free ↦
            rw (new, free)
              (granted positive aligned fits
                (scan_apart offset (offset + bytes) ws.slices false free))
      ]
    ]

slice_live-Slices :
    (offset bytes align : ℕ) (ws : Workspace)
    → Slices offset bytes align ws (slice_live offset bytes align ws)
unfolding slice_live
slice_live-Slices offset bytes align ws = elim (Bool-cases (bytes == 0)) [
  | inl z ↦ rw z (refused _)
  | inr some ↦ elim (Bool-cases (align == 0 || not (offset % align == 0))) [
    | inl odd ↦ rw (some, odd) (refused _)
    | inr even ↦ elim (Bool-cases (ltb ws.bytes offset || ltb (ws.bytes - offset) bytes)) [
      | inl outside ↦ rw (some, even, outside) (refused _)
      | inr inside ↦
          rw (some, even, inside)
            (take_slice-Slices offset bytes align ws (ground arith) (ground arith) (ground arith))
    ]
  ]
]

-- `Slice`, for any arguments: it refuses and changes nothing, or it hands out a range that is aligned,
-- not empty and inside the buffer, and that either is a recorded slice or does not overlap any of them
-- and is recorded.
pub slice-Slices :
    (offset bytes align : ℕ) (ws : Workspace)
    → Slices offset bytes align ws (slice offset bytes align ws)
unfolding slice
slice-Slices offset bytes align ws =
    let answer = λ (live : Bool). Slices offset bytes align ws (
      if not live then (err (attn workspace_exceeded), ws) else slice_live offset bytes align ws) in
    elim (Bool-cases ws.allocated) [
      | inr missing ↦ subst answer (sym missing) (refused _)
      | inl live ↦ subst answer (sym live) (slice_live-Slices offset bytes align ws)
    ]

-- `Slice` keeps a workspace valid: its slices lie in the buffer and do not overlap.
pub slice-IsValid :
    (offset bytes align : ℕ) (ws : Workspace) → IsValid ws → IsValid (slice offset bytes align ws).1
slice-IsValid offset bytes align ws v = keep _ (slice-Slices offset bytes align ws)
  where
    keep : (r : Result ℕ × Workspace) → Slices offset bytes align ws r → IsValid r.1
    keep _ (refused e) = v
    keep _ (reused positive aligned fits same) =
        let p = v.peak in record { slices = v.slices; peak = ground arith }
    keep _ (granted positive aligned fits apart) =
        let p = v.peak in
        record {
          slices =
              AreSlices-append ws.bytes offset (offset + bytes) ws.slices (omega arith) fits
                v.slices apart;
          peak = ground arith;
        }
