-- ===== src/Workspace.antt =====
-- src/runtime/workspace.cpp: scratch memory that is cut into slices. The state is the `Impl` that all
-- copies of a `Workspace` share; `allocated` says whether its buffer has memory. A pointer into the
-- buffer is its distance from the start.
pub mod Laws
mod Examples
use sci_compute_attention.Base.{
  ℕ, ◌+◌, ◌-◌, ◌%◌, max, Bool, true, false, not, ◌&&◌, ◌||◌, List, [], ◌∷◌, ◌++◌, ltb, leb, ◌==◌,
  if◌then◌else◌,
}
use sci_compute_attention.Status.{Result, Status, ok, err, attn, workspace_exceeded}

pub record Workspace : Type 0 where
  pub allocated : Bool
  pub bytes : ℕ
  pub peak_bytes : ℕ
  pub slices : List (ℕ × ℕ)

-- `buffer_ok` says whether the allocation succeeded.
pub create : ℕ → Bool → Result Workspace
create bytes buffer_ok =
    if bytes == 0
    then err (attn workspace_exceeded)
    else if not buffer_ok
    then err (attn workspace_exceeded)
    else ok (record { allocated = true; bytes = bytes; peak_bytes = 0; slices = [] })

-- The loop over the slices, with the flags `identical` and `overlaps`.
pub scan : ℕ → ℕ → List (ℕ × ℕ) → Bool → Bool → Bool × Bool
scan begin end [] identical overlaps = (identical, overlaps)
scan begin end ((first, second) ∷ slices) identical overlaps =
    scan begin end slices (if begin == first && end == second then true else identical)
      (if not (leb end first || leb second begin) then true else overlaps)

-- The end of `Slice`, for a range inside the buffer.
pub take_slice : ℕ → ℕ → Workspace → Result ℕ × Workspace
unfolding scan
take_slice begin end ws =
    let (identical, overlaps) = scan begin end ws.slices false false in
    if overlaps && not identical then (err (attn workspace_exceeded), ws) else (
      ok begin,
      record ws {
        slices = if not identical then ws.slices ++ ((begin, end) ∷ []) else ws.slices;
        peak_bytes = max ws.peak_bytes end;
      },
    )

-- The guards of `Slice` on a workspace that has memory.
pub slice_live : ℕ → ℕ → ℕ → Workspace → Result ℕ × Workspace
unfolding take_slice
slice_live offset bytes align ws =
    if bytes == 0
    then (err (attn workspace_exceeded), ws)
    else if align == 0 || not (offset % align == 0)
    then (err (attn workspace_exceeded), ws)
    else if ltb ws.bytes offset || ltb (ws.bytes - offset) bytes
    then (err (attn workspace_exceeded), ws)
    else take_slice offset (offset + bytes) ws

pub slice : ℕ → ℕ → ℕ → Workspace → Result ℕ × Workspace
slice offset bytes align ws =
    if not ws.allocated
    then (err (attn workspace_exceeded), ws)
    else slice_live offset bytes align ws

pub reset : Workspace → Status × Workspace
reset ws =
    if not ws.allocated
    then (err (attn workspace_exceeded), ws)
    else (ok tt, record ws { slices = [] })
