-- ===== src/Workspace/Examples.antt =====
-- The theorems on workspaces at a concrete one.
use sci_compute_attention.Base.{[], ◌∷◌, arith, true, inl}
use sci_compute_attention.Workspace.{Workspace, slice}
use sci_compute_attention.Workspace.Laws.{IsValid, Slices, slice-Slices, slice-IsValid}

abbrev scratch : Workspace
scratch = record {
  allocated = true;
  bytes = 1024;
  peak_bytes = 512;
  slices = (0, 256) ∷ (256, 512) ∷ [];
}

scratch-IsValid : IsValid scratch
scratch-IsValid = record {
  slices = (omega arith, omega arith, (inl (omega arith), tt), (omega arith, omega arith, tt, tt));
  peak = omega arith;
}

slice-Slices_example : Slices 512 100 256 scratch (slice 512 100 256 scratch)
slice-Slices_example = slice-Slices 512 100 256 scratch

slice-IsValid_example : IsValid (slice 512 100 256 scratch).1
slice-IsValid_example = slice-IsValid 512 100 256 scratch scratch-IsValid
