-- ===== src/ScratchPool.antt =====
-- src/runtime/scratch_pool.cpp: scratch buffers that are kept for reuse, one per device and kind. A
-- missing entry of the map is the default entry that `operator[]` makes. The mutex makes every call
-- one step.
pub mod Laws
use sci_compute_attention.Base.{
  ℕ, zero, ◌+◌, ◌*◌, ◌/◌, max, Bool, true, false, not, ◌||◌, ltb, ◌==◌, if◌then◌else◌,
}
use sci_compute_attention.Status.{Result, Status, ok, err, attn, workspace_exceeded}

pub data ScratchKind : Type 0 where
  scores_fp32 decode_partials generic : ScratchKind

abbrev pub kind_value : ScratchKind → ℕ
kind_value scores_fp32 = 0
kind_value decode_partials = 1
kind_value generic = 2

-- `allocated` says whether the tensor has memory.
pub record Entry : Type 0 where
  pub allocated : Bool
  pub elements : ℕ

abbrev pub no_entry : Entry
no_entry = record { allocated = false; elements = 0 }

pub record ScratchPool : Type 0 where
  pub entry : ℕ → Entry
  pub high_water_bytes : ℕ

unfoldable pub key_of : ℕ → ScratchKind → ℕ
key_of device_id kind = device_id * 16 + kind_value kind

abbrev pub with_entry : ℕ → Entry → ScratchPool → ScratchPool
with_entry key e pool = record pool { entry = λ k. if k == key then e else pool.entry k }

-- 1.25 times the request, rounded down, and 1024 more.
abbrev pub grown : ℕ → ℕ
grown elements = elements * 5 / 4 + 1024

-- The new buffer of an entry, if it could be allocated.
pub grow : Bool → ℕ → ℕ → ScratchPool → Status × ScratchPool
grow buffer_ok key elements pool =
    if not buffer_ok then (err (attn workspace_exceeded), with_entry key no_entry pool) else (
      ok tt,
      record (with_entry key (record { allocated = true; elements = grown elements }) pool) {
        high_water_bytes = max pool.high_water_bytes (grown elements * 4);
      },
    )

unfoldable pub acquire_scratch_fp32 :
    Bool → ScratchKind → ℕ → ℕ → ScratchPool → Status × ScratchPool
unfolding grow key_of
acquire_scratch_fp32 buffer_ok kind elements device_id pool =
    let key = key_of device_id kind in
    let e = pool.entry key in
    if elements == 0
    then (err (attn workspace_exceeded), pool)
    else if not e.allocated || ltb e.elements elements
    then grow buffer_ok key elements pool
    else (ok tt, pool)

pub release_scratch : ScratchPool → Status × ScratchPool
release_scratch pool = (ok tt, record pool { entry = λ k. no_entry })
