-- ===== src/Capability/Laws.antt =====
-- The shared-memory limit and the cache of capabilities.
use sci_compute_attention.Base.{
  ℕ, suc, ◌≤◌, ◌≡◌, ◌≢◌, inl, inr, refl, Option, none, some, ℤ, pos, negsuc, arith, ◌==◌, not,
  if◌then◌else◌, max, Option-cases,
}
use sci_compute_attention.Capability.{
  DeviceProbe, DeviceCapability, Cache, for_device, put, capability_of, lowered,
  smem_limit_per_block,
}

-- What `SmemLimitPerBlock` promises of a limit.
pub record IsLimit (env : Option ℤ) (cap : DeviceCapability) (limit : ℕ) : Type 0 where
  pub block : limit ≤ max cap.smem_per_block_optin cap.smem_per_block_default
  pub sm : cap.smem_per_sm ≢ 0 → limit ≤ cap.smem_per_sm
  pub asked : (n : ℕ) → env ≡ some (pos (suc n)) → limit ≤ suc n

lowered_le : (env : Option ℤ) (limit : ℕ) → lowered env limit ≤ limit
unfolding lowered
lowered_le none limit = omega arith
lowered_le (some (negsuc n)) limit = omega arith
lowered_le (some (pos n)) limit = ground arith

lowered_asked : (limit n : ℕ) → lowered (some (pos (suc n))) limit ≤ suc n
unfolding lowered
lowered_asked limit n = ground arith

-- `SmemLimitPerBlock` never exceeds the device's limits per block, nor what an SM has where that is
-- known, nor a positive number that the environment asks for.
pub smem_limit_per_block-IsLimit :
    (env : Option ℤ) (cap : DeviceCapability) → IsLimit env cap (smem_limit_per_block env cap)
unfolding smem_limit_per_block
smem_limit_per_block-IsLimit env cap =
    let base =
      if not (cap.smem_per_block_optin == 0)
      then cap.smem_per_block_optin
      else cap.smem_per_block_default in
    let low = lowered_le env base in
    record {
      block = ground (arith, low);
      sm = λ known. ground (arith, known);
      asked = λ n e. rw e (ground (arith, lowered_asked base n));
    }

found :
    (raw : Option DeviceProbe) (id : ℕ) (cap : DeviceCapability) (cache : Cache)
    → cache id ≡ some cap
    → for_device raw id cache ≡ (cap, cache)
unfolding for_device
found raw id cap cache e = rw (for_device, e) refl

put_self : (id : ℕ) (cap : DeviceCapability) (cache : Cache) → put id cap cache id ≡ some cap
put_self id cap cache = ground arith

missed :
    (raw : Option DeviceProbe) (id : ℕ) (cache : Cache)
    → cache id ≡ none
    → for_device raw id cache ≡ (capability_of raw, put id (capability_of raw) cache)
unfolding for_device
missed raw id cache e = rw (for_device, e) refl

-- A device is probed once: after `ForDevice`, whatever a later probe would answer, the same device
-- has the same capability and the cache stays as it is.
pub for_device-for_device :
    (raw raw' : Option DeviceProbe) (id : ℕ) (cache : Cache)
    → for_device raw' id (for_device raw id cache).1 ≡ for_device raw id cache
for_device-for_device raw raw' id cache = elim (Option-cases (cache id)) [
  | inl e ↦
      let cap = capability_of raw in
      rw (missed raw id cache e) (found raw' id cap (put id cap cache) (put_self id cap cache))
  | inr (cap, e) ↦ rw (found raw id cap cache e) (found raw' id cap cache e)
]
