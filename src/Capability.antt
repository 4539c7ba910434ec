-- ===== src/Capability.antt =====
-- src/runtime/capability.cpp: what a device can do. The probe of the CUDA runtime is a parameter, and so
-- is the number that `strtoll` reads from SCI_ATTENTION_MAX_SMEM_BYTES, where that is set. The cache is a
-- map from device ids. Names of devices are left out.
pub mod Laws
use sci_compute_attention.Base.{
  ℕ, zero, suc, ◌+◌, ◌*◌, Bool, true, false, not, ◌&&◌, ◌||◌, Option, none, some, ℤ, pos, negsuc,
  ltb, leb, ◌==◌, if◌then◌else◌,
}
use sci_compute_attention.Status.{Status, ok}

-- `ScaDeviceProbe` of src/runtime/device_probe.h.
pub record DeviceProbe : Type 0 where
  pub major : ℕ
  pub minor : ℕ
  pub sm_count : ℕ
  pub smem_per_sm : ℕ
  pub smem_per_block_default : ℕ
  pub smem_per_block_optin : ℕ
  pub regs_per_sm : ℕ
  pub max_threads_per_sm : ℕ
  pub l2_bytes : ℕ
  pub total_mem_bytes : ℕ
  pub free_mem_bytes : ℕ
  pub cuda_available : Bool
  pub binary_has_sm80 : Bool
  pub binary_has_sm90 : Bool

pub record DeviceCapability : Type 0 where
  pub major : ℕ
  pub minor : ℕ
  pub sm_count : ℕ
  pub smem_per_sm : ℕ
  pub smem_per_block_default : ℕ
  pub smem_per_block_optin : ℕ
  pub regs_per_sm : ℕ
  pub max_threads_per_sm : ℕ
  pub l2_bytes : ℕ
  pub total_mem_bytes : ℕ
  pub free_mem_bytes : ℕ
  pub has_mma_m16n8k16 : Bool
  pub has_cp_async : Bool
  pub has_tma_bulk : Bool
  pub has_wgmma : Bool
  pub has_fp8_mma : Bool

abbrev pub no_capability : DeviceCapability
no_capability = record {
  major = 0;
  minor = 0;
  sm_count = 0;
  smem_per_sm = 0;
  smem_per_block_default = 0;
  smem_per_block_optin = 0;
  regs_per_sm = 0;
  max_threads_per_sm = 0;
  l2_bytes = 0;
  total_mem_bytes = 0;
  free_mem_bytes = 0;
  has_mma_m16n8k16 = false;
  has_cp_async = false;
  has_tma_bulk = false;
  has_wgmma = false;
  has_fp8_mma = false;
}

-- `none`: the call of the probe failed.
pub capability_of : Option DeviceProbe → DeviceCapability
capability_of none = no_capability
capability_of (some raw) =
    let cc = raw.major * 10 + raw.minor in
    if not raw.cuda_available then no_capability else record {
      major = raw.major;
      minor = raw.minor;
      sm_count = raw.sm_count;
      smem_per_sm = raw.smem_per_sm;
      smem_per_block_default = raw.smem_per_block_default;
      smem_per_block_optin = raw.smem_per_block_optin;
      regs_per_sm = raw.regs_per_sm;
      max_threads_per_sm = raw.max_threads_per_sm;
      l2_bytes = raw.l2_bytes;
      total_mem_bytes = raw.total_mem_bytes;
      free_mem_bytes = raw.free_mem_bytes;
      has_mma_m16n8k16 = leb 80 cc && raw.binary_has_sm80;
      has_cp_async = leb 80 cc && raw.binary_has_sm80;
      has_tma_bulk = leb 90 cc && raw.binary_has_sm90;
      has_wgmma = false;
      has_fp8_mma = false;
    }

abbrev pub Cache : Type 0
Cache = ℕ → Option DeviceCapability

abbrev pub put : ℕ → DeviceCapability → Cache → Cache
put id cap cache other = if other == id then some cap else cache other

-- `raw` is what the probe would answer now.
pub for_device : Option DeviceProbe → ℕ → Cache → DeviceCapability × Cache
for_device raw id cache = elim (cache id) [
  | some cap ↦ (cap, cache)
  | none ↦ (capability_of raw, put id (capability_of raw) cache)
]

pub refresh : Option DeviceProbe → ℕ → Cache → Status × Cache
refresh raw id cache = (ok tt, put id (capability_of raw) cache)

-- The limit that the environment asks for, if it is lower.
pub lowered : Option ℤ → ℕ → ℕ
lowered none limit = limit
lowered (some (negsuc n)) limit = limit
lowered (some (pos parsed)) limit = if ltb 0 parsed && ltb parsed limit then parsed else limit

unfoldable pub smem_limit_per_block : Option ℤ → DeviceCapability → ℕ
unfolding lowered
smem_limit_per_block env cap =
    let base =
      if not (cap.smem_per_block_optin == 0)
      then cap.smem_per_block_optin
      else cap.smem_per_block_default in
    let limit = lowered env base in
    if not (cap.smem_per_sm == 0) && ltb cap.smem_per_sm limit then cap.smem_per_sm else limit
