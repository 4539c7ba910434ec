-- ===== src/Tensor.antt =====
-- `sci::Tensor` and `sci::TensorShape` (stub/include/tensor/tensor.hpp, stub/include/core/types.hpp),
-- as far as the runtime reads them. `bytes` are the contents behind the data pointer.
use sci_compute_attention.Base.{ℕ, Bool, List, length, get_or}
use sci_compute_attention.Types.{DType}

pub data DeviceType : Type 0 where
  cpu cuda cpu_pinned : DeviceType

pub record Tensor : Type 0 where
  pub dims : List ℕ
  pub dtype : DType
  pub device_type : DeviceType
  pub is_contiguous : Bool
  pub bytes : List ℕ

abbrev pub ndims : Tensor → ℕ
ndims t = length t.dims

-- Unused dimensions are 0.
abbrev pub dim : Tensor → ℕ → ℕ
dim t i = get_or t.dims i 0
