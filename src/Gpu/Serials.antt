-- ===== src/Gpu/Serials.antt =====
-- Serials of pkg/gpu/gpu.go, and the part of the nvidia-smi report that it is made from.
use gpuid.Base.{Text, List}

pub record Serials : Type 0 where
  pub chassis : Text
  pub gpu : List Text

-- GPU of pkg/gpu/smi.go: its serial, and the chassis serial of its platform_info.
pub record Gpu : Type 0 where
  pub serial : Text
  pub chassis_serial_number : Text
