-- ===== src/Gpu/Smi.antt =====
-- The structs of pkg/gpu/smi.go, as encoding/xml fills them.
pub mod Modes
pub mod Pci
pub mod Memory
pub mod Ecc
pub mod Usage
pub mod Power
pub mod Clocks
pub mod Fabric
pub mod Device
