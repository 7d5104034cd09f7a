-- ===== src/Gpu.antt =====
-- pkg/gpu: serial numbers of a pod's GPUs, and the readings that are exported.
pub mod Reading
pub mod Serials
pub mod Grouping
pub mod Xml
pub mod Smi
pub mod Query
