-- ===== src/Gpu/Smi/Device.antt =====
-- pkg/gpu/smi.go: the device. A field is read from the elements with the name of its tag.
use gpuid.Base.{Text, codes, List, map}
use gpuid.Gpu.Xml.{Elements, text_of, kids_of, each_of}
use gpuid.Gpu.Smi.Modes.{
  MigMode, decode_mig_mode, DriverModel, decode_driver_model, PlatformInfo, decode_platform_info,
  InforomVersion, decode_inforom_version, InforomBbxFlush, decode_inforom_bbx_flush, OperationMode,
  decode_operation_mode, VirtualizationMode, decode_virtualization_mode, ResetStatus,
  decode_reset_status, Ibmnpu, decode_ibmnpu, DramEncryptionMode, decode_dram_encryption_mode,
  EccMode, decode_ecc_mode, Capabilities, decode_capabilities,
}
use gpuid.Gpu.Smi.Pci.{Pci, decode_pci}
use gpuid.Gpu.Smi.Usage.{
  ClocksEventReasons, decode_clocks_event_reasons, Utilization, decode_utilization, EncoderStats,
  decode_encoder_stats, FbcStats, decode_fbc_stats,
}
use gpuid.Gpu.Smi.Memory.{
  FbMemoryUsage, decode_fb_memory_usage, Bar1MemoryUsage, decode_bar1_memory_usage,
  CcProtectedMemoryUsage, decode_cc_protected_memory_usage, RetiredPages, decode_retired_pages,
  RemappedRows, decode_remapped_rows,
}
use gpuid.Gpu.Smi.Ecc.{EccErrors, decode_ecc_errors}
use gpuid.Gpu.Smi.Power.{
  Temperature, decode_temperature, SupportedGpuTargetTemp, decode_supported_gpu_target_temp,
  PowerReadings, decode_power_readings, MemoryPowerReadings, decode_memory_power_readings,
  ModulePowerReadings, decode_module_power_readings, PowerProfiles, decode_power_profiles,
}
use gpuid.Gpu.Smi.Clocks.{
  Clocks, decode_clocks, ApplicationsClocks, decode_applications_clocks, DefaultApplicationsClocks,
  decode_default_applications_clocks, DeferredClocks, decode_deferred_clocks, MaxClocks,
  decode_max_clocks, MaxCustomerBoostClocks, decode_max_customer_boost_clocks, ClockPolicy,
  decode_clock_policy, Voltage, decode_voltage, SupportedClocks, decode_supported_clocks,
}
use gpuid.Gpu.Smi.Fabric.{Fabric, decode_fabric}

pub record Gpu : Type 0 where
  pub product_name : Text
  pub product_brand : Text
  pub product_architecture : Text
  pub display_mode : Text
  pub display_active : Text
  pub persistence_mode : Text
  pub addressing_mode : Text
  pub mig_mode : MigMode
  pub mig_devices : Text
  pub accounting_mode : Text
  pub accounting_mode_buffer_size : Text
  pub driver_model : DriverModel
  pub serial : Text
  pub uuid : Text
  pub minor_number : Text
  pub vbios_version : Text
  pub multigpu_board : Text
  pub board_id : Text
  pub board_part_number : Text
  pub gpu_part_number : Text
  pub gpu_fru_part_number : Text
  pub platform_info : PlatformInfo
  pub inforom_version : InforomVersion
  pub inforom_bbx_flush : InforomBbxFlush
  pub gpu_operation_mode : OperationMode
  pub c2c_mode : Text
  pub gpu_virtualization_mode : VirtualizationMode
  pub gpu_reset_status : ResetStatus
  pub gpu_recovery_action : Text
  pub gsp_firmware_version : Text
  pub ibmnpu : Ibmnpu
  pub pci : Pci
  pub fan_speed : Text
  pub performance_state : Text
  pub clocks_event_reasons : ClocksEventReasons
  pub sparse_operation_mode : Text
  pub fb_memory_usage : FbMemoryUsage
  pub bar1_memory_usage : Bar1MemoryUsage
  pub cc_protected_memory_usage : CcProtectedMemoryUsage
  pub compute_mode : Text
  pub utilization : Utilization
  pub encoder_stats : EncoderStats
  pub fbc_stats : FbcStats
  pub dram_encryption_mode : DramEncryptionMode
  pub ecc_mode : EccMode
  pub ecc_errors : EccErrors
  pub retired_pages : RetiredPages
  pub remapped_rows : RemappedRows
  pub temperature : Temperature
  pub supported_gpu_target_temp : SupportedGpuTargetTemp
  pub gpu_power_readings : PowerReadings
  pub gpu_memory_power_readings : MemoryPowerReadings
  pub module_power_readings : ModulePowerReadings
  pub power_smoothing : Text
  pub power_profiles : PowerProfiles
  pub clocks : Clocks
  pub applications_clocks : ApplicationsClocks
  pub default_applications_clocks : DefaultApplicationsClocks
  pub deferred_clocks : DeferredClocks
  pub max_clocks : MaxClocks
  pub max_customer_boost_clocks : MaxCustomerBoostClocks
  pub clock_policy : ClockPolicy
  pub voltage : Voltage
  pub fabric : Fabric
  pub supported_clocks : SupportedClocks
  pub processes : Text
  pub accounted_processes : Text
  pub capabilities : Capabilities

unfoldable pub decode_gpu : Elements → Gpu
decode_gpu kids = record {
  product_name = text_of (codes "product_name") kids;
  product_brand = text_of (codes "product_brand") kids;
  product_architecture = text_of (codes "product_architecture") kids;
  display_mode = text_of (codes "display_mode") kids;
  display_active = text_of (codes "display_active") kids;
  persistence_mode = text_of (codes "persistence_mode") kids;
  addressing_mode = text_of (codes "addressing_mode") kids;
  mig_mode = decode_mig_mode (kids_of (codes "mig_mode") kids);
  mig_devices = text_of (codes "mig_devices") kids;
  accounting_mode = text_of (codes "accounting_mode") kids;
  accounting_mode_buffer_size = text_of (codes "accounting_mode_buffer_size") kids;
  driver_model = decode_driver_model (kids_of (codes "driver_model") kids);
  serial = text_of (codes "serial") kids;
  uuid = text_of (codes "uuid") kids;
  minor_number = text_of (codes "minor_number") kids;
  vbios_version = text_of (codes "vbios_version") kids;
  multigpu_board = text_of (codes "multigpu_board") kids;
  board_id = text_of (codes "board_id") kids;
  board_part_number = text_of (codes "board_part_number") kids;
  gpu_part_number = text_of (codes "gpu_part_number") kids;
  gpu_fru_part_number = text_of (codes "gpu_fru_part_number") kids;
  platform_info = decode_platform_info (kids_of (codes "platformInfo") kids);
  inforom_version = decode_inforom_version (kids_of (codes "inforom_version") kids);
  inforom_bbx_flush = decode_inforom_bbx_flush (kids_of (codes "inforom_bbx_flush") kids);
  gpu_operation_mode = decode_operation_mode (kids_of (codes "gpu_operation_mode") kids);
  c2c_mode = text_of (codes "c2c_mode") kids;
  gpu_virtualization_mode =
      decode_virtualization_mode (kids_of (codes "gpu_virtualization_mode") kids);
  gpu_reset_status = decode_reset_status (kids_of (codes "gpu_reset_status") kids);
  gpu_recovery_action = text_of (codes "gpu_recovery_action") kids;
  gsp_firmware_version = text_of (codes "gsp_firmware_version") kids;
  ibmnpu = decode_ibmnpu (kids_of (codes "ibmnpu") kids);
  pci = decode_pci (kids_of (codes "pci") kids);
  fan_speed = text_of (codes "fan_speed") kids;
  performance_state = text_of (codes "performance_state") kids;
  clocks_event_reasons = decode_clocks_event_reasons (kids_of (codes "clocks_event_reasons") kids);
  sparse_operation_mode = text_of (codes "sparse_operation_mode") kids;
  fb_memory_usage = decode_fb_memory_usage (kids_of (codes "fb_memory_usage") kids);
  bar1_memory_usage = decode_bar1_memory_usage (kids_of (codes "bar1_memory_usage") kids);
  cc_protected_memory_usage =
      decode_cc_protected_memory_usage (kids_of (codes "cc_protected_memory_usage") kids);
  compute_mode = text_of (codes "compute_mode") kids;
  utilization = decode_utilization (kids_of (codes "utilization") kids);
  encoder_stats = decode_encoder_stats (kids_of (codes "encoder_stats") kids);
  fbc_stats = decode_fbc_stats (kids_of (codes "fbc_stats") kids);
  dram_encryption_mode = decode_dram_encryption_mode (kids_of (codes "dram_encryption_mode") kids);
  ecc_mode = decode_ecc_mode (kids_of (codes "ecc_mode") kids);
  ecc_errors = decode_ecc_errors (kids_of (codes "ecc_errors") kids);
  retired_pages = decode_retired_pages (kids_of (codes "retired_pages") kids);
  remapped_rows = decode_remapped_rows (kids_of (codes "remapped_rows") kids);
  temperature = decode_temperature (kids_of (codes "temperature") kids);
  supported_gpu_target_temp =
      decode_supported_gpu_target_temp (kids_of (codes "supported_gpu_target_temp") kids);
  gpu_power_readings = decode_power_readings (kids_of (codes "gpu_power_readings") kids);
  gpu_memory_power_readings =
      decode_memory_power_readings (kids_of (codes "gpu_memory_power_readings") kids);
  module_power_readings =
      decode_module_power_readings (kids_of (codes "module_power_readings") kids);
  power_smoothing = text_of (codes "power_smoothing") kids;
  power_profiles = decode_power_profiles (kids_of (codes "power_profiles") kids);
  clocks = decode_clocks (kids_of (codes "clocks") kids);
  applications_clocks = decode_applications_clocks (kids_of (codes "applications_clocks") kids);
  default_applications_clocks =
      decode_default_applications_clocks (kids_of (codes "default_applications_clocks") kids);
  deferred_clocks = decode_deferred_clocks (kids_of (codes "deferred_clocks") kids);
  max_clocks = decode_max_clocks (kids_of (codes "max_clocks") kids);
  max_customer_boost_clocks =
      decode_max_customer_boost_clocks (kids_of (codes "max_customer_boost_clocks") kids);
  clock_policy = decode_clock_policy (kids_of (codes "clock_policy") kids);
  voltage = decode_voltage (kids_of (codes "voltage") kids);
  fabric = decode_fabric (kids_of (codes "fabric") kids);
  supported_clocks = decode_supported_clocks (kids_of (codes "supported_clocks") kids);
  processes = text_of (codes "processes") kids;
  accounted_processes = text_of (codes "accounted_processes") kids;
  capabilities = decode_capabilities (kids_of (codes "capabilities") kids);
}

pub record NvsmiDevice : Type 0 where
  pub timestamp : Text
  pub driver_version : Text
  pub cuda_version : Text
  pub attached_gpus : Text
  pub gpus : List Gpu

unfoldable pub decode_nvsmi_device : Elements → NvsmiDevice
decode_nvsmi_device kids = record {
  timestamp = text_of (codes "timestamp") kids;
  driver_version = text_of (codes "driver_version") kids;
  cuda_version = text_of (codes "cuda_version") kids;
  attached_gpus = text_of (codes "attached_gpus") kids;
  gpus = map decode_gpu (each_of (codes "gpu") kids);
}
