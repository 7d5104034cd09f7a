-- ===== src/Gpu/Smi/Modes.antt =====
-- pkg/gpu/smi.go: modes, versions and the platform. A field is read from the elements with the name of its tag.
use gpuid.Base.{Text, codes}
use gpuid.Gpu.Xml.{Elements, text_of}

pub record MigMode : Type 0 where
  pub current_mig : Text
  pub pending_mig : Text

unfoldable pub decode_mig_mode : Elements → MigMode
decode_mig_mode kids = record {
  current_mig = text_of (codes "current_mig") kids;
  pending_mig = text_of (codes "pending_mig") kids;
}

pub record DriverModel : Type 0 where
  pub current_dm : Text
  pub pending_dm : Text

unfoldable pub decode_driver_model : Elements → DriverModel
decode_driver_model kids = record {
  current_dm = text_of (codes "current_dm") kids;
  pending_dm = text_of (codes "pending_dm") kids;
}

pub record PlatformInfo : Type 0 where
  pub chassis_serial_number : Text
  pub slot_number : Text
  pub tray_index : Text
  pub host_id : Text
  pub peer_type : Text
  pub module_id : Text

unfoldable pub decode_platform_info : Elements → PlatformInfo
decode_platform_info kids = record {
  chassis_serial_number = text_of (codes "chassis_serial_number") kids;
  slot_number = text_of (codes "slot_number") kids;
  tray_index = text_of (codes "tray_index") kids;
  host_id = text_of (codes "host_id") kids;
  peer_type = text_of (codes "peer_type") kids;
  module_id = text_of (codes "module_id") kids;
}

pub record InforomVersion : Type 0 where
  pub img_version : Text
  pub oem_object : Text
  pub ecc_object : Text
  pub pwr_object : Text

unfoldable pub decode_inforom_version : Elements → InforomVersion
decode_inforom_version kids = record {
  img_version = text_of (codes "img_version") kids;
  oem_object = text_of (codes "oem_object") kids;
  ecc_object = text_of (codes "ecc_object") kids;
  pwr_object = text_of (codes "pwr_object") kids;
}

pub record InforomBbxFlush : Type 0 where
  pub latest_timestamp : Text
  pub latest_duration : Text

unfoldable pub decode_inforom_bbx_flush : Elements → InforomBbxFlush
decode_inforom_bbx_flush kids = record {
  latest_timestamp = text_of (codes "latest_timestamp") kids;
  latest_duration = text_of (codes "latest_duration") kids;
}

pub record OperationMode : Type 0 where
  pub current_gom : Text
  pub pending_gom : Text

unfoldable pub decode_operation_mode : Elements → OperationMode
decode_operation_mode kids = record {
  current_gom = text_of (codes "current_gom") kids;
  pending_gom = text_of (codes "pending_gom") kids;
}

pub record VirtualizationMode : Type 0 where
  pub virtualization_mode : Text
  pub host_vgpu_mode : Text
  pub vgpu_heterogeneous_mode : Text

unfoldable pub decode_virtualization_mode : Elements → VirtualizationMode
decode_virtualization_mode kids = record {
  virtualization_mode = text_of (codes "virtualization_mode") kids;
  host_vgpu_mode = text_of (codes "host_vgpu_mode") kids;
  vgpu_heterogeneous_mode = text_of (codes "vgpu_heterogeneous_mode") kids;
}

pub record ResetStatus : Type 0 where
  pub reset_required : Text
  pub drain_and_reset_recommended : Text

unfoldable pub decode_reset_status : Elements → ResetStatus
decode_reset_status kids = record {
  reset_required = text_of (codes "reset_required") kids;
  drain_and_reset_recommended = text_of (codes "drain_and_reset_recommended") kids;
}

pub record Ibmnpu : Type 0 where
  pub relaxed_ordering_mode : Text

unfoldable pub decode_ibmnpu : Elements → Ibmnpu
decode_ibmnpu kids = record { relaxed_ordering_mode = text_of (codes "relaxed_ordering_mode") kids }

pub record DramEncryptionMode : Type 0 where
  pub current_dram_encryption : Text
  pub pending_dram_encryption : Text

unfoldable pub decode_dram_encryption_mode : Elements → DramEncryptionMode
decode_dram_encryption_mode kids = record {
  current_dram_encryption = text_of (codes "current_dram_encryption") kids;
  pending_dram_encryption = text_of (codes "pending_dram_encryption") kids;
}

pub record EccMode : Type 0 where
  pub current_ecc : Text
  pub pending_ecc : Text

unfoldable pub decode_ecc_mode : Elements → EccMode
decode_ecc_mode kids = record {
  current_ecc = text_of (codes "current_ecc") kids;
  pending_ecc = text_of (codes "pending_ecc") kids;
}

pub record Capabilities : Type 0 where
  pub egm : Text

unfoldable pub decode_capabilities : Elements → Capabilities
decode_capabilities kids = record { egm = text_of (codes "egm") kids }
