-- ===== src/Gpu/Smi/Power.antt =====
-- pkg/gpu/smi.go: temperature and power. A field is read from the elements with the name of its tag.
use gpuid.Base.{Text, codes}
use gpuid.Gpu.Xml.{Elements, text_of}

pub record Temperature : Type 0 where
  pub gpu_temp : Text
  pub gpu_temp_tlimit : Text
  pub gpu_temp_max_tlimit_threshold : Text
  pub gpu_temp_slow_tlimit_threshold : Text
  pub gpu_temp_max_gpu_tlimit_threshold : Text
  pub gpu_target_temperature : Text
  pub memory_temp : Text
  pub gpu_temp_max_mem_tlimit_threshold : Text

unfoldable pub decode_temperature : Elements → Temperature
decode_temperature kids = record {
  gpu_temp = text_of (codes "gpu_temp") kids;
  gpu_temp_tlimit = text_of (codes "gpu_temp_tlimit") kids;
  gpu_temp_max_tlimit_threshold = text_of (codes "gpu_temp_max_tlimit_threshold") kids;
  gpu_temp_slow_tlimit_threshold = text_of (codes "gpu_temp_slow_tlimit_threshold") kids;
  gpu_temp_max_gpu_tlimit_threshold = text_of (codes "gpu_temp_max_gpu_tlimit_threshold") kids;
  gpu_target_temperature = text_of (codes "gpu_target_temperature") kids;
  memory_temp = text_of (codes "memory_temp") kids;
  gpu_temp_max_mem_tlimit_threshold = text_of (codes "gpu_temp_max_mem_tlimit_threshold") kids;
}

pub record SupportedGpuTargetTemp : Type 0 where
  pub gpu_target_temp_min : Text
  pub gpu_target_temp_max : Text

unfoldable pub decode_supported_gpu_target_temp : Elements → SupportedGpuTargetTemp
decode_supported_gpu_target_temp kids = record {
  gpu_target_temp_min = text_of (codes "gpu_target_temp_min") kids;
  gpu_target_temp_max = text_of (codes "gpu_target_temp_max") kids;
}

pub record PowerReadings : Type 0 where
  pub power_state : Text
  pub power_draw : Text
  pub current_power_limit : Text
  pub requested_power_limit : Text
  pub default_power_limit : Text
  pub min_power_limit : Text
  pub max_power_limit : Text

unfoldable pub decode_power_readings : Elements → PowerReadings
decode_power_readings kids = record {
  power_state = text_of (codes "power_state") kids;
  power_draw = text_of (codes "power_draw") kids;
  current_power_limit = text_of (codes "current_power_limit") kids;
  requested_power_limit = text_of (codes "requested_power_limit") kids;
  default_power_limit = text_of (codes "default_power_limit") kids;
  min_power_limit = text_of (codes "min_power_limit") kids;
  max_power_limit = text_of (codes "max_power_limit") kids;
}

pub record MemoryPowerReadings : Type 0 where
  pub power_draw : Text

unfoldable pub decode_memory_power_readings : Elements → MemoryPowerReadings
decode_memory_power_readings kids = record { power_draw = text_of (codes "power_draw") kids }

pub record ModulePowerReadings : Type 0 where
  pub power_state : Text
  pub power_draw : Text
  pub current_power_limit : Text
  pub requested_power_limit : Text
  pub default_power_limit : Text
  pub min_power_limit : Text
  pub max_power_limit : Text

unfoldable pub decode_module_power_readings : Elements → ModulePowerReadings
decode_module_power_readings kids = record {
  power_state = text_of (codes "power_state") kids;
  power_draw = text_of (codes "power_draw") kids;
  current_power_limit = text_of (codes "current_power_limit") kids;
  requested_power_limit = text_of (codes "requested_power_limit") kids;
  default_power_limit = text_of (codes "default_power_limit") kids;
  min_power_limit = text_of (codes "min_power_limit") kids;
  max_power_limit = text_of (codes "max_power_limit") kids;
}

pub record PowerProfiles : Type 0 where
  pub power_profile_requested_profiles : Text
  pub power_profile_enforced_profiles : Text

unfoldable pub decode_power_profiles : Elements → PowerProfiles
decode_power_profiles kids = record {
  power_profile_requested_profiles = text_of (codes "power_profile_requested_profiles") kids;
  power_profile_enforced_profiles = text_of (codes "power_profile_enforced_profiles") kids;
}
