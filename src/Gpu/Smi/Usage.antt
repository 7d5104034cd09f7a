-- ===== src/Gpu/Smi/Usage.antt =====
-- pkg/gpu/smi.go: utilization. A field is read from the elements with the name of its tag.
use gpuid.Base.{Text, codes}
use gpuid.Gpu.Xml.{Elements, text_of}

pub record Utilization : Type 0 where
  pub gpu_util : Text
  pub memory_util : Text
  pub encoder_util : Text
  pub decoder_util : Text
  pub jpeg_util : Text
  pub ofa_util : Text

unfoldable pub decode_utilization : Elements → Utilization
decode_utilization kids = record {
  gpu_util = text_of (codes "gpu_util") kids;
  memory_util = text_of (codes "memory_util") kids;
  encoder_util = text_of (codes "encoder_util") kids;
  decoder_util = text_of (codes "decoder_util") kids;
  jpeg_util = text_of (codes "jpeg_util") kids;
  ofa_util = text_of (codes "ofa_util") kids;
}

pub record EncoderStats : Type 0 where
  pub session_count : Text
  pub average_fps : Text
  pub average_latency : Text

unfoldable pub decode_encoder_stats : Elements → EncoderStats
decode_encoder_stats kids = record {
  session_count = text_of (codes "session_count") kids;
  average_fps = text_of (codes "average_fps") kids;
  average_latency = text_of (codes "average_latency") kids;
}

pub record FbcStats : Type 0 where
  pub session_count : Text
  pub average_fps : Text
  pub average_latency : Text

unfoldable pub decode_fbc_stats : Elements → FbcStats
decode_fbc_stats kids = record {
  session_count = text_of (codes "session_count") kids;
  average_fps = text_of (codes "average_fps") kids;
  average_latency = text_of (codes "average_latency") kids;
}

pub record ClocksEventReasons : Type 0 where
  pub clocks_event_reason_gpu_idle : Text
  pub clocks_event_reason_applications_clocks_setting : Text
  pub clocks_event_reason_sw_power_cap : Text
  pub clocks_event_reason_hw_slowdown : Text
  pub clocks_event_reason_hw_thermal_slowdown : Text
  pub clocks_event_reason_hw_power_brake_slowdown : Text
  pub clocks_event_reason_sync_boost : Text
  pub clocks_event_reason_sw_thermal_slowdown : Text
  pub clocks_event_reason_display_clocks_setting : Text

unfoldable pub decode_clocks_event_reasons : Elements → ClocksEventReasons
decode_clocks_event_reasons kids = record {
  clocks_event_reason_gpu_idle = text_of (codes "clocks_event_reason_gpu_idle") kids;
  clocks_event_reason_applications_clocks_setting =
      text_of (codes "clocks_event_reason_applications_clocks_setting") kids;
  clocks_event_reason_sw_power_cap = text_of (codes "clocks_event_reason_sw_power_cap") kids;
  clocks_event_reason_hw_slowdown = text_of (codes "clocks_event_reason_hw_slowdown") kids;
  clocks_event_reason_hw_thermal_slowdown =
      text_of (codes "clocks_event_reason_hw_thermal_slowdown") kids;
  clocks_event_reason_hw_power_brake_slowdown =
      text_of (codes "clocks_event_reason_hw_power_brake_slowdown") kids;
  clocks_event_reason_sync_boost = text_of (codes "clocks_event_reason_sync_boost") kids;
  clocks_event_reason_sw_thermal_slowdown =
      text_of (codes "clocks_event_reason_sw_thermal_slowdown") kids;
  clocks_event_reason_display_clocks_setting =
      text_of (codes "clocks_event_reason_display_clocks_setting") kids;
}
