-- ===== src/Gpu/Smi/Clocks.antt =====
-- pkg/gpu/smi.go: clocks and voltage. A field is read from the elements with the name of its tag.
use gpuid.Base.{Text, codes}
use gpuid.Gpu.Xml.{Elements, text_of, kids_of}

pub record Clocks : Type 0 where
  pub graphics_clock : Text
  pub sm_clock : Text
  pub mem_clock : Text
  pub video_clock : Text

unfoldable pub decode_clocks : Elements → Clocks
decode_clocks kids = record {
  graphics_clock = text_of (codes "graphics_clock") kids;
  sm_clock = text_of (codes "sm_clock") kids;
  mem_clock = text_of (codes "mem_clock") kids;
  video_clock = text_of (codes "video_clock") kids;
}

pub record ApplicationsClocks : Type 0 where
  pub graphics_clock : Text
  pub mem_clock : Text

unfoldable pub decode_applications_clocks : Elements → ApplicationsClocks
decode_applications_clocks kids = record {
  graphics_clock = text_of (codes "graphics_clock") kids;
  mem_clock = text_of (codes "mem_clock") kids;
}

pub record DefaultApplicationsClocks : Type 0 where
  pub graphics_clock : Text
  pub mem_clock : Text

unfoldable pub decode_default_applications_clocks : Elements → DefaultApplicationsClocks
decode_default_applications_clocks kids = record {
  graphics_clock = text_of (codes "graphics_clock") kids;
  mem_clock = text_of (codes "mem_clock") kids;
}

pub record DeferredClocks : Type 0 where
  pub mem_clock : Text

unfoldable pub decode_deferred_clocks : Elements → DeferredClocks
decode_deferred_clocks kids = record { mem_clock = text_of (codes "mem_clock") kids }

pub record MaxClocks : Type 0 where
  pub graphics_clock : Text
  pub sm_clock : Text
  pub mem_clock : Text
  pub video_clock : Text

unfoldable pub decode_max_clocks : Elements → MaxClocks
decode_max_clocks kids = record {
  graphics_clock = text_of (codes "graphics_clock") kids;
  sm_clock = text_of (codes "sm_clock") kids;
  mem_clock = text_of (codes "mem_clock") kids;
  video_clock = text_of (codes "video_clock") kids;
}

pub record MaxCustomerBoostClocks : Type 0 where
  pub graphics_clock : Text

unfoldable pub decode_max_customer_boost_clocks : Elements → MaxCustomerBoostClocks
decode_max_customer_boost_clocks kids = record {
  graphics_clock = text_of (codes "graphics_clock") kids;
}

pub record ClockPolicy : Type 0 where
  pub auto_boost : Text
  pub auto_boost_default : Text

unfoldable pub decode_clock_policy : Elements → ClockPolicy
decode_clock_policy kids = record {
  auto_boost = text_of (codes "auto_boost") kids;
  auto_boost_default = text_of (codes "auto_boost_default") kids;
}

pub record Voltage : Type 0 where
  pub graphics_volt : Text

unfoldable pub decode_voltage : Elements → Voltage
decode_voltage kids = record { graphics_volt = text_of (codes "graphics_volt") kids }

pub record SupportedMemClock : Type 0 where
  pub value : Text
  pub supported_graphics_clock : Text

unfoldable pub decode_supported_mem_clock : Elements → SupportedMemClock
decode_supported_mem_clock kids = record {
  value = text_of (codes "value") kids;
  supported_graphics_clock = text_of (codes "supported_graphics_clock") kids;
}

pub record SupportedClocks : Type 0 where
  pub supported_mem_clock : SupportedMemClock

unfoldable pub decode_supported_clocks : Elements → SupportedClocks
decode_supported_clocks kids = record {
  supported_mem_clock = decode_supported_mem_clock (kids_of (codes "supported_mem_clock") kids);
}
