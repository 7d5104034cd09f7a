-- ===== src/Gpu/Smi/Ecc.antt =====
-- pkg/gpu/smi.go: ECC errors. A field is read from the elements with the name of its tag.
use gpuid.Base.{Text, codes}
use gpuid.Gpu.Xml.{Elements, text_of, kids_of}

pub record Volatile : Type 0 where
  pub sram_correctable : Text
  pub sram_uncorrectable_parity : Text
  pub sram_uncorrectable_secded : Text
  pub dram_correctable : Text
  pub dram_uncorrectable : Text

unfoldable pub decode_volatile : Elements → Volatile
decode_volatile kids = record {
  sram_correctable = text_of (codes "sram_correctable") kids;
  sram_uncorrectable_parity = text_of (codes "sram_uncorrectable_parity") kids;
  sram_uncorrectable_secded = text_of (codes "sram_uncorrectable_secded") kids;
  dram_correctable = text_of (codes "dram_correctable") kids;
  dram_uncorrectable = text_of (codes "dram_uncorrectable") kids;
}

pub record Aggregate : Type 0 where
  pub sram_correctable : Text
  pub sram_uncorrectable_parity : Text
  pub sram_uncorrectable_secded : Text
  pub dram_correctable : Text
  pub dram_uncorrectable : Text
  pub sram_threshold_exceeded : Text

unfoldable pub decode_aggregate : Elements → Aggregate
decode_aggregate kids = record {
  sram_correctable = text_of (codes "sram_correctable") kids;
  sram_uncorrectable_parity = text_of (codes "sram_uncorrectable_parity") kids;
  sram_uncorrectable_secded = text_of (codes "sram_uncorrectable_secded") kids;
  dram_correctable = text_of (codes "dram_correctable") kids;
  dram_uncorrectable = text_of (codes "dram_uncorrectable") kids;
  sram_threshold_exceeded = text_of (codes "sram_threshold_exceeded") kids;
}

pub record AggregateUncorrectableSramSources : Type 0 where
  pub sram_l2 : Text
  pub sram_sm : Text
  pub sram_microcontroller : Text
  pub sram_pcie : Text
  pub sram_other : Text

unfoldable pub decode_aggregate_uncorrectable_sram_sources :
    Elements → AggregateUncorrectableSramSources
decode_aggregate_uncorrectable_sram_sources kids = record {
  sram_l2 = text_of (codes "sram_l2") kids;
  sram_sm = text_of (codes "sram_sm") kids;
  sram_microcontroller = text_of (codes "sram_microcontroller") kids;
  sram_pcie = text_of (codes "sram_pcie") kids;
  sram_other = text_of (codes "sram_other") kids;
}

pub record EccErrors : Type 0 where
  pub volatile : Volatile
  pub aggregate : Aggregate
  pub aggregate_uncorrectable_sram_sources : AggregateUncorrectableSramSources

unfoldable pub decode_ecc_errors : Elements → EccErrors
decode_ecc_errors kids = record {
  volatile = decode_volatile (kids_of (codes "volatile") kids);
  aggregate = decode_aggregate (kids_of (codes "aggregate") kids);
  aggregate_uncorrectable_sram_sources =
      decode_aggregate_uncorrectable_sram_sources
        (kids_of (codes "aggregate_uncorrectable_sram_sources") kids);
}
