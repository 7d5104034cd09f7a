-- ===== src/Gpu/Smi/Memory.antt =====
-- pkg/gpu/smi.go: memory and its pages. A field is read from the elements with the name of its tag.
use gpuid.Base.{Text, codes}
use gpuid.Gpu.Xml.{Elements, text_of, kids_of}

pub record FbMemoryUsage : Type 0 where
  pub total : Text
  pub reserved : Text
  pub used : Text
  pub free : Text

unfoldable pub decode_fb_memory_usage : Elements → FbMemoryUsage
decode_fb_memory_usage kids = record {
  total = text_of (codes "total") kids;
  reserved = text_of (codes "reserved") kids;
  used = text_of (codes "used") kids;
  free = text_of (codes "free") kids;
}

pub record Bar1MemoryUsage : Type 0 where
  pub total : Text
  pub used : Text
  pub free : Text

unfoldable pub decode_bar1_memory_usage : Elements → Bar1MemoryUsage
decode_bar1_memory_usage kids = record {
  total = text_of (codes "total") kids;
  used = text_of (codes "used") kids;
  free = text_of (codes "free") kids;
}

pub record CcProtectedMemoryUsage : Type 0 where
  pub total : Text
  pub used : Text
  pub free : Text

unfoldable pub decode_cc_protected_memory_usage : Elements → CcProtectedMemoryUsage
decode_cc_protected_memory_usage kids = record {
  total = text_of (codes "total") kids;
  used = text_of (codes "used") kids;
  free = text_of (codes "free") kids;
}

pub record MemoryUsage : Type 0 where
  pub total : Text
  pub used : Text
  pub free : Text

unfoldable pub decode_memory_usage : Elements → MemoryUsage
decode_memory_usage kids = record {
  total = text_of (codes "total") kids;
  used = text_of (codes "used") kids;
  free = text_of (codes "free") kids;
}

pub record MultipleSingleBitRetirement : Type 0 where
  pub retired_count : Text
  pub retired_pagelist : Text

unfoldable pub decode_multiple_single_bit_retirement : Elements → MultipleSingleBitRetirement
decode_multiple_single_bit_retirement kids = record {
  retired_count = text_of (codes "retired_count") kids;
  retired_pagelist = text_of (codes "retired_pagelist") kids;
}

pub record DoubleBitRetirement : Type 0 where
  pub retired_count : Text
  pub retired_pagelist : Text

unfoldable pub decode_double_bit_retirement : Elements → DoubleBitRetirement
decode_double_bit_retirement kids = record {
  retired_count = text_of (codes "retired_count") kids;
  retired_pagelist = text_of (codes "retired_pagelist") kids;
}

pub record RetiredPages : Type 0 where
  pub multiple_single_bit_retirement : MultipleSingleBitRetirement
  pub double_bit_retirement : DoubleBitRetirement
  pub pending_blacklist : Text
  pub pending_retirement : Text

unfoldable pub decode_retired_pages : Elements → RetiredPages
decode_retired_pages kids = record {
  multiple_single_bit_retirement =
      decode_multiple_single_bit_retirement (kids_of (codes "multiple_single_bit_retirement") kids);
  double_bit_retirement =
      decode_double_bit_retirement (kids_of (codes "double_bit_retirement") kids);
  pending_blacklist = text_of (codes "pending_blacklist") kids;
  pending_retirement = text_of (codes "pending_retirement") kids;
}

pub record RowRemapperHistogram : Type 0 where
  pub row_remapper_histogram_max : Text
  pub row_remapper_histogram_high : Text
  pub row_remapper_histogram_partial : Text
  pub row_remapper_histogram_low : Text
  pub row_remapper_histogram_none : Text

unfoldable pub decode_row_remapper_histogram : Elements → RowRemapperHistogram
decode_row_remapper_histogram kids = record {
  row_remapper_histogram_max = text_of (codes "row_remapper_histogram_max") kids;
  row_remapper_histogram_high = text_of (codes "row_remapper_histogram_high") kids;
  row_remapper_histogram_partial = text_of (codes "row_remapper_histogram_partial") kids;
  row_remapper_histogram_low = text_of (codes "row_remapper_histogram_low") kids;
  row_remapper_histogram_none = text_of (codes "row_remapper_histogram_none") kids;
}

pub record RemappedRows : Type 0 where
  pub remapped_row_corr : Text
  pub remapped_row_unc : Text
  pub remapped_row_pending : Text
  pub remapped_row_failure : Text
  pub row_remapper_histogram : RowRemapperHistogram

unfoldable pub decode_remapped_rows : Elements → RemappedRows
decode_remapped_rows kids = record {
  remapped_row_corr = text_of (codes "remapped_row_corr") kids;
  remapped_row_unc = text_of (codes "remapped_row_unc") kids;
  remapped_row_pending = text_of (codes "remapped_row_pending") kids;
  remapped_row_failure = text_of (codes "remapped_row_failure") kids;
  row_remapper_histogram =
      decode_row_remapper_histogram (kids_of (codes "row_remapper_histogram") kids);
}
