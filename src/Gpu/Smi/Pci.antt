-- ===== src/Gpu/Smi/Pci.antt =====
-- pkg/gpu/smi.go: the PCI bus. A field is read from the elements with the name of its tag.
use gpuid.Base.{Text, codes}
use gpuid.Gpu.Xml.{Elements, text_of, kids_of}

pub record PcieGen : Type 0 where
  pub max_link_gen : Text
  pub current_link_gen : Text
  pub device_current_link_gen : Text
  pub max_device_link_gen : Text
  pub max_host_link_gen : Text

unfoldable pub decode_pcie_gen : Elements → PcieGen
decode_pcie_gen kids = record {
  max_link_gen = text_of (codes "max_link_gen") kids;
  current_link_gen = text_of (codes "current_link_gen") kids;
  device_current_link_gen = text_of (codes "device_current_link_gen") kids;
  max_device_link_gen = text_of (codes "max_device_link_gen") kids;
  max_host_link_gen = text_of (codes "max_host_link_gen") kids;
}

pub record LinkWidths : Type 0 where
  pub max_link_width : Text
  pub current_link_width : Text

unfoldable pub decode_link_widths : Elements → LinkWidths
decode_link_widths kids = record {
  max_link_width = text_of (codes "max_link_width") kids;
  current_link_width = text_of (codes "current_link_width") kids;
}

pub record PciGpuLinkInfo : Type 0 where
  pub pcie_gen : PcieGen
  pub link_widths : LinkWidths

unfoldable pub decode_pci_gpu_link_info : Elements → PciGpuLinkInfo
decode_pci_gpu_link_info kids = record {
  pcie_gen = decode_pcie_gen (kids_of (codes "pcie_gen") kids);
  link_widths = decode_link_widths (kids_of (codes "link_widths") kids);
}

pub record PciBridgeChip : Type 0 where
  pub bridge_chip_type : Text
  pub bridge_chip_fw : Text

unfoldable pub decode_pci_bridge_chip : Elements → PciBridgeChip
decode_pci_bridge_chip kids = record {
  bridge_chip_type = text_of (codes "bridge_chip_type") kids;
  bridge_chip_fw = text_of (codes "bridge_chip_fw") kids;
}

pub record Pci : Type 0 where
  pub pci_bus : Text
  pub pci_device : Text
  pub pci_domain : Text
  pub pci_base_class : Text
  pub pci_sub_class : Text
  pub pci_device_id : Text
  pub pci_bus_id : Text
  pub pci_sub_system_id : Text
  pub pci_gpu_link_info : PciGpuLinkInfo
  pub pci_bridge_chip : PciBridgeChip
  pub replay_counter : Text
  pub replay_rollover_counter : Text
  pub tx_util : Text
  pub rx_util : Text
  pub atomic_caps_outbound : Text
  pub atomic_caps_inbound : Text

unfoldable pub decode_pci : Elements → Pci
decode_pci kids = record {
  pci_bus = text_of (codes "pci_bus") kids;
  pci_device = text_of (codes "pci_device") kids;
  pci_domain = text_of (codes "pci_domain") kids;
  pci_base_class = text_of (codes "pci_base_class") kids;
  pci_sub_class = text_of (codes "pci_sub_class") kids;
  pci_device_id = text_of (codes "pci_device_id") kids;
  pci_bus_id = text_of (codes "pci_bus_id") kids;
  pci_sub_system_id = text_of (codes "pci_sub_system_id") kids;
  pci_gpu_link_info = decode_pci_gpu_link_info (kids_of (codes "pci_gpu_link_info") kids);
  pci_bridge_chip = decode_pci_bridge_chip (kids_of (codes "pci_bridge_chip") kids);
  replay_counter = text_of (codes "replay_counter") kids;
  replay_rollover_counter = text_of (codes "replay_rollover_counter") kids;
  tx_util = text_of (codes "tx_util") kids;
  rx_util = text_of (codes "rx_util") kids;
  atomic_caps_outbound = text_of (codes "atomic_caps_outbound") kids;
  atomic_caps_inbound = text_of (codes "atomic_caps_inbound") kids;
}
