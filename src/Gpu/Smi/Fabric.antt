-- ===== src/Gpu/Smi/Fabric.antt =====
-- pkg/gpu/smi.go: the fabric. A field is read from the elements with the name of its tag.
use gpuid.Base.{Text, codes}
use gpuid.Gpu.Xml.{Elements, text_of, kids_of}

pub record Health : Type 0 where
  pub bandwidth : Text
  pub route_recovery_in_progress : Text
  pub route_unhealthy : Text
  pub access_timeout_recovery : Text

unfoldable pub decode_health : Elements → Health
decode_health kids = record {
  bandwidth = text_of (codes "bandwidth") kids;
  route_recovery_in_progress = text_of (codes "route_recovery_in_progress") kids;
  route_unhealthy = text_of (codes "route_unhealthy") kids;
  access_timeout_recovery = text_of (codes "access_timeout_recovery") kids;
}

pub record Fabric : Type 0 where
  pub state : Text
  pub status : Text
  pub cliqueid : Text
  pub clusteruuid : Text
  pub health : Health

unfoldable pub decode_fabric : Elements → Fabric
decode_fabric kids = record {
  state = text_of (codes "state") kids;
  status = text_of (codes "status") kids;
  cliqueid = text_of (codes "cliqueId") kids;
  clusteruuid = text_of (codes "clusterUuid") kids;
  health = decode_health (kids_of (codes "health") kids);
}
