-- ===== src/Dissector/Plugin/Reports.antt =====
-- The experts that the plugin declares.
-- Code: wireshark/mping.lua.
use mping_sender_mirror.Prelude.{String, List, [], ◌∷◌}
use mping_sender_mirror.Dissector.{
  Expert, depracated_version, invalid_type, invalid_source_host_family,
  mismatch_source_host_address, mismatch_source_host_port, invalid_destination_host_family,
  mismatch_destination_host_address, mismatch_destination_host_port,
}

-- expert.group
pub data Group : Type 0 where
  deprecated malformed protocol : Group

-- expert.severity
pub data Severity : Type 0 where
  note warn error : Severity

pub record ProtoExpert : Type 0 where
  pub filter : String
  pub text : String
  pub group : Group
  pub severity : Severity

-- The variable `e_<name>` stands for the expert <name>.
abbrev pub declaration : Expert → ProtoExpert
declaration depracated_version = record {
  filter = "mping.depracated_version";
  text = "Depracated version";
  group = deprecated;
  severity = note;
}
declaration invalid_type = record {
  filter = "mping.invalid_type";
  text = "Invalid Type";
  group = malformed;
  severity = error;
}
declaration invalid_source_host_family = record {
  filter = "mping.src.invalid_family";
  text = "Invalid Source Address Family";
  group = malformed;
  severity = error;
}
declaration mismatch_source_host_address = record {
  filter = "mping.src.mismatch_addr";
  text = "Source address does not match the one in the upper header.";
  group = protocol;
  severity = warn;
}
declaration mismatch_source_host_port = record {
  filter = "mping.src.mismatch_port";
  text = "Source Port does not match the one in the upper header.";
  group = protocol;
  severity = warn;
}
declaration invalid_destination_host_family = record {
  filter = "mping.dst.invalid_family";
  text = "Invalid Destination Address Family";
  group = malformed;
  severity = error;
}
declaration mismatch_destination_host_address = record {
  filter = "mping.dst.mismatch_addr";
  text = "Destination address does not match the one in the upper header.";
  group = protocol;
  severity = warn;
}
declaration mismatch_destination_host_port = record {
  filter = "mping.dst.mismatch_port";
  text = "Destination Port does not match the one in the upper header.";
  group = protocol;
  severity = warn;
}

-- `mping_protocol.experts`
abbrev pub experts : List Expert
experts =
    depracated_version ∷ invalid_type ∷ invalid_source_host_family ∷ mismatch_source_host_address
    ∷ mismatch_source_host_port ∷ invalid_destination_host_family
    ∷ mismatch_destination_host_address ∷ mismatch_destination_host_port ∷ []
