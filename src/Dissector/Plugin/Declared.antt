-- ===== src/Dissector/Plugin/Declared.antt =====
-- The fields that the plugin declares.
-- Code: wireshark/mping.lua.
use mping_sender_mirror.Prelude.{ℕ, String, Option, none, some, List, [], ◌∷◌}

-- The constructors of ProtoField that the plugin calls, and the bases it gives.
pub data FieldType : Type 0 where
  ft_stringz ft_char ft_uint8 ft_uint16 ft_uint64 ft_ipv4 ft_ipv6 : FieldType

pub data Base : Type 0 where
  base_ascii base_none base_dec : Base

pub record ProtoField : Type 0 where
  pub filter : String
  pub title : String
  pub ftype : FieldType
  pub base : Option Base
  -- The names of values.
  pub lookup : List (ℕ × String)

abbrev pub f_type_lookup : List (ℕ × String)
f_type_lookup = (b's', "Sender") ∷ (b'r', "Receiver") ∷ []

abbrev pub f_host_family_lookup : List (ℕ × String)
f_host_family_lookup = (2, "AF_INET") ∷ (10, "AF_INET6") ∷ []

abbrev pub f_version : ProtoField
f_version = record {
  filter = "mping.version";
  title = "Version";
  ftype = ft_stringz;
  base = some base_ascii;
  lookup = [];
}

abbrev pub f_type : ProtoField
f_type = record {
  filter = "mping.type";
  title = "Type";
  ftype = ft_char;
  base = some base_none;
  lookup = f_type_lookup;
}

abbrev pub f_ttl : ProtoField
f_ttl = record {
  filter = "mping.ttl";
  title = "TTL";
  ftype = ft_uint8;
  base = some base_dec;
  lookup = [];
}

abbrev pub f_source_host_family : ProtoField
f_source_host_family = record {
  filter = "mping.src.family";
  title = "Source Address Family";
  ftype = ft_uint16;
  base = some base_dec;
  lookup = f_host_family_lookup;
}

abbrev pub f_source_host_ipv4 : ProtoField
f_source_host_ipv4 = record {
  filter = "mping.src.ipv4";
  title = "Source IPv4";
  ftype = ft_ipv4;
  base = none;
  lookup = [];
}

abbrev pub f_source_host_ipv6 : ProtoField
f_source_host_ipv6 = record {
  filter = "mping.src.ipv6";
  title = "Source IPv6";
  ftype = ft_ipv6;
  base = none;
  lookup = [];
}

abbrev pub f_source_host_port : ProtoField
f_source_host_port = record {
  filter = "mping.src.port";
  title = "Source Port";
  ftype = ft_uint16;
  base = some base_dec;
  lookup = [];
}

abbrev pub f_destination_host_family : ProtoField
f_destination_host_family = record {
  filter = "mping.dst.type";
  title = "Destination Address Family";
  ftype = ft_uint16;
  base = some base_dec;
  lookup = f_host_family_lookup;
}

abbrev pub f_destination_host_ipv4 : ProtoField
f_destination_host_ipv4 = record {
  filter = "mping.dst.ipv4";
  title = "Source IPv4";
  ftype = ft_ipv4;
  base = none;
  lookup = [];
}

abbrev pub f_destination_host_ipv6 : ProtoField
f_destination_host_ipv6 = record {
  filter = "mping.dst.ipv6";
  title = "Source IPv6";
  ftype = ft_ipv6;
  base = none;
  lookup = [];
}

abbrev pub f_destination_host_port : ProtoField
f_destination_host_port = record {
  filter = "mping.dst.port";
  title = "Destination Port";
  ftype = ft_uint16;
  base = some base_dec;
  lookup = [];
}

abbrev pub f_sequence_number : ProtoField
f_sequence_number = record {
  filter = "mping.seq_no";
  title = "Sequence number";
  ftype = ft_uint16;
  base = some base_dec;
  lookup = [];
}

abbrev pub f_pid : ProtoField
f_pid = record {
  filter = "mping.pid";
  title = "PID";
  ftype = ft_uint16;
  base = some base_dec;
  lookup = [];
}

abbrev pub f_seconds : ProtoField
f_seconds = record {
  filter = "mping.timestamp.seconds";
  title = "Seconds";
  ftype = ft_uint64;
  base = some base_dec;
  lookup = [];
}

abbrev pub f_microseconds : ProtoField
f_microseconds = record {
  filter = "mping.timestamp.microseconds";
  title = "Microseconds";
  ftype = ft_uint64;
  base = some base_dec;
  lookup = [];
}

-- `mping_protocol.fields`
abbrev pub fields : List ProtoField
fields =
    f_version ∷ f_type ∷ f_ttl ∷ f_source_host_family ∷ f_source_host_ipv4 ∷ f_source_host_ipv6
    ∷ f_source_host_port ∷ f_destination_host_family ∷ f_destination_host_ipv4
    ∷ f_destination_host_ipv6 ∷ f_destination_host_port ∷ f_sequence_number ∷ f_pid ∷ f_seconds
    ∷ f_microseconds ∷ []
