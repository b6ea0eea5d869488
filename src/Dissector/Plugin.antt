-- ===== src/Dissector/Plugin.antt =====
-- What the plugin declares, and what it registers with Wireshark when it is loaded.
-- Code: wireshark/mping.lua.
pub mod Declared
pub mod Reports
pub mod Added
pub mod Items
use mping_sender_mirror.Prelude.{ℕ, ◌≡◌, ◌∙◌, String, List, Option, some}
use mping_sender_mirror.Dissector.{Expert, End, Dissection, dissect}
use Declared.{ProtoField, fields}
use Reports.{experts}

pub record Proto : Type 0 where
  pub name : String
  pub description : String
  pub fields : List ProtoField
  pub experts : List Expert
  -- A function of the buffer and of both ends in `pinfo`.
  pub dissector : List ℕ → End → End → Dissection

abbrev pub mping_protocol : Proto
mping_protocol = record {
  name = "mping";
  description = "Multicast Ping Protocol";
  fields = fields;
  experts = experts;
  dissector = dissect;
}

-- The table "udp.port" of Wireshark: the protocol for a port, and the protocols that a user may
-- choose for any port.
pub record DissectorTable : Type 1 where
  pub Table : Type 0
  pub add : Table → ℕ → Proto → Table
  pub add_for_decode_as : Table → Proto → Table
  pub dissector_of : Table → ℕ → Option Proto

-- What the documentation promises: a protocol that is added for a port reads this port, and one
-- that is only offered to the user reads none by itself.
pub record IsDocumented (udp_port : DissectorTable) : Type 0 where
  pub added :
      (t : udp_port.Table) (port : ℕ) (p : Proto)
      → udp_port.dissector_of (udp_port.add t port p) port ≡ some p
  pub offered :
      (t : udp_port.Table) (port : ℕ) (p : Proto)
      → udp_port.dissector_of (udp_port.add_for_decode_as t p) port ≡ udp_port.dissector_of t port

module _ (udp_port : DissectorTable) where
  -- The end of the script.
  unfoldable pub register : udp_port.Table → udp_port.Table
  register t = udp_port.add_for_decode_as (udp_port.add t 4321 mping_protocol) mping_protocol

  pub dissector_of-register :
      IsDocumented udp_port
      → (t : udp_port.Table) → udp_port.dissector_of (register t) 4321 ≡ some mping_protocol
  unfolding register
  dissector_of-register documented t =
      documented.offered (udp_port.add t 4321 mping_protocol) 4321 mping_protocol
      ∙ documented.added t 4321 mping_protocol
