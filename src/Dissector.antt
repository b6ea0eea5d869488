-- ===== src/Dissector.antt =====
-- wireshark/mping.lua: the dissector of the Wireshark plugin, an independent reader of the packet.
-- A buffer is a list of bytes; what is added to the protocol tree is the result.
pub mod Fields
pub mod Parts
pub mod RoundTrip
pub mod Ipv4
pub mod Plugin
pub mod Hosts
pub mod Experts
use mping_sender_mirror.Prelude.{
  ℕ, ◌+◌, ◌-◌, ◌^◌, Bool, true, false, ◌&&◌, ◌||◌, List, [], ◌∷◌, ◌++◌, ◌==◌, ltb, if◌then◌else◌,
  length, take, drop,
}
use mping_sender_mirror.Network.Bytes.{from_little, from_big}

-- buffer(from, size)
abbrev pub slice : List ℕ → ℕ → ℕ → List ℕ
slice buffer from size = take size (drop from buffer)

-- `:stringz()`, the bytes in front of the first zero.
unfoldable pub stringz : List ℕ → List ℕ
stringz [] = []
stringz (b ∷ bs) = if b == 0 then [] else b ∷ stringz bs

abbrev pub bytes_eq : List ℕ → List ℕ → Bool
bytes_eq [] [] = true
bytes_eq [] (y ∷ ys) = false
bytes_eq (x ∷ xs) [] = false
bytes_eq (x ∷ xs) (y ∷ ys) = x == y && bytes_eq xs ys

-- An address of Wireshark.
pub data NetAddress : Type 0 where
  ipv4 : List ℕ → NetAddress
  ipv6 : List ℕ → NetAddress

abbrev pub address_eq : NetAddress → NetAddress → Bool
address_eq (ipv4 a) (ipv4 b) = bytes_eq a b
address_eq (ipv4 a) (ipv6 b) = false
address_eq (ipv6 a) (ipv4 b) = false
address_eq (ipv6 a) (ipv6 b) = bytes_eq a b

-- One end of the datagram in `pinfo`: the address and the port of the headers above the packet.
pub record End : Type 0 where
  pub address : NetAddress
  pub port : ℕ

pub data Expert : Type 0 where
  depracated_version invalid_type : Expert
  invalid_source_host_family mismatch_source_host_address mismatch_source_host_port : Expert
  invalid_destination_host_family : Expert
  mismatch_destination_host_address mismatch_destination_host_port : Expert

-- The family, and below it the port and the address if the family is known.
pub data HostItem : Type 0 where
  inet6 : ℕ → List ℕ → HostItem
  inet : ℕ → List ℕ → HostItem
  other_family : ℕ → HostItem

-- Items to which the script hands a range of the buffer without reading it are the range.
pub record Tree : Type 0 where
  pub type : ℕ
  pub ttl : List ℕ
  pub source : HostItem
  pub destination : HostItem
  pub sequence_number : List ℕ
  pub pid : List ℕ
  pub seconds : ℕ
  pub microseconds : ℕ
  pub absolute_time : Bool
  pub experts : List Expert

pub data Dissection : Type 0 where
  ignored : Dissection
  other_version : List ℕ → Dissection
  dissected : Tree → Dissection

abbrev report : Bool → Expert → List Expert
report true e = e ∷ []
report false e = []

abbrev differs : Bool → Bool
differs true = false
differs false = true

-- The blocks for the source and for the destination differ in their offset and their experts.
unfoldable pub dissect_host : List ℕ → ℕ → End → Expert → Expert → Expert → HostItem × List Expert
unfolding from_little
dissect_host buffer base info bad_family bad_port bad_address =
    let family = from_little (slice buffer base 2) in
    let port = from_big 0 (slice buffer (base + 2) 2) in
    let port_experts = report (differs (port == info.port)) bad_port in
    let six = slice buffer (base + 8) 16 in
    let four = slice buffer (base + 4) 4 in
    if family == 10 || family == 2
    then if family == 10
      then (
        inet6 port six,
        port_experts ++ report (differs (address_eq (ipv6 six) info.address)) bad_address,
      )
      else (
        inet port four,
        port_experts ++ report (differs (address_eq (ipv4 four) info.address)) bad_address,
      )
    else (other_family family, bad_family ∷ [])

-- math.maxinteger of Lua.
abbrev max_uint64 : ℕ
max_uint64 = 2 ^ 63 - 1

unfoldable pub dissect_tree : List ℕ → End → End → Tree
dissect_tree buffer src dst =
    let type = from_big 0 (slice buffer 4 1) in
    let type_experts =
      report (differs (type == b's') && differs (type == b'r')) depracated_version in
    let (source, source_experts) =
      dissect_host buffer 8 src invalid_source_host_family mismatch_source_host_port
        mismatch_source_host_address in
    let (destination, destination_experts) =
      dissect_host buffer 136 dst invalid_destination_host_family mismatch_destination_host_port
        mismatch_destination_host_address in
    let seconds = from_big 0 (slice buffer 272 8) in
    let microseconds = from_big 0 (slice buffer 280 8) in
    record {
      type = type;
      ttl = slice buffer 5 1;
      source = source;
      destination = destination;
      sequence_number = slice buffer 264 4;
      pid = slice buffer 268 4;
      seconds = seconds;
      microseconds = microseconds;
      absolute_time = ltb seconds max_uint64 && ltb microseconds max_uint64;
      experts = type_experts ++ (source_experts ++ destination_experts);
    }

unfoldable pub dissect : List ℕ → End → End → Dissection
dissect buffer src dst =
    let version = stringz (slice buffer 0 4) in
    if ltb (length buffer) 288
    then ignored
    else if bytes_eq version (b'2' ∷ b'.' ∷ b'0' ∷ [])
    then dissected (dissect_tree buffer src dst)
    else other_version version
