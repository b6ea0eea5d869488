-- ===== src/State/View.antt =====
-- What a packet shows of a state, and the bytes that the code makes of it.
-- Code: src/mping_state.cpp.
use mping_sender_mirror.Prelude.{
  ℕ, ◌≡◌, ◌∙◌, inl, inr, Bool, true, false, String, List, [], ◌∷◌, ◌++◌, if◌then◌else◌, length,
  Bool-cases,
}
use mping_sender_mirror.Prelude.Int.{to_u64}
use mping_sender_mirror.Prelude.Outcome.{Outcome, returned, thrown, exited}
use mping_sender_mirror.Asio.Api.{Asio, IsDocumented}
use mping_sender_mirror.Network.{Endian}
use mping_sender_mirror.Network.Bytes.{big_bytes}
use mping_sender_mirror.Network.Layout.{image}
use mping_sender_mirror.State.{
  State, StateType, to_underlying, version, serialize, serialize_host, get_seconds,
  get_microseconds,
}
use mping_sender_mirror.State.Host.{IsHost, serialize_host_v6, serialize_host_v4}
use mping_sender_mirror.State.Packet.{serialize_parts}

-- A host as a packet shows it: the family (whether IPv6), the address in network order, the port.
pub record HostView : Type 0 where
  pub six : Bool
  pub address : List ℕ
  pub port : ℕ

pub record View : Type 0 where
  pub type : StateType
  pub ttl : ℕ
  pub source : HostView
  pub destination : HostView
  pub sequence_number : ℕ
  pub pid : ℕ
  pub seconds : ℕ
  pub microseconds : ℕ

-- The bytes that `serialize` writes for a view, with the code's place for an IPv4 address: byte 8
-- of its host, where the comments of src/mping_state.cpp draw it right behind the port.
abbrev pub host_image : HostView → List ℕ
host_image h = if h.six then image 10 h.port h.address 104 else image 2 h.port h.address 116

abbrev pub encode : View → List ℕ
encode v =
    (version ++ (to_underlying v.type ∷ (big_bytes 1 v.ttl ++ (0 ∷ 0 ∷ []))))
    ++ (host_image v.source
        ++ (host_image v.destination
            ++ (big_bytes 4 v.sequence_number
                ++ (big_bytes 4 v.pid ++ (big_bytes 8 v.seconds ++ big_bytes 8 v.microseconds)))))

abbrev bytes_or_none : {A : Type 0} → Outcome A → (A → List ℕ) → List ℕ
bytes_or_none (returned a) f = f a
bytes_or_none (thrown x) f = []
bytes_or_none (exited n) f = []

module _ (api : Asio) where
  abbrev pub address_bytes : api.Address → List ℕ
  address_bytes a =
      if api.is_v6 a
      then bytes_or_none (api.to_v6 a) api.v6_to_bytes
      else bytes_or_none (api.to_v4 a) api.v4_to_bytes

  abbrev pub host_view : api.Address → ℕ → HostView
  host_view a port = record { six = api.is_v6 a; address = address_bytes a; port = port }

  abbrev pub view : State api.Address → View
  view s = record {
    type = s.type;
    ttl = s.ttl;
    source = host_view s.src_host s.src_port;
    destination = host_view s.dest_host s.dest_port;
    sequence_number = s.sequence_number;
    pid = s.pid;
    seconds = to_u64 (get_seconds s);
    microseconds = to_u64 (get_microseconds s);
  }

module _ {api : Asio} (documented : IsDocumented api) where
  not_six : (a : api.Address) → IsHost api a → api.is_v6 a ≡ false → api.is_v4 a ≡ true
  not_six a (inl six) other = cc
  not_six a (inr four) other = four

  host_written :
      (native : Endian) (a : api.Address) (port : ℕ) (message : String)
      → IsHost api a
      → serialize_host api native a port message ≡ returned (host_image (host_view api a port))
  host_written native a port message host = elim (Bool-cases (api.is_v6 a)) [
    | inl six ↦
        let (v, e) = documented.to_v6_returns a six in
        serialize_host_v6 documented native a port message v six e ∙ rw (six, e)
    | inr other ↦
        let (v, e) = documented.to_v4_returns a (not_six a host other) in
        serialize_host_v4 documented native a port message v other (not_six a host other) e
        ∙ rw (other, e)
  ]

  -- With Boost.Asio as documented, for hosts of the two families: on a host of either byte order
  -- `serialize` returns the bytes that `encode` makes of what the packet shows.
  pub serialize-encode :
      (native : Endian) (s : State api.Address)
      → IsHost api s.src_host
      → IsHost api s.dest_host
      → serialize api native s ≡ returned (encode (view api s))
  serialize-encode native s src dest =
      serialize_parts api native s (host_image (view api s).source)
        (host_image (view api s).destination) (host_written native s.src_host s.src_port _ src)
        (host_written native s.dest_host s.dest_port _ dest)

  pub address_length :
      (a : api.Address)
      → IsHost api a
      → length (address_bytes api a) ≡ (if api.is_v6 a then 16 else 4)
  address_length a host = elim (Bool-cases (api.is_v6 a)) [
    | inl six ↦ let (v, e) = documented.to_v6_returns a six in rw (six, e) (documented.v6_length v)
    | inr other ↦
        let (v, e) = documented.to_v4_returns a (not_six a host other) in
        rw (other, e) (documented.v4_length v)
  ]
