-- ===== src/State.antt =====
-- src/mping_state.hpp and src/mping_state.cpp: the contents of one mping packet, and its wire form.
pub mod Sequence
pub mod Clock
pub mod Host
pub mod Packet
pub mod Validity
pub mod View
pub mod Inverse
pub mod Wire
pub mod Format
use mping_sender_mirror.Prelude.{
  ℕ, zero, suc, ◌+◌, ◌-◌, ◌*◌, ◌%◌, ◌^◌, Bool, String, List, [], ◌∷◌, ◌++◌, ◌==◌, if◌then◌else◌,
}
use mping_sender_mirror.Prelude.Int.{ℤ, pos, trunc_div, scale, ◌-ℤ◌, to_u64}
use mping_sender_mirror.Prelude.Outcome.{Outcome, returned, thrown, invalid_argument, ◌>>=◌}
use mping_sender_mirror.Asio.Api.{Asio}
use mping_sender_mirror.Network.{
  Endian, to_bigendian, to_byte_array, ipv4_to_sockaddr_storage, ipv6_to_sockaddr_storage,
}

-- MPING_STATE_TYPE
pub data StateType : Type 0 where
  sender receiver : StateType

-- std::to_underlying
abbrev pub to_underlying : StateType → ℕ
to_underlying sender = b's'
to_underlying receiver = b'r'

-- MPingState. `tv` is a time point of the steady clock: nanoseconds since its epoch.
pub record State (Address : Type 0) : Type 0 where
  pub type : StateType
  pub ttl : ℕ
  pub src_host : Address
  pub src_port : ℕ
  pub dest_host : Address
  pub dest_port : ℕ
  pub sequence_number : ℕ
  pub pid : ℕ
  pub tv : ℤ

-- numeric_limits<uint32_t>::max()
abbrev pub max_u32 : ℕ
max_u32 = 2 ^ 32 - 1

-- MPING_STATE_VERSION with its terminating zero.
abbrev pub version : List ℕ
version = b'2' ∷ b'.' ∷ b'0' ∷ 0 ∷ []

module _ {Address : Type 0} where
  unfoldable pub next_seq_no : State Address → State Address
  next_seq_no s =
      if s.sequence_number == max_u32
      then record s { sequence_number = 0 }
      else record s { sequence_number = (s.sequence_number + 1) % 2 ^ 32 }

  -- `now` is what steady_clock::now() gives.
  unfoldable pub set_current_time : ℤ → State Address → State Address
  set_current_time now s = record s { tv = now }

  -- The getters.
  abbrev pub get_type : State Address → StateType
  get_type s = s.type

  abbrev pub get_ttl : State Address → ℕ
  get_ttl s = s.ttl

  abbrev pub get_src_host : State Address → Address
  get_src_host s = s.src_host

  abbrev pub get_src_port : State Address → ℕ
  get_src_port s = s.src_port

  abbrev pub get_dest_host : State Address → Address
  get_dest_host s = s.dest_host

  abbrev pub get_dest_port : State Address → ℕ
  get_dest_port s = s.dest_port

  abbrev pub get_sequence_number : State Address → ℕ
  get_sequence_number s = s.sequence_number

  abbrev pub get_pid : State Address → ℕ
  get_pid s = s.pid

  abbrev pub get_tv : State Address → ℤ
  get_tv s = s.tv

  -- duration_cast<seconds>
  unfoldable pub get_seconds : State Address → ℤ
  get_seconds s = trunc_div s.tv (10 ^ 9)

  unfoldable pub get_microseconds : State Address → ℤ
  get_microseconds s =
      let seconds = trunc_div s.tv (10 ^ 9) in
      let remaining = s.tv -ℤ scale seconds (10 ^ 9) in trunc_div remaining 1000

  -- The constructor with six arguments; `drawn` is the number that the generator gives.
  unfoldable pub new : StateType → ℕ → Address → ℕ → Address → ℕ → ℕ → State Address
  new type ttl src_host src_port dest_host dest_port drawn = record {
    type = type;
    ttl = ttl;
    src_host = src_host;
    src_port = src_port;
    dest_host = dest_host;
    dest_port = dest_port;
    sequence_number = 0;
    pid = drawn;
    tv = pos 0;
  }

  -- The constructor with nine arguments.
  unfoldable pub new_with : StateType → ℕ → Address → ℕ → Address → ℕ → ℕ → ℕ → ℤ → State Address
  new_with type ttl src_host src_port dest_host dest_port sequence_number pid tv = record {
    type = type;
    ttl = ttl;
    src_host = src_host;
    src_port = src_port;
    dest_host = dest_host;
    dest_port = dest_port;
    sequence_number = sequence_number;
    pid = pid;
    tv = tv;
  }

  -- Everything in front of the hosts, and everything behind them.
  unfoldable pub serialize_head : Endian → State Address → List ℕ
  serialize_head native s =
      version
      ++ (to_underlying s.type
          ∷ (to_byte_array native 1 (to_bigendian native 1 s.ttl) ++ (0 ∷ 0 ∷ [])))

  unfoldable pub serialize_tail : Endian → State Address → List ℕ
  serialize_tail native s =
      to_byte_array native 4 (to_bigendian native 4 s.sequence_number)
      ++ (to_byte_array native 4 (to_bigendian native 4 s.pid)
          ++ (to_byte_array native 8 (to_bigendian native 8 (to_u64 (get_seconds s)))
              ++ to_byte_array native 8 (to_bigendian native 8 (to_u64 (get_microseconds s)))))

module _ (api : Asio) where
  -- The default constructor.
  unfoldable pub default_state : State api.Address
  default_state = record {
    type = sender;
    ttl = 0;
    src_host = api.unspecified;
    src_port = 0;
    dest_host = api.unspecified;
    dest_port = 0;
    sequence_number = 0;
    pid = 0;
    tv = pos 0;
  }

  -- One host of the packet: the same three branches stand in `serialize` for each host, with
  -- another message.
  unfoldable pub serialize_host : Endian → api.Address → ℕ → String → Outcome (List ℕ)
  serialize_host native host port message =
      if api.is_v6 host
      then (do
        v6 ← api.to_v6 host
        returned (ipv6_to_sockaddr_storage native (api.v6_to_bytes v6) port))
      else if api.is_v4 host
      then (do
        v4 ← api.to_v4 host
        returned (ipv4_to_sockaddr_storage native (api.v4_to_bytes v4) port))
      else thrown (invalid_argument message)

  unfoldable pub serialize : Endian → State api.Address → Outcome (List ℕ)
  serialize native s = do
    source ← serialize_host native s.src_host s.src_port "Invalid source address"
    destination ← serialize_host native s.dest_host s.dest_port "Invalid destination address"
    returned (serialize_head native s ++ (source ++ (destination ++ serialize_tail native s)))
