-- ===== src/State/Packet.antt =====
-- The packet that `serialize` returns, and the exceptions that it throws.
-- Code: src/mping_state.cpp.
use mping_sender_mirror.Prelude.{
  ℕ, ◌≡◌, false, List, [], ◌∷◌, ◌++◌, length, length-append, All, All-append, arith,
}
use mping_sender_mirror.Prelude.Int.{to_u64}
use mping_sender_mirror.Prelude.Outcome.{returned, thrown, invalid_argument}
use mping_sender_mirror.Asio.Api.{Asio, IsDocumented}
use mping_sender_mirror.Network.{Endian}
use mping_sender_mirror.Network.Bytes.{IsByte, big_bytes, length-big_bytes, big_bytes-IsByte}
use mping_sender_mirror.Network.Portable.{to_byte_array-to_bigendian}
use mping_sender_mirror.State.{
  State, StateType, sender, receiver, to_underlying, version, serialize, serialize_host,
  serialize_head, serialize_tail, get_seconds, get_microseconds,
}
use mping_sender_mirror.State.Host.{IsHost, host_bytes, serialize_host_other}

type-IsByte : (t : StateType) → IsByte (to_underlying t)
type-IsByte sender = omega arith
type-IsByte receiver = omega arith

module _ {Address : Type 0} where
  -- The head and the tail of the packet in network order.
  abbrev pub head_image : State Address → List ℕ
  head_image s = version ++ (to_underlying s.type ∷ (big_bytes 1 s.ttl ++ (0 ∷ 0 ∷ [])))

  abbrev pub tail_image : State Address → List ℕ
  tail_image s =
      big_bytes 4 s.sequence_number
      ++ (big_bytes 4 s.pid
          ++ (big_bytes 8 (to_u64 (get_seconds s)) ++ big_bytes 8 (to_u64 (get_microseconds s))))

  serialize_head_lem :
      (native : Endian) (s : State Address) → serialize_head native s ≡ head_image s
  unfolding serialize_head
  serialize_head_lem native s = rw (to_byte_array-to_bigendian native 1 s.ttl)

  serialize_tail_lem :
      (native : Endian) (s : State Address) → serialize_tail native s ≡ tail_image s
  unfolding serialize_tail
  serialize_tail_lem native s = simp to_byte_array-to_bigendian

  pub length-head_image : (s : State Address) → length (head_image s) ≡ 8
  length-head_image s =
      omega (arith, length-append (big_bytes 1 s.ttl) (0 ∷ 0 ∷ []), length-big_bytes 1 s.ttl)

  pub length-tail_image : (s : State Address) → length (tail_image s) ≡ 24
  length-tail_image s = simp (length-append, length-big_bytes)

  head_image-IsByte : (s : State Address) → All IsByte (head_image s)
  head_image-IsByte s =
      All-append IsByte version (to_underlying s.type ∷ (big_bytes 1 s.ttl ++ (0 ∷ 0 ∷ [])))
        (omega arith)
        (
          type-IsByte s.type,
          All-append IsByte (big_bytes 1 s.ttl) _ (big_bytes-IsByte 1 s.ttl) (omega arith),
        )

  tail_image-IsByte : (s : State Address) → All IsByte (tail_image s)
  tail_image-IsByte s = All-append IsByte _ _ (big_bytes-IsByte 4 s.sequence_number) (
      All-append IsByte _ _ (big_bytes-IsByte 4 s.pid) (
        All-append IsByte _ _ (big_bytes-IsByte 8 (to_u64 (get_seconds s)))
          (big_bytes-IsByte 8 (to_u64 (get_microseconds s)))))

module _ (api : Asio) where
  -- Where both hosts can be written, the packet is the four parts in this order.
  pub serialize_parts :
      (native : Endian) (s : State api.Address) (source destination : List ℕ)
      → serialize_host api native s.src_host s.src_port "Invalid source address" ≡ returned source
      → serialize_host api native s.dest_host s.dest_port "Invalid destination address"
        ≡ returned destination
      → serialize api native s
        ≡ returned (head_image s ++ (source ++ (destination ++ tail_image s)))
  unfolding serialize
  serialize_parts native s source destination e f =
      rw (e, f, serialize_head_lem native s, serialize_tail_lem native s)

module _ {api : Asio} (documented : IsDocumented api) where
  -- With Boost.Asio as documented: if both hosts are IPv4 or IPv6 addresses, `serialize` returns
  -- exactly 288 bytes, the size that it reserves, each of them a byte, and the same ones on a
  -- little-endian and on a big-endian host.
  pub serialize-returns :
      (s : State api.Address)
      → IsHost api s.src_host
      → IsHost api s.dest_host
      → (packet : List ℕ) × ((native : Endian) → serialize api native s ≡ returned packet)
        × (length packet ≡ 288)
        × All IsByte packet
  serialize-returns s src dest =
      let (source, (written, size, bytes)) = host_bytes documented s.src_host s.src_port src in
      let (destination, (written', size', bytes')) =
        host_bytes documented s.dest_host s.dest_port dest in
      (
        head_image s ++ (source ++ (destination ++ tail_image s)),
        (λ native.
            serialize_parts api native s source destination (written native _) (written' native _)),
        omega (
          arith,
          length-append (head_image s) (source ++ (destination ++ tail_image s)),
          length-append source (destination ++ tail_image s),
          length-append destination (tail_image s),
          length-head_image s,
          length-tail_image s,
        ),
        All-append IsByte (head_image s) _ (head_image-IsByte s) (
            All-append IsByte source _ bytes
              (All-append IsByte destination _ bytes' (tail_image-IsByte s))),
      )

  -- A source host of neither family is refused with its message, whatever the destination is.
  pub serialize_invalid_source :
      (native : Endian) (s : State api.Address)
      → api.is_v6 s.src_host ≡ false
      → api.is_v4 s.src_host ≡ false
      → serialize api native s ≡ thrown (invalid_argument "Invalid source address")
  unfolding serialize
  serialize_invalid_source native s six four =
      rw (serialize_host_other api native s.src_host s.src_port _ six four)

  -- If the source host is an IPv4 or IPv6 address, a destination host of neither family is refused
  -- with the other message.
  pub serialize_invalid_destination :
      (native : Endian) (s : State api.Address)
      → IsHost api s.src_host
      → api.is_v6 s.dest_host ≡ false
      → api.is_v4 s.dest_host ≡ false
      → serialize api native s ≡ thrown (invalid_argument "Invalid destination address")
  unfolding serialize
  serialize_invalid_destination native s src six four =
      let (source, (written, _, _)) = host_bytes documented s.src_host s.src_port src in
      rw (written native _, serialize_host_other api native s.dest_host s.dest_port _ six four)
