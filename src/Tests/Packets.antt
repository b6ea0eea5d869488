-- ===== src/Tests/Packets.antt =====
-- Packets: their bytes, their round trip, and the states behind them.
use mping_sender_mirror.Prelude.{
  ℕ, ◌+◌, ◌-◌, ◌/◌, ◌%◌, ◌^◌, ◌<◌, ◌≡◌, ◌↔◌, refl, inl, List, [], ◌∷◌, ◌++◌, length, All, arith,
  replicate,
}
use mping_sender_mirror.Prelude.Int.{
  pos, negsuc, pos_part, neg_part, scale, trunc_div, ◌+ℤ◌, to_u64,
}
use mping_sender_mirror.Prelude.Outcome.{returned}
use mping_sender_mirror.Asio.{HostAddress, concrete, concrete-IsDocumented}
use mping_sender_mirror.Network.{
  byteswap, bit_cast, copy, advance, Endian, little, big, to_byte_array, to_bigendian,
  to_littleendian, ipv6_to_sockaddr_storage, ipv4_to_sockaddr_storage,
}
use mping_sender_mirror.Network.Bytes.{IsByte, big_bytes, little_bytes, from_little}
use mping_sender_mirror.Network.Layout.{image, sockaddr_storage_lem}
use mping_sender_mirror.Network.Portable.{to_byte_array_portable}
use mping_sender_mirror.State.{
  State, set_current_time, get_seconds, get_microseconds, serialize, serialize_host, serialize_head,
  serialize_tail,
}
use mping_sender_mirror.State.Clock.{time_shown}
use mping_sender_mirror.State.Packet.{serialize-returns}
use mping_sender_mirror.State.Sequence.{advance_seq, advance_seq_period}
use mping_sender_mirror.State.Validity.{IsValid}
use mping_sender_mirror.Dissector.{
  Tree, inet6, inet, dissect, dissected, slice, mismatch_source_host_address,
  mismatch_destination_host_address,
}
use mping_sender_mirror.Dissector.Parts.{Shows}
use mping_sender_mirror.Dissector.RoundTrip
use mping_sender_mirror.Dissector.RoundTrip.{dissect-serialize_v6}
use mping_sender_mirror.Dissector.Ipv4
use mping_sender_mirror.Dissector.Ipv4.{dissect-serialize_v4}
use mping_sender_mirror.Tests.Samples.{unicast, multicast, sample, sample_v4}

sample-IsValid : IsValid sample
sample-IsValid = omega arith

sample_v4-IsValid : IsValid sample_v4
sample_v4-IsValid = omega arith

-- The bytes of the head, the ports and the tail of the sample.
serialized :
    serialize concrete little sample
    ≡ returned (
        (b'2' ∷ b'.' ∷ b'0' ∷ 0 ∷ b's' ∷ 64 ∷ 0 ∷ 0 ∷ [])
        ++ ((10 ∷ 0 ∷ 16 ∷ 225 ∷ 0 ∷ 0 ∷ 0 ∷ 0 ∷ []) ++ big_bytes 16 unicast ++ replicate 104 0)
        ++ ((10 ∷ 0 ∷ 16 ∷ 226 ∷ 0 ∷ 0 ∷ 0 ∷ 0 ∷ []) ++ big_bytes 16 multicast ++ replicate 104 0)
        ++ (replicate 4 0 ++ (0 ∷ 0 ∷ 0 ∷ 7 ∷ []) ++ replicate 16 0))
unfolding serialize serialize_host serialize_head serialize_tail to_byte_array to_bigendian
    to_littleendian byteswap bit_cast copy advance ipv6_to_sockaddr_storage big_bytes little_bytes
    from_little get_seconds get_microseconds
serialized = refl

serialize-returns_example :
    (packet : List ℕ) × ((native : Endian) → serialize concrete native sample ≡ returned packet)
    × (length packet ≡ 288)
    × All IsByte packet
serialize-returns_example = serialize-returns concrete-IsDocumented sample (inl refl) (inl refl)

dissect-serialize_v6_example :
    (bytes : List ℕ) × (t : Tree) × ((native : Endian)
      → serialize concrete native sample ≡ returned bytes)
    × (dissect bytes
          (RoundTrip.src_end concrete-IsDocumented sample unicast multicast)
          (RoundTrip.dst_end concrete-IsDocumented sample unicast multicast)
        ≡ dissected t)
    × Shows sample t
    × (t.source ≡ inet6 4321 (big_bytes 16 unicast))
    × (t.destination ≡ inet6 4322 (big_bytes 16 multicast))
    × (t.experts ≡ [])
dissect-serialize_v6_example =
    dissect-serialize_v6 concrete-IsDocumented sample unicast multicast refl refl refl refl
      sample-IsValid

dissect-serialize_v4_example :
    (bytes : List ℕ) × (t : Tree) × ((native : Endian)
      → serialize concrete native sample_v4 ≡ returned bytes)
    × (dissect bytes
          (Ipv4.src_end concrete-IsDocumented sample_v4 0xc000_0201 0xe000_0001)
          (Ipv4.dst_end concrete-IsDocumented sample_v4 0xc000_0201 0xe000_0001)
        ≡ dissected t)
    × Shows sample_v4 t
    × (t.source ≡ inet 4321 (replicate 4 0))
    × (t.destination ≡ inet 4322 (replicate 4 0))
    × (t.experts ≡ mismatch_source_host_address ∷ mismatch_destination_host_address ∷ [])
    × (slice bytes 16 4 ≡ big_bytes 4 0xc000_0201)
unfolding big_bytes little_bytes
dissect-serialize_v4_example =
    dissect-serialize_v4 concrete-IsDocumented sample_v4 0xc000_0201 0xe000_0001 refl refl refl refl
      refl refl refl refl sample_v4-IsValid

-- At the last sequence number, one further call starts again from 0.
abbrev last : State HostAddress
last = record sample { sequence_number = 2 ^ 32 - 1 }

-- 1.5 microseconds before the epoch.
abbrev early : State HostAddress
early = record sample { tv = negsuc 1499 }

advance_seq_period_example :
    (advance_seq 5 last ≡ record last { sequence_number = (2 ^ 32 - 1 + 5) % 2 ^ 32 })
    × (((advance_seq 5 last).sequence_number ≡ 2 ^ 32 - 1) ↔ (5 % 2 ^ 32 ≡ 0))
advance_seq_period_example = advance_seq_period 5 last (omega arith)

time_shown_example :
    (scale (get_seconds early) (10 ^ 6) +ℤ get_microseconds early ≡ trunc_div (negsuc 1499) 1000)
    × (pos_part (get_microseconds early) < 10 ^ 6)
    × (neg_part (get_microseconds early) < 10 ^ 6)
    × (to_u64 (get_seconds (set_current_time (pos 72024973000) early)) ≡ 72024973000 / 10 ^ 9)
    × (to_u64 (get_microseconds (set_current_time (pos 72024973000) early))
        ≡ 72024973000 / 1000 % 10 ^ 6)
time_shown_example = time_shown early 72024973000 (omega arith)

to_byte_array_portable_example :
    (to_byte_array big 4 (to_bigendian big 4 0x01020304) ≡ big_bytes 4 0x01020304)
    × (to_byte_array big 4 (to_littleendian big 4 0x01020304) ≡ little_bytes 4 0x01020304)
to_byte_array_portable_example = to_byte_array_portable big 4 0x01020304

sockaddr_storage_example :
    (ipv6_to_sockaddr_storage big (big_bytes 16 unicast) 4321
      ≡ image 10 4321 (big_bytes 16 unicast) 104)
    × (ipv4_to_sockaddr_storage big (192 ∷ 0 ∷ 2 ∷ 1 ∷ []) 4321
        ≡ image 2 4321 (192 ∷ 0 ∷ 2 ∷ 1 ∷ []) 116)
sockaddr_storage_example =
    sockaddr_storage_lem big 4321 (big_bytes 16 unicast) (192 ∷ 0 ∷ 2 ∷ 1 ∷ [])
      (concrete-IsDocumented.v6_length unicast) refl
