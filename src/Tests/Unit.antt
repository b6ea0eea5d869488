-- ===== src/Tests/Unit.antt =====
-- The unit tests of MPingState.
-- Code: tests/mping_state_test.cpp.
use mping_sender_mirror.Prelude.{ℕ, ◌+◌, ◌-◌, ◌*◌, ◌^◌, ◌≡◌, refl, List, [], ◌∷◌, ◌++◌, replicate}
use mping_sender_mirror.Prelude.Int.{ℤ, pos}
use mping_sender_mirror.Prelude.Outcome.{returned}
use mping_sender_mirror.Asio.{HostAddress, concrete, ipv6}
use mping_sender_mirror.Network.{
  little, to_byte_array, to_bigendian, to_littleendian, byteswap, bit_cast, copy, advance,
  ipv6_to_sockaddr_storage,
}
use mping_sender_mirror.Network.Bytes.{big_bytes, little_bytes, from_little}
use mping_sender_mirror.State.{
  sender, receiver, max_u32, default_state, new, new_with, next_seq_no, serialize, serialize_host,
  serialize_head, serialize_tail, get_type, get_ttl, get_src_host, get_src_port, get_dest_host,
  get_dest_port, get_sequence_number, get_pid, get_tv, get_seconds, get_microseconds,
}

-- A time point of so many seconds and microseconds, in nanoseconds.
abbrev time_of : ℕ → ℕ → ℤ
time_of seconds microseconds = pos (seconds * 10 ^ 9 + microseconds * 1000)

abbrev addr1 : HostAddress
addr1 = ipv6 0xfd72_807b_8257_bd92_80a1_32a0_f13d_b46c

abbrev addr2 : HostAddress
addr2 = ipv6 0xfd72_807b_8257_bd92_80a1_32a0_f13d_b46d

initialize_empty :
    let state = default_state concrete in
    (get_type state ≡ sender)
    × (get_ttl state ≡ 0)
    × (get_src_host state ≡ concrete.unspecified)
    × (get_src_port state ≡ 0)
    × (get_dest_host state ≡ concrete.unspecified)
    × (get_dest_port state ≡ 0)
    × (get_sequence_number state ≡ 0)
    × (get_pid state ≡ 0)
    × (get_seconds state ≡ pos 0)
    × (get_microseconds state ≡ pos 0)
unfolding default_state get_seconds get_microseconds
initialize_empty = (refl, refl, refl, refl, refl, refl, refl, refl, refl, refl)

initialize_default :
    (drawn : ℕ)
    → let state = new sender 44 addr1 2579 addr2 5572 drawn in
      (get_type state ≡ sender)
      × (get_ttl state ≡ 44)
      × (get_src_host state ≡ addr1)
      × (get_src_port state ≡ 2579)
      × (get_dest_host state ≡ addr2)
      × (get_dest_port state ≡ 5572)
      × (get_sequence_number state ≡ 0)
      × (get_seconds state ≡ pos 0)
      × (get_microseconds state ≡ pos 0)
      × (get_type (new receiver 0 addr1 0 addr2 0 drawn) ≡ receiver)
unfolding new get_seconds get_microseconds
initialize_default drawn = (refl, refl, refl, refl, refl, refl, refl, refl, refl, refl)

abbrev time : ℤ
time = time_of 72 24973

initialize_with_custom_values :
    let state = new_with sender 45 addr1 2252 addr2 7597 77242255 59592343 time in
    (get_type state ≡ sender)
    × (get_ttl state ≡ 45)
    × (get_src_host state ≡ addr1)
    × (get_src_port state ≡ 2252)
    × (get_dest_host state ≡ addr2)
    × (get_dest_port state ≡ 7597)
    × (get_sequence_number state ≡ 77242255)
    × (get_pid state ≡ 59592343)
    × (get_tv state ≡ time)
    × (get_seconds state ≡ pos 72)
    × (get_microseconds state ≡ pos 24973)
    × (get_type (new_with receiver 45 addr1 2252 addr2 7597 77242255 59592343 time) ≡ receiver)
unfolding new_with get_seconds get_microseconds
initialize_with_custom_values =
    (refl, refl, refl, refl, refl, refl, refl, refl, refl, refl, refl, refl)

-- The packet that the test expects.
abbrev pub packet : List ℕ
packet =
    (50 ∷ 46 ∷ 48 ∷ 0 ∷ 115 ∷ 1 ∷ 0 ∷ 0 ∷ 10 ∷ [])
    ++ (replicate 7 0
        ++ ((253 ∷ 0 ∷ 142 ∷ 19 ∷ 206 ∷ 93 ∷ 0 ∷ 14 ∷ [])
            ++ (replicate 7 0
                ++ ((1 ∷ [])
                    ++ (replicate 104 0
                        ++ ((10 ∷ 0 ∷ 16 ∷ 225 ∷ 0 ∷ 0 ∷ 0 ∷ 0 ∷ 255 ∷ 46 ∷ [])
                            ++ (replicate 13 0
                                ++ ((66 ∷ [])
                                    ++ (replicate 107 0
                                        ++ ((3 ∷ 0 ∷ 6 ∷ 96 ∷ 144 ∷ 0 ∷ 0 ∷ 0 ∷ 0 ∷ 0 ∷ 2 ∷ 125 ∷ 97
                                            ∷ 0 ∷ 0 ∷ 0 ∷ 0 ∷ 0 ∷ 8 ∷ 115 ∷ 161 ∷ [])))))))))))

serialization :
    serialize concrete little (
      new_with sender 1
        (ipv6 0xfd00_8e13_ce5d_000e_0000_0000_0000_0001)
        0
        (ipv6 0xff2e_0000_0000_0000_0000_0000_0000_0042)
        4321
        3
        417936
        (time_of 163169 553889))
    ≡ returned packet
unfolding new_with serialize serialize_host serialize_head serialize_tail to_byte_array to_bigendian
    to_littleendian byteswap bit_cast copy advance ipv6_to_sockaddr_storage big_bytes little_bytes
    from_little get_seconds get_microseconds
serialization = refl

next_seq_no_increment :
    let state = default_state concrete in
    (next_seq_no state ≡ record state { sequence_number = 1 })
    × (next_seq_no (next_seq_no state) ≡ record state { sequence_number = 2 })
unfolding default_state next_seq_no
next_seq_no_increment = (refl, refl)

next_seq_no_increment_max :
    let state = new_with sender 45 addr1 2252 addr2 7597 (max_u32 - 2) 59592343 time in
    let second = next_seq_no state in
    let third = next_seq_no second in
    let fourth = next_seq_no third in
    let fifth = next_seq_no fourth in
    (get_sequence_number second ≡ max_u32 - 1)
    × (get_sequence_number third ≡ max_u32)
    × (get_sequence_number fourth ≡ 0)
    × (get_sequence_number fifth ≡ 1)
    × (get_sequence_number (next_seq_no fifth) ≡ 2)
unfolding new_with next_seq_no
next_seq_no_increment_max = (refl, refl, refl, refl, refl)
