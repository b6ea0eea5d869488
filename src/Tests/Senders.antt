-- ===== src/Tests/Senders.antt =====
-- The sender from its constructor on.
use mping_sender_mirror.Prelude.{◌+◌, ℕ, ◌≡◌, refl, inl, true, false, List, [], ◌∷◌, length, arith}
use mping_sender_mirror.Prelude.Int.{ℤ, pos, is_zero}
use mping_sender_mirror.Prelude.Outcome.{thrown, library_error, Outcome, returned}
use mping_sender_mirror.Asio.{HostAddress, concrete, concrete-IsDocumented}
use mping_sender_mirror.Network.{
  little, to_byte_array, to_bigendian, to_littleendian, byteswap, bit_cast, copy, advance,
  ipv6_to_sockaddr_storage,
}
use mping_sender_mirror.Network.Bytes.{big_bytes, little_bytes, from_little}
use mping_sender_mirror.Runtime.{
  log, info, bind_on, Env, Answer, Call, Endpoint, Env, History, calls, socket_open, reuse_address,
  outbound_interface, enable_loopback, hops, receive_buffer_size, bind,
}
use mping_sender_mirror.Runtime
use mping_sender_mirror.Socket.{if_nametoindex, open_socket, send}
use mping_sender_mirror.Socket.Order.{open_socket-calls}
use mping_sender_mirror.State.{
  new, next_seq_no, set_current_time, serialize, serialize_host, serialize_head, serialize_tail,
  get_seconds, get_microseconds,
}
use mping_sender_mirror.Sender.{Sender, schedule_send, send_packet, on_timer, construct}
use mping_sender_mirror.Sender.Loop.{
  datagrams, readings, Step, timer_fires, Reach, here, next, Counted, Inv,
}
use mping_sender_mirror.Sender.Construct.{IsFresh, construct-IsFresh}
use mping_sender_mirror.Dissector.{End, ipv6 as v6}
use mping_sender_mirror.Sender.Failing.{on_timer_silent}
use mping_sender_mirror.Sender.Pace.{seconds_set, sender_pace}
use mping_sender_mirror.Sender.Delivered.{Delivered, sender_delivers}
use mping_sender_mirror.Sender.Service.{sender_counts, sender_ticks}
use mping_sender_mirror.Main.{error_handler}
use mping_sender_mirror.Main.Exit.{error_handler-IsFatal}
use mping_sender_mirror.Tests.Samples.{unicast, multicast, sample, group, kernel, started}

abbrev at_start : Outcome (Sender HostAddress) × History HostAddress
at_start = construct concrete kernel little "fd00:8e13:ce5d:e::1" 4321 "ff2e::42" 4322 64 "eth0" []

started_lem : at_start ≡ (returned started, at_start.1)
unfolding construct open_socket if_nametoindex schedule_send new
started_lem = refl

-- The first firing of the timer.
abbrev one_firing : Outcome (Sender HostAddress) × History HostAddress
one_firing =
    on_timer concrete kernel little error_handler 0 (record started { waits = 0 }) at_start.1

abbrev bytes_of : Outcome (List ℕ) → List ℕ
bytes_of (returned bytes) = bytes
bytes_of _ = []

abbrev after_one : Sender HostAddress
after_one = record started {
  state = record sample { sequence_number = 1; tv = pos 5000000000 };
  in_flight = bytes_of (serialize concrete little (record sample { tv = pos 5000000000 })) ∷ [];
}

fired_lem : one_firing ≡ (returned after_one, one_firing.1)
unfolding on_timer schedule_send send_packet send set_current_time next_seq_no serialize
    serialize_host serialize_head serialize_tail to_byte_array to_bigendian to_littleendian byteswap
    bit_cast copy advance ipv6_to_sockaddr_storage big_bytes little_bytes from_little get_seconds
    get_microseconds
fired_lem = refl

first_sent : datagrams at_start.1 ≡ []
unfolding construct open_socket if_nametoindex schedule_send new
first_sent = refl

reached :
    Reach concrete kernel little error_handler error_handler started at_start.1 after_one
      one_firing.1
reached = next here (timer_fires 0 0 refl fired_lem)

sender_counts_example :
    (after_one.waits ≡ 1)
    × Counted concrete kernel little error_handler error_handler sample group
        (datagrams one_firing.1)
        (readings one_firing.1)
sender_counts_example =
    sender_counts concrete kernel little error_handler error_handler error_handler-IsFatal
      error_handler-IsFatal 4321 4322 64 (omega arith) (omega arith) (omega arith)
      "fd00:8e13:ce5d:e::1" "ff2e::42" "eth0" started after_one [] at_start.1 one_firing.1 refl refl
      started_lem reached

pub started-Inv : Inv concrete kernel little error_handler error_handler sample group started []
started-Inv = record { armed = refl; same_endpoint = refl; state = refl; counted = tt }

sender_ticks_example :
    (s : Sender HostAddress) × (h : History HostAddress) × (message : List ℕ) × Step concrete kernel
      little error_handler error_handler started [] s h
    × (datagrams h ≡ (message, group) ∷ [])
    × (length message ≡ 288)
sender_ticks_example =
    sender_ticks concrete kernel little error_handler error_handler error_handler-IsFatal
      error_handler-IsFatal concrete-IsDocumented sample group started [] (inl refl) (inl refl)
      started-Inv refl

construct-IsFresh_example :
    IsFresh concrete kernel little 4321 4322 64 started
    × (datagrams at_start.1 ≡ [])
    × (readings at_start.1 ≡ [])
construct-IsFresh_example =
    construct-IsFresh concrete kernel little 4321 4322 64 (omega arith) (omega arith) (omega arith)
      "fd00:8e13:ce5d:e::1" "ff2e::42" "eth0" [] at_start.1 started started_lem

abbrev opening : Outcome (Unit {0}) × History HostAddress
opening = open_socket concrete kernel group 64 "eth0" []

opening_lem : opening.0 ≡ returned tt
unfolding open_socket if_nametoindex
opening_lem = refl

open_socket-calls_example :
    (index : ℤ) × (is_zero index ≡ false)
    × (calls opening.1
        ≡ bind group
          ∷ log info (bind_on group)
          ∷ receive_buffer_size 0
          ∷ hops 64
          ∷ enable_loopback true
          ∷ outbound_interface index
          ∷ Runtime.if_nametoindex "eth0"
          ∷ reuse_address true
          ∷ socket_open false
          ∷ [])
open_socket-calls_example = open_socket-calls concrete kernel group 64 "eth0" [] opening_lem

abbrev source_end : End
source_end = record { address = v6 (big_bytes 16 unicast); port = 4321 }

abbrev destination_end : End
destination_end = record { address = v6 (big_bytes 16 multicast); port = 4322 }

sender_delivers_example :
    Delivered sample source_end destination_end (datagrams one_firing.1) (readings one_firing.1)
sender_delivers_example =
    sender_delivers concrete-IsDocumented kernel little error_handler error_handler
      error_handler-IsFatal error_handler-IsFatal 4321 4322 64 (omega arith) (omega arith)
      (omega arith) "fd00:8e13:ce5d:e::1" "ff2e::42" "eth0" started after_one [] at_start.1
      one_firing.1 unicast multicast refl refl started_lem reached refl refl refl refl

-- A system on which the timer cannot be set.
abbrev stuck : Env HostAddress
stuck = record kernel { answer = λ h c. record { result = pos 1; errno = 4 } }

stuck_lem : (on_timer concrete stuck little error_handler 0 started []).0 ≡ thrown (library_error 4)
unfolding on_timer schedule_send
stuck_lem = refl

on_timer_silent_example :
    datagrams (on_timer concrete stuck little error_handler 0 started []).1 ≡ []
on_timer_silent_example =
    on_timer_silent concrete stuck little error_handler started [] (library_error 4) stuck_lem

sender_pace_example :
    seconds_set one_firing.1 + length (datagrams at_start.1)
    ≡ seconds_set at_start.1 + length (datagrams one_firing.1)
sender_pace_example =
    sender_pace concrete kernel little error_handler error_handler error_handler-IsFatal
      error_handler-IsFatal started at_start.1 after_one one_firing.1 reached
