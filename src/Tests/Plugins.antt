-- ===== src/Tests/Plugins.antt =====
-- A datagram of the whole program on a concrete table of dissectors.
use mping_sender_mirror.Prelude.{
  ℕ, ◌≡◌, refl, ◌==◌, ==_iff, if◌then◌else◌, false, List, [], ◌∷◌, Option, none, some, All, ◌↔◌,
  ◌≤◌, length,
}
use mping_sender_mirror.Prelude.Int.{pos}
use mping_sender_mirror.Prelude.Outcome.{Outcome, returned}
use mping_sender_mirror.Asio.{HostAddress, concrete, concrete-IsDocumented}
use mping_sender_mirror.Network.{
  little, to_byte_array, to_bigendian, to_littleendian, byteswap, bit_cast, copy, advance,
  ipv6_to_sockaddr_storage,
}
use mping_sender_mirror.Network.Bytes.{big_bytes, little_bytes, from_little, from_big}
use mping_sender_mirror.Runtime.{History}
use mping_sender_mirror.Runtime.Monad.{run_pair}
use mping_sender_mirror.Capability.{check_for_capabilites, lock, drop_all_capabilies}
use mping_sender_mirror.Landlock.{create, restrict_self, abi_version}
use mping_sender_mirror.Socket.{if_nametoindex, open_socket, send}
use mping_sender_mirror.State.{
  new, next_seq_no, set_current_time, serialize, serialize_host, serialize_head, serialize_tail,
  get_seconds, get_microseconds,
}
use mping_sender_mirror.Sender.{Sender, schedule_send, send_packet, on_timer, construct}
use mping_sender_mirror.Sender.Loop.{datagrams, readings, timer_fires, here, next}
use mping_sender_mirror.Sender.Delivered.{Delivered}
use mping_sender_mirror.Configuration.{configure, write, write_all}
use mping_sender_mirror.Configuration.Concrete.{concrete_options, given}
use mping_sender_mirror.Configuration.Concrete.Documented.{concrete_options-IsDocumented}
use mping_sender_mirror.Dissector.{
  ipv6 as v6, End, Tree, slice, stringz, dissect_host, dissect_tree, dissect, dissected,
}
use mping_sender_mirror.Dissector.Experts.{IsClean, dissect_silent}
use mping_sender_mirror.Dissector.Plugin.{
  Proto, DissectorTable, IsDocumented, mping_protocol, register,
}
use mping_sender_mirror.Main.{
  Build, error_handler, restrict_capabilities, restrict_landlock, sandbox, log_seccomp, log_build,
  startup,
}
use mping_sender_mirror.Main.Order.{full}
use mping_sender_mirror.Main.Program.Dissected.{datagrams_shown}
use mping_sender_mirror.Tests.Options.{garbage}
use mping_sender_mirror.Tests.Unit.{packet}
use mping_sender_mirror.Tests.Samples.{kernel, unicast, multicast, sample, group, started}

abbrev find : List (ℕ × Proto) → ℕ → Option Proto
find [] port = none
find ((n, p) ∷ t) port = if n == port then some p else find t port

abbrev udp_port : DissectorTable
udp_port = record {
  Table = List (ℕ × Proto);
  add = λ t port p. (port, p) ∷ t;
  add_for_decode_as = λ t p. t;
  dissector_of = find;
}

udp_port-IsDocumented : IsDocumented udp_port
udp_port-IsDocumented = record {
  added = λ t port p. rw ((==_iff port port).1 refl) refl;
  offered = λ t port p. refl;
}

-- A build without the filter, whose rules need not be followed here.
abbrev plain : Build
plain = record full { have_seccomp = false }

abbrev begun : Sender HostAddress
begun = record started {
  state = record sample { ttl = 53; dest_port = 4321 };
  endpoint = record group { port = 4321 };
}

abbrev beginning : Outcome (Sender HostAddress) × History HostAddress
beginning =
    startup concrete kernel (concrete_options false) little plain garbage ("--ttl" ∷ "5" ∷ []) []

begun_lem : beginning ≡ (returned begun, beginning.1)
unfolding startup sandbox restrict_capabilities check_for_capabilites lock drop_all_capabilies
    restrict_landlock create restrict_self abi_version configure write write_all log_build
    log_seccomp construct open_socket if_nametoindex schedule_send new
begun_lem = run_pair beginning (returned begun) refl

abbrev firing : Outcome (Sender HostAddress) × History HostAddress
firing = on_timer concrete kernel little error_handler 0 (record begun { waits = 0 }) beginning.1

abbrev bytes_of : Outcome (List ℕ) → List ℕ
bytes_of (returned bytes) = bytes
bytes_of _ = []

abbrev after_one : Sender HostAddress
after_one = record begun {
  state = record begun.state { sequence_number = 1; tv = pos 5000000000 };
  in_flight =
      bytes_of (serialize concrete little (record begun.state { tv = pos 5000000000 })) ∷ [];
}

fired_lem : firing ≡ (returned after_one, firing.1)
unfolding on_timer schedule_send send_packet send set_current_time next_seq_no serialize
    serialize_host serialize_head serialize_tail to_byte_array to_bigendian to_littleendian byteswap
    bit_cast copy advance ipv6_to_sockaddr_storage big_bytes little_bytes from_little get_seconds
    get_microseconds
fired_lem = run_pair firing (returned after_one) refl

datagrams_shown_example :
    All
      (λ d. udp_port.dissector_of (register udp_port []) d.1.port ≡ some mping_protocol)
      (datagrams firing.1)
    × Delivered begun.state
        (record { address = v6 (big_bytes 16 unicast); port = 4321 })
        (record { address = v6 (big_bytes 16 multicast); port = 4321 })
        (datagrams firing.1)
        (readings firing.1)
datagrams_shown_example =
    datagrams_shown concrete-IsDocumented kernel (concrete_options false) little plain given
      (concrete_options-IsDocumented false) udp_port udp_port-IsDocumented garbage
      ("--ttl" ∷ "5" ∷ []) begun after_one beginning.1 firing.1 [] unicast multicast refl begun_lem
      (next here (timer_fires 0 0 refl fired_lem)) refl refl refl refl

-- The ends of the packet of the unit test, whose source port is 0.
abbrev source_end : End
source_end = record { address = v6 (big_bytes 16 unicast); port = 0 }

abbrev destination_end : End
destination_end = record { address = v6 (big_bytes 16 multicast); port = 4321 }

dissect_silent_example :
    ((tree : Tree) × (dissect packet source_end destination_end ≡ dissected tree)
      × (tree.experts ≡ []))
    ↔ ((288 ≤ length packet)
        × (stringz (slice packet 0 4) ≡ b'2' ∷ b'.' ∷ b'0' ∷ [])
        × IsClean packet source_end destination_end)
dissect_silent_example = dissect_silent packet source_end destination_end

dissect-packet : (dissect_tree packet source_end destination_end).experts ≡ []
unfolding dissect_tree dissect_host big_bytes from_little from_big
dissect-packet = refl
