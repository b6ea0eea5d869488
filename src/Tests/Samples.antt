-- ===== src/Tests/Samples.antt =====
-- The states, senders and histories that the tests share.
use mping_sender_mirror.Prelude.{ℕ, []}
use mping_sender_mirror.Prelude.Int.{pos}
use mping_sender_mirror.Asio.{HostAddress, ipv4, ipv6}
use mping_sender_mirror.Runtime.{Endpoint, Env}
use mping_sender_mirror.Seccomp.Concrete.{good}
use mping_sender_mirror.State.{State, sender}
use mping_sender_mirror.Sender.{Sender}

abbrev pub unicast : ℕ
unicast = 0xfd00_8e13_ce5d_000e_0000_0000_0000_0001

abbrev pub multicast : ℕ
multicast = 0xff2e_0000_0000_0000_0000_0000_0000_0042

abbrev pub sample : State HostAddress
sample = record {
  type = sender;
  ttl = 64;
  src_host = ipv6 unicast;
  src_port = 4321;
  dest_host = ipv6 multicast;
  dest_port = 4322;
  sequence_number = 0;
  pid = 7;
  tv = pos 0;
}

abbrev pub sample_v4 : State HostAddress
sample_v4 = record sample { src_host = ipv4 0xc000_0201; dest_host = ipv4 0xe000_0001 }

abbrev pub group : Endpoint HostAddress
group = record { address = ipv6 multicast; port = 4322 }

abbrev pub kernel : Env HostAddress
kernel = good

-- The sender that the constructor makes of the sample.
abbrev pub started : Sender HostAddress
started = record { state = sample; endpoint = group; waits = 1; in_flight = [] }
