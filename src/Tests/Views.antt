-- ===== src/Tests/Views.antt =====
-- What packets show, and states that share a packet.
use mping_sender_mirror.Prelude.{◌≡◌, ◌↔◌, refl, inl, inr, arith}
use mping_sender_mirror.Prelude.Int.{pos}
use mping_sender_mirror.Prelude.Outcome.{returned}
use mping_sender_mirror.Asio.{HostAddress, concrete, concrete-IsDocumented}
use mping_sender_mirror.Network.{little, big}
use mping_sender_mirror.State.{State, serialize, get_seconds, get_microseconds}
use mping_sender_mirror.State.View.{view}
use mping_sender_mirror.State.Format.{Agrees, drawn_packet, serialize-drawn_packet}
use mping_sender_mirror.State.Wire.{IsSendable, serialize-iff-view}
use mping_sender_mirror.Tests.Samples.{sample, sample_v4}

-- The sample, less than a microsecond later.
abbrev later : State HostAddress
later = record sample { tv = pos 999 }

sample-IsSendable : IsSendable concrete sample
sample-IsSendable = record { valid = omega arith; src = inl refl; dest = inl refl }

later-IsSendable : IsSendable concrete later
later-IsSendable = record { valid = omega arith; src = inl refl; dest = inl refl }

sample_v4-IsSendable : IsSendable concrete sample_v4
sample_v4-IsSendable = record { valid = omega arith; src = inr refl; dest = inr refl }

serialize-drawn_packet_example :
    (serialize concrete big sample_v4 ≡ returned (drawn_packet (view concrete sample_v4)))
    ↔ (Agrees (view concrete sample_v4).source × Agrees (view concrete sample_v4).destination)
serialize-drawn_packet_example =
    serialize-drawn_packet concrete-IsDocumented big sample_v4 sample_v4-IsSendable

-- The packet of IPv6 hosts is the one that is drawn.
serialize_drawn : serialize concrete big sample ≡ returned (drawn_packet (view concrete sample))
serialize_drawn =
    (serialize-drawn_packet concrete-IsDocumented big sample sample-IsSendable).1
      (inl refl, inl refl)

serialize-iff-view_example :
    (serialize concrete little sample ≡ serialize concrete big later)
    ↔ (view concrete sample ≡ view concrete later)
serialize-iff-view_example =
    serialize-iff-view concrete-IsDocumented little big sample later sample-IsSendable
      later-IsSendable

-- The packet does not show the difference.
same_view : view concrete sample ≡ view concrete later
unfolding get_seconds get_microseconds
same_view = refl

same_packet : serialize concrete little sample ≡ serialize concrete big later
same_packet =
    (serialize-iff-view concrete-IsDocumented little big sample later sample-IsSendable
        later-IsSendable).1
      same_view
