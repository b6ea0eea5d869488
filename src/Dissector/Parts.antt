-- ===== src/Dissector/Parts.antt =====
-- The fixed fields of a packet that is a head, two hosts of 128 bytes and a tail.
-- Code: wireshark/mping.lua.
use mping_sender_mirror.Prelude.{
  ℕ, ◌+◌, ◌≡◌, ap, ◌∙◌, List, ◌++◌, length, length-append, take, drop, drop-append, arith,
}
use mping_sender_mirror.Prelude.Int.{to_u64}
use mping_sender_mirror.Network.Bytes.{big_bytes, from_big, from_big-big_bytes_lt}
use mping_sender_mirror.State.{State, to_underlying, get_seconds, get_microseconds}
use mping_sender_mirror.State.Clock.{to_u64-lt}
use mping_sender_mirror.State.Validity.{IsValid}
use mping_sender_mirror.State.Packet.{head_image, tail_image, length-head_image, length-tail_image}
use mping_sender_mirror.Dissector.{slice, stringz, End, Tree, dissect_tree, dissect, dissected}
use mping_sender_mirror.Dissector.Fields.{drop-add}

-- A tree that shows the fields of the state outside its hosts.
pub record Shows {Address : Type 0} (s : State Address) (t : Tree) : Type 0 where
  pub type_shown : t.type ≡ to_underlying s.type
  pub ttl_shown : from_big 0 t.ttl ≡ s.ttl
  pub sequence_number_shown : from_big 0 t.sequence_number ≡ s.sequence_number
  pub pid_shown : from_big 0 t.pid ≡ s.pid
  pub seconds_shown : t.seconds ≡ to_u64 (get_seconds s)
  pub microseconds_shown : t.microseconds ≡ to_u64 (get_microseconds s)

module _ {Address : Type 0} (s : State Address) (source destination : List ℕ) where
  abbrev pub packet : List ℕ
  packet = head_image s ++ (source ++ (destination ++ tail_image s))

  module _ (size : length source ≡ 128) (size' : length destination ≡ 128) where
    pub length-packet : length packet ≡ 288
    length-packet = omega (
      arith,
      length-append (head_image s) (source ++ (destination ++ tail_image s)),
      length-append source (destination ++ tail_image s),
      length-append destination (tail_image s),
      length-head_image s,
      length-tail_image s,
    )

    pub source_at : drop 8 packet ≡ source ++ (destination ++ tail_image s)
    source_at = drop-append (head_image s) _ 8 (length-head_image s)

    pub destination_at : drop 136 packet ≡ destination ++ tail_image s
    destination_at =
        drop-add 8 128 packet
        ∙ ap (drop 128) source_at
        ∙ drop-append source (destination ++ tail_image s) 128 size

    tail_at : drop 264 packet ≡ tail_image s
    tail_at =
        drop-add 136 128 packet
        ∙ ap (drop 128) destination_at
        ∙ drop-append destination (tail_image s) 128 size'

    tail_field : (n size : ℕ) → slice packet (264 + n) size ≡ slice (tail_image s) n size
    tail_field n size = ap (take size) (drop-add 264 n packet ∙ ap (drop n) tail_at)

    sequence_number_read : slice packet 264 4 ≡ big_bytes 4 s.sequence_number
    unfolding big_bytes
    sequence_number_read = tail_field 0 4

    pid_read : slice packet 268 4 ≡ big_bytes 4 s.pid
    unfolding big_bytes
    pid_read = tail_field 4 4

    seconds_bytes : slice packet 272 8 ≡ big_bytes 8 (to_u64 (get_seconds s))
    unfolding big_bytes
    seconds_bytes = tail_field 8 8

    seconds_read : from_big 0 (slice packet 272 8) ≡ to_u64 (get_seconds s)
    seconds_read =
        ap (from_big 0) seconds_bytes
        ∙ from_big-big_bytes_lt 8 (to_u64 (get_seconds s)) (to_u64-lt (get_seconds s))

    microseconds_bytes : slice packet 280 8 ≡ big_bytes 8 (to_u64 (get_microseconds s))
    unfolding big_bytes
    microseconds_bytes = tail_field 16 8

    microseconds_read : from_big 0 (slice packet 280 8) ≡ to_u64 (get_microseconds s)
    microseconds_read =
        ap (from_big 0) microseconds_bytes
        ∙ from_big-big_bytes_lt 8 (to_u64 (get_microseconds s)) (to_u64-lt (get_microseconds s))

    -- The dissector accepts the length and the version.
    pub dissect-packet :
        (src dst : End) → dissect packet src dst ≡ dissected (dissect_tree packet src dst)
    unfolding dissect stringz
    dissect-packet src dst = rw length-packet

    pub dissect_tree-Shows : (src dst : End) → IsValid s → Shows s (dissect_tree packet src dst)
    unfolding dissect_tree big_bytes
    dissect_tree-Shows src dst v = record {
      type_shown = unfold from_big in omega arith;
      ttl_shown = from_big-big_bytes_lt 1 s.ttl v.ttl_u8;
      sequence_number_shown =
          ap (from_big 0) sequence_number_read
          ∙ from_big-big_bytes_lt 4 s.sequence_number v.sequence_number_u32;
      pid_shown = ap (from_big 0) pid_read ∙ from_big-big_bytes_lt 4 s.pid v.pid_u32;
      seconds_shown = seconds_read;
      microseconds_shown = microseconds_read;
    }
