-- ===== src/Dissector/Plugin/Added.antt =====
-- The items that the dissector adds to the protocol tree: their labels, ranges and values.
-- Code: wireshark/mping.lua.
use mathlib.Core.List.{Memᴰ}
use mping_sender_mirror.Prelude.{ℕ, ◌+◌, ◌≤◌, ◌≡◌, Bool, String, List, [], ◌∷◌, if◌then◌else◌}
use mping_sender_mirror.Network.Bytes.{from_little, from_big}
use mping_sender_mirror.Dissector.{
  Tree, HostItem, inet6, inet, other_family, Dissection, ignored, other_version, dissected, slice,
  stringz,
}
use mping_sender_mirror.Dissector.Plugin.Declared.{
  ProtoField, f_version, f_type, f_ttl, f_source_host_family, f_source_host_ipv4,
  f_source_host_ipv6, f_source_host_port, f_destination_host_family, f_destination_host_ipv4,
  f_destination_host_ipv6, f_destination_host_port, f_sequence_number, f_pid, f_seconds,
  f_microseconds, fields,
}

-- What the first argument of `add` is: the protocol, a field, or (behind the range) a text.
pub data Label : Type 0 where
  protocol : Label
  field : ProtoField → Label
  title : String → Label

-- The value that is shown for a range: a number in network order (`add`) or in little-endian order
-- (`add_le`), the text in front of a zero, the bytes themselves, or none.
pub data Value : Type 0 where
  big little : ℕ → Value
  text bytes : List ℕ → Value
  none : Value

-- The calls of `add` on one tree, in their order: a label and buffer(from, size) with the value,
-- and the calls on the tree that it returns. The absolute time is a text without a range.
pub data Items : Type 0 where
  end : Items
  item : Label → ℕ → ℕ → Value → Items → Items → Items
  absolute_time : Items → Items

-- The calls on the tree of a host whose block is at `base`.
abbrev pub host_items : ℕ → ProtoField → ProtoField → ProtoField → ProtoField → HostItem → Items
host_items base family port v6 v4 (inet6 p a) =
    item (field family) base 2 (little 10) end
      (item (field port) (base + 2) 2 (big p) end (item (field v6) (base + 8) 16 (bytes a) end end))
host_items base family port v6 v4 (inet p a) =
    item (field family) base 2 (little 2) end
      (item (field port) (base + 2) 2 (big p) end (item (field v4) (base + 4) 4 (bytes a) end end))
host_items base family port v6 v4 (other_family f) = item (field family) base 2 (little f) end end

abbrev pub time_item : Bool → Items
time_item shown = if shown then absolute_time end else end

-- The calls on the tree of the time stamp.
abbrev pub timestamp_items : Tree → Items
timestamp_items t =
    item (field f_seconds) 272 8 (big t.seconds) end
      (item (field f_microseconds) 280 8 (big t.microseconds) end (time_item t.absolute_time))

-- The calls behind those of the hosts.
abbrev pub number_items : Tree → Items
number_items t = item (field f_sequence_number) 264 4 (bytes t.sequence_number) end (
    item (field f_pid) 268 4 (bytes t.pid) end
      (item (title "Timestamp") 272 16 none (timestamp_items t) end))

-- The calls for both hosts and those behind them.
abbrev pub body_items : Tree → Items
body_items t =
    item (title "Source Host") 8 128 none
      (host_items 8 f_source_host_family f_source_host_port f_source_host_ipv6 f_source_host_ipv4
        t.source)
      (item (title "Destination Host") 136 128 none
        (host_items 136 f_destination_host_family f_destination_host_port f_destination_host_ipv6
          f_destination_host_ipv4 t.destination)
        (number_items t))

-- The calls on `tree`, for a buffer of the length n.
abbrev pub items : ℕ → Dissection → Items
items n ignored = end
items n (other_version v) = item protocol 0 n none (item (field f_version) 0 4 (text v) end end) end
items n (dissected t) =
    item protocol 0 n none
      (item (field f_version) 0 4 (text (b'2' ∷ b'.' ∷ b'0' ∷ [])) end (
        item (field f_type) 4 1 (big t.type) end
          (item (field f_ttl) 5 1 (bytes t.ttl) end (body_items t))))
      end

abbrev pub IsDeclared : Label → Type 0
IsDeclared protocol = Unit {0}
IsDeclared (field f) = Memᴰ f fields
IsDeclared (title t) = Unit {0}

-- The value is what the range of the buffer holds.
abbrev pub IsRead : List ℕ → Value → Type 0
IsRead range (big n) = from_big 0 range ≡ n
IsRead range (little n) = from_little range ≡ n
IsRead range (text v) = stringz range ≡ v
IsRead range (bytes b) = range ≡ b
IsRead range none = Unit {0}

-- The items of one tree follow one another without overlap from `start` on and end by `stop`, and
-- those below an item lie in its range. Each field is declared, and each value is that of its range.
abbrev pub Fits : List ℕ → ℕ → ℕ → Items → Type 0
Fits buffer start stop end = start ≤ stop
Fits buffer start stop (item label from size value below behind) =
    (start ≤ from)
    × IsDeclared label
    × IsRead (slice buffer from size) value
    × Fits buffer from (from + size) below
    × Fits buffer (from + size) stop behind
Fits buffer start stop (absolute_time behind) = Fits buffer start stop behind
