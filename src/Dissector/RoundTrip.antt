-- ===== src/Dissector/RoundTrip.antt =====
-- The plugin on the packets of IPv6 hosts.
-- Code: wireshark/mping.lua.
use mping_sender_mirror.Prelude.{
  ℕ, ◌≡◌, refl, ap, true, false, ◌&&◌, List, [], ◌∷◌, ◌++◌, length, arith, ◌==◌, ==_iff,
}
use mping_sender_mirror.Prelude.Outcome.{returned}
use mping_sender_mirror.Asio.Api.{Asio, IsDocumented}
use mping_sender_mirror.Network.{Endian}
use mping_sender_mirror.Network.Bytes.{from_big}
use mping_sender_mirror.Network.Layout.{image, length-image}
use mping_sender_mirror.State.{State, StateType, sender, receiver, to_underlying, serialize}
use mping_sender_mirror.State.Validity.{IsValid}
use mping_sender_mirror.State.Host.{serialize_host_v6}
use mping_sender_mirror.State.Packet.{serialize_parts}
use mping_sender_mirror.Dissector.{
  ipv6, End, Tree, inet6, dissect, dissected, dissect_tree, report, differs, depracated_version,
}
use mping_sender_mirror.Dissector.Fields.{dissect_host_v6, bytes_eq_refl}
use mping_sender_mirror.Dissector.Parts.{
  Shows, packet, source_at, destination_at, dissect-packet, dissect_tree-Shows,
}

pub type_known :
    (t : StateType)
    → differs (from_big 0 (to_underlying t ∷ []) == b's')
        && differs (from_big 0 (to_underlying t ∷ []) == b'r')
      ≡ false
unfolding from_big
type_known sender = refl
type_known receiver = refl

pub port_agrees : (p : ℕ) → differs (p == p) ≡ false
port_agrees p = rw ((==_iff p p).1 refl)

module _ {api : Asio} (documented : IsDocumented api) (s : State api.Address) (v w : api.V6) where
  -- The headers above a packet that really goes from the source to the destination.
  abbrev pub src_end : End
  src_end = record { address = ipv6 (api.v6_to_bytes v); port = s.src_port }

  abbrev pub dst_end : End
  dst_end = record { address = ipv6 (api.v6_to_bytes w); port = s.dest_port }

  abbrev source : List ℕ
  source = image 10 s.src_port (api.v6_to_bytes v) 104

  abbrev destination : List ℕ
  destination = image 10 s.dest_port (api.v6_to_bytes w) 104

  abbrev tree : Tree
  tree = dissect_tree (packet s source destination) src_end dst_end

  source_size : length source ≡ 128
  source_size =
      omega (arith, length-image 10 s.src_port (api.v6_to_bytes v) 104, documented.v6_length v)

  destination_size : length destination ≡ 128
  destination_size =
      omega (arith, length-image 10 s.dest_port (api.v6_to_bytes w) 104, documented.v6_length w)

  hosts_shown :
      IsValid s
      → (tree.source ≡ inet6 s.src_port (api.v6_to_bytes v))
        × (tree.destination ≡ inet6 s.dest_port (api.v6_to_bytes w))
        × (tree.experts ≡ [])
  unfolding dissect_tree
  hosts_shown valid =
      let at_source = source_at s source destination source_size destination_size in
      let at_destination = destination_at s source destination source_size destination_size in
      rw
        (
          dissect_host_v6 _ _ _ 8 10 s.src_port 104 at_source src_end _ _ _ refl valid.src_port_u16
              (documented.v6_length v),
          dissect_host_v6 _ _ _ 136 10 s.dest_port 104 at_destination dst_end _ _ _ refl
              valid.dest_port_u16 (documented.v6_length w),
          port_agrees s.src_port,
          port_agrees s.dest_port,
          bytes_eq_refl (api.v6_to_bytes v),
          bytes_eq_refl (api.v6_to_bytes w),
        )
        (refl, refl, ap (λ b. report b depracated_version ++ []) (type_known s.type))

  -- With Boost.Asio as documented: for IPv6 hosts v and w, and fields in the ranges of their
  -- types, the plugin accepts the packet that `serialize` returns (on a host of either byte
  -- order), shows every field of the state with its value, both hosts with their ports and
  -- addresses, and, below headers with the same hosts, reports no fault.
  pub dissect-serialize_v6 :
      api.is_v6 s.src_host ≡ true
      → api.to_v6 s.src_host ≡ returned v
      → api.is_v6 s.dest_host ≡ true
      → api.to_v6 s.dest_host ≡ returned w
      → IsValid s
      → (bytes : List ℕ) × (t : Tree) × ((native : Endian)
          → serialize api native s ≡ returned bytes)
        × (dissect bytes src_end dst_end ≡ dissected t)
        × Shows s t
        × (t.source ≡ inet6 s.src_port (api.v6_to_bytes v))
        × (t.destination ≡ inet6 s.dest_port (api.v6_to_bytes w))
        × (t.experts ≡ [])
  dissect-serialize_v6 six e six' e' valid =
      let (shown, shown', quiet) = hosts_shown valid in
      (
        packet s source destination,
        tree,
        (λ native.
            serialize_parts api native s source destination
              (serialize_host_v6 documented native s.src_host s.src_port _ v six e)
              (serialize_host_v6 documented native s.dest_host s.dest_port _ w six' e')),
        dissect-packet s source destination source_size destination_size src_end dst_end,
        dissect_tree-Shows s source destination source_size destination_size src_end dst_end valid,
        shown,
        shown',
        quiet,
      )
