-- ===== src/Dissector/Ipv4.antt =====
-- The plugin on the packets of IPv4 hosts.
-- Code: wireshark/mping.lua.
use mping_sender_mirror.Prelude.{
  ℕ, ◌≡◌, refl, ap, true, false, List, [], ◌∷◌, ◌++◌, length, replicate, arith,
}
use mping_sender_mirror.Prelude.Outcome.{returned}
use mping_sender_mirror.Asio.Api.{Asio, IsDocumented}
use mping_sender_mirror.Network.{Endian}
use mping_sender_mirror.Network.Layout.{image, length-image}
use mping_sender_mirror.State.{State, serialize}
use mping_sender_mirror.State.Validity.{IsValid}
use mping_sender_mirror.State.Host.{serialize_host_v4}
use mping_sender_mirror.State.Packet.{serialize_parts}
use mping_sender_mirror.Dissector.{
  bytes_eq, ipv4, End, Tree, inet, dissect, dissected, dissect_tree, report, depracated_version,
  mismatch_source_host_address, mismatch_destination_host_address, slice,
}
use mping_sender_mirror.Dissector.Fields.{dissect_host_v4, address_read}
use mping_sender_mirror.Dissector.RoundTrip.{type_known, port_agrees}
use mping_sender_mirror.Dissector.Parts.{
  Shows, packet, source_at, destination_at, dissect-packet, dissect_tree-Shows,
}

module _ {api : Asio} (documented : IsDocumented api) (s : State api.Address) (v w : api.V4) where
  abbrev pub src_end : End
  src_end = record { address = ipv4 (api.v4_to_bytes v); port = s.src_port }

  abbrev pub dst_end : End
  dst_end = record { address = ipv4 (api.v4_to_bytes w); port = s.dest_port }

  abbrev source : List ℕ
  source = image 2 s.src_port (api.v4_to_bytes v) 116

  abbrev destination : List ℕ
  destination = image 2 s.dest_port (api.v4_to_bytes w) 116

  abbrev tree : Tree
  tree = dissect_tree (packet s source destination) src_end dst_end

  source_size : length source ≡ 128
  source_size =
      omega (arith, length-image 2 s.src_port (api.v4_to_bytes v) 116, documented.v4_length v)

  destination_size : length destination ≡ 128
  destination_size =
      omega (arith, length-image 2 s.dest_port (api.v4_to_bytes w) 116, documented.v4_length w)

  hosts_shown :
      IsValid s
      → bytes_eq (replicate 4 0) (api.v4_to_bytes v) ≡ false
      → bytes_eq (replicate 4 0) (api.v4_to_bytes w) ≡ false
      → (tree.source ≡ inet s.src_port (replicate 4 0))
        × (tree.destination ≡ inet s.dest_port (replicate 4 0))
        × (tree.experts ≡ mismatch_source_host_address ∷ mismatch_destination_host_address ∷ [])
  unfolding dissect_tree
  hosts_shown valid other other' =
      let at_source = source_at s source destination source_size destination_size in
      let at_destination = destination_at s source destination source_size destination_size in
      rw
        (
          dissect_host_v4 _ _ _ 8 2 s.src_port 116 at_source src_end _ _ _ refl valid.src_port_u16,
          dissect_host_v4 _ _ _ 136 2 s.dest_port 116 at_destination dst_end _ _ _ refl
              valid.dest_port_u16,
          port_agrees s.src_port,
          port_agrees s.dest_port,
          other,
          other',
        )
        (
          refl,
          refl,
          ap
              (λ b.
                report b depracated_version
                ++ (mismatch_source_host_address ∷ mismatch_destination_host_address ∷ []))
              (type_known s.type),
        )

  -- The address of the source stands behind the four zeros, at byte 16 of the packet.
  source_at_16 : slice (packet s source destination) 16 4 ≡ api.v4_to_bytes v
  source_at_16 =
      address_read (packet s source destination) _ _ 8 2 s.src_port 116
        (source_at s source destination source_size destination_size) 4 (documented.v4_length v)

  -- With Boost.Asio as documented: for IPv4 hosts v and w other than 0.0.0.0, and fields in the
  -- ranges of their types, the plugin accepts the packet that `serialize` returns and shows the
  -- fields outside the hosts and both ports, but for either host it shows 0.0.0.0 in place of the
  -- address, and below headers with the same hosts it reports that both addresses differ. The
  -- address of the source is at byte 16 of the packet; the comments and the plugin have it at
  -- byte 12.
  pub dissect-serialize_v4 :
      api.is_v6 s.src_host ≡ false
      → api.is_v4 s.src_host ≡ true
      → api.to_v4 s.src_host ≡ returned v
      → api.is_v6 s.dest_host ≡ false
      → api.is_v4 s.dest_host ≡ true
      → api.to_v4 s.dest_host ≡ returned w
      → bytes_eq (replicate 4 0) (api.v4_to_bytes v) ≡ false
      → bytes_eq (replicate 4 0) (api.v4_to_bytes w) ≡ false
      → IsValid s
      → (bytes : List ℕ) × (t : Tree) × ((native : Endian)
          → serialize api native s ≡ returned bytes)
        × (dissect bytes src_end dst_end ≡ dissected t)
        × Shows s t
        × (t.source ≡ inet s.src_port (replicate 4 0))
        × (t.destination ≡ inet s.dest_port (replicate 4 0))
        × (t.experts ≡ mismatch_source_host_address ∷ mismatch_destination_host_address ∷ [])
        × (slice bytes 16 4 ≡ api.v4_to_bytes v)
  dissect-serialize_v4 six four e six' four' e' other other' valid =
      let (shown, shown', loud) = hosts_shown valid other other' in
      (
        packet s source destination,
        tree,
        (λ native.
            serialize_parts api native s source destination
              (serialize_host_v4 documented native s.src_host s.src_port _ v six four e)
              (serialize_host_v4 documented native s.dest_host s.dest_port _ w six' four' e')),
        dissect-packet s source destination source_size destination_size src_end dst_end,
        dissect_tree-Shows s source destination source_size destination_size src_end dst_end valid,
        shown,
        shown',
        loud,
        source_at_16,
      )
