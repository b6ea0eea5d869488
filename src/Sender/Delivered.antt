-- ===== src/Sender/Delivered.antt =====
-- The datagrams of the sender under the eyes of the plugin.
-- Code: src/mping_sender.cpp and wireshark/mping.lua.
use mping_sender_mirror.Prelude.{
  ℕ, ◌%◌, ◌^◌, ◌<◌, ◌≡◌, sym, ap, ◌∙◌, true, String, List, [], ◌∷◌, length, arith,
}
use mping_sender_mirror.Prelude.Int.{ℤ}
use mping_sender_mirror.Prelude.Outcome.{returned}
use mping_sender_mirror.Asio.Api.{Asio, IsDocumented}
use mping_sender_mirror.Network.{Endian}
use mping_sender_mirror.Runtime.{Endpoint, Env, History}
use mping_sender_mirror.Runtime.Monad.{Action}
use mping_sender_mirror.State.{State}
use mping_sender_mirror.State.Validity.{IsValid}
use mping_sender_mirror.Dissector.{
  NetAddress, HostItem, ipv4, ipv6, End, Tree, inet, inet6, dissect, dissected,
}
use mping_sender_mirror.Dissector.Parts.{Shows}
use mping_sender_mirror.Dissector.RoundTrip.{dissect-serialize_v6}
use mping_sender_mirror.Sender.{Sender, construct}
use mping_sender_mirror.Sender.Loop.{datagrams, readings, IsFatal, Reach, Counted}
use mping_sender_mirror.Sender.Construct.{construct-IsFresh}
use mping_sender_mirror.Sender.Service.{sender_counts}

-- The plugin's item for a host with the address and the port of the headers.
abbrev host_item : NetAddress → ℕ → HostItem
host_item (ipv6 a) port = inet6 port a
host_item (ipv4 a) port = inet port a

abbrev pub shown_host : End → HostItem
shown_host e = host_item e.address e.port

-- What the plugin shows of each datagram, the newest first: the fields of the first state with its
-- own sequence number and time, both hosts, and no fault.
abbrev pub Delivered :
    {Address : Type 0}
    → State Address
    → End
    → End
    → List (List ℕ × Endpoint Address)
    → List ℤ
    → Type 0
Delivered first src dst [] ts = Unit {0}
Delivered first src dst (d ∷ ds) [] = ⊥
Delivered first src dst (d ∷ ds) (t ∷ ts) =
    ((tree : Tree) × (dissect d.0 src dst ≡ dissected tree)
      × Shows (record first { sequence_number = length ds % 2 ^ 32; tv = t }) tree
      × (tree.source ≡ shown_host src)
      × (tree.destination ≡ shown_host dst)
      × (tree.experts ≡ []))
    × Delivered first src dst ds ts

same_bytes : {a b : List ℕ} → returned a ≡ returned b → a ≡ b
same_bytes e = cc

read_from :
    {a b : List ℕ} {tree : Tree} (src dst : End)
    → a ≡ b
    → dissect b src dst ≡ dissected tree
    → dissect a src dst ≡ dissected tree
read_from src dst e read = ap (λ (x : List ℕ). dissect x src dst) e ∙ read

module _ {api : Asio} (documented : IsDocumented api) (env : Env api.Address) (native : Endian)
    (network_handler timer_handler : ℕ → Action api.Address (Unit {0})) where
  pub Counted-Delivered :
      (first : State api.Address) (endpoint : Endpoint api.Address) (v w : api.V6)
      → api.is_v6 first.src_host ≡ true
      → api.to_v6 first.src_host ≡ returned v
      → api.is_v6 first.dest_host ≡ true
      → api.to_v6 first.dest_host ≡ returned w
      → IsValid first
      → (ds : List (List ℕ × Endpoint api.Address)) (ts : List ℤ)
      → Counted api env native network_handler timer_handler first endpoint ds ts
      → Delivered first
          (record { address = ipv6 (api.v6_to_bytes v); port = first.src_port })
          (record { address = ipv6 (api.v6_to_bytes w); port = first.dest_port })
          ds
          ts
  Counted-Delivered first endpoint v w six e six' e' valid [] ts c = tt
  Counted-Delivered first endpoint v w six e six' e' valid (d ∷ ds) [] c = absurd c
  Counted-Delivered first endpoint v w six e six' e' valid (d ∷ ds) (t ∷ ts) (written, _, rest) =
      let src : End = record { address = ipv6 (api.v6_to_bytes v); port = first.src_port } in
      let dst : End = record { address = ipv6 (api.v6_to_bytes w); port = first.dest_port } in
      let s : State api.Address = record first { sequence_number = length ds % 2 ^ 32; tv = t } in
      let (bytes, tree, sent, read, shown, source, destination, quiet) =
        dissect-serialize_v6 documented s v w six e six' e' (still_valid s valid) in
      (
        (
          tree,
          read_from src dst (same_bytes (sym written ∙ sent native)) read,
          shown,
          source,
          destination,
          quiet,
        ),
        Counted-Delivered first endpoint v w six e six' e' valid ds ts rest,
      )
    where
      still_valid :
          (s : State api.Address)
          → IsValid first
          → IsValid (record first { sequence_number = length ds % 2 ^ 32; tv = t })
      still_valid s valid = omega arith

  -- With Boost.Asio as documented, error handlers that always throw, and ports and a hop limit in
  -- the ranges of their types: if the constructor, called with no datagram sent and no clock read
  -- before, returns a sender whose source v and destination w are IPv6 addresses, then whatever is
  -- answered and in whatever order the timer fires and the sends finish, the plugin accepts each
  -- datagram, below headers with the same hosts, without a fault, and shows both hosts and the
  -- fields of the constructed state, but for the k-th one (from 0) the sequence number k modulo 2 ^
  -- 32 and the k-th reading of the clock.
  pub sender_delivers :
      IsFatal network_handler
      → IsFatal timer_handler
      → (bind_port port ttl : ℕ) → bind_port < 2 ^ 16
      → port < 2 ^ 16
      → ttl < 2 ^ 8
      → (bind_address address interface : String) (s s' : Sender api.Address)
        (h₀ h h' : History api.Address) (v w : api.V6)
      → datagrams h₀ ≡ []
      → readings h₀ ≡ []
      → construct api env native bind_address bind_port address port ttl interface h₀
        ≡ (returned s, h)
      → Reach api env native network_handler timer_handler s h s' h'
      → api.is_v6 s.state.src_host ≡ true
      → api.to_v6 s.state.src_host ≡ returned v
      → api.is_v6 s.state.dest_host ≡ true
      → api.to_v6 s.state.dest_host ≡ returned w
      → Delivered s.state
          (record { address = ipv6 (api.v6_to_bytes v); port = s.state.src_port })
          (record { address = ipv6 (api.v6_to_bytes w); port = s.state.dest_port })
          (datagrams h')
          (readings h')
  sender_delivers network_fatal timer_fatal bind_port port ttl p q t bind_address address interface
        s s' h₀ h h' v w d₀ c₀ made r six e six' e' =
      let (fresh, _, _) =
        construct-IsFresh api env native bind_port port ttl p q t bind_address address interface h₀
          h s made in
      let (_, counted) =
        sender_counts api env native network_handler timer_handler network_fatal timer_fatal
          bind_port port ttl p q t bind_address address interface s s' h₀ h h' d₀ c₀ made r in
      Counted-Delivered s.state _ v w six e six' e' fresh.valid (datagrams h') (readings h') counted
