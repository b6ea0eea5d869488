-- ===== src/Sender/Service.antt =====
-- The sender from its construction on.
-- Code: src/mping_sender.cpp.
use mping_sender_mirror.Prelude.{
  ℕ, ◌%◌, ◌^◌, ◌<◌, ◌≡◌, refl, sym, ap, ◌∙◌, true, String, List, [], ◌∷◌, length,
}
use mping_sender_mirror.Prelude.Int.{is_zero}
use mping_sender_mirror.Prelude.Outcome.{returned}
use mping_sender_mirror.Asio.Api.{Asio, IsDocumented}
use mping_sender_mirror.Network.{Endian}
use mping_sender_mirror.Runtime.{Endpoint, Env, History}
use mping_sender_mirror.Runtime.Monad.{Action}
use mping_sender_mirror.State.{State, serialize}
use mping_sender_mirror.State.Host.{IsHost}
use mping_sender_mirror.State.Packet.{serialize-returns}
use mping_sender_mirror.Sender.{Sender, construct, on_timer}
use mping_sender_mirror.Sender.Steps.{restart, clock, fired, sent_history, on_timer_sends}
use mping_sender_mirror.Sender.Loop.{
  datagrams, readings, IsFatal, Step, timer_fires, Reach, Counted, Inv,
}
use mping_sender_mirror.Sender.Construct.{IsFresh, construct-IsFresh}
use mping_sender_mirror.Sender.Run.{stamped_lem, Reach-Inv}

module _ (api : Asio) (env : Env api.Address) (native : Endian)
    (network_handler timer_handler : ℕ → Action api.Address (Unit {0}))
    (network_fatal : IsFatal network_handler) (timer_fatal : IsFatal timer_handler) where
  pub fresh-Inv :
      {bind_port port ttl : ℕ} (s : Sender api.Address) (h : History api.Address)
      → IsFresh api env native bind_port port ttl s
      → datagrams h ≡ []
      → readings h ≡ []
      → Inv api env native network_handler timer_handler s.state s.endpoint s h
  fresh-Inv s h f d r = record {
    armed = f.armed;
    same_endpoint = refl;
    state = λ i. record s.state { sequence_number = number i };
    counted = rw (d, r) tt;
  }
    where
      number : s.state.sequence_number ≡ length (datagrams h) % 2 ^ 32
      number = f.first_number ∙ sym (ap (λ (n : ℕ). n % 2 ^ 32) (ap length d))

  -- For ports and a hop limit in the ranges of their types, and under error handlers that always
  -- throw: from the constructor on, called with no datagram sent and no clock read before,
  -- whatever is answered and in whatever order the timer fires and the sends finish, the timer
  -- stays armed exactly once, and the k-th datagram (from 0) is the packet of the constructed
  -- state with the sequence number k modulo 2 ^ 32 and the k-th reading of the clock, sent to the
  -- destination.
  pub sender_counts :
      (bind_port port ttl : ℕ)
      → bind_port < 2 ^ 16
      → port < 2 ^ 16
      → ttl < 2 ^ 8
      → (bind_address address interface : String) (s s' : Sender api.Address)
        (h₀ h h' : History api.Address)
      → datagrams h₀ ≡ []
      → readings h₀ ≡ []
      → construct api env native bind_address bind_port address port ttl interface h₀
        ≡ (returned s, h)
      → Reach api env native network_handler timer_handler s h s' h'
      → (s'.waits ≡ 1)
        × Counted api env native network_handler timer_handler s.state
            (record { address = s.state.dest_host; port = s.state.dest_port })
            (datagrams h')
            (readings h')
  sender_counts bind_port port ttl p q t bind_address address interface s s' h₀ h h' d₀ c₀ e r =
      let (fresh, d, c) =
        construct-IsFresh api env native bind_port port ttl p q t bind_address address interface h₀
          h s e in
      let v =
        Reach-Inv api env native network_handler timer_handler network_fatal timer_fatal s.state
          s.endpoint s h s' h' (fresh-Inv s h fresh (d ∙ d₀) (c ∙ c₀)) r in
      (v.armed, rw (← fresh.to_destination) v.counted)

  -- The firing itself.
  pub tick :
      IsDocumented api
      → (first : State api.Address) (endpoint : Endpoint api.Address) (s : Sender api.Address)
        (h : History api.Address)
      → IsHost api first.src_host
      → IsHost api first.dest_host
      → Inv api env native network_handler timer_handler first endpoint s h
      → is_zero (restart api env native timer_handler h).result ≡ true
      → (s' : Sender api.Address) × (h' : History api.Address) × (message : List ℕ) × (on_timer api
            env native timer_handler 0
            (record s { waits = 0 })
            h
          ≡ (returned s', h'))
        × (datagrams h' ≡ (message, endpoint) ∷ datagrams h)
        × (length message ≡ 288)
  tick documented first endpoint s h src dest v ready =
      let now = (clock api env native timer_handler h).result in
      let (message, written, size, _) =
        serialize-returns documented
          (record first { sequence_number = length (datagrams h) % 2 ^ 32; tv = now }) src dest in
      let idle : Sender api.Address = record s { waits = 0 } in
      let same =
        stamped_lem api env native network_handler timer_handler network_fatal timer_fatal first
          endpoint idle h (length (datagrams h) % 2 ^ 32) v.state in
      (
        fired api env native timer_handler idle message h,
        sent_history api env native timer_handler message s.endpoint h,
        message,
        on_timer_sends api env native timer_handler idle h message ready
            (ap (serialize api native) same ∙ written native),
        rw v.same_endpoint,
        size,
      )

  -- With Boost.Asio as documented, and error handlers that always throw: in a state that
  -- satisfies the invariant, with hosts of the two families, the firing of the timer is a step
  -- whenever the timer can be set anew: it hands the socket one more datagram, of 288 bytes, for
  -- the endpoint.
  pub sender_ticks :
      IsDocumented api
      → (first : State api.Address) (endpoint : Endpoint api.Address) (s : Sender api.Address)
        (h : History api.Address)
      → IsHost api first.src_host
      → IsHost api first.dest_host
      → Inv api env native network_handler timer_handler first endpoint s h
      → is_zero (restart api env native timer_handler h).result ≡ true
      → (s' : Sender api.Address) × (h' : History api.Address) × (message : List ℕ) × Step api env
          native network_handler timer_handler s h s' h'
        × (datagrams h' ≡ (message, endpoint) ∷ datagrams h)
        × (length message ≡ 288)
  sender_ticks documented first endpoint s h src dest v ready =
      let (s', h', message, done, sent, size) =
        tick documented first endpoint s h src dest v ready in
      (s', h', message, timer_fires 0 0 v.armed done, sent, size)
