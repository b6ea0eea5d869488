-- ===== src/Sender/Progress.antt =====
-- The sender on a system without errors: every call of its timer sends.
-- Code: src/mping_sender.cpp and src/multicast_tx_socket.cpp.
use mping_sender_mirror.Prelude.{
  ℕ, suc, ◌+◌, ◌≡◌, refl, ap, true, List, [], ◌∷◌, Option, none, some, length, All, arith,
}
use mping_sender_mirror.Prelude.Int.{is_zero}
use mping_sender_mirror.Prelude.Outcome.{returned}
use mping_sender_mirror.Asio.Api.{Asio, IsDocumented}
use mping_sender_mirror.Network.{Endian}
use mping_sender_mirror.Runtime.{trace, packet_sent, Endpoint, Env, History}
use mping_sender_mirror.Runtime.Monad.{said, Action}
use mping_sender_mirror.Socket.Completion.{on_sent_fine}
use mping_sender_mirror.State.{State}
use mping_sender_mirror.State.Host.{IsHost}
use mping_sender_mirror.Sender.{Sender}
use mping_sender_mirror.Sender.Steps.{restart}
use mping_sender_mirror.Sender.Loop.{datagrams, IsFatal, Inv}
use mping_sender_mirror.Sender.Replay.{handle-Reach}
use mping_sender_mirror.Sender.Run.{Reach-Inv}
use mping_sender_mirror.Sender.Schedule.{Event, timer, sent, remove, finish_send, handle, run}
use mping_sender_mirror.Sender.Service.{tick}

abbrev pub error_code : Event → ℕ
error_code (timer ec) = ec
error_code (sent k ec) = ec

-- How often the timer fires.
abbrev pub firings : List Event → ℕ
firings [] = 0
firings (timer ec ∷ es) = suc (firings es)
firings (sent k ec ∷ es) = firings es

module _ (api : Asio) (env : Env api.Address) (native : Endian)
    (network_handler timer_handler : ℕ → Action api.Address (Unit {0}))
    (network_fatal : IsFatal network_handler) (timer_fatal : IsFatal timer_handler)
    (documented : IsDocumented api) (first : State api.Address) (endpoint : Endpoint api.Address)
    (src : IsHost api first.src_host) (dest : IsHost api first.dest_host)
    (settable : (h : History api.Address)
      → is_zero (restart api env native timer_handler h).result ≡ true) where
  -- A handler that returned, after which so many datagrams are there.
  abbrev Handled : Event → ℕ → Sender api.Address → History api.Address → Type 0
  Handled e count s h =
      (s' : Sender api.Address) × (h' : History api.Address) × (handle api env native
          network_handler timer_handler e s h
        ≡ (returned s', h'))
      × (length (datagrams h') ≡ count)

  timer-Handled :
      (s : Sender api.Address) (h : History api.Address)
      → Inv api env native network_handler timer_handler first endpoint s h
      → Handled (timer 0) (suc (length (datagrams h))) s h
  unfolding handle
  timer-Handled s h v =
      let (s', h', message, done, on_top, _) =
        tick api env native network_handler timer_handler network_fatal timer_fatal documented first
          endpoint s h src dest v (settable h) in
      (s', h', rw v.armed done, ap length on_top)

  finished :
      (s : Sender api.Address) (h : History api.Address) (o : Option (List (List ℕ)))
      → (s' : Sender api.Address) × (h' : History api.Address) × (finish_send api env native
            network_handler timer_handler 0 s o h
          ≡ (returned s', h'))
        × (datagrams h' ≡ datagrams h)
  finished s h none = (s, h, refl, refl)
  finished s h (some rest) = (
    record s { in_flight = rest },
    said env trace packet_sent h,
    rw (on_sent_fine api env network_handler h),
    refl,
  )

  sent-Handled :
      (k : ℕ) (s : Sender api.Address) (h : History api.Address)
      → Handled (sent k 0) (length (datagrams h)) s h
  unfolding handle
  sent-Handled k s h =
      let (s', h', done, same) = finished s h (remove k s.in_flight) in
      (s', h', done, ap length same)

  event-Handled :
      (e : Event) (s : Sender api.Address) (h : History api.Address)
      → error_code e ≡ 0
      → Inv api env native network_handler timer_handler first endpoint s h
      → Handled e (firings (e ∷ []) + length (datagrams h)) s h
  event-Handled (timer ec) s h fine v =
      let (s', h', done, count) = timer-Handled s h v in
      (s', h', rw fine done, omega (arith, count))
  event-Handled (sent k ec) s h fine v =
      let (s', h', done, count) = sent-Handled k s h in (s', h', rw fine done, omega (arith, count))

  firings-cons : (e : Event) (es : List Event) → firings (e ∷ es) ≡ firings es + firings (e ∷ [])
  firings-cons (timer ec) es = omega arith
  firings-cons (sent k ec) es = omega arith

  -- With Boost.Asio as documented, error handlers that always throw, hosts of the two families, and
  -- a timer that can always be set: from a state that satisfies the invariant, for every order of
  -- handler calls without an error code, the event loop returns, and it has handed the socket one
  -- more datagram for each time that the timer fired.
  pub run_progress :
      (es : List Event) (s : Sender api.Address) (h : History api.Address)
      → All (λ e. error_code e ≡ 0) es
      → Inv api env native network_handler timer_handler first endpoint s h
      → (s' : Sender api.Address) × (h' : History api.Address) × (run api env native network_handler
            timer_handler es s h
          ≡ (returned s', h'))
        × (length (datagrams h') ≡ firings es + length (datagrams h))
  unfolding run
  run_progress [] s h fine v = (s, h, refl, omega arith)
  run_progress (e ∷ es) s h fine v =
      let (s₁, h₁, done, one) = event-Handled e s h fine.0 v in
      let (s', h', rest, more) = run_progress es s₁ h₁ fine.1 (
        Reach-Inv api env native network_handler timer_handler network_fatal timer_fatal first
          endpoint s h s₁ h₁ v
          (handle-Reach api env native network_handler timer_handler e s s₁ h h₁ done)) in
      (s', h', rw done rest, omega (arith, one, more, firings-cons e es))
