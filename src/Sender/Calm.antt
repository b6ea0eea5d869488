-- ===== src/Sender/Calm.antt =====
-- No handler of the event loop ends the process by std::exit.
-- Code: src/mping_sender.cpp, src/multicast_tx_socket.cpp and src/mping_state.cpp.
use mping_sender_mirror.Prelude.{
  ℕ, zero, suc, Bool-cases, inl, inr, String, List, [], ◌∷◌, Option, none, some,
}
use mping_sender_mirror.Prelude.Outcome.{Outcome, returned, thrown, exited, ◌>>=◌}
use mping_sender_mirror.Asio.Api.{Asio}
use mping_sender_mirror.Network.{Endian}
use mping_sender_mirror.Runtime.{Env}
use mping_sender_mirror.Runtime.Monad.{Action}
use mping_sender_mirror.Runtime.Calm.{IsNoExit, Calm, calm, Calm-pure, Calm-bind}
use mping_sender_mirror.State.{State, serialize, serialize_host}
use mping_sender_mirror.Socket.{send, on_sent}
use mping_sender_mirror.Sender.{Sender, schedule_send, send_packet, on_timer}
use mping_sender_mirror.Sender.Schedule.{Event, timer, sent, remove, finish_send, fire, handle, run}

IsNoExit-bind :
    {A B : Type 0} (o : Outcome A) (f : A → Outcome B)
    → IsNoExit o
    → ((a : A) → IsNoExit (f a))
    → IsNoExit (o >>= f)
IsNoExit-bind (returned a) f p q = q a
IsNoExit-bind (thrown x) f p q = tt
IsNoExit-bind (exited n) f p q = absurd p

module _ (api : Asio) (native : Endian) (to_v6_ends : (a : api.Address) → IsNoExit (api.to_v6 a))
    (to_v4_ends : (a : api.Address) → IsNoExit (api.to_v4 a)) where
  serialize_host-IsNoExit :
      (host : api.Address) (port : ℕ) (message : String)
      → IsNoExit (serialize_host api native host port message)
  unfolding serialize_host
  serialize_host-IsNoExit host port message = elim (Bool-cases (api.is_v6 host)) [
    | inl six ↦ rw six (IsNoExit-bind (api.to_v6 host) _ (to_v6_ends host) (λ _. tt))
    | inr not_six ↦ elim (Bool-cases (api.is_v4 host)) [
      | inl four ↦ rw (not_six, four) (IsNoExit-bind (api.to_v4 host) _ (to_v4_ends host) (λ _. tt))
      | inr not_four ↦ rw (not_six, not_four) tt
    ]
  ]

  serialize-IsNoExit : (s : State api.Address) → IsNoExit (serialize api native s)
  unfolding serialize
  serialize-IsNoExit s =
      IsNoExit-bind _ _ (serialize_host-IsNoExit s.src_host s.src_port "Invalid source address")
        λ _.
          IsNoExit-bind _ _
            (serialize_host-IsNoExit s.dest_host s.dest_port "Invalid destination address")
            (λ _. tt)

  module _ (env : Env api.Address)
      (network_handler timer_handler : ℕ → Action api.Address (Unit {0}))
      (network_calm : (ec : ℕ) → Calm (network_handler ec))
      (timer_calm : (ec : ℕ) → Calm (timer_handler ec)) where
    schedule_send-Calm : (s : Sender api.Address) → Calm (schedule_send api env native s)
    unfolding schedule_send
    schedule_send-Calm s = search calm depth 12

    send_packet-Calm : (s : Sender api.Address) → Calm (send_packet api env native s)
    unfolding send_packet send
    send_packet-Calm s = search (calm, serialize-IsNoExit) depth 20

    on_timer-Calm :
        (ec : ℕ) (s : Sender api.Address) → Calm (on_timer api env native timer_handler ec s)
    unfolding on_timer
    on_timer-Calm ec s = search (calm, schedule_send-Calm, send_packet-Calm, timer_calm) depth 20

    on_sent-Calm : (ec : ℕ) → Calm (on_sent api env network_handler ec)
    unfolding on_sent
    on_sent-Calm ec = search (calm, network_calm) depth 20

    fire-Calm :
        (ec : ℕ) (s : Sender api.Address) (waits : ℕ)
        → Calm (fire api env native network_handler timer_handler ec s waits)
    fire-Calm ec s zero = Calm-pure
    fire-Calm ec s (suc others) = on_timer-Calm ec (record s { waits = others })

    finish_send-Calm :
        (ec : ℕ) (s : Sender api.Address) (o : Option (List (List ℕ)))
        → Calm (finish_send api env native network_handler timer_handler ec s o)
    finish_send-Calm ec s none = Calm-pure
    finish_send-Calm ec s (some rest) = search (calm, on_sent-Calm) depth 12

    handle-Calm :
        (e : Event) (s : Sender api.Address)
        → Calm (handle api env native network_handler timer_handler e s)
    unfolding handle
    handle-Calm (timer ec) s = fire-Calm ec s s.waits
    handle-Calm (sent k ec) s = finish_send-Calm ec s (remove k s.in_flight)

    -- Whatever the order of the handlers, the loop returns or throws.
    pub run-Calm :
        (es : List Event) (s : Sender api.Address)
        → Calm (run api env native network_handler timer_handler es s)
    unfolding run
    run-Calm [] s = Calm-pure
    run-Calm (e ∷ es) s = Calm-bind (handle-Calm e s) (λ s'. run-Calm es s')
