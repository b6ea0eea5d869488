-- ===== src/Sender/Calls.antt =====
-- Which calls the handlers of the event loop make.
-- Code: src/mping_sender.cpp and src/multicast_tx_socket.cpp.
use mping_sender_mirror.Prelude.{ℕ, zero, suc, Bool, true, false, List, [], ◌∷◌, Option, none, some}
use mping_sender_mirror.Asio.Api.{Asio}
use mping_sender_mirror.Network.{Endian}
use mping_sender_mirror.Runtime.{
  Call, Env, log, steady_clock_now, expires_after, async_wait, async_send_to,
}
use mping_sender_mirror.Runtime.Monad.{Action}
use mping_sender_mirror.Runtime.Makes.{Makes, makes, Makes-pure, Makes-bind}
use mping_sender_mirror.Socket.{send, on_sent}
use mping_sender_mirror.Sender.{Sender, schedule_send, send_packet, on_timer}
use mping_sender_mirror.Sender.Schedule.{Event, timer, sent, remove, finish_send, fire, handle, run}

-- The timer, the clock, the socket and the log.
abbrev pub is_loop_call : {Address : Type 0} → Call Address → Bool
is_loop_call steady_clock_now = true
is_loop_call (expires_after n) = true
is_loop_call async_wait = true
is_loop_call (async_send_to message endpoint) = true
is_loop_call (log level line) = true
is_loop_call _ = false

module _ (api : Asio) (env : Env api.Address) (native : Endian)
    (network_handler timer_handler : ℕ → Action api.Address (Unit {0}))
    (network_made : (ec : ℕ) → Makes is_loop_call (network_handler ec))
    (timer_made : (ec : ℕ) → Makes is_loop_call (timer_handler ec)) where
  schedule_send-Makes :
      (s : Sender api.Address) → Makes is_loop_call (schedule_send api env native s)
  unfolding schedule_send
  schedule_send-Makes s = search makes depth 12

  send_packet-Makes : (s : Sender api.Address) → Makes is_loop_call (send_packet api env native s)
  unfolding send_packet send
  send_packet-Makes s = search makes depth 20

  on_timer-Makes :
      (ec : ℕ) (s : Sender api.Address)
      → Makes is_loop_call (on_timer api env native timer_handler ec s)
  unfolding on_timer
  on_timer-Makes ec s = search (makes, schedule_send-Makes, send_packet-Makes, timer_made) depth 20

  on_sent-Makes : (ec : ℕ) → Makes is_loop_call (on_sent api env network_handler ec)
  unfolding on_sent
  on_sent-Makes ec = search (makes, network_made) depth 20

  fire-Makes :
      (ec : ℕ) (s : Sender api.Address) (waits : ℕ)
      → Makes is_loop_call (fire api env native network_handler timer_handler ec s waits)
  fire-Makes ec s zero = Makes-pure
  fire-Makes ec s (suc others) = on_timer-Makes ec (record s { waits = others })

  finish_send-Makes :
      (ec : ℕ) (s : Sender api.Address) (o : Option (List (List ℕ)))
      → Makes is_loop_call (finish_send api env native network_handler timer_handler ec s o)
  finish_send-Makes ec s none = Makes-pure
  finish_send-Makes ec s (some rest) = search (makes, on_sent-Makes) depth 12

  handle-Makes :
      (e : Event) (s : Sender api.Address)
      → Makes is_loop_call (handle api env native network_handler timer_handler e s)
  unfolding handle
  handle-Makes (timer ec) s = fire-Makes ec s s.waits
  handle-Makes (sent k ec) s = finish_send-Makes ec s (remove k s.in_flight)

  -- Whatever the order of the handlers, the loop uses the timer, the clock, the socket and the log.
  pub run-Makes :
      (es : List Event) (s : Sender api.Address)
      → Makes is_loop_call (run api env native network_handler timer_handler es s)
  unfolding run
  run-Makes [] s = Makes-pure
  run-Makes (e ∷ es) s = Makes-bind (handle-Makes e s) (λ s'. run-Makes es s')
