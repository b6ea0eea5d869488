-- ===== src/Sender/Pace.antt =====
-- How often the sender sends.
-- Code: src/mping_sender.cpp.
use mping_sender_mirror.Prelude.{ℕ, zero, suc, ◌+◌, ◌≡◌, refl, ap, ◌∙◌, sym, [], ◌∷◌, length, arith}
use mping_sender_mirror.Asio.Api.{Asio}
use mping_sender_mirror.Network.{Endian}
use mping_sender_mirror.Runtime.{
  trace, fatal, packet_sent, send_failed, timer_failed, Env, History, expires_after,
}
use mping_sender_mirror.Runtime.Monad.{said, Action}
use mping_sender_mirror.Socket.Completion.{on_sent_fine, on_sent_fails}
use mping_sender_mirror.Sender.{Sender}
use mping_sender_mirror.Sender.Loop.{
  datagrams, IsFatal, Step, timer_fires, send_finishes, Reach, here, next,
}
use mping_sender_mirror.Sender.Steps.{on_timer-eq-returned, on_timer_fails}

-- The seconds for which the timer was set, in all.
abbrev pub seconds_set : {Address : Type 0} → History Address → ℕ
seconds_set [] = 0
seconds_set ((expires_after n, a) ∷ h) = n + seconds_set h
seconds_set (e ∷ h) = seconds_set h

module _ (api : Asio) (env : Env api.Address) (native : Endian)
    (network_handler timer_handler : ℕ → Action api.Address (Unit {0}))
    (network_fatal : IsFatal network_handler) (timer_fatal : IsFatal timer_handler) where
  Step-pace :
      (s s' : Sender api.Address) (h h' : History api.Address)
      → Step api env native network_handler timer_handler s h s' h'
      → seconds_set h' + length (datagrams h) ≡ seconds_set h + length (datagrams h')
  Step-pace s s' h h' (timer_fires zero others w e) =
      let (message, written, same, same') =
        on_timer-eq-returned api env native timer_handler (record s { waits = others }) s' h h' e in
      rw same' (omega arith)
  Step-pace s s' h h' (timer_fires (suc ec) others w e) =
      let (x, h'', f) = timer_fatal (suc ec) (said env fatal timer_failed h) in
      cc (on_timer_fails api env native timer_handler ec (record s { waits = others }) h h'' x f)
  Step-pace s s' h h' (send_finishes zero front back message f g e) =
      ap (λ (k : History api.Address). seconds_set k + length (datagrams h)) (sym same)
      ∙ ap (λ (k : History api.Address). seconds_set h + length (datagrams k)) same
    where
      same : said env trace packet_sent h ≡ h'
      same = cc (on_sent_fine api env network_handler h)
  Step-pace s s' h h' (send_finishes (suc ec) front back message f g e) =
      let (x, h'', k) = network_fatal (suc ec) (said env fatal (send_failed (suc ec)) h) in
      cc (on_sent_fails api env network_handler h ec)

  -- Under error handlers that always throw, over any run of the event loop, whatever is answered
  -- and in whatever order the timer fires and the sends finish, as many datagrams are sent as
  -- seconds are set on the timer: one datagram for each second.
  pub sender_pace :
      (s : Sender api.Address) (h : History api.Address) (s' : Sender api.Address)
      (h' : History api.Address)
      → Reach api env native network_handler timer_handler s h s' h'
      → seconds_set h' + length (datagrams h) ≡ seconds_set h + length (datagrams h')
  sender_pace s h s' h' here = refl
  sender_pace s h s' h' (next {s' = t} {h' = k} r step) =
      omega (arith, sender_pace s h t k r, Step-pace t s' k h' step)
