-- ===== src/Sender/Steps.antt =====
-- One firing of the timer, branch by branch.
-- Code: src/mping_sender.cpp.
use mping_sender_mirror.Prelude.{
  ℕ, suc, ◌+◌, ◌≡◌, refl, inl, inr, true, false, List, [], ◌∷◌, ◌++◌, ◌==◌, Bool-cases, arith,
}
use mping_sender_mirror.Prelude.Int.{is_zero}
use mping_sender_mirror.Prelude.Outcome.{
  Outcome, returned, thrown, exited, library_error, Exception,
}
use mping_sender_mirror.Asio.Api.{Asio}
use mping_sender_mirror.Network.{Endian}
use mping_sender_mirror.Runtime.{
  trace, fatal, sending_to, timer_failed, Answer, Endpoint, Env, History, expires_after, async_wait,
  steady_clock_now, async_send_to,
}
use mping_sender_mirror.Runtime.Monad.{said, Action}
use mping_sender_mirror.Socket.{send}
use mping_sender_mirror.State.{State, set_current_time, serialize, next_seq_no}
use mping_sender_mirror.Sender.{Sender, schedule_send, send_packet, on_timer}

module _ (api : Asio) (env : Env api.Address) (native : Endian)
    (handler : ℕ → Action api.Address (Unit {0})) where
  -- The answers of the calls that a firing makes, in their order.
  abbrev pub restart : History api.Address → Answer
  restart h = env.answer h (expires_after 1)

  abbrev pub scheduled : History api.Address → History api.Address
  scheduled h =
      let h₁ = (expires_after 1, restart h) ∷ h in (async_wait, env.answer h₁ async_wait) ∷ h₁

  abbrev pub clock : History api.Address → Answer
  clock h = env.answer (scheduled h) steady_clock_now

  abbrev pub stamped_history : History api.Address → History api.Address
  stamped_history h = (steady_clock_now, clock h) ∷ scheduled h

  -- The state whose packet is sent.
  abbrev pub stamped : Sender api.Address → History api.Address → State api.Address
  stamped s h = set_current_time (clock h).result s.state

  abbrev pub sent_history :
      List ℕ → Endpoint api.Address → History api.Address → History api.Address
  sent_history message endpoint h =
      let h₁ = said env trace (sending_to endpoint) (stamped_history h) in
      (async_send_to message endpoint, env.answer h₁ (async_send_to message endpoint)) ∷ h₁

  abbrev pub fired : Sender api.Address → List ℕ → History api.Address → Sender api.Address
  fired s message h = record s {
    state = next_seq_no (stamped s h);
    waits = s.waits + 1;
    in_flight = s.in_flight ++ (message ∷ []);
  }

  -- Without an error the timer is set anew first and the packet is sent then; the packet has the
  -- present time and the old sequence number.
  pub on_timer_sends :
      (s : Sender api.Address) (h : History api.Address) (message : List ℕ)
      → is_zero (restart h).result ≡ true
      → serialize api native (stamped s h) ≡ returned message
      → on_timer api env native handler 0 s h
        ≡ (returned (fired s message h), sent_history message s.endpoint h)
  unfolding on_timer schedule_send send_packet send
  on_timer_sends s h message e f = rw (e, f)

  -- An error when the timer is set ends the handler before anything is sent.
  pub on_timer_not_set :
      (s : Sender api.Address) (h : History api.Address)
      → is_zero (restart h).result ≡ false
      → on_timer api env native handler 0 s h
        ≡ (thrown (library_error (restart h).errno), (expires_after 1, restart h) ∷ h)
  unfolding on_timer schedule_send
  on_timer_not_set s h e = rw e

  -- If the packet cannot be written, the timer has been set already.
  pub on_timer_not_written :
      (s : Sender api.Address) (h : History api.Address) (x : Exception)
      → is_zero (restart h).result ≡ true
      → serialize api native (stamped s h) ≡ thrown x
      → on_timer api env native handler 0 s h ≡ (thrown x, stamped_history h)
  unfolding on_timer schedule_send send_packet send
  on_timer_not_written s h x e f = rw (e, f)

  pub on_timer_exits :
      (s : Sender api.Address) (h : History api.Address) (n : ℕ)
      → is_zero (restart h).result ≡ true
      → serialize api native (stamped s h) ≡ exited n
      → on_timer api env native handler 0 s h ≡ (exited n, stamped_history h)
  unfolding on_timer schedule_send send_packet send
  on_timer_exits s h n e f = rw (e, f)

  -- What must have happened when the handler returned without an error code.
  pub on_timer-eq-returned :
      (s s' : Sender api.Address) (h h' : History api.Address)
      → on_timer api env native handler 0 s h ≡ (returned s', h')
      → (message : List ℕ) × (serialize api native (stamped s h) ≡ returned message)
        × (s' ≡ fired s message h)
        × (h' ≡ sent_history message s.endpoint h)
  on_timer-eq-returned s s' h h' e = elim (Bool-cases (is_zero (restart h).result)) [
    | inl ready ↦ written ready (serialize api native (stamped s h)) refl
    | inr failed ↦ cc (on_timer_not_set s h failed)
  ]
    where
      written :
          is_zero (restart h).result ≡ true
          → (o : Outcome (List ℕ)) → serialize api native (stamped s h) ≡ o
          → (message : List ℕ) × (serialize api native (stamped s h) ≡ returned message)
            × (s' ≡ fired s message h)
            × (h' ≡ sent_history message s.endpoint h)
      written ready (returned message) f = (
        message,
        f,
        cc (on_timer_sends s h message ready f),
        cc (on_timer_sends s h message ready f),
      )
      written ready (thrown x) f = cc (on_timer_not_written s h x ready f)
      written ready (exited n) f = cc (on_timer_exits s h n ready f)

  -- With an error code the handler logs, hands it to the error handler and sends nothing.
  pub on_timer_fails :
      (ec : ℕ) (s : Sender api.Address) (h h' : History api.Address) (x : Exception)
      → handler (suc ec) (said env fatal timer_failed h) ≡ (thrown x, h')
      → on_timer api env native handler (suc ec) s h ≡ (thrown x, h')
  unfolding on_timer
  on_timer_fails ec s h h' x e = rw (nonzero, e)
    where
      nonzero : (suc ec == 0) ≡ false
      nonzero = ground arith
