-- ===== src/Sender/Failing.antt =====
-- A firing of the timer that fails.
-- Code: src/mping_sender.cpp.
use mping_sender_mirror.Prelude.{ℕ, ◌≡◌, refl, inl, inr, true, List, Bool-cases}
use mping_sender_mirror.Prelude.Int.{is_zero}
use mping_sender_mirror.Prelude.Outcome.{Outcome, returned, thrown, exited, Exception}
use mping_sender_mirror.Asio.Api.{Asio}
use mping_sender_mirror.Network.{Endian}
use mping_sender_mirror.Runtime.{Env, History}
use mping_sender_mirror.Runtime.Monad.{Action}
use mping_sender_mirror.State.{serialize}
use mping_sender_mirror.Sender.{Sender, on_timer}
use mping_sender_mirror.Sender.Loop.{datagrams}
use mping_sender_mirror.Sender.Steps.{
  restart, stamped, on_timer_sends, on_timer_not_set, on_timer_not_written, on_timer_exits,
}

module _ (api : Asio) (env : Env api.Address) (native : Endian)
    (handler : ℕ → Action api.Address (Unit {0})) where
  -- A run that does not return has sent nothing.
  abbrev pub IsSilent :
      History api.Address → Outcome (Sender api.Address) × History api.Address → Type 0
  IsSilent h (returned s, h') = Unit {0}
  IsSilent h (thrown x, h') = datagrams h' ≡ datagrams h
  IsSilent h (exited n, h') = datagrams h' ≡ datagrams h

  pub on_timer-IsSilent :
      (s : Sender api.Address) (h : History api.Address)
      → IsSilent h (on_timer api env native handler 0 s h)
  on_timer-IsSilent s h = elim (Bool-cases (is_zero (restart api env native handler h).result)) [
    | inl ready ↦ go ready (serialize api native (stamped api env native handler s h)) refl
    | inr failed ↦ rw (on_timer_not_set api env native handler s h failed)
  ]
    where
      go :
          is_zero (restart api env native handler h).result ≡ true
          → (o : Outcome (List ℕ)) → serialize api native (stamped api env native handler s h) ≡ o
          → IsSilent h (on_timer api env native handler 0 s h)
      go ready (returned message) f =
          rw (on_timer_sends api env native handler s h message ready f) tt
      go ready (thrown y) f = rw (on_timer_not_written api env native handler s h y ready f)
      go ready (exited n) f = rw (on_timer_exits api env native handler s h n ready f)

  -- If the handler of a timer that fired without an error throws, because the timer cannot be set
  -- anew or the packet cannot be written, then it has handed no datagram to the socket.
  pub on_timer_silent :
      (s : Sender api.Address) (h : History api.Address) (x : Exception)
      → (on_timer api env native handler 0 s h).0 ≡ thrown x
      → datagrams (on_timer api env native handler 0 s h).1 ≡ datagrams h
  on_timer_silent s h x e = go (on_timer api env native handler 0 s h) (on_timer-IsSilent s h) e
    where
      go :
          (r : Outcome (Sender api.Address) × History api.Address)
          → IsSilent h r
          → r.0 ≡ thrown x
          → datagrams r.1 ≡ datagrams h
      go (returned s', h') quiet e = cc
      go (thrown y, h') quiet e = quiet
      go (exited n, h') quiet e = quiet
