-- ===== src/Socket/Completion.antt =====
-- The handler of a finished send, branch by branch.
-- Code: src/multicast_tx_socket.cpp.
use mping_sender_mirror.Prelude.{ℕ, suc, ◌≡◌, refl, false, ◌==◌, arith}
use mping_sender_mirror.Prelude.Outcome.{returned}
use mping_sender_mirror.Asio.Api.{Asio}
use mping_sender_mirror.Runtime.{trace, fatal, packet_sent, send_failed, Env, History}
use mping_sender_mirror.Runtime.Monad.{said, Action}
use mping_sender_mirror.Socket.{on_sent}

module _ (api : Asio) (env : Env api.Address) (handler : ℕ → Action api.Address (Unit {0}))
    (h : History api.Address) where
  pub on_sent_fine : on_sent api env handler 0 h ≡ (returned tt, said env trace packet_sent h)
  unfolding on_sent
  on_sent_fine = refl

  pub on_sent_fails :
      (ec : ℕ)
      → on_sent api env handler (suc ec) h
        ≡ handler (suc ec) (said env fatal (send_failed (suc ec)) h)
  unfolding on_sent
  on_sent_fails ec = rw nonzero
    where
      nonzero : (suc ec == 0) ≡ false
      nonzero = ground arith
