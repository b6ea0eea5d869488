-- ===== src/Sender/Run.antt =====
-- The sender under the event loop: any interleaving of timer firings and finished sends.
-- Code: src/mping_sender.cpp.
use mping_sender_mirror.Prelude.{
  ℕ, zero, suc, ◌+◌, ◌%◌, ◌^◌, ◌≡◌, subst, ap, ◌∙◌, List, length, arith,
}
use mping_sender_mirror.Prelude.Int.{ℤ}
use mping_sender_mirror.Prelude.Outcome.{returned}
use mping_sender_mirror.Asio.Api.{Asio}
use mping_sender_mirror.Network.{Endian}
use mping_sender_mirror.Runtime.{
  trace, fatal, packet_sent, send_failed, timer_failed, Endpoint, Env, History,
}
use mping_sender_mirror.Runtime.Monad.{said, Action}
use mping_sender_mirror.Socket.Completion.{on_sent_fine, on_sent_fails}
use mping_sender_mirror.State.{State, set_current_time, serialize, next_seq_no}
use mping_sender_mirror.Sender.{Sender}
use mping_sender_mirror.State.Sequence.{next_seq_no_lem}
use mping_sender_mirror.Sender.Loop.{
  datagrams, readings, IsFatal, Step, timer_fires, send_finishes, Reach, here, next, Counted, Inv,
}
use mping_sender_mirror.Sender.Steps.{
  on_timer-eq-returned, on_timer_fails, clock, stamped, sent_history, fired,
}

module _ (api : Asio) (env : Env api.Address) (native : Endian)
    (network_handler timer_handler : ℕ → Action api.Address (Unit {0}))
    (network_fatal : IsFatal network_handler) (timer_fatal : IsFatal timer_handler)
    (first : State api.Address) (endpoint : Endpoint api.Address) where
  pub stamped_lem :
      (s : Sender api.Address) (h : History api.Address) (k : ℕ)
      → s.state ≡ record first { sequence_number = k; tv = s.state.tv }
      → stamped api env native timer_handler s h
        ≡ record first { sequence_number = k; tv = (clock api env native timer_handler h).result }
  unfolding set_current_time
  stamped_lem s h k e =
      ap
        (λ (x : State api.Address). record x { tv = (clock api env native timer_handler h).result })
        e

  next_lem :
      (t : ℤ) (k : ℕ)
      → next_seq_no (record first { sequence_number = k % 2 ^ 32; tv = t })
        ≡ record first { sequence_number = suc k % 2 ^ 32; tv = t }
  next_lem t k =
      next_seq_no_lem (record first { sequence_number = k % 2 ^ 32; tv = t }) (omega arith)
      ∙ (λ i. record first { sequence_number = same i; tv = t })
    where
      same : (k % 2 ^ 32 + 1) % 2 ^ 32 ≡ suc k % 2 ^ 32
      same = omega arith

  -- A firing without an error keeps the invariant.
  fired-Inv :
      (s : Sender api.Address) (h : History api.Address) (message : List ℕ)
      → s.waits ≡ 0
      → s.endpoint ≡ endpoint
      → s.state ≡ record first { sequence_number = length (datagrams h) % 2 ^ 32; tv = s.state.tv }
      → Counted api env native network_handler timer_handler first endpoint
          (datagrams h)
          (readings h)
      → serialize api native (stamped api env native timer_handler s h) ≡ returned message
      → Inv api env native network_handler timer_handler first endpoint
          (fired api env native timer_handler s message h)
          (sent_history api env native timer_handler message s.endpoint h)
  fired-Inv s h message w e st counted written = record {
    armed = rw w;
    same_endpoint = e;
    state = rw (
      stamped_lem s h _ st,
      next_lem (clock api env native timer_handler h).result (length (datagrams h)),
    );
    counted = (rw (stamped_lem s h _ st) at written, e, counted);
  }

  -- Every step keeps the invariant.
  Step-Inv :
      (s s' : Sender api.Address) (h h' : History api.Address)
      → Step api env native network_handler timer_handler s h s' h'
      → Inv api env native network_handler timer_handler first endpoint s h
      → Inv api env native network_handler timer_handler first endpoint s' h'
  Step-Inv s s' h h' (timer_fires zero others w e) v =
      let (message, written, same, same') =
        on_timer-eq-returned api env native timer_handler (record s { waits = others }) s' h h' e in
      rw (same, same')
        (fired-Inv (record s { waits = others }) h message (omega (arith, v.armed)) v.same_endpoint
          v.state v.counted written)
  Step-Inv s s' h h' (timer_fires (suc ec) others w e) v =
      let (x, h'', f) = timer_fatal (suc ec) (said env fatal timer_failed h) in
      cc (on_timer_fails api env native timer_handler ec (record s { waits = others }) h h'' x f)
  Step-Inv s s' h h' (send_finishes zero front back message f g e) v = rw g (
      subst (Inv api env native network_handler timer_handler first endpoint _) same (record {
        armed = v.armed;
        same_endpoint = v.same_endpoint;
        state = v.state;
        counted = v.counted;
      }))
    where
      same : said env trace packet_sent h ≡ h'
      same = cc (on_sent_fine api env network_handler h)
  Step-Inv s s' h h' (send_finishes (suc ec) front back message f g e) v =
      let (x, h'', k) = network_fatal (suc ec) (said env fatal (send_failed (suc ec)) h) in
      cc (on_sent_fails api env network_handler h ec)

  -- Under error handlers that always throw, whatever is answered and in whatever order the timer
  -- fires and the sends finish: from a sender whose timer is armed once, and whose datagrams so far
  -- are counted, every state that is reached has the timer armed exactly once, and its datagrams
  -- are counted: the k-th one is the packet with the sequence number k modulo 2 ^ 32 and the k-th
  -- reading of the clock, all else being that of the first state, and goes to the endpoint.
  pub Reach-Inv :
      (s : Sender api.Address) (h : History api.Address) (s' : Sender api.Address)
      (h' : History api.Address)
      → Inv api env native network_handler timer_handler first endpoint s h
      → Reach api env native network_handler timer_handler s h s' h'
      → Inv api env native network_handler timer_handler first endpoint s' h'
  Reach-Inv s h s' h' v here = v
  Reach-Inv s h s' h' v (next {s' = t} {h' = k} r step) =
      Step-Inv t s' k h' step (Reach-Inv s h t k v r)
