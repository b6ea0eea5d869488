-- ===== src/Sender/Replay.antt =====
-- One handler call of an order is a step of the event loop, or none.
-- Code: src/mping_sender.cpp and src/multicast_tx_socket.cpp.
use mping_sender_mirror.Prelude.{
  ℕ, zero, suc, ◌≡◌, refl, sym, subst, ap, ◌∙◌, List, [], ◌∷◌, ◌++◌, Option, none, some,
}
use mping_sender_mirror.Prelude.Outcome.{Outcome, returned, thrown, exited}
use mping_sender_mirror.Asio.Api.{Asio}
use mping_sender_mirror.Network.{Endian}
use mping_sender_mirror.Runtime.{Env, History}
use mping_sender_mirror.Runtime.Monad.{Action, continue, pure}
use mping_sender_mirror.Socket.{on_sent}
use mping_sender_mirror.Sender.{Sender}
use mping_sender_mirror.Sender.Loop.{timer_fires, send_finishes, Reach, here, next}
use mping_sender_mirror.Sender.Schedule.{Event, timer, sent, remove, finish_send, fire, handle}

-- What `remove` takes away.
record Removed (xs ys : List (List ℕ)) : Type 0 where
  front : List (List ℕ)
  back : List (List ℕ)
  item : List ℕ
  before : xs ≡ front ++ (item ∷ back)
  after : ys ≡ front ++ back

some-inj : {xs ys : List (List ℕ)} → some xs ≡ some ys → xs ≡ ys
some-inj e = cc

remove_further :
    (x : List ℕ) (xs ys : List (List ℕ)) (o : Option (List (List ℕ)))
    → ((zs : List (List ℕ)) → o ≡ some zs → Removed xs zs)
    → (elim o as (λ x. Option (List (List ℕ))) [ none ↦ none | some zs ↦ some (x ∷ zs) ]) ≡ some ys
    → Removed (x ∷ xs) ys
remove_further x xs ys none ih e = cc
remove_further x xs ys (some zs) ih e =
    let r = ih zs refl in
    record {
      front = x ∷ r.front;
      back = r.back;
      item = r.item;
      before = ap (◌∷◌ x) r.before;
      after = sym (some-inj e) ∙ ap (◌∷◌ x) r.after;
    }

remove_lem : (k : ℕ) (xs ys : List (List ℕ)) → remove k xs ≡ some ys → Removed xs ys
remove_lem k [] ys e = cc
remove_lem zero (x ∷ xs) ys e = record {
  front = [];
  back = xs;
  item = x;
  before = refl;
  after = sym (some-inj e);
}
remove_lem (suc k) (x ∷ xs) ys e = remove_further x xs ys (remove k xs) (remove_lem k xs) e

module _ (api : Asio) (env : Env api.Address) (native : Endian)
    (network_handler timer_handler : ℕ → Action api.Address (Unit {0})) where
  same-Reach :
      (s s' : Sender api.Address) (h h' : History api.Address)
      → pure s h ≡ (returned s', h')
      → Reach api env native network_handler timer_handler s h s' h'
  same-Reach s s' h h' e =
      let p : s ≡ s' = cc in
      let q : h ≡ h' = cc in
      subst
        (λ (x : Sender api.Address). Reach api env native network_handler timer_handler s h x h') p
        (subst (Reach api env native network_handler timer_handler s h s) q here)

  finish_eq :
      (r : Outcome (Unit {0}) × History api.Address) (t s' : Sender api.Address)
      (h' : History api.Address)
      → continue r (λ _. pure t) ≡ (returned s', h')
      → (r ≡ (returned tt, h')) × (s' ≡ t)
  finish_eq (returned tt', k) t s' h' e = (cc, cc)
  finish_eq (thrown x, k) t s' h' e = cc
  finish_eq (exited n, k) t s' h' e = cc

  finish-Reach :
      (k ec : ℕ) (s s' : Sender api.Address) (h h' : History api.Address)
      (o : Option (List (List ℕ)))
      → remove k s.in_flight ≡ o
      → finish_send api env native network_handler timer_handler ec s o h ≡ (returned s', h')
      → Reach api env native network_handler timer_handler s h s' h'
  finish-Reach k ec s s' h h' none r e = same-Reach s s' h h' e
  finish-Reach k ec s s' h h' (some rest) r e =
      let q = remove_lem k s.in_flight rest r in
      let (done, same) = finish_eq (on_sent api env network_handler ec h) _ s' h' e in
      next here (
        send_finishes ec q.front q.back q.item q.before
          (same ∙ ap (λ (xs : List (List ℕ)). record s { in_flight = xs }) q.after) done)

  fire-Reach :
      (ec waits : ℕ) (s s' : Sender api.Address) (h h' : History api.Address)
      → s.waits ≡ waits
      → fire api env native network_handler timer_handler ec s waits h ≡ (returned s', h')
      → Reach api env native network_handler timer_handler s h s' h'
  fire-Reach ec zero s s' h h' w e = same-Reach s s' h h' e
  fire-Reach ec (suc others) s s' h h' w e = next here (timer_fires ec others w e)

  pub handle-Reach :
      (e : Event) (s s' : Sender api.Address) (h h' : History api.Address)
      → handle api env native network_handler timer_handler e s h ≡ (returned s', h')
      → Reach api env native network_handler timer_handler s h s' h'
  unfolding handle
  handle-Reach (timer ec) s s' h h' e = fire-Reach ec s.waits s s' h h' refl e
  handle-Reach (sent k ec) s s' h h' e = finish-Reach k ec s s' h h' (remove k s.in_flight) refl e
