-- ===== src/Sender/Loop.antt =====
-- The event loop of Boost.Asio over the handlers of the sender, and what the sender promises.
-- Code: src/mping_sender.cpp.
use mping_sender_mirror.Prelude.{ℕ, suc, ◌%◌, ◌^◌, ◌≡◌, List, [], ◌∷◌, ◌++◌, length}
use mping_sender_mirror.Prelude.Int.{ℤ}
use mping_sender_mirror.Prelude.Outcome.{returned, thrown, Exception}
use mping_sender_mirror.Asio.Api.{Asio}
use mping_sender_mirror.Network.{Endian}
use mping_sender_mirror.Runtime.{Endpoint, Env, History, steady_clock_now, async_send_to}
use mping_sender_mirror.Runtime.Monad.{Action}
use mping_sender_mirror.Socket.{on_sent}
use mping_sender_mirror.State.{State, serialize}
use mping_sender_mirror.Sender.{Sender, on_timer}

-- The datagrams that a history has handed to the socket, the newest first.
abbrev pub datagrams : {Address : Type 0} → History Address → List (List ℕ × Endpoint Address)
datagrams [] = []
datagrams ((async_send_to message endpoint, a) ∷ h) = (message, endpoint) ∷ datagrams h
datagrams (e ∷ h) = datagrams h

-- The readings of the clock, the newest first.
abbrev pub readings : {Address : Type 0} → History Address → List ℤ
readings [] = []
readings ((steady_clock_now, a) ∷ h) = a.result ∷ readings h
readings (e ∷ h) = readings h

-- A handler that never returns normally.
abbrev pub IsFatal : {Address : Type 0} → (ℕ → Action Address (Unit {0})) → Type 0
IsFatal {Address} handler =
    (ec : ℕ) (h : History Address)
    → (x : Exception) × (h' : History Address) × (handler ec h ≡ (thrown x, h'))

module _ (api : Asio) (env : Env api.Address) (native : Endian)
    (network_handler timer_handler : ℕ → Action api.Address (Unit {0})) where
  -- The event loop calls one registered handler: that of a wait, or that of any unfinished send.
  -- A handler that throws leaves the loop, so that there is no step.
  pub data Step (s : Sender api.Address) (h : History api.Address) (s' : Sender api.Address)
      (h' : History api.Address) : Type 0 where
    timer_fires :
        (ec others : ℕ)
        → s.waits ≡ suc others
        → on_timer api env native timer_handler ec (record s { waits = others }) h
          ≡ (returned s', h')
        → Step s h s' h'
    send_finishes :
        (ec : ℕ) (front back : List (List ℕ)) (message : List ℕ)
        → s.in_flight ≡ front ++ (message ∷ back)
        → s' ≡ record s { in_flight = front ++ back }
        → on_sent api env network_handler ec h ≡ (returned tt, h')
        → Step s h s' h'

  pub data Reach (s : Sender api.Address) (h : History api.Address)
      : Sender api.Address → History api.Address → Type 0 where
    here : Reach s h s h
    next :
        {s' s'' : Sender api.Address} {h' h'' : History api.Address}
        → Reach s h s' h'
        → Step s' h' s'' h''
        → Reach s h s'' h''

  -- The specification: a counter. The k-th datagram, counted from 0, is the packet of the first
  -- state with the sequence number k modulo 2 ^ 32 and the k-th reading of the clock as its time,
  -- and goes to the endpoint.
  abbrev pub Counted :
      State api.Address
      → Endpoint api.Address
      → List (List ℕ × Endpoint api.Address)
      → List ℤ
      → Type 0
  Counted first endpoint [] [] = Unit {0}
  Counted first endpoint [] (t ∷ ts) = ⊥
  Counted first endpoint (d ∷ ds) [] = ⊥
  Counted first endpoint (d ∷ ds) (t ∷ ts) =
      (serialize api native (record first { sequence_number = length ds % 2 ^ 32; tv = t })
        ≡ returned d.0)
      × (d.1 ≡ endpoint)
      × Counted first endpoint ds ts

  pub record Inv (first : State api.Address) (endpoint : Endpoint api.Address)
      (s : Sender api.Address) (h : History api.Address) : Type 0 where
    -- The timer is armed exactly once.
    pub armed : s.waits ≡ 1
    pub same_endpoint : s.endpoint ≡ endpoint
    -- Only the sequence number and the time differ from the first state.
    pub state :
        s.state ≡ record first { sequence_number = length (datagrams h) % 2 ^ 32; tv = s.state.tv }
    pub counted : Counted first endpoint (datagrams h) (readings h)
