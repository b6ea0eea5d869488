-- ===== src/Sender/Schedule.antt =====
-- The event loop as a function of the order in which the handlers are called.
-- Code: src/mping_sender.cpp and src/multicast_tx_socket.cpp.
use mping_sender_mirror.Prelude.{ℕ, zero, suc, List, [], ◌∷◌, Option, none, some}
use mping_sender_mirror.Asio.Api.{Asio}
use mping_sender_mirror.Network.{Endian}
use mping_sender_mirror.Runtime.{Env}
use mping_sender_mirror.Runtime.Monad.{Action, ◌>>=◌, ◌>>◌, pure}
use mping_sender_mirror.Socket.{on_sent}
use mping_sender_mirror.Sender.{Sender, on_timer}

-- The timer's handler, or that of the k-th send that is under way, is called with an error code.
pub data Event : Type 0 where
  timer : ℕ → Event
  sent : ℕ → ℕ → Event

-- The list without its k-th item.
abbrev pub remove {ℓ} : {A : Type ℓ} → ℕ → List A → Option (List A)
remove k [] = none
remove zero (x ∷ xs) = some xs
remove (suc k) (x ∷ xs) = elim (remove k xs) [ none ↦ none | some ys ↦ some (x ∷ ys) ]

module _ (api : Asio) (env : Env api.Address) (native : Endian)
    (network_handler timer_handler : ℕ → Action api.Address (Unit {0})) where
  abbrev pub finish_send :
      ℕ → Sender api.Address → Option (List (List ℕ)) → Action api.Address (Sender api.Address)
  finish_send ec s none = pure s
  finish_send ec s (some rest) = do
    on_sent api env network_handler ec
    pure (record s { in_flight = rest })

  abbrev pub fire : ℕ → Sender api.Address → ℕ → Action api.Address (Sender api.Address)
  fire ec s zero = pure s
  fire ec s (suc others) = on_timer api env native timer_handler ec (record s { waits = others })

  -- A handler that is not registered is not called.
  unfoldable pub handle : Event → Sender api.Address → Action api.Address (Sender api.Address)
  handle (timer ec) s = fire ec s s.waits
  handle (sent k ec) s = finish_send ec s (remove k s.in_flight)

  unfoldable pub run : List Event → Sender api.Address → Action api.Address (Sender api.Address)
  run [] s = pure s
  run (e ∷ es) s = do s' ← handle e s; run es s'
