-- ===== src/Sender.antt =====
-- src/mping_sender.hpp and src/mping_sender.cpp: the timer that sends a packet each second.
pub mod Steps
pub mod Loop
pub mod Schedule
pub mod Replay
pub mod Calls
pub mod Calm
pub mod Construct
pub mod Run
pub mod Service
pub mod Delivered
pub mod Failing
pub mod Pace
pub mod Progress
use mping_sender_mirror.Prelude.{ℕ, ◌+◌, String, List, [], ◌∷◌, ◌++◌, ◌==◌, if◌then◌else◌}
use mping_sender_mirror.Prelude.Int.{to_u32, is_negative}
use mping_sender_mirror.Prelude.Outcome.{library_error}
use mping_sender_mirror.Asio.Api.{Asio}
use mping_sender_mirror.Network.{Endian}
use mping_sender_mirror.Runtime.{
  Answer, Endpoint, Env, expires_after, async_wait, steady_clock_now, random_u32, fatal,
  timer_failed,
}
use mping_sender_mirror.Runtime.Monad.{
  Action, ◌>>=◌, ◌>>◌, pure, throw, lift, perform, attempt, say,
}
use mping_sender_mirror.Socket.{open_socket, send}
use mping_sender_mirror.State.{State, sender, new, set_current_time, serialize, next_seq_no}

-- `waits` counts the handlers of async_wait that are registered and not called yet; `in_flight` are
-- the strings that the handlers of unfinished sends keep alive, the oldest first.
pub record Sender (Address : Type 0) : Type 0 where
  pub state : State Address
  pub endpoint : Endpoint Address
  pub waits : ℕ
  pub in_flight : List (List ℕ)

-- The random process id of the constructor of MPingState. A negative answer is an exception of
-- std::random_device.
abbrev pub draw : {Address : Type 0} → Env Address → Action Address Answer
draw env = do
  a ← perform env random_u32
  if is_negative a.result then throw (library_error a.errno) else pure a

module _ (api : Asio) (env : Env api.Address) (native : Endian) where
  unfoldable pub schedule_send : Sender api.Address → Action api.Address (Sender api.Address)
  schedule_send s = do
    attempt env (expires_after 1)
    _ ← perform env async_wait
    pure (record s { waits = s.waits + 1 })

  unfoldable pub send_packet : Sender api.Address → Action api.Address (Sender api.Address)
  send_packet s = do
    now ← perform env steady_clock_now
    let stamped = set_current_time now.result s.state
    message ← lift (serialize api native stamped)
    let counted = next_seq_no stamped
    send api env message s.endpoint
    pure (record s { state = counted; in_flight = s.in_flight ++ (message ∷ []) })

  -- The handler that `schedule_send` registers.
  unfoldable pub on_timer :
      (ℕ → Action api.Address (Unit {0}))
      → ℕ
      → Sender api.Address
      → Action api.Address (Sender api.Address)
  on_timer timer_error_handler ec s =
      if ec == 0
      then (do scheduled ← schedule_send s; send_packet scheduled)
      else (do say env fatal timer_failed; timer_error_handler ec; pure s)

  -- The constructor; the members are made in the order of their declarations.
  unfoldable pub construct :
      String → ℕ → String → ℕ → ℕ → String → Action api.Address (Sender api.Address)
  construct bind_address bind_port address port ttl interface = do
    bound ← lift (api.make_address bind_address)
    open_socket api env (record { address = bound; port = bind_port }) ttl interface
    src ← lift (api.make_address bind_address)
    dest ← lift (api.make_address address)
    drawn ← draw env
    target ← lift (api.make_address address)
    schedule_send (record {
      state = new sender ttl src bind_port dest port (to_u32 drawn.result);
      endpoint = record { address = target; port = port };
      waits = 0;
      in_flight = [];
    })
