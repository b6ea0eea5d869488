-- ===== src/Tests/Loops.antt =====
-- An event loop over the handlers of the sender.
use mping_sender_mirror.Prelude.{ℕ, ◌≡◌, refl, true, List, [], ◌∷◌, arith}
use mping_sender_mirror.Asio.{HostAddress, concrete}
use mping_sender_mirror.Network.{little}
use mping_sender_mirror.Runtime.{Call, Env}
use mping_sender_mirror.Runtime.Monad.{Action, ◌>>=◌, pure}
use mping_sender_mirror.Runtime.Makes.{Makes, Makes-pure, Makes-throw, Makes-bind, Makes-weaken}
use mping_sender_mirror.Seccomp.Kernel.{not_load}
use mping_sender_mirror.Sender.{Sender}
use mping_sender_mirror.Sender.Calls.{is_loop_call, run-Makes}
use mping_sender_mirror.Sender.Schedule.{Event, timer, sent, run}
use mping_sender_mirror.Main.{error_handler}
use mping_sender_mirror.Main.Startup.{any_call, is_running_call}
use mping_sender_mirror.Main.Printed.{keeps_fatal}

-- The timer fires, the send finishes, the timer fires again, and the second send fails.
abbrev pub events : List Event
events = timer 0 ∷ sent 0 0 ∷ timer 0 ∷ sent 0 5 ∷ []

abbrev pub event_loop : Env HostAddress → Sender HostAddress → Action HostAddress (Unit {0})
event_loop env s = do _ ← run concrete env little error_handler error_handler events s; pure tt

error_handler-Makes : (ec : ℕ) → Makes {Address = HostAddress} is_loop_call (error_handler ec)
unfolding error_handler
error_handler-Makes ec = Makes-throw

event_loop-Makes :
    (env : Env HostAddress) (s : Sender HostAddress) → Makes is_loop_call (event_loop env s)
event_loop-Makes env s =
    Makes-bind
      (run-Makes concrete env little error_handler error_handler error_handler-Makes
        error_handler-Makes events s)
      (λ _. Makes-pure)

loop-running : (c : Call HostAddress) → is_loop_call c ≡ true → is_running_call c ≡ true
loop-running c k = ground arith

loop-any : (c : Call HostAddress) → is_loop_call c ≡ true → any_call c ≡ true
loop-any c k = refl

loop-not_load : (c : Call HostAddress) → is_loop_call c ≡ true → not_load c ≡ true
loop-not_load c k = ground arith

loop-keeps_fatal : (c : Call HostAddress) → is_loop_call c ≡ true → keeps_fatal c ≡ true
loop-keeps_fatal c k = ground arith

module _ (env : Env HostAddress) (s : Sender HostAddress) where
  pub event_loop-running : Makes is_running_call (event_loop env s)
  event_loop-running = Makes-weaken loop-running (event_loop-Makes env s)

  pub event_loop-any : Makes any_call (event_loop env s)
  event_loop-any = Makes-weaken loop-any (event_loop-Makes env s)

  pub event_loop-not_load : Makes not_load (event_loop env s)
  event_loop-not_load = Makes-weaken loop-not_load (event_loop-Makes env s)

  pub event_loop-keeps_fatal : Makes keeps_fatal (event_loop env s)
  event_loop-keeps_fatal = Makes-weaken loop-keeps_fatal (event_loop-Makes env s)
