-- ===== src/Tests/Programs.antt =====
-- The program on a system on which every call succeeds, and the orders of the event loop.
use mping_sender_mirror.Prelude.{◌+◌, ◌≡◌, refl, inl, false, List, [], ◌∷◌, length}
use mping_sender_mirror.Prelude.Outcome.{returned}
use mping_sender_mirror.Asio.{HostAddress, concrete, concrete-IsDocumented}
use mping_sender_mirror.Network.{little}
use mping_sender_mirror.Runtime.{History}
use mping_sender_mirror.Configuration.Concrete.{concrete_options, given}
use mping_sender_mirror.Configuration.Concrete.Documented.{concrete_options-IsDocumented}
use mping_sender_mirror.Sender.{Sender}
use mping_sender_mirror.Sender.Loop.{datagrams}
use mping_sender_mirror.Sender.Progress.{run_progress}
use mping_sender_mirror.Sender.Schedule.{Event, timer, sent, run}
use mping_sender_mirror.Main.{error_handler}
use mping_sender_mirror.Main.Exit.{error_handler-IsFatal}
use mping_sender_mirror.Main.Order.{full}
use mping_sender_mirror.Main.Program.{program}
use mping_sender_mirror.Main.Program.Counts.{Stands, program-Stands}
use mping_sender_mirror.Tests.Options.{garbage}
use mping_sender_mirror.Tests.Samples.{kernel, sample, group, started}
use mping_sender_mirror.Tests.Senders.{started-Inv}

-- The timer fires, the send finishes, the timer fires again.
abbrev events : List Event
events = timer 0 ∷ sent 0 0 ∷ timer 0 ∷ []

program-Stands_example : Stands concrete kernel little (
    program concrete kernel
      (concrete_options false)
      little
      events
      full
      garbage
      ("--ttl" ∷ "5" ∷ [])
      [])
program-Stands_example =
    program-Stands concrete kernel (concrete_options false) little full given
      (concrete_options-IsDocumented false) events garbage ("--ttl" ∷ "5" ∷ [])

run_progress_example :
    (s : Sender HostAddress) × (h : History HostAddress) × (run concrete kernel little error_handler
        error_handler events started []
      ≡ (returned s, h))
    × (length (datagrams h) ≡ 2 + 0)
run_progress_example =
    run_progress concrete kernel little error_handler error_handler error_handler-IsFatal
      error_handler-IsFatal concrete-IsDocumented sample group (inl refl) (inl refl) (λ h. refl)
      events started [] (refl, (refl, (refl, tt))) started-Inv
