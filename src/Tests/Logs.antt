-- ===== src/Tests/Logs.antt =====
-- The log of a process that is refused, on a concrete Boost.Log.
use mping_sender_mirror.Prelude.{◌≡◌, refl, Bool, true, false, [], ◌∷◌, leb, arith}
use mping_sender_mirror.Prelude.Int.{pos}
use mping_sender_mirror.Prelude.Outcome.{runtime_error}
use mping_sender_mirror.Asio.{HostAddress, concrete}
use mping_sender_mirror.Network.{little}
use mping_sender_mirror.Runtime.{
  Answer, Call, History, Severity, fatal, severity_number, set_filter, log, exits,
  capng_have_capability,
}
use mping_sender_mirror.Capability.{check_for_capabilites}
use mping_sender_mirror.Configuration.Concrete.{concrete_options}
use mping_sender_mirror.Main.{main, startup, sandbox, restrict_capabilities}
use mping_sender_mirror.Main.Order.{full}
use mping_sender_mirror.Main.Printed.{IsLog, is_set_filter, main_prints}
use mping_sender_mirror.Tests.Sandboxes.{raw, lacking}
use mping_sender_mirror.Tests.Loops.{event_loop, event_loop-keeps_fatal}

abbrev printed : History HostAddress → Severity → Bool
printed [] level = true
printed ((set_filter n, a) ∷ h) level = leb n (severity_number level)
printed (e ∷ h) level = printed h level

printed-IsLog : IsLog printed
printed-IsLog = record {
  at_start = λ level. refl;
  after_filter = λ h n a level. refl;
  other_call = λ h c a level k. other h c a level k;
}
  where
    other :
        (h : History HostAddress) (c : Call HostAddress) (a : Answer) (level : Severity)
        → is_set_filter c ≡ false
        → printed ((c, a) ∷ h) level ≡ printed h level
    other h c a level k = ground arith

abbrev refusal : Answer
refusal = record { result = pos 0; errno = 1 }

abbrev asked : History HostAddress
asked = (capng_have_capability "CAPNG_PERMITTED" "CAP_SETPCAP", refusal) ∷ []

refused_lem :
    (main concrete lacking (concrete_options false) little (event_loop lacking) full raw [] []).1
    ≡ (log fatal (exits (runtime_error "Missing CAP_SETPCAP capability")), refusal) ∷ asked
unfolding main startup sandbox restrict_capabilities check_for_capabilites
refused_lem = refl

main_prints_example : printed asked fatal ≡ true
main_prints_example =
    main_prints concrete lacking (concrete_options false) little printed printed-IsLog
      (event_loop lacking) (event_loop-keeps_fatal lacking) full raw [] [] asked
      (exits (runtime_error "Missing CAP_SETPCAP capability")) refusal refused_lem
