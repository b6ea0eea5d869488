-- ===== src/Main/Printed.antt =====
-- Which lines of the log are printed.
-- Code: src/main.cpp and src/configuration.cpp.
use mathlib.Core.List.{append-nil}
use mping_sender_mirror.Prelude.{
  ℕ, ◌≡◌, refl, sym, ◌∙◌, Bool, true, false, String, List, [], ◌∷◌, ◌++◌, leb, arith,
}
use mping_sender_mirror.Asio.Api.{Asio}
use mping_sender_mirror.Network.{Endian}
use mping_sender_mirror.Runtime.{
  Severity, fatal, severity_number, Line, Answer, Call, Env, History, set_filter, log,
}
use mping_sender_mirror.Runtime.Monad.{Action}
use mping_sender_mirror.Runtime.Makes.{Makes, Only, Makes-weaken, Makes-bind, Makes-then}
use mping_sender_mirror.Configuration.Api.{ProgramOptions}
use mping_sender_mirror.Configuration.{Configuration}
use mping_sender_mirror.Configuration.Calls.{is_configure_call, configure-Makes}
use mping_sender_mirror.Sender.{Sender}
use mping_sender_mirror.Sender.Construct.{is_construct_call, construct-Makes}
use mping_sender_mirror.Main.{Build, startup, main}
use mping_sender_mirror.Main.Parts.{is_sandbox_call, sandbox-Makes}
use mping_sender_mirror.Main.Startup.{log_build-Makes, status-Added}

abbrev pub is_set_filter : {Address : Type 0} → Call Address → Bool
is_set_filter (set_filter n) = true
is_set_filter _ = false

-- `printed h level` is whether a line of this level is printed behind the calls h. What Boost.Log
-- documents: without a filter every line is printed, and `severity >= n` as the filter prints those
-- whose level is n or above, until the next filter is set.
pub record IsLog {Address : Type 0} (printed : History Address → Severity → Bool) : Type 0 where
  pub at_start : (level : Severity) → printed [] level ≡ true
  pub after_filter :
      (h : History Address) (n : ℕ) (a : Answer) (level : Severity)
      → printed ((set_filter n, a) ∷ h) level ≡ leb n (severity_number level)
  pub other_call :
      (h : History Address) (c : Call Address) (a : Answer) (level : Severity)
      → is_set_filter c ≡ false
      → printed ((c, a) ∷ h) level ≡ printed h level

-- No threshold above that of fatal lines.
abbrev pub keeps_fatal : {Address : Type 0} → Call Address → Bool
keeps_fatal (set_filter n) = leb n (severity_number fatal)
keeps_fatal _ = true

module _ {Address : Type 0} where
  sandbox-keeps : (c : Call Address) → is_sandbox_call c ≡ true → keeps_fatal c ≡ true
  sandbox-keeps c k = ground arith

  configure-keeps : (c : Call Address) → is_configure_call c ≡ true → keeps_fatal c ≡ true
  configure-keeps c k = ground arith

  construct-keeps : (c : Call Address) → is_construct_call c ≡ true → keeps_fatal c ≡ true
  construct-keeps c k = ground arith

  module _ (printed : History Address → Severity → Bool) (promised : IsLog printed) where
    one_call :
        (h : History Address) (c : Call Address) (a : Answer)
        → keeps_fatal c ≡ true
        → printed h fatal ≡ true
        → printed ((c, a) ∷ h) fatal ≡ true
    one_call h (set_filter n) a k before = promised.after_filter h n a fatal ∙ k
    one_call h c a k before = promised.other_call h c a fatal refl ∙ before

    all_printed : (h : History Address) → Only keeps_fatal h → printed h fatal ≡ true
    all_printed [] only = promised.at_start fatal
    all_printed ((c, a) ∷ h) only = one_call h c a only.0 (all_printed h only.1)

  Only-rest :
      (after before : History Address) (e : Call Address × Answer)
      → Only keeps_fatal (after ++ (e ∷ before))
      → Only keeps_fatal before
  Only-rest [] before e only = only.1
  Only-rest (d ∷ after) before e only = Only-rest after before e only.1

module _ (api : Asio) (env : Env api.Address) (library : ProgramOptions) (native : Endian) where
  startup-Makes :
      (build : Build) (raw : Configuration) (args : List String)
      → Makes keeps_fatal (startup api env library native build raw args)
  unfolding startup
  startup-Makes build raw args = Makes-then (Makes-weaken sandbox-keeps (sandbox-Makes env build)) (
      Makes-bind (Makes-weaken configure-keeps (configure-Makes env library build.clang raw args))
        λ config.
          Makes-then (log_build-Makes env build (λ _ _. refl) refl)
            (Makes-weaken construct-keeps (construct-Makes api env native _ _ _ _ _ _)))

module _ (api : Asio) (env : Env api.Address) (library : ProgramOptions) (native : Endian)
    (printed : History api.Address → Severity → Bool) (promised : IsLog printed) where
  -- With Boost.Log as documented, no log level hides a fatal line: from the start of the process,
  -- whatever the arguments and the answers are, and for any event loop that does not raise the
  -- threshold of the log above fatal: each fatal line that the run of `main` logs, the report of an
  -- exception in front of EXIT_FAILURE among them, is printed.
  pub main_prints :
      (io_run : Sender api.Address → Action api.Address (Unit {0}))
      → ((s : Sender api.Address) → Makes keeps_fatal (io_run s))
      → (build : Build) (raw : Configuration) (args : List String)
        (after before : History api.Address) (line : Line api.Address) (a : Answer)
      → (main api env library native io_run build raw args []).1
        ≡ after ++ ((log fatal line, a) ∷ before)
      → printed before fatal ≡ true
  unfolding main
  main_prints io_run made build raw args after before line a e =
      let all =
        status-Added api env library native keeps_fatal [] _ (λ _. refl)
          ((Makes-bind (startup-Makes api env library native build raw args) made).added []) in
      all_printed printed promised before (
        Only-rest after before (log fatal line, a)
          (rw (sym (all.on_top ∙ append-nil all.new) ∙ e) at all.kinds))
