-- ===== src/Configuration/Clang.antt =====
-- The constructor under clang, where there is no option for the log level.
-- Code: src/configuration.cpp.
use mping_sender_mirror.Prelude.{◌≡◌, ap, ◌∙◌, sym, true, String, List, ◌∷◌, Option}
use mping_sender_mirror.Prelude.Outcome.{Outcome, returned}
use mping_sender_mirror.Runtime.{Env, History, calls, set_filter}
use mping_sender_mirror.Runtime.{Severity, info, severity_number}
use mping_sender_mirror.Configuration.Api.{severity, log_level, ProgramOptions, IsDocumented}
use mping_sender_mirror.Configuration.{Configuration, options, style, configure, get_log_level}
use mping_sender_mirror.Configuration.Specs.{All-untouched}
use mping_sender_mirror.Configuration.Writes.{value_of, write_all_untouched}
use mping_sender_mirror.Configuration.Values.{configure-eq-returned, configure_lem}

pub severity-inj : (a b : Severity) → severity a ≡ severity b → a ≡ b
severity-inj a b e = cc

module _ {Address : Type 0} (env : Env Address) (library : ProgramOptions)
    (token : List String → String → Option String)
    (documented : IsDocumented library (options true) token) where
  -- With Boost.Program_options as documented, and `__clang__` defined: a constructor that returns
  -- has set the threshold of the log to `info`, its one call, whatever `--log-level` says, and
  -- get_log_level gives what stood in the object before: the member is never written.
  pub configure_clang :
      (raw c : Configuration) (args : List String) (h : History Address)
      → (configure env library true raw args h).0 ≡ returned c
      → (calls (configure env library true raw args h).1
          ≡ set_filter (severity_number info) ∷ calls h)
        × (get_log_level c ≡ get_log_level raw)
  configure_clang raw c args h e =
      let w = configure-eq-returned env library true token documented raw c args h e in
      (
        ap (λ (r : Outcome Configuration × History Address). calls r.1)
            (configure_lem env library true raw args h w.vm w.writes w.parsed w.help w.notified),
        severity-inj _ _ (
            sym (ap (λ (c : Configuration). value_of c log_level) w.result)
            ∙ write_all_untouched log_level _ w.writes (
                All-untouched w.writes
                  (documented.typed style args w.vm w.writes w.parsed w.notified))),
      )
