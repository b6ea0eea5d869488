-- ===== src/Configuration/Calls.antt =====
-- The calls of the constructor of the configuration.
-- Code: src/configuration.cpp.
use mping_sender_mirror.Prelude.{◌≡◌, refl, Bool, true, false, String, List, leb}
use mping_sender_mirror.Runtime.{
  Severity, trace, debug, info, warning, error, fatal, severity_number, Call, Env, set_filter,
  print_usage,
}
use mping_sender_mirror.Runtime.Makes.{Makes, makes}
use mping_sender_mirror.Configuration.Api.{ProgramOptions}
use mping_sender_mirror.Configuration.{Configuration, threshold, configure}

-- The usage, and a threshold of the log that lets fatal lines through.
abbrev pub is_configure_call : {Address : Type 0} → Call Address → Bool
is_configure_call (set_filter n) = leb n (severity_number fatal)
is_configure_call print_usage = true
is_configure_call _ = false

severity_number-bound : (s : Severity) → leb (severity_number s) 5 ≡ true
severity_number-bound trace = refl
severity_number-bound debug = refl
severity_number-bound info = refl
severity_number-bound warning = refl
severity_number-bound error = refl
severity_number-bound fatal = refl

threshold-bound : (clang : Bool) (c : Configuration) → leb (threshold clang c) 5 ≡ true
threshold-bound true c = refl
threshold-bound false c = severity_number-bound c.log_level

pub configure-Makes :
    {Address : Type 0} (env : Env Address) (library : ProgramOptions) (clang : Bool)
    (raw : Configuration) (args : List String)
    → Makes is_configure_call (configure env library clang raw args)
unfolding configure
configure-Makes env library clang raw args = search (makes, threshold-bound) depth 12
