-- ===== src/Tests/Options.antt =====
-- Command lines.
use mping_sender_mirror.Prelude.{◌≡◌, refl, true, false, [], ◌∷◌}
use mping_sender_mirror.Prelude.Outcome.{returned, thrown, library_error}
use mping_sender_mirror.Configuration.{Configuration, configure, write, write_all}
use mping_sender_mirror.Configuration.Api.{codes}
use mping_sender_mirror.Configuration.Defaults.{configure_defaults}
use mping_sender_mirror.Configuration.Concrete.{concrete_options, given}
use mping_sender_mirror.Configuration.Concrete.Documented.{concrete_options-IsDocumented}
use mping_sender_mirror.Configuration.Forgets.{configure_forgets, visible_outcome}
use mping_sender_mirror.Configuration.Clang.{configure_clang}
use mping_sender_mirror.Runtime.{trace, info, severity_number, calls, set_filter}
use mping_sender_mirror.Configuration.Values.{configure_ttl}
use mping_sender_mirror.Tests.Samples.{kernel}

abbrev fives : Configuration
fives = record {
  help = false;
  log_level = info;
  bind_address = "fd00:8e13:ce5d:e::1";
  bind_port = 4321;
  address = "ff2e::42";
  port = 4321;
  ttl = 53;
  interface_name = "eth0";
}

abbrev pub garbage : Configuration
garbage = record {
  help = true;
  log_level = trace;
  bind_address = "x";
  bind_port = 1;
  address = "y";
  port = 2;
  ttl = 3;
  interface_name = "z";
}

configure_lem :
    (configure kernel (concrete_options false) false garbage ("--ttl" ∷ "5" ∷ []) []).0
    ≡ returned fives
unfolding configure write_all write
configure_lem = refl

-- A text of two digits is refused.
configure_refuses :
    (configure kernel (concrete_options false) false garbage ("--ttl" ∷ "64" ∷ []) []).0
    ≡ thrown (library_error 0)
unfolding configure write_all write
configure_refuses = refl

-- What the concrete library writes when no default is overridden.
abbrev defaults : Configuration
defaults = record fives { ttl = 64 }

defaults_lem : (configure kernel (concrete_options false) false garbage [] []).0 ≡ returned defaults
unfolding configure write_all write
defaults_lem = refl

configure_defaults_example :
    (defaults.bind_port ≡ 4321)
    × (defaults.address ≡ "ff2e::42")
    × (defaults.port ≡ 4321)
    × (defaults.ttl ≡ 64)
    × (defaults.log_level ≡ info)
    × (calls (configure kernel (concrete_options false) false garbage [] []).1
        ≡ set_filter (severity_number info) ∷ [])
configure_defaults_example =
    configure_defaults kernel (concrete_options false) false given
      (concrete_options-IsDocumented false) garbage defaults [] [] refl refl refl refl refl
      defaults_lem

configure_forgets_example :
    (visible_outcome true
        (configure kernel (concrete_options true) true garbage ("--ttl" ∷ "5" ∷ []) []).0
      ≡ visible_outcome true
          (configure kernel (concrete_options true) true fives ("--ttl" ∷ "5" ∷ []) []).0)
    × ((configure kernel (concrete_options true) true garbage ("--ttl" ∷ "5" ∷ []) []).1
        ≡ (configure kernel (concrete_options true) true fives ("--ttl" ∷ "5" ∷ []) []).1)
configure_forgets_example =
    configure_forgets kernel (concrete_options true) true given (concrete_options-IsDocumented true)
      garbage fives ("--ttl" ∷ "5" ∷ []) []

clang_lem :
    (configure kernel (concrete_options true) true garbage ("--ttl" ∷ "5" ∷ []) []).0
    ≡ returned (record fives { log_level = trace })
unfolding configure write_all write
clang_lem = refl

configure_clang_example :
    (calls (configure kernel (concrete_options true) true garbage ("--ttl" ∷ "5" ∷ []) []).1
      ≡ set_filter (severity_number info) ∷ [])
    × (trace ≡ trace)
configure_clang_example =
    configure_clang kernel (concrete_options true) given (concrete_options-IsDocumented true)
      garbage (record fives { log_level = trace }) ("--ttl" ∷ "5" ∷ []) [] clang_lem

configure_ttl_example : codes "5" ≡ 53 ∷ []
configure_ttl_example =
    configure_ttl kernel (concrete_options false) false given (concrete_options-IsDocumented false)
      garbage fives ("--ttl" ∷ "5" ∷ []) [] "5" refl configure_lem
