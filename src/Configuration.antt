-- ===== src/Configuration.antt =====
-- src/configuration.hpp and src/configuration.cpp: the command line, over Boost.Program_options.
pub mod Api
pub mod Specs
pub mod Writes
pub mod Values
pub mod Forgets
pub mod Clang
pub mod Concrete
pub mod Calls
pub mod Defaults
use mping_sender_mirror.Prelude.{
  ℕ, Bool, true, false, String, Option, none, some, List, [], ◌∷◌, if◌then◌else◌,
}
use mping_sender_mirror.Runtime.{Severity, info, severity_number, Env, set_filter, print_usage}
use mping_sender_mirror.Runtime.Monad.{Action, ◌>>=◌, ◌>>◌, pure, lift, exit, perform}
use Api.{
  Kind, severity_kind, text_kind, u16_kind, u8_kind, Value, severity, text, u16, u8, Requirement,
  required, default_value, optional, Member, log_level, bind_address, bind_port, address, port, ttl,
  interface_name, OptionSpec, Style, ProgramOptions, allow_long, allow_sticky, long_allow_next,
}

pub record Configuration : Type 0 where
  pub help : Bool
  pub log_level : Severity
  pub bind_address : String
  pub bind_port : ℕ
  pub address : String
  pub port : ℕ
  pub ttl : ℕ
  pub interface_name : String

-- get_help, get_log_level and the other getters.
abbrev pub get_help : Configuration → Bool
get_help c = c.help

abbrev pub get_log_level : Configuration → Severity
get_log_level c = c.log_level

abbrev pub get_bind_address : Configuration → String
get_bind_address c = c.bind_address

abbrev pub get_bind_port : Configuration → ℕ
get_bind_port c = c.bind_port

abbrev pub get_address : Configuration → String
get_address c = c.address

abbrev pub get_port : Configuration → ℕ
get_port c = c.port

abbrev pub get_ttl : Configuration → ℕ
get_ttl c = c.ttl

abbrev pub get_interface_name : Configuration → String
get_interface_name c = c.interface_name

-- `options.add_options()`; the option for the log level stands under `#ifndef __clang__`.
abbrev help_option : OptionSpec
help_option = record { name = "help"; member = none; kind = none; requirement = optional }

abbrev level_option : OptionSpec
level_option = record {
  name = "log-level";
  member = some log_level;
  kind = some severity_kind;
  requirement = default_value (severity info);
}

abbrev other_options : List OptionSpec
other_options =
    record {
      name = "bind-address";
      member = some bind_address;
      kind = some text_kind;
      requirement = required;
    }
    ∷ record {
      name = "bind-port";
      member = some bind_port;
      kind = some u16_kind;
      requirement = default_value (u16 4321);
    }
    ∷ record {
      name = "address";
      member = some address;
      kind = some text_kind;
      requirement = default_value (text "ff2e::42");
    }
    ∷ record {
      name = "port";
      member = some port;
      kind = some u16_kind;
      requirement = default_value (u16 4321);
    }
    ∷ record {
      name = "ttl";
      member = some ttl;
      kind = some u8_kind;
      requirement = default_value (u8 64);
    }
    ∷ record {
      name = "interface-name";
      member = some interface_name;
      kind = some text_kind;
      requirement = required;
    }
    ∷ []

-- `clang` is whether `__clang__` is defined.
abbrev pub options : Bool → List OptionSpec
options true = help_option ∷ other_options
options false = help_option ∷ level_option ∷ other_options

-- The argument of `set_filter`.
abbrev pub threshold : Bool → Configuration → ℕ
threshold true c = severity_number info
threshold false c = severity_number c.log_level

abbrev pub style : List Style
style = allow_long ∷ allow_sticky ∷ long_allow_next ∷ []

-- The write of `notify` through the pointer of an option. A value of another type is never written.
unfoldable pub write : Configuration → Member → Value → Configuration
write c log_level (severity v) = record c { log_level = v }
write c bind_address (text v) = record c { bind_address = v }
write c bind_port (u16 v) = record c { bind_port = v }
write c address (text v) = record c { address = v }
write c port (u16 v) = record c { port = v }
write c ttl (u8 v) = record c { ttl = v }
write c interface_name (text v) = record c { interface_name = v }
write c member v = c

unfoldable pub write_all : Configuration → List (Member × Value) → Configuration
write_all c [] = c
write_all c ((member, v) ∷ writes) = write_all (write c member v) writes

module _ {Address : Type 0} (env : Env Address) (library : ProgramOptions) (clang : Bool) where
  -- The constructor. `raw` is the object before it: members that are not yet written.
  unfoldable pub configure : Configuration → List String → Action Address Configuration
  configure raw args = do
    vm ← lift (library.parse_and_store (options clang) style args)
    if library.contains vm "help" then (do _ ← perform env print_usage; exit 0) else (do
      writes ← lift (library.notify vm)
      let c = write_all (record raw { help = false }) writes
      _ ← perform env (set_filter (threshold clang c))
      pure c)
