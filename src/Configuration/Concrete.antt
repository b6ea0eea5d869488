-- ===== src/Configuration/Concrete.antt =====
-- A concrete Boost.Program_options that knows `--help` and `--ttl`, for the tests.
-- Code: src/configuration.cpp.
pub mod Documented
use package.text.Mathlib.Text.{◌==◌ as str_eq}
use mathlib.Core.Bool.{true≢false}
use mping_sender_mirror.Prelude.{
  ℕ, ◌<◌, ◌≡◌, ◌≢◌, ◌⊎◌, inl, inr, refl, Bool, true, false, ◌||◌, if◌then◌else◌, String, List, [],
  ◌∷◌, Option, none, some, All, arith, ltb, ltb→lt, ◌∙◌, sym, ap, Bool-cases,
}
use mping_sender_mirror.Prelude.Outcome.{Outcome, returned, thrown, library_error}
use mping_sender_mirror.Runtime.{info}
use mping_sender_mirror.Configuration.Api.{
  u8_kind, Value, severity, text, u16, u8, Member, log_level, bind_address, bind_port, address,
  port, ttl, interface_name, IsWritten, IsCharacter, codes, kind_of, name_of, default_of, is_set,
  HasKind, ProgramOptions, IsDocumented,
}
use mping_sender_mirror.Configuration.{options}
use mping_sender_mirror.Configuration.Specs.{ttl_name}

abbrev pub after_ttl : List String → Option String
after_ttl [] = none
after_ttl (a ∷ []) = none
after_ttl (a ∷ (v ∷ rest)) = if str_eq a "--ttl" then some v else after_ttl (v ∷ rest)

abbrev pub given : List String → String → Option String
given args name = if str_eq name "ttl" then after_ttl args else none

abbrev pub has_help : List String → Bool
has_help [] = false
has_help (a ∷ rest) = str_eq a "--help" || has_help rest

abbrev pub other_writes : ℕ → List (Member × Value)
other_writes n =
    (bind_address, text "fd00:8e13:ce5d:e::1")
    ∷ (bind_port, u16 4321)
    ∷ (address, text "ff2e::42")
    ∷ (port, u16 4321)
    ∷ (ttl, u8 n)
    ∷ (interface_name, text "eth0")
    ∷ []

abbrev pub writes_with : Bool → ℕ → List (Member × Value)
writes_with true n = other_writes n
writes_with false n = (log_level, severity info) ∷ other_writes n

-- lexical_cast of a text to a character type.
abbrev pub cast : Bool → List ℕ → Outcome (List (Member × Value))
cast clang [] = thrown (library_error 0)
cast clang (n ∷ []) = if ltb n 256 then returned (writes_with clang n) else thrown (library_error 0)
cast clang (n ∷ (m ∷ rest)) = thrown (library_error 0)

abbrev pub notify_with : Bool → Option String → Outcome (List (Member × Value))
notify_with clang none = returned (writes_with clang 64)
notify_with clang (some t) = cast clang (codes t)

abbrev pub concrete_options : Bool → ProgramOptions
concrete_options clang = record {
  VariablesMap = List String;
  parse_and_store = λ specs style args. returned args;
  contains = λ args name. if str_eq name "help" then has_help args else false;
  notify = λ args. notify_with clang (after_ttl args);
}
