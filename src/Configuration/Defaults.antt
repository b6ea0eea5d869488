-- ===== src/Configuration/Defaults.antt =====
-- The members whose options the command line does not give.
-- Code: src/configuration.cpp.
use mping_sender_mirror.Prelude.{
  ℕ, ◌≡◌, ◌≢◌, refl, subst, ap, ◌∙◌, inl, inr, Bool, true, false, Bool-cases, String, List, [], ◌∷◌,
  Option, none, some, arith, if◌then◌else◌,
}
use mping_sender_mirror.Prelude.Outcome.{Outcome, returned}
use mping_sender_mirror.Runtime.{Env, History, Severity, info, severity_number, calls, set_filter}
use mping_sender_mirror.Configuration.Api.{
  OptionSpec, Value, severity, text, u16, u8, Requirement, default_in, always_set, Member,
  log_level, bind_port, address, port, ttl, name_of, default_of, is_member, is_set, ProgramOptions,
  IsDocumented,
}
use mping_sender_mirror.Configuration.{Configuration, options, style, threshold, configure}
use mping_sender_mirror.Configuration.Writes.{value_of, write_all_member}
use mping_sender_mirror.Configuration.Values.{configure-eq-returned, typed, configure_lem}
use mping_sender_mirror.Configuration.Clang.{severity-inj, configure_clang}

none-some : (v : Value) → none ≢ some v
none-some v e = cc

default_in-always_set : (r : Requirement) (v : Value) → default_in r ≡ some v → always_set r ≡ true
default_in-always_set r v e = ground arith

-- An option with a default value leaves a value.
default_of-is_set :
    (specs : List OptionSpec) (m : Member) (v : Value)
    → default_of specs m ≡ some v
    → is_set specs m ≡ true
default_of-is_set [] m v e = absurd (none-some v e)
default_of-is_set (o ∷ os) m v e = elim (Bool-cases (is_member m o.member)) [
  | inl own ↦ rw own (default_in-always_set o.requirement v (rw own at e))
  | inr other ↦ rw other (default_of-is_set os m v (rw other at e))
]

-- The names and the default values of the options.
abbrev HasDefault : Bool → Member → String → Value → Type 0
HasDefault clang m name v =
    (name_of (options clang) m ≡ some name) × (default_of (options clang) m ≡ some v)

bind_port_default : (clang : Bool) → HasDefault clang bind_port "bind-port" (u16 4321)
bind_port_default true = (refl, refl)
bind_port_default false = (refl, refl)

address_default : (clang : Bool) → HasDefault clang address "address" (text "ff2e::42")
address_default true = (refl, refl)
address_default false = (refl, refl)

port_default : (clang : Bool) → HasDefault clang port "port" (u16 4321)
port_default true = (refl, refl)
port_default false = (refl, refl)

ttl_default : (clang : Bool) → HasDefault clang ttl "ttl" (u8 64)
ttl_default true = (refl, refl)
ttl_default false = (refl, refl)

level_default : HasDefault false log_level "log-level" (severity info)
level_default = (refl, refl)

u16-inj : (m n : ℕ) → u16 m ≡ u16 n → m ≡ n
u16-inj m n e = cc

u8-inj : (m n : ℕ) → u8 m ≡ u8 n → m ≡ n
u8-inj m n e = cc

text-inj : (s t : String) → text s ≡ text t → s ≡ t
text-inj s t e = cc

module _ {Address : Type 0} (env : Env Address) (library : ProgramOptions) (clang : Bool)
    (token : List String → String → Option String)
    (documented : IsDocumented library (options clang) token) where
  -- An option that has a default value and is not given leaves this value in its member.
  default_left :
      (raw c : Configuration) (args : List String) (h : History Address) (m : Member)
      (name : String) (v : Value)
      → HasDefault clang m name v
      → token args name ≡ none
      → (configure env library clang raw args h).0 ≡ returned c
      → value_of c m ≡ v
  default_left raw c args h m name v (named, default) missing e =
      let w = configure-eq-returned env library clang token documented raw c args h e in
      subst (λ (c : Configuration). value_of c m ≡ v) w.result
        (write_all_member (λ x. x ≡ v) m _ w.writes (typed env library clang token documented w)
          (documented.defaults style args w.vm w.writes m name v w.parsed w.notified named default
            missing)
          (inr (
            documented.complete style args w.vm w.writes m w.parsed w.notified
              (default_of-is_set (options clang) m v default))))

  pub configure_port :
      (raw c : Configuration) (args : List String) (h : History Address)
      → token args "port" ≡ none
      → (configure env library clang raw args h).0 ≡ returned c
      → c.port ≡ 4321
  configure_port raw c args h missing e =
      u16-inj c.port 4321 (default_left raw c args h port _ _ (port_default clang) missing e)

-- The log level, which clang has no option for.
abbrev pub level_left : Bool → Configuration → Severity
level_left clang raw = if clang then raw.log_level else info

level_lem :
    {Address : Type 0} (env : Env Address) (library : ProgramOptions) (clang : Bool)
    (token : List String → String → Option String)
    (documented : IsDocumented library (options clang) token) (raw c : Configuration)
    (args : List String) (h : History Address)
    → token args "log-level" ≡ none
    → (configure env library clang raw args h).0 ≡ returned c
    → c.log_level ≡ level_left clang raw
level_lem env library true token documented raw c args h missing e =
    (configure_clang env library token documented raw c args h e).1
level_lem env library false token documented raw c args h missing e =
    severity-inj c.log_level info (
      default_left env library false token documented raw c args h log_level _ _ level_default
        missing e)

threshold_lem :
    (clang : Bool) (raw c : Configuration)
    → c.log_level ≡ level_left clang raw
    → threshold clang c ≡ severity_number info
threshold_lem true raw c e = refl
threshold_lem false raw c e = ap severity_number e

module _ {Address : Type 0} (env : Env Address) (library : ProgramOptions) (clang : Bool)
    (token : List String → String → Option String)
    (documented : IsDocumented library (options clang) token) where
  -- With Boost.Program_options as documented: if the command line gives none of the options
  -- bind-port, address, port, ttl and log-level, a constructor that returns leaves both ports at
  -- 4321, the destination at ff2e::42 and the hop limit at 64, and its one call sets the threshold
  -- of the log to that of `info`. The log level is `info`, but with clang it is what stood in the
  -- object before.
  pub configure_defaults :
      (raw c : Configuration) (args : List String) (h : History Address)
      → token args "bind-port" ≡ none
      → token args "address" ≡ none
      → token args "port" ≡ none
      → token args "ttl" ≡ none
      → token args "log-level" ≡ none
      → (configure env library clang raw args h).0 ≡ returned c
      → (c.bind_port ≡ 4321)
        × (c.address ≡ "ff2e::42")
        × (c.port ≡ 4321)
        × (c.ttl ≡ 64)
        × (c.log_level ≡ (if clang then raw.log_level else info))
        × (calls (configure env library clang raw args h).1
            ≡ set_filter (severity_number info) ∷ calls h)
  configure_defaults raw c args h no_bind no_address no_port no_ttl no_level e =
      let left = default_left env library clang token documented raw c args h in
      let w = configure-eq-returned env library clang token documented raw c args h e in
      let level = level_lem env library clang token documented raw c args h no_level e in
      (
        u16-inj c.bind_port 4321 (left bind_port _ _ (bind_port_default clang) no_bind e),
        text-inj c.address "ff2e::42" (left address _ _ (address_default clang) no_address e),
        u16-inj c.port 4321 (left port _ _ (port_default clang) no_port e),
        u8-inj c.ttl 64 (left ttl _ _ (ttl_default clang) no_ttl e),
        level,
        ap (λ (r : Outcome Configuration × History Address). calls r.1)
              (configure_lem env library clang raw args h w.vm w.writes w.parsed w.help w.notified)
            ∙ ap (λ (n : ℕ). set_filter n ∷ calls h)
                (ap (threshold clang) w.result ∙ threshold_lem clang raw c level),
      )
