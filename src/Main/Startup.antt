-- ===== src/Main/Startup.antt =====
-- `main` in two parts: the calls of the sandbox, and the calls behind it.
-- Code: src/main.cpp.
use mathlib.Core.List.{append-nil}
use mathlib.Core.Path.{fun_ext}
use mping_sender_mirror.Prelude.{
  arith, false, ◌∷◌, ◌≡◌, refl, sym, ap, ◌∙◌, ◌⊎◌, inl, inr, Bool, true, not, String, List, [],
  ◌++◌,
}
use mping_sender_mirror.Prelude.Outcome.{Exception, Outcome, returned, thrown, exited}
use mping_sender_mirror.Asio.Api.{Asio}
use mping_sender_mirror.Network.{Endian}
use mping_sender_mirror.Runtime.{
  seccomp_built, seccomp_version_is, Severity, Line, info, boost_version, seccomp_version, Answer,
  log, fatal, exits, Call, Env, History,
}
use mping_sender_mirror.Runtime.Monad.{◌>>◌, Action, continue, ◌>>=◌, continue_assoc}
use mping_sender_mirror.Runtime.Makes.{
  Makes-say, Makes-perform, Added, Makes-then, Makes, Only, Makes-bind, Makes-weaken,
}
use mping_sender_mirror.Configuration.Api.{ProgramOptions}
use mping_sender_mirror.Configuration.{Configuration, configure}
use mping_sender_mirror.Sender.{Sender, construct}
use mping_sender_mirror.Sender.Construct.{is_construct_call, construct-Makes}
use mping_sender_mirror.Configuration.Calls.{is_configure_call, configure-Makes}
use mping_sender_mirror.Main.{
  log_seccomp, log_build, Build, Status, exit_status, status, sandbox, startup, main,
}
use mping_sender_mirror.Main.Parts.{is_sandbox_call, sandbox-Makes, sandbox-Calm}

abbrev pub any_call : {Address : Type 0} → Call Address → Bool
any_call c = true

-- The calls behind the sandbox.
abbrev pub is_running_call : {Address : Type 0} → Call Address → Bool
is_running_call c = not (is_sandbox_call c)

configure-running :
    {Address : Type 0} (c : Call Address) → is_configure_call c ≡ true → is_running_call c ≡ true
configure-running c k = ground arith

construct-running :
    {Address : Type 0} (c : Call Address) → is_construct_call c ≡ true → is_running_call c ≡ true
construct-running c k = ground arith

-- The one call is the report of an exception.
abbrev pub IsReport : {Address : Type 0} → History Address → Type 0
IsReport h = (x : Exception) × (a : Answer) × (h ≡ (log fatal (exits x), a) ∷ [])

-- The lines on the build, for any kind that has all lines and the query of the version.
pub log_build-Makes :
    {Address : Type 0} {k : Call Address → Bool} (env : Env Address) (build : Build)
    → ((level : Severity) (line : Line Address) → k (log level line) ≡ true)
    → k seccomp_version ≡ true
    → Makes k (log_build env build)
unfolding log_build log_seccomp
log_build-Makes {k} env build lines version =
    Makes-then (Makes-say env info boost_version (lines _ _)) (
      Makes-then (Makes-say env info _ (lines _ _))
        (Makes-then (on_seccomp build.have_seccomp) (Makes-say env info _ (lines _ _))))
  where
    on_seccomp : (have : Bool) → Makes k (log_seccomp env have)
    on_seccomp true =
        Makes-then (Makes-say env info (seccomp_built true) (lines info (seccomp_built true))) (
          Makes-bind (Makes-perform env seccomp_version version) (λ a.
            let line : Line _ = seccomp_version_is a.result in
            Makes-say env info line (lines info line)))
    on_seccomp false = Makes-say env info (seccomp_built false) (lines info (seccomp_built false))

module _ (api : Asio) (env : Env api.Address) (library : ProgramOptions) (native : Endian) where
  -- What follows the sandbox.
  abbrev rest :
      (Sender api.Address → Action api.Address (Unit {0}))
      → Build
      → Configuration
      → List String
      → Action api.Address (Unit {0})
  rest io_run build raw args = configure env library build.clang raw args >>= λ config.
      log_build env build
      >> (construct api env native config.bind_address config.bind_port config.address config.port
            config.ttl config.interface_name
          >>= io_run)

  rest-Makes :
      {k : Call api.Address → Bool}
      → ((c : Call api.Address) → is_running_call c ≡ true → k c ≡ true)
      → (io_run : Sender api.Address → Action api.Address (Unit {0}))
      → ((s : Sender api.Address) → Makes k (io_run s))
      → (build : Build) (raw : Configuration) (args : List String)
      → Makes k (rest io_run build raw args)
  rest-Makes wider io_run made build raw args =
      Makes-bind
        (Makes-weaken (λ c k. wider c (configure-running c k))
          (configure-Makes env library build.clang raw args))
        (λ config. Makes-then (Makes-weaken wider (log_build-Makes env build (λ _ _. refl) refl)) (
          Makes-bind
            (Makes-weaken (λ c k. wider c (construct-running c k))
              (construct-Makes api env native _ _ _ _ _ _))
            made))

  main_lem :
      (io_run : Sender api.Address → Action api.Address (Unit {0})) (build : Build)
      (raw : Configuration) (args : List String) (h : History api.Address)
      → main api env library native io_run build raw args h
        ≡ status env (continue (sandbox env build h) (λ _. rest io_run build raw args))
  unfolding main startup
  main_lem io_run build raw args h = ap (status env) (
      continue_assoc (sandbox env build h) _ io_run
      ∙ ap (continue (sandbox env build h)) (
          fun_ext λ _. fun_ext λ h'.
            continue_assoc (configure env library build.clang raw args h') _ io_run
            ∙ ap (continue (configure env library build.clang raw args h'))
                (fun_ext λ config. fun_ext λ h₁. continue_assoc (log_build env build h₁) _ io_run)))

  -- The report of an exception is one more call.
  pub status-Added :
      {A : Type 0} (k : Call api.Address → Bool) (h : History api.Address)
      (r : Outcome A × History api.Address)
      → ((x : Exception) → k (log fatal (exits x)) ≡ true)
      → Added k h r.1
      → Added k h (status env r).1
  status-Added k h (returned a, h') reports added = added
  status-Added k h (thrown x, h') reports added = record {
    new = (log fatal (exits x), env.answer h' (log fatal (exits x))) ∷ added.new;
    on_top = ap (◌∷◌ (log fatal (exits x), env.answer h' (log fatal (exits x)))) added.on_top;
    kinds = (reports x, added.kinds);
  }
  status-Added k h (exited n, h') reports added = added

  -- `main` in two parts: the calls of the sandbox, and the calls behind it. Either these are the
  -- report of an exception alone and the exit status is EXIT_FAILURE, or S holds of the parts.
  abbrev pub Split :
      (History api.Address → History api.Address → Type 0) → Status × History api.Address → Type 0
  Split S r =
      (early : History api.Address) × (later : History api.Address) × (r.1 ≡ later ++ early)
      × Only is_sandbox_call early
      × ((IsReport later × (r.0 ≡ exit_status 1)) ⊎ S early later)

  early_kinds :
      (build : Build) (r : Outcome (Unit {0}) × History api.Address)
      → sandbox env build [] ≡ r
      → Only is_sandbox_call r.1
  early_kinds build r e =
      let a = (sandbox-Makes env build).added [] in
      rw
        (ap (λ (r : Outcome (Unit {0}) × History api.Address). r.1) (sym e)
          ∙ a.on_top
          ∙ append-nil a.new)
        a.kinds

  module _ (S : History api.Address → History api.Address → Type 0) (k : Call api.Address → Bool)
      (wider : (c : Call api.Address) → is_running_call c ≡ true → k c ≡ true)
      (io_run : Sender api.Address → Action api.Address (Unit {0}))
      (made : (s : Sender api.Address) → Makes k (io_run s)) (build : Build) (raw : Configuration)
      (args : List String)
      (holds : (early later : History api.Address)
        → sandbox env build [] ≡ (returned tt, early)
        → Only k later
        → S early later) where
    splits :
        (r : Outcome (Unit {0}) × History api.Address)
        → sandbox env build [] ≡ r
        → Split S (status env (continue r (λ _. rest io_run build raw args)))
    splits (returned tt', h) e =
        let a =
          status-Added k h (rest io_run build raw args h) (λ x. wider (log fatal (exits x)) refl)
            ((rest-Makes wider io_run made build raw args).added h) in
        (h, a.new, a.on_top, early_kinds build (returned tt', h) e, inr (holds h a.new e a.kinds))
    splits (thrown x, h) e = (
      h,
      (log fatal (exits x), env.answer h (log fatal (exits x))) ∷ [],
      refl,
      early_kinds build (thrown x, h) e,
      inl ((x, _, refl), refl),
    )
    splits (exited n, h) e = absurd (rw e at ((sandbox-Calm env build).ends []))

    pub main_splits : Split S (main api env library native io_run build raw args [])
    main_splits = rw (main_lem io_run build raw args []) (splits (sandbox env build []) refl)
