-- ===== src/Main/Locked.antt =====
-- What the process may still do once `main` has its sandbox.
-- Code: src/main.cpp.
use mping_sender_mirror.Prelude.{
  ◌≡◌, refl, ap, ◌⊎◌, Bool, true, false, ◌||◌, String, List, [], ◌++◌,
}
use mping_sender_mirror.Prelude.Outcome.{Outcome, returned}
use mping_sender_mirror.Asio.Api.{Asio}
use mping_sender_mirror.Network.{Endian}
use mping_sender_mirror.Runtime.{Constant, Env, History}
use mping_sender_mirror.Runtime.Monad.{Action, ◌>>◌, continue-eq-returned}
use mping_sender_mirror.Runtime.Makes.{Makes, Only}
use mping_sender_mirror.Capability.{check_for_capabilites, lock, drop_all_capabilies}
use mping_sender_mirror.Capability.Dropped.{IsCapng, drop_all_capabilies_lem}
use mping_sender_mirror.Landlock.Domain.{IsLandlock, restrict_self-create}
use mping_sender_mirror.Seccomp.Filter.{contains}
use mping_sender_mirror.Configuration.Api.{ProgramOptions}
use mping_sender_mirror.Configuration.{Configuration}
use mping_sender_mirror.Sender.{Sender}
use mping_sender_mirror.Main.{
  Build, exit_status, handled_access_fs, handled_access_net, restrict_capabilities,
  restrict_landlock, sandbox, main,
}
use mping_sender_mirror.Main.Done.{Needs-map, Persists-append, sandbox_reaches}
use mping_sender_mirror.Main.Parts.{is_sandbox_call, Needs}
use mping_sender_mirror.Main.Startup.{IsReport, any_call, main_splits}

module _ {Address : Type 0} (env : Env Address) (held : History Address → Constant → Bool)
    (capng : IsCapng held) (denied : History Address → Constant → Bool)
    (landlock : IsLandlock denied) where
  abbrev pub NoneHeld : History Address → Type 0
  NoneHeld h = (c : Constant) → held h c ≡ false

  -- Every access that `main` names is denied.
  abbrev pub AllDenied : History Address → Type 0
  AllDenied h =
      (x : Constant)
      → (contains x handled_access_fs || contains x handled_access_net) ≡ true
      → denied h x ≡ true

  restrict_capabilities-NoneHeld :
      (h : History Address)
      → (restrict_capabilities env h).0 ≡ returned tt
      → NoneHeld (restrict_capabilities env h).1
  unfolding restrict_capabilities
  restrict_capabilities-NoneHeld h e c =
      let (_, h₁, e₁, f₁) =
        continue-eq-returned (check_for_capabilites env h)
          (λ _. lock env >> drop_all_capabilies env) tt e in
      let (_, h₂, e₂, f₂) =
        continue-eq-returned (lock env h₁) (λ _. drop_all_capabilies env) tt f₁ in
      rw (e₁, e₂) (drop_all_capabilies_lem env held capng h₂ c f₂)

  restrict_landlock-AllDenied :
      (h : History Address)
      → (restrict_landlock env h).0 ≡ returned tt
      → AllDenied (restrict_landlock env h).1
  unfolding restrict_landlock
  restrict_landlock-AllDenied h e x handled =
      restrict_self-create env denied landlock handled_access_fs handled_access_net h x handled e

  abbrev pub Locked : Build → History Address → Type 0
  Locked build h = Needs build.have_libcapng (NoneHeld h) × Needs build.have_landlock (AllDenied h)

  pub sandbox-Locked :
      (build : Build) (h more : History Address)
      → (sandbox env build h).0 ≡ returned tt
      → Locked build (more ++ (sandbox env build h).1)
  sandbox-Locked build h more e =
      let (p, q, _) =
        sandbox_reaches env NoneHeld AllDenied (λ h. Unit {0}) (λ h e p c. capng.stays h e c (p c))
          (λ h e p x handled. landlock.stays h e x (p x handled)) restrict_capabilities-NoneHeld
          restrict_landlock-AllDenied (λ h e. tt) build h e in
      (
        Needs-map build.have_libcapng
            (Persists-append NoneHeld (λ h e p c. capng.stays h e c (p c)) more _) p,
        Needs-map build.have_landlock
            (Persists-append AllDenied (λ h e p x handled. landlock.stays h e x (p x handled)) more
              _)
            q,
      )

module _ (api : Asio) (env : Env api.Address) (library : ProgramOptions) (native : Endian)
    (held : History api.Address → Constant → Bool) (capng : IsCapng held)
    (denied : History api.Address → Constant → Bool) (landlock : IsLandlock denied) where
  -- With libcap-ng and landlock as their manual pages promise, for any event loop that only adds
  -- calls to the history, `main` runs in two parts. The early calls are all calls of the sandbox.
  -- Either the later ones are one line of the log, on an exception, and the exit status is
  -- EXIT_FAILURE, or from the end of the early calls on, whatever calls follow, the process holds
  -- no capability (if libcap-ng is built in) and is denied every access to the file system and to
  -- TCP that `main` names (if landlock is).
  pub main_locks :
      (io_run : Sender api.Address → Action api.Address (Unit {0}))
      → ((s : Sender api.Address) → Makes any_call (io_run s))
      → (build : Build) (raw : Configuration) (args : List String)
      → let r = main api env library native io_run build raw args [] in
        (early : History api.Address) × (later : History api.Address) × (r.1 ≡ later ++ early)
        × Only is_sandbox_call early
        × ((IsReport later × (r.0 ≡ exit_status 1))
            ⊎ ((more : History api.Address)
                → Locked env held capng denied landlock build (more ++ early)))
  main_locks io_run made build raw args =
      main_splits api env library native
        (λ early later.
          (more : History api.Address)
          → Locked env held capng denied landlock build (more ++ early))
        any_call (λ _ _. refl) io_run made build raw args
        (λ early later e _ more. rw e at (
          sandbox-Locked env held capng denied landlock build [] more
            (ap (λ (r : Outcome (Unit {0}) × History api.Address). r.0) e)))
