-- ===== src/Main/Ends.antt =====
-- How `main` ends, and what it has reported then.
-- Code: src/main.cpp.
use mping_sender_mirror.Prelude.{
  ℕ, ◌≡◌, refl, ◌⊎◌, inl, inr, Bool, true, false, Bool-cases, String, List, ◌∷◌, ap,
}
use mping_sender_mirror.Prelude.Outcome.{Outcome, returned, thrown, exited, Exception}
use mping_sender_mirror.Asio.Api.{Asio}
use mping_sender_mirror.Network.{Endian}
use mping_sender_mirror.Runtime.{Answer, Endpoint, Env, History, fatal, log, exits, print_usage}
use mping_sender_mirror.Runtime.Monad.{Action, continue, lift}
use mping_sender_mirror.Runtime.Calm.{IsNoExit, Calm, calm}
use mping_sender_mirror.Configuration.Api.{Style, OptionSpec, ProgramOptions}
use mping_sender_mirror.Configuration.{Configuration, options, style, configure}
use mping_sender_mirror.Socket.{if_nametoindex, open_socket}
use mping_sender_mirror.Sender.{Sender, schedule_send, construct}
use mping_sender_mirror.Main.{
  Build, Status, exit_status, status, log_seccomp, log_build, sandbox, startup, main,
}
use mping_sender_mirror.Main.Parts.{sandbox-Calm}

-- What Boost documents: these functions return or throw.
pub record IsReturning (api : Asio) (library : ProgramOptions) : Type 0 where
  pub make_address_ends : (t : String) → IsNoExit (api.make_address t)
  pub parse_ends :
      (specs : List OptionSpec) (style : List Style) (args : List String)
      → IsNoExit (library.parse_and_store specs style args)
  pub notify_ends : (vm : library.VariablesMap) → IsNoExit (library.notify vm)

module _ {Address : Type 0} where
  -- The newest call printed the usage.
  abbrev pub Helped : History Address → Type 0
  Helped h = (a : Answer) × (rest : History Address) × (h ≡ (print_usage, a) ∷ rest)

  -- An exit is that of `--help`.
  abbrev pub ExitsHelped : {A : Type 0} → Outcome A × History Address → Type 0
  ExitsHelped (returned a, h) = Unit {0}
  ExitsHelped (thrown x, h) = Unit {0}
  ExitsHelped (exited n, h) = (n ≡ 0) × Helped h

  ExitsHelped-continue :
      {A B : Type 0} (r : Outcome A × History Address) (f : A → Action Address B)
      → ExitsHelped r
      → ((a : A) (h : History Address) → ExitsHelped (f a h))
      → ExitsHelped (continue r f)
  ExitsHelped-continue (returned a, h) f p q = q a h
  ExitsHelped-continue (thrown x, h) f p q = tt
  ExitsHelped-continue (exited n, h) f p q = p

  no_exit-ExitsHelped :
      {A : Type 0} (r : Outcome A × History Address) → IsNoExit r.0 → ExitsHelped r
  no_exit-ExitsHelped (returned a, h) e = tt
  no_exit-ExitsHelped (thrown x, h) e = tt
  no_exit-ExitsHelped (exited n, h) e = absurd e

module _ (api : Asio) (env : Env api.Address) (library : ProgramOptions) (native : Endian)
    (documented : IsReturning api library) where
  log_seccomp-Calm : (have : Bool) → Calm (log_seccomp env have)
  unfolding log_seccomp
  log_seccomp-Calm true = search calm depth 12
  log_seccomp-Calm false = search calm depth 12

  log_build-Calm : (build : Build) → Calm (log_build env build)
  unfolding log_build
  log_build-Calm build = search (calm, log_seccomp-Calm) depth 20

  if_nametoindex-Calm : (name : String) → Calm (if_nametoindex env name)
  unfolding if_nametoindex
  if_nametoindex-Calm name = search calm depth 12

  open_socket-Calm :
      (endpoint : Endpoint api.Address) (limit : ℕ) (interface : String)
      → Calm (open_socket api env endpoint limit interface)
  unfolding open_socket
  open_socket-Calm endpoint limit interface = search (calm, if_nametoindex-Calm) depth 24

  schedule_send-Calm : (s : Sender api.Address) → Calm (schedule_send api env native s)
  unfolding schedule_send
  schedule_send-Calm s = search calm depth 12

  construct-Calm :
      (bind_address : String) (bind_port : ℕ) (address : String) (port ttl : ℕ) (interface : String)
      → Calm (construct api env native bind_address bind_port address port ttl interface)
  unfolding construct
  construct-Calm bind_address bind_port address port ttl interface =
      search (calm, open_socket-Calm, schedule_send-Calm, documented.make_address_ends) depth 24

  configure-ExitsHelped :
      (clang : Bool) (raw : Configuration) (args : List String) (h : History api.Address)
      → ExitsHelped (configure env library clang raw args h)
  unfolding configure
  configure-ExitsHelped clang raw args h =
      ExitsHelped-continue (lift (library.parse_and_store (options clang) style args) h) _
        (no_exit-ExitsHelped _ (documented.parse_ends (options clang) style args))
        λ vm h₁. elim (Bool-cases (library.contains vm "help")) [
          | inl help ↦ rw help (refl, (env.answer h₁ print_usage, h₁, refl))
          | inr plain ↦ rw plain (
              ExitsHelped-continue (lift (library.notify vm) h₁) _
                (no_exit-ExitsHelped _ (documented.notify_ends vm)) (λ writes h₂. tt))
        ]

  startup-ExitsHelped :
      (build : Build) (raw : Configuration) (args : List String) (h : History api.Address)
      → ExitsHelped (startup api env library native build raw args h)
  unfolding startup
  startup-ExitsHelped build raw args h =
      ExitsHelped-continue (sandbox env build h) _
        (no_exit-ExitsHelped _ ((sandbox-Calm env build).ends h))
        λ _ h₁.
          ExitsHelped-continue (configure env library build.clang raw args h₁) _
            (configure-ExitsHelped build.clang raw args h₁)
            λ c h₂.
              ExitsHelped-continue (log_build env build h₂) _
                (no_exit-ExitsHelped _ ((log_build-Calm build).ends h₂))
                λ _ h₃. no_exit-ExitsHelped _ ((construct-Calm _ _ _ _ _ _).ends h₃)

  module _ (io_run : Sender api.Address → Action api.Address (Unit {0}))
      (calm_loop : (s : Sender api.Address) → Calm (io_run s)) (build : Build) (raw : Configuration)
      (args : List String) where
    -- The event loop ran out of work behind a startup from h₀, with the history h.
    abbrev pub Finished : History api.Address → History api.Address → Type 0
    Finished h₀ h =
        (s : Sender api.Address) × (h₁ : History api.Address) × (startup api env library native
            build raw args h₀
          ≡ (returned s, h₁))
        × (io_run s h₁ ≡ (returned tt, h))

    -- The ways to end from h₀: a failure, whose report is the newest call, the usage, or the end of
    -- the event loop.
    abbrev pub Ends : History api.Address → Status × History api.Address → Type 0
    Ends h₀ r =
        ((r.0 ≡ exit_status 1)
          × ((x : Exception) × (a : Answer) × (rest : History api.Address) × (r.1
                ≡ (log fatal (exits x), a) ∷ rest)))
        ⊎ ((r.0 ≡ exit_status 0) × (Helped r.1 ⊎ Finished h₀ r.1))

    loop-Ends :
        (h₀ h₁ : History api.Address) (s : Sender api.Address)
        → startup api env library native build raw args h₀ ≡ (returned s, h₁)
        → (r : Outcome (Unit {0}) × History api.Address) → io_run s h₁ ≡ r
        → Ends h₀ (status env r)
    loop-Ends h₀ h₁ s e (returned tt, h) f = inr (refl, inr (s, h₁, e, f))
    loop-Ends h₀ h₁ s e (thrown x, h) f = inl (refl, (x, _, h, refl))
    loop-Ends h₀ h₁ s e (exited n, h) f = absurd (rw f at ((calm_loop s).ends h₁))

    startup-Ends :
        (h₀ : History api.Address) (r : Outcome (Sender api.Address) × History api.Address)
        → startup api env library native build raw args h₀ ≡ r
        → ExitsHelped r
        → Ends h₀ (status env (continue r io_run))
    startup-Ends h₀ (returned s, h) e p = loop-Ends h₀ h s e (io_run s h) refl
    startup-Ends h₀ (thrown x, h) e p = inl (refl, (x, _, h, refl))
    startup-Ends h₀ (exited n, h) e p = inr (ap exit_status p.0, inl p.1)

    -- With Boost as documented, whatever the arguments and the answers, and for an event loop that
    -- does not call std::exit, `main` ends in one of three ways: with EXIT_FAILURE, and then its
    -- last call is the fatal line on an exception; with EXIT_SUCCESS and the usage as its last
    -- call; or with EXIT_SUCCESS behind a startup and an event loop that both returned.
    pub main-Ends :
        (h : History api.Address) → Ends h (main api env library native io_run build raw args h)
    unfolding main
    main-Ends h =
        startup-Ends h (startup api env library native build raw args h) refl
          (startup-ExitsHelped build raw args h)
