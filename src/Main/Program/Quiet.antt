-- ===== src/Main/Program/Quiet.antt =====
-- The startup sends nothing and leaves a fresh sender.
-- Code: src/main.cpp.
use mping_sender_mirror.Prelude.{
  ◌<◌, ◌^◌, ◌≡◌, refl, ap, ◌∙◌, true, String, List, [], Option, arith,
}
use mping_sender_mirror.Prelude.Outcome.{Outcome, returned, thrown, exited}
use mping_sender_mirror.Asio.Api.{Asio}
use mping_sender_mirror.Network.{Endian}
use mping_sender_mirror.Runtime.{Call, Env, History}
use mping_sender_mirror.Runtime.Monad.{run_pair, Action, continue}
use mping_sender_mirror.Runtime.Makes.{Makes, Makes-weaken}
use mping_sender_mirror.Configuration.Api.{ProgramOptions, IsDocumented}
use mping_sender_mirror.Configuration.{Configuration, options, configure}
use mping_sender_mirror.Configuration.Calls.{is_configure_call, configure-Makes}
use mping_sender_mirror.Configuration.Values.{configure_bounds}
use mping_sender_mirror.Sender.{Sender, construct}
use mping_sender_mirror.Sender.Loop.{datagrams, readings}
use mping_sender_mirror.Sender.Construct.{
  IsFresh, construct-IsFresh, construct-Makes, construct-setup, is_setup_call, datagrams-append,
}
use mping_sender_mirror.Main.{log_build, Build, sandbox, startup}
use mping_sender_mirror.Main.Startup.{log_build-Makes}
use mping_sender_mirror.Main.Parts.{is_sandbox_call, sandbox-Makes}

module _ {Address : Type 0} where
  -- Nothing was sent, and the clock was not read.
  pub record IsIdle (h : History Address) : Type 0 where
    pub none_sent : datagrams h ≡ []
    pub none_read : readings h ≡ []

  -- A run from an idle history: the history stays idle, and P holds of what it returns.
  abbrev pub Quiet : {A : Type 0} → (A → Type 0) → Outcome A × History Address → Type 0
  Quiet P (returned a, h) = P a × IsIdle h
  Quiet P (thrown x, h) = IsIdle h
  Quiet P (exited n, h) = IsIdle h

  continue-Quiet :
      {A B : Type 0} (P : A → Type 0) (Q : B → Type 0) (r : Outcome A × History Address)
      (f : A → Action Address B)
      → Quiet P r
      → ((a : A) (h : History Address) → P a → IsIdle h → Quiet Q (f a h))
      → Quiet Q (continue r f)
  continue-Quiet P Q (returned a, h) f q rest = rest a h q.0 q.1
  continue-Quiet P Q (thrown x, h) f q rest = q
  continue-Quiet P Q (exited n, h) f q rest = q

  setup : (c : Call Address) → is_sandbox_call c ≡ true → is_setup_call c ≡ true
  setup c k = ground arith

  configure-setup : (c : Call Address) → is_configure_call c ≡ true → is_setup_call c ≡ true
  configure-setup c k = ground arith

  outcome-Quiet :
      {A : Type 0} (P : A → Type 0) (r : Outcome A × History Address)
      → ((a : A) → r.0 ≡ returned a → P a)
      → IsIdle r.1
      → Quiet P r
  outcome-Quiet P (returned a, h) holds idle = (holds a refl, idle)
  outcome-Quiet P (thrown x, h) holds idle = idle
  outcome-Quiet P (exited n, h) holds idle = idle

  made-Quiet :
      {A : Type 0} (P : A → Type 0) (m : Action Address A) (h : History Address)
      → Makes is_setup_call m
      → IsIdle h
      → ((a : A) → (m h).0 ≡ returned a → P a)
      → Quiet P (m h)
  made-Quiet P m h made idle holds =
      let a = made.added h in
      let (d, c) = datagrams-append a.new h a.kinds in
      outcome-Quiet P (m h) holds (record {
        none_sent = ap datagrams a.on_top ∙ d ∙ idle.none_sent;
        none_read = ap readings a.on_top ∙ c ∙ idle.none_read;
      })

module _ (api : Asio) (env : Env api.Address) (library : ProgramOptions) (native : Endian)
    (build : Build) (token : List String → String → Option String)
    (documented : IsDocumented library (options build.clang) token) where
  -- The ports and the hop limit of a configuration fit their types.
  abbrev InRange : Configuration → Type 0
  InRange c = (c.bind_port < 2 ^ 16) × (c.port < 2 ^ 16) × (c.ttl < 2 ^ 8)

  -- A sender as its constructor leaves it, for a configuration in range of which Q holds.
  abbrev pub Fresh : (Configuration → Type 0) → Sender api.Address → Type 0
  Fresh Q s = (c : Configuration) × Q c × IsFresh api env native c.bind_port c.port c.ttl s

  -- The constructor of the sender, for a configuration in range.
  constructed :
      (Q : Configuration → Type 0) (c : Configuration) (h : History api.Address)
      → Q c
      → InRange c
      → IsIdle h
      → Quiet (Fresh Q) (
          construct api env native c.bind_address c.bind_port c.address c.port c.ttl
            c.interface_name h)
  constructed Q c h holds ranges idle =
      let m =
        construct api env native c.bind_address c.bind_port c.address c.port c.ttl
          c.interface_name in
      made-Quiet (Fresh Q) m h
        (Makes-weaken construct-setup (
          construct-Makes api env native c.bind_address c.bind_port c.address c.port c.ttl
            c.interface_name))
        idle
        λ s e. (
          c,
          holds,
          (construct-IsFresh api env native c.bind_port c.port c.ttl ranges.0 ranges.1 ranges.2
              c.bind_address c.address c.interface_name h (m h).1 s
              (run_pair (m h) (returned s) e)).0,
        )

  pub startup-Quiet :
      (raw : Configuration) (args : List String) (Q : Configuration → Type 0)
      → ((c : Configuration) (h : History api.Address)
          → (configure env library build.clang raw args h).0 ≡ returned c
          → Q c)
      → Quiet (Fresh Q) (startup api env library native build raw args [])
  unfolding startup
  startup-Quiet raw args Q configured =
      continue-Quiet (λ _. Unit {0}) (Fresh Q) (sandbox env build []) _
        (made-Quiet (λ _. Unit {0}) (sandbox env build) []
          (Makes-weaken setup (sandbox-Makes env build))
          (record { none_sent = refl; none_read = refl }) (λ _ _. tt))
        λ _ h₁ _ idle₁.
          continue-Quiet (λ c. Q c × InRange c) (Fresh Q)
            (configure env library build.clang raw args h₁) _
            (made-Quiet (λ c. Q c × InRange c) (configure env library build.clang raw args) h₁
              (Makes-weaken configure-setup (configure-Makes env library build.clang raw args))
              idle₁
              (λ c e. (
                configured c h₁ e,
                configure_bounds env library build.clang token documented raw c args h₁ e,
              )))
            λ c h₂ known idle₂.
              continue-Quiet (λ _. Unit {0}) (Fresh Q) (log_build env build h₂) _
                (made-Quiet (λ _. Unit {0}) (log_build env build) h₂
                  (log_build-Makes env build (λ _ _. refl) refl) idle₂ (λ _ _. tt))
                λ _ h₃ _ idle₃. constructed Q c h₃ known.0 known.1 idle₃
