-- ===== src/Main/Program.antt =====
-- The whole program over an order in which the event loop calls the handlers.
-- Code: src/main.cpp.
pub mod Quiet
pub mod Counts
pub mod Dissected
use mping_sender_mirror.Prelude.{ℕ, ◌≡◌, sym, ap, ◌∙◌, String, List}
use mping_sender_mirror.Prelude.Outcome.{Outcome}
use mping_sender_mirror.Asio.Api.{Asio}
use mping_sender_mirror.Network.{Endian}
use mping_sender_mirror.Runtime.{Env, History}
use mping_sender_mirror.Runtime.Monad.{Action, continue, ◌>>=◌, continue_assoc}
use mping_sender_mirror.Configuration.Api.{ProgramOptions}
use mping_sender_mirror.Configuration.{Configuration}
use mping_sender_mirror.Sender.{Sender}
use mping_sender_mirror.Sender.Schedule.{Event, run}
use mping_sender_mirror.Main.{Build, Status, status, error_handler, startup, main}

module _ (api : Asio) (env : Env api.Address) (library : ProgramOptions) (native : Endian) where
  -- The body of `main` until the events are used up. A sender that is returned still runs.
  unfoldable pub program :
      List Event → Build → Configuration → List String → Action api.Address (Sender api.Address)
  program events build raw args = do
    started ← startup api env library native build raw args
    run api env native error_handler error_handler events started

  -- The program is the beginning of `main`, whatever the event loop does later.
  pub main-program :
      (events : List Event) (later : Sender api.Address → Action api.Address (Unit {0}))
      (build : Build) (raw : Configuration) (args : List String) (h : History api.Address)
      → main api env library native
          (λ s. run api env native error_handler error_handler events s >>= later)
          build
          raw
          args
          h
        ≡ status env (continue (program events build raw args h) later)
  unfolding main program
  main-program events later build raw args h =
      ap (status env)
        (sym (continue_assoc (startup api env library native build raw args h) _ later))
