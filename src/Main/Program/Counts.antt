-- ===== src/Main/Program/Counts.antt =====
-- What the program has sent, however it goes on.
-- Code: src/main.cpp and src/mping_sender.cpp.
use mping_sender_mirror.Prelude.{
  ℕ, zero, suc, ◌≡◌, refl, ◌⊎◌, inl, inr, String, List, [], ◌∷◌, Option, none, some,
}
use mping_sender_mirror.Prelude.Int.{ℤ}
use mping_sender_mirror.Prelude.Outcome.{Outcome, returned, thrown, exited, runtime_error}
use mping_sender_mirror.Asio.Api.{Asio}
use mping_sender_mirror.Network.{Endian}
use mping_sender_mirror.Runtime.{fatal, send_failed, timer_failed, Endpoint, Env, History}
use mping_sender_mirror.Runtime.Monad.{said, continue}
use mping_sender_mirror.Configuration.Api.{ProgramOptions, IsDocumented}
use mping_sender_mirror.Configuration.{Configuration, options}
use mping_sender_mirror.State.{State}
use mping_sender_mirror.State.Validity.{IsValid}
use mping_sender_mirror.Sender.{Sender}
use mping_sender_mirror.Sender.Loop.{datagrams, readings, Counted, Inv}
use mping_sender_mirror.Sender.Failing.{IsSilent, on_timer-IsSilent}
use mping_sender_mirror.Sender.Replay.{handle-Reach}
use mping_sender_mirror.Sender.Steps.{on_timer_fails}
use mping_sender_mirror.Socket.Completion.{on_sent_fine, on_sent_fails}
use mping_sender_mirror.Sender.Run.{Reach-Inv}
use mping_sender_mirror.Sender.Schedule.{Event, timer, sent, remove, finish_send, fire, handle, run}
use mping_sender_mirror.Sender.Service.{fresh-Inv}
use mping_sender_mirror.Main.{Build, error_handler, startup}
use mping_sender_mirror.Main.Exit.{error_handler-IsFatal}
use mping_sender_mirror.Main.Program.{program}
use mping_sender_mirror.Main.Program.Quiet.{Quiet, Fresh, startup-Quiet}

-- Where the datagrams of a state go.
abbrev pub target : {Address : Type 0} → State Address → Endpoint Address
target s = record { address = s.dest_host; port = s.dest_port }

module _ (api : Asio) (env : Env api.Address) (native : Endian) where
  -- The datagrams are numbered from a state with members in range.
  abbrev pub Numbered : List (List ℕ × Endpoint api.Address) → List ℤ → Type 0
  Numbered messages times =
      (first : State api.Address) × IsValid first
      × Counted api env native error_handler error_handler first (target first) messages times

  -- How the program stands. While it runs, the timer is armed once and the datagrams are numbered;
  -- where it has ended, nothing was sent, or what was sent is numbered.
  abbrev pub Stands : Outcome (Sender api.Address) × History api.Address → Type 0
  Stands (returned s, h) = (s.waits ≡ 1) × Numbered (datagrams h) (readings h)
  Stands (thrown x, h) = (datagrams h ≡ []) ⊎ ((times : List ℤ) × Numbered (datagrams h) times)
  Stands (exited n, h) = (datagrams h ≡ []) ⊎ ((times : List ℤ) × Numbered (datagrams h) times)

  handler_throws :
      (ec : ℕ) (h : History api.Address)
      → error_handler (suc ec) h ≡ (thrown (runtime_error "Fatal error"), h)
  unfolding error_handler
  handler_throws ec h = refl

  fire-IsSilent :
      (ec waits : ℕ) (s : Sender api.Address) (h : History api.Address)
      → IsSilent api env native error_handler h
          (fire api env native error_handler error_handler ec s waits h)
  fire-IsSilent ec zero s h = tt
  fire-IsSilent zero (suc others) s h =
      on_timer-IsSilent api env native error_handler (record s { waits = others }) h
  fire-IsSilent (suc ec) (suc others) s h = rw (
      on_timer_fails api env native error_handler ec (record s { waits = others }) h
        (said env fatal timer_failed h) (runtime_error "Fatal error") (handler_throws ec _))

  finish-IsSilent :
      (ec : ℕ) (s : Sender api.Address) (o : Option (List (List ℕ))) (h : History api.Address)
      → IsSilent api env native error_handler h
          (finish_send api env native error_handler error_handler ec s o h)
  finish-IsSilent ec s none h = tt
  finish-IsSilent zero s (some rest) h = rw (on_sent_fine api env error_handler h) tt
  finish-IsSilent (suc ec) s (some rest) h = rw (
    on_sent_fails api env error_handler h ec,
    handler_throws ec (said env fatal (send_failed (suc ec)) h),
  )

  handle-IsSilent :
      (e : Event) (s : Sender api.Address) (h : History api.Address)
      → IsSilent api env native error_handler h
          (handle api env native error_handler error_handler e s h)
  unfolding handle
  handle-IsSilent (timer ec) s h = fire-IsSilent ec s.waits s h
  handle-IsSilent (sent k ec) s h = finish-IsSilent ec s (remove k s.in_flight) h

  module _ (first : State api.Address) (valid : IsValid first) where
    abbrev Counting : Sender api.Address → History api.Address → Type 0
    Counting = Inv api env native error_handler error_handler first (target first)

    handled :
        (es : List Event) (s : Sender api.Address) (h : History api.Address)
        → Counting s h
        → (r : Outcome (Sender api.Address) × History api.Address)
        → IsSilent api env native error_handler h r
        → ((s' : Sender api.Address) (h' : History api.Address)
            → r ≡ (returned s', h')
            → Stands (run api env native error_handler error_handler es s' h'))
        → Stands (continue r (run api env native error_handler error_handler es))
    handled es s h v (returned s', h') quiet rest = rest s' h' refl
    handled es s h v (thrown x, h') quiet rest =
        inr (readings h, (first, valid, rw quiet v.counted))
    handled es s h v (exited n, h') quiet rest =
        inr (readings h, (first, valid, rw quiet v.counted))

    run-Stands :
        (es : List Event) (s : Sender api.Address) (h : History api.Address)
        → Counting s h
        → Stands (run api env native error_handler error_handler es s h)
    unfolding run
    run-Stands [] s h v = (v.armed, (first, valid, v.counted))
    run-Stands (e ∷ es) s h v =
        handled es s h v (handle api env native error_handler error_handler e s h)
          (handle-IsSilent e s h)
          λ s' h' done. run-Stands es s' h' (
            Reach-Inv api env native error_handler error_handler error_handler-IsFatal
              error_handler-IsFatal first (target first) s h s' h' v
              (handle-Reach api env native error_handler error_handler e s s' h h' done))

module _ (api : Asio) (env : Env api.Address) (library : ProgramOptions) (native : Endian)
    (build : Build) (token : List String → String → Option String)
    (documented : IsDocumented library (options build.clang) token) where
  started-Stands :
      (es : List Event) (r : Outcome (Sender api.Address) × History api.Address)
      → Quiet (Fresh api env library native build token documented (λ _. Unit {0})) r
      → Stands api env native (continue r (run api env native error_handler error_handler es))
  started-Stands es (returned s, h) ((c, _, fresh), idle) =
      run-Stands api env native s.state fresh.valid es s h (
        rw (← fresh.to_destination) (
          fresh-Inv api env native error_handler error_handler error_handler-IsFatal
            error_handler-IsFatal s h fresh idle.none_sent idle.none_read))
  started-Stands es (thrown x, h) idle = inl idle.none_sent
  started-Stands es (exited n, h) idle = inl idle.none_sent

  -- With Boost.Program_options as documented, whatever the arguments, the answers of the system and
  -- the order in which the event loop calls the handlers: while the sender runs, its timer is armed
  -- exactly once, and the k-th datagram sent (from 0) is the packet of one state, with its members
  -- in range, with the number k modulo 2 ^ 32 and the k-th reading of the clock, sent to the
  -- destination of that state. Where an exception or an exit has ended the program, either nothing
  -- was sent, or the datagrams are such packets, each with some time.
  pub program-Stands :
      (events : List Event) (raw : Configuration) (args : List String)
      → Stands api env native (program api env library native events build raw args [])
  unfolding program
  program-Stands events raw args =
      started-Stands events (startup api env library native build raw args []) (
        startup-Quiet api env library native build token documented raw args (λ _. Unit {0})
          (λ _ _ _. tt))
