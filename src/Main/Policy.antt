-- ===== src/Main/Policy.antt =====
-- Which system calls are killed while `main` runs.
-- Code: src/main.cpp.
use mping_sender_mirror.Prelude.{
  ◌≡◌, ◌∙◌, ◌⊎◌, Bool, true, false, ◌||◌, String, List, [], ◌∷◌, ◌++◌, arith,
}
use mping_sender_mirror.Prelude.Int.{ℤ, is_zero}
use mping_sender_mirror.Asio.Api.{Asio}
use mping_sender_mirror.Network.{Endian}
use mping_sender_mirror.Runtime.{Call, Constant, Env, History}
use mping_sender_mirror.Runtime.Monad.{Action}
use mping_sender_mirror.Runtime.Makes.{Makes, Only}
use mping_sender_mirror.Seccomp.Filter.{IsSeccomp, Accepts}
use mping_sender_mirror.Seccomp.Decision.{hit}
use mping_sender_mirror.Seccomp.Kernel.{not_load, IsKernel, killed-append}
use mping_sender_mirror.Configuration.Api.{ProgramOptions}
use mping_sender_mirror.Configuration.{Configuration}
use mping_sender_mirror.Sender.{Sender}
use mping_sender_mirror.Main.{Build, exit_status, main}
use mping_sender_mirror.Main.Enforced.{sandbox_enforces}
use mping_sender_mirror.Main.Sandbox.{blacklist}
use mping_sender_mirror.Main.Parts.{is_sandbox_call}
use mping_sender_mirror.Main.Startup.{IsReport, is_running_call, main_splits}

running-not_load :
    {Address : Type 0} (c : Call Address) → is_running_call c ≡ true → not_load c ≡ true
running-not_load c k = ground arith

Only-behind :
    {Address : Type 0} (k : Call Address → Bool) (after between : History Address)
    → Only k (after ++ between)
    → Only k between
Only-behind k [] between only = only
Only-behind k (e ∷ after) between only = Only-behind k after between only.1

module _ (api : Asio) (env : Env api.Address) (library : ProgramOptions) (native : Endian)
    (verdict : History api.Address → ℤ → ℤ → Constant) (promised : IsSeccomp verdict)
    (killed : History api.Address → ℤ → Bool) (kernel : IsKernel verdict killed)
    (accepted : (ctx : ℤ) → is_zero ctx ≡ false → Accepts env ctx) where
  -- The system calls that are killed are those of the list, and those that were before.
  abbrev pub Policed : History api.Address → Type 0
  Policed h = (n : ℤ) → killed h n ≡ (hit env blacklist n || killed [] n)

  -- With libseccomp and the kernel as their manual pages promise, every rule accepted, and an event
  -- loop that loads no filter, a build with seccomp runs `main` in two parts. The early calls are
  -- all calls of the sandbox. Either the later ones are one line of the log, on an exception, and
  -- the exit status is EXIT_FAILURE, or at every moment behind the early calls, up to the end, the
  -- kernel kills exactly the system calls whose number is that of a listed name that the platform
  -- defines, and those that it killed before the start.
  pub main_enforces :
      (io_run : Sender api.Address → Action api.Address (Unit {0}))
      → ((s : Sender api.Address) → Makes not_load (io_run s))
      → (build : Build) (raw : Configuration) (args : List String) → build.have_seccomp ≡ true
      → let r = main api env library native io_run build raw args [] in
        (early : History api.Address) × (later : History api.Address) × (r.1 ≡ later ++ early)
        × Only is_sandbox_call early
        × ((IsReport later × (r.0 ≡ exit_status 1))
            ⊎ ((after between : History api.Address)
                → later ≡ after ++ between
                → Policed (between ++ early)))
  main_enforces io_run made build raw args have =
      main_splits api env library native
        (λ early later.
          (after between : History api.Address)
          → later ≡ after ++ between
          → Policed (between ++ early))
        not_load running-not_load io_run made build raw args
        (λ early later e only after between split n.
          killed-append verdict killed kernel between early n
            (Only-behind not_load after between (rw split at only))
          ∙ sandbox_enforces env verdict promised killed kernel accepted build [] early n have e)
