-- ===== src/Main.antt =====
-- src/main.cpp: the sandbox, the configuration, the sender and the exit status.
pub mod Sandbox
pub mod Parts
pub mod Done
pub mod Startup
pub mod Filter
pub mod Enforced
pub mod Policy
pub mod Locked
pub mod Order
pub mod Failing
pub mod Program
pub mod Exit
pub mod Ends
pub mod Printed
use mping_sender_mirror.Prelude.{ℕ, Bool, true, false, String, List, [], ◌∷◌, if◌then◌else◌}
use mping_sender_mirror.Prelude.Int.{ℤ}
use mping_sender_mirror.Prelude.Outcome.{Outcome, returned, thrown, exited, runtime_error}
use mping_sender_mirror.Asio.Api.{Asio}
use mping_sender_mirror.Network.{Endian}
use mping_sender_mirror.Runtime.{
  Flags, Env, History, info, fatal, boost_version, libcapng_built, seccomp_built,
  seccomp_version_is, landlock_built, exits, seccomp_version,
}
use mping_sender_mirror.Runtime.Monad.{said, Action, ◌>>=◌, ◌>>◌, pure, throw, perform, say}
use mping_sender_mirror.Capability.{lock, check_for_capabilites, drop_all_capabilies}
use mping_sender_mirror.Landlock.{create, restrict_self}
use mping_sender_mirror.Seccomp
use mping_sender_mirror.Seccomp.{
  SeccompFilterContext, kill_chown, kill_clock, kill_cpu_emulation, kill_debug, kill_others,
  kill_ipc, kill_keyring, kill_memlock, kill_module, kill_obsolete, kill_privileged, kill_rawio,
  kill_reboot, kill_resources, kill_setuid, kill_swap, kill_sync, kill_system_service, kill_signal,
}
use mping_sender_mirror.Configuration.Api.{ProgramOptions}
use mping_sender_mirror.Configuration.{
  Configuration, configure, get_bind_address, get_bind_port, get_address, get_port, get_ttl,
  get_interface_name,
}
use mping_sender_mirror.Sender.{Sender, construct}

-- What the build defines.
pub record Build : Type 0 where
  pub have_libcapng : Bool
  pub have_landlock : Bool
  pub have_seccomp : Bool
  -- `__clang__`
  pub clang : Bool

-- The accesses that the landlock ruleset handles.
abbrev pub handled_access_fs : Flags
handled_access_fs =
    "LANDLOCK_ACCESS_FS_EXECUTE" ∷ "LANDLOCK_ACCESS_FS_WRITE_FILE" ∷ "LANDLOCK_ACCESS_FS_READ_FILE"
    ∷ "LANDLOCK_ACCESS_FS_TRUNCATE" ∷ "LANDLOCK_ACCESS_FS_READ_DIR"
    ∷ "LANDLOCK_ACCESS_FS_REMOVE_DIR" ∷ "LANDLOCK_ACCESS_FS_REMOVE_FILE"
    ∷ "LANDLOCK_ACCESS_FS_MAKE_CHAR" ∷ "LANDLOCK_ACCESS_FS_MAKE_DIR" ∷ "LANDLOCK_ACCESS_FS_MAKE_REG"
    ∷ "LANDLOCK_ACCESS_FS_MAKE_SOCK" ∷ "LANDLOCK_ACCESS_FS_MAKE_FIFO"
    ∷ "LANDLOCK_ACCESS_FS_MAKE_BLOCK" ∷ "LANDLOCK_ACCESS_FS_MAKE_SYM" ∷ "LANDLOCK_ACCESS_FS_REFER"
    ∷ []

abbrev pub handled_access_net : Flags
handled_access_net = "LANDLOCK_ACCESS_NET_BIND_TCP" ∷ "LANDLOCK_ACCESS_NET_CONNECT_TCP" ∷ []

module _ {Address : Type 0} (env : Env Address) where
  unfoldable pub restrict_capabilities : Action Address (Unit {0})
  restrict_capabilities = do check_for_capabilites env; lock env; drop_all_capabilies env

  unfoldable pub restrict_landlock : Action Address (Unit {0})
  restrict_landlock = do
    ruleset_fd ← create env handled_access_fs handled_access_net
    restrict_self env ruleset_fd

  -- The kill functions that are called, in their order, on the context `ctx`.
  unfoldable pub add_rules : SeccompFilterContext → Action Address (Unit {0})
  add_rules ctx = do
    kill_chown env ctx
    kill_clock env ctx
    kill_cpu_emulation env ctx
    kill_debug env ctx
    kill_others env ctx
    kill_ipc env ctx
    kill_keyring env ctx
    kill_memlock env ctx
    kill_module env ctx
    kill_obsolete env ctx
    kill_privileged env ctx
    kill_rawio env ctx
    kill_reboot env ctx
    kill_resources env ctx
    kill_setuid env ctx
    kill_swap env ctx
    kill_sync env ctx
    kill_system_service env ctx
    kill_signal env ctx

  unfoldable pub restrict_seccomp : Action Address (Unit {0})
  restrict_seccomp = do ctx ← Seccomp.init env "SCMP_ACT_ALLOW"; add_rules ctx; Seccomp.load env ctx

  -- A part of `main` under an `#ifdef`.
  abbrev pub if_built : Bool → Action Address (Unit {0}) → Action Address (Unit {0})
  if_built have part = if have then part else pure tt

  -- Everything in front of the command line.
  unfoldable pub sandbox : Build → Action Address (Unit {0})
  sandbox build = do
    if_built build.have_libcapng restrict_capabilities
    if_built build.have_landlock restrict_landlock
    if_built build.have_seccomp restrict_seccomp

  -- The lines of the log on the build.
  unfoldable pub log_seccomp : Bool → Action Address (Unit {0})
  log_seccomp true = do
    say env info (seccomp_built true)
    version ← perform env seccomp_version
    say env info (seccomp_version_is version.result)
  log_seccomp false = say env info (seccomp_built false)

  unfoldable pub log_build : Build → Action Address (Unit {0})
  unfolding log_seccomp
  log_build build = do
    say env info boost_version
    say env info (libcapng_built build.have_libcapng)
    log_seccomp build.have_seccomp
    say env info (landlock_built build.have_landlock)

-- Both error handlers of `main`, whatever the error code.
unfoldable pub error_handler : {Address : Type 0} → ℕ → Action Address (Unit {0})
error_handler ec = throw (runtime_error "Fatal error")

-- EXIT_SUCCESS and EXIT_FAILURE
pub data Status : Type 0 where
  exit_status : ℕ → Status

-- The handler around the body: an exception is logged and ends the process with EXIT_FAILURE.
abbrev pub status :
    {Address A : Type 0} → Env Address → Outcome A × History Address → Status × History Address
status env (returned a, h) = (exit_status 0, h)
status env (thrown x, h) = (exit_status 1, said env fatal (exits x) h)
status env (exited n, h) = (exit_status n, h)

module _ (api : Asio) (env : Env api.Address) (library : ProgramOptions) (native : Endian) where
  -- The body up to `io.run()`. `raw` is the configuration object before its constructor.
  unfoldable pub startup :
      Build → Configuration → List String → Action api.Address (Sender api.Address)
  startup build raw args = do
    sandbox env build
    config ← configure env library build.clang raw args
    log_build env build
    construct api env native (get_bind_address config) (get_bind_port config) (get_address config)
        (get_port config) (get_ttl config) (get_interface_name config)

  -- `io_run` is the event loop of Boost.Asio over the handlers of the sender.
  unfoldable pub main :
      (Sender api.Address → Action api.Address (Unit {0}))
      → Build
      → Configuration
      → List String
      → History api.Address
      → Status × History api.Address
  main io_run build raw args h =
      status env ((do started ← startup build raw args; io_run started) h)
