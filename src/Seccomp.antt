-- ===== src/Seccomp.antt =====
-- src/seccomp.hpp and src/seccomp.cpp: the filter context over libseccomp.
pub mod Groups
pub mod Rules
pub mod Filter
pub mod Decision
pub mod Kernel
pub mod Context
pub mod Concrete
use mping_sender_mirror.Prelude.{Bool, String, List, [], ◌∷◌, not, if◌then◌else◌}
use mping_sender_mirror.Prelude.Int.{ℤ, pos, is_zero}
use mping_sender_mirror.Prelude.Outcome.{runtime_error, system_error}
use mping_sender_mirror.Runtime.{
  Constant, Env, seccomp_init, seccomp_rule_add, seccomp_load, seccomp_reset, seccomp_release,
}
use mping_sender_mirror.Runtime.Monad.{Action, ◌>>=◌, ◌>>◌, pure, throw, perform}
use Groups.{
  chown_syscalls, clock_syscalls, cpu_emulation_syscalls, debug_syscalls, others_syscalls,
  ipc_syscalls, keyring_syscalls, memlock_syscalls, module_syscalls, mount_syscalls,
  obsolete_syscalls, privileged_syscalls, rawio_syscalls, reboot_syscalls, resources_syscalls,
  setuid_syscalls, signal_syscalls, swap_syscalls, sync_syscalls, system_service_syscalls,
}

-- The object is its one field, the pointer `ctx`.
abbrev pub SeccompFilterContext : Type 0
SeccompFilterContext = ℤ

module _ {Address : Type 0} (env : Env Address) where
  -- The constructor.
  unfoldable pub init : Constant → Action Address SeccompFilterContext
  init def_action = do
    ctx ← perform env (seccomp_init def_action)
    if is_zero ctx.result
        then throw (system_error ctx.errno "Failed to initialize seccomp.")
        else pure ctx.result

  abbrev pub is_useable : SeccompFilterContext → Bool
  is_useable ctx = not (is_zero ctx)

  -- The answer of seccomp_rule_add is not read.
  unfoldable pub rule_add : SeccompFilterContext → Constant → ℤ → Action Address (Unit {0})
  rule_add ctx action syscall =
      if not (is_useable ctx)
      then throw (runtime_error "seccomp filter context not useable.")
      else (do _ ← perform env (seccomp_rule_add ctx action syscall); pure tt)

  unfoldable pub allow : SeccompFilterContext → ℤ → Action Address (Unit {0})
  unfolding rule_add
  allow ctx syscall = rule_add ctx "SCMP_ACT_ALLOW" syscall

  unfoldable pub kill : SeccompFilterContext → ℤ → Action Address (Unit {0})
  unfolding rule_add
  kill ctx syscall = rule_add ctx "SCMP_ACT_KILL" syscall

  -- `#ifdef SYS_name` around `kill(SCMP_SYS(name))`, for each name in turn.
  unfoldable pub kill_each : SeccompFilterContext → List String → Action Address (Unit {0})
  kill_each ctx [] = pure tt
  kill_each ctx (name ∷ names) =
      (if env.defines name then kill ctx (env.scmp_sys name) else pure tt) >> kill_each ctx names

  unfoldable pub kill_chown : SeccompFilterContext → Action Address (Unit {0})
  kill_chown ctx = kill_each ctx chown_syscalls

  unfoldable pub kill_clock : SeccompFilterContext → Action Address (Unit {0})
  kill_clock ctx = kill_each ctx clock_syscalls

  unfoldable pub kill_cpu_emulation : SeccompFilterContext → Action Address (Unit {0})
  kill_cpu_emulation ctx = kill_each ctx cpu_emulation_syscalls

  unfoldable pub kill_debug : SeccompFilterContext → Action Address (Unit {0})
  kill_debug ctx = kill_each ctx debug_syscalls

  unfoldable pub kill_others : SeccompFilterContext → Action Address (Unit {0})
  kill_others ctx = kill_each ctx others_syscalls

  unfoldable pub kill_ipc : SeccompFilterContext → Action Address (Unit {0})
  kill_ipc ctx = kill_each ctx ipc_syscalls

  unfoldable pub kill_keyring : SeccompFilterContext → Action Address (Unit {0})
  kill_keyring ctx = kill_each ctx keyring_syscalls

  unfoldable pub kill_memlock : SeccompFilterContext → Action Address (Unit {0})
  kill_memlock ctx = kill_each ctx memlock_syscalls

  unfoldable pub kill_module : SeccompFilterContext → Action Address (Unit {0})
  kill_module ctx = kill_each ctx module_syscalls

  unfoldable pub kill_mount : SeccompFilterContext → Action Address (Unit {0})
  kill_mount ctx = kill_each ctx mount_syscalls

  unfoldable pub kill_obsolete : SeccompFilterContext → Action Address (Unit {0})
  kill_obsolete ctx = kill_each ctx obsolete_syscalls

  unfoldable pub kill_privileged : SeccompFilterContext → Action Address (Unit {0})
  kill_privileged ctx = kill_each ctx privileged_syscalls

  unfoldable pub kill_rawio : SeccompFilterContext → Action Address (Unit {0})
  kill_rawio ctx = kill_each ctx rawio_syscalls

  unfoldable pub kill_reboot : SeccompFilterContext → Action Address (Unit {0})
  kill_reboot ctx = kill_each ctx reboot_syscalls

  unfoldable pub kill_resources : SeccompFilterContext → Action Address (Unit {0})
  kill_resources ctx = kill_each ctx resources_syscalls

  unfoldable pub kill_setuid : SeccompFilterContext → Action Address (Unit {0})
  kill_setuid ctx = kill_each ctx setuid_syscalls

  unfoldable pub kill_signal : SeccompFilterContext → Action Address (Unit {0})
  kill_signal ctx = kill_each ctx signal_syscalls

  unfoldable pub kill_swap : SeccompFilterContext → Action Address (Unit {0})
  kill_swap ctx = kill_each ctx swap_syscalls

  unfoldable pub kill_sync : SeccompFilterContext → Action Address (Unit {0})
  kill_sync ctx = kill_each ctx sync_syscalls

  unfoldable pub kill_system_service : SeccompFilterContext → Action Address (Unit {0})
  kill_system_service ctx = kill_each ctx system_service_syscalls

  unfoldable pub load : SeccompFilterContext → Action Address (Unit {0})
  load ctx =
      if not (is_useable ctx)
      then throw (runtime_error "seccomp filter context not useable.")
      else (do
        a ← perform env (seccomp_load ctx)
        if is_zero a.result
            then pure tt
            else throw (system_error a.errno "Failed to load seccomp filter."))

  unfoldable pub reset : SeccompFilterContext → Constant → Action Address (Unit {0})
  reset ctx def_action =
      if not (is_useable ctx)
      then throw (runtime_error "seccomp filter context not useable.")
      else (do
        a ← perform env (seccomp_reset ctx def_action)
        if is_zero a.result
            then pure tt
            else throw (system_error a.errno "Failed to reset seccomp filter."))

  -- Gives the new value of `ctx`.
  unfoldable pub release : SeccompFilterContext → Action Address SeccompFilterContext
  release ctx =
      if not (is_useable ctx)
      then throw (runtime_error "seccomp filter context not useable.")
      else (do _ ← perform env (seccomp_release ctx); pure (pos 0))
