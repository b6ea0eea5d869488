-- ===== src/Main/Sandbox.antt =====
-- The seccomp rules that `main` adds, and what the filter does.
-- Code: src/main.cpp.
use mping_sender_mirror.Prelude.{◌≡◌, refl, sym, ap, ◌∙◌, String, List, ◌++◌}
use mping_sender_mirror.Prelude.Int.{ℤ}
use mping_sender_mirror.Runtime.{Env}
use mping_sender_mirror.Runtime.Monad.{Action, ◌>>◌}
use mping_sender_mirror.Seccomp.{
  kill_each, kill_chown, kill_clock, kill_cpu_emulation, kill_debug, kill_others, kill_ipc,
  kill_keyring, kill_memlock, kill_module, kill_obsolete, kill_privileged, kill_rawio, kill_reboot,
  kill_resources, kill_setuid, kill_swap, kill_sync, kill_system_service, kill_signal,
}
use mping_sender_mirror.Seccomp.Groups.{
  chown_syscalls, clock_syscalls, cpu_emulation_syscalls, debug_syscalls, others_syscalls,
  ipc_syscalls, keyring_syscalls, memlock_syscalls, module_syscalls, obsolete_syscalls,
  privileged_syscalls, rawio_syscalls, reboot_syscalls, resources_syscalls, setuid_syscalls,
  swap_syscalls, sync_syscalls, system_service_syscalls, signal_syscalls,
}
use mping_sender_mirror.Seccomp.Rules.{kill_each-append}
use mping_sender_mirror.Main.{add_rules}

-- The names of all the lists that `main` uses, in its order.
unfoldable pub blacklist : List String
blacklist =
    chown_syscalls
    ++ (clock_syscalls
        ++ (cpu_emulation_syscalls
            ++ (debug_syscalls
                ++ (others_syscalls
                    ++ (ipc_syscalls
                        ++ (keyring_syscalls
                            ++ (memlock_syscalls
                                ++ (module_syscalls
                                    ++ (obsolete_syscalls
                                        ++ (privileged_syscalls
                                            ++ (rawio_syscalls
                                                ++ (reboot_syscalls
                                                    ++ (resources_syscalls
                                                        ++ (setuid_syscalls
                                                            ++ (swap_syscalls
                                                            ++ (sync_syscalls
                                                            ++ (system_service_syscalls
                                                            ++ (signal_syscalls))))))))))))))))))

module _ {Address : Type 0} (env : Env Address) (ctx : ℤ) where
  -- A list in front of kills.
  in_front :
      (xs ys : List String) {k : Action Address (Unit {0})}
      → k ≡ kill_each env ctx ys
      → (kill_each env ctx xs >> k) ≡ kill_each env ctx (xs ++ ys)
  in_front xs ys e =
      ap (λ (m : Action Address (Unit {0})). kill_each env ctx xs >> m) e
      ∙ sym (kill_each-append env ctx xs ys)

  -- The kill functions that `main` calls, one after the other, are the kills of one list.
  pub add_rules-blacklist : add_rules env ctx ≡ kill_each env ctx blacklist
  unfolding add_rules blacklist kill_chown kill_clock kill_cpu_emulation kill_debug kill_others
      kill_ipc kill_keyring kill_memlock kill_module kill_obsolete kill_privileged kill_rawio
      kill_reboot kill_resources kill_setuid kill_swap kill_sync kill_system_service kill_signal
  add_rules-blacklist = in_front chown_syscalls _ (
      in_front clock_syscalls _ (
        in_front cpu_emulation_syscalls _ (
          in_front debug_syscalls _ (
            in_front others_syscalls _ (
              in_front ipc_syscalls _ (
                in_front keyring_syscalls _ (
                  in_front memlock_syscalls _ (
                    in_front module_syscalls _ (
                      in_front obsolete_syscalls _ (
                        in_front privileged_syscalls _ (
                          in_front rawio_syscalls _ (
                            in_front reboot_syscalls _ (
                              in_front resources_syscalls _ (
                                in_front setuid_syscalls _ (
                                  in_front swap_syscalls _ (
                                    in_front sync_syscalls _
                                      (in_front system_service_syscalls _ refl)))))))))))))))))
