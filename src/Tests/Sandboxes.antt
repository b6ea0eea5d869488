-- ===== src/Tests/Sandboxes.antt =====
-- The sandbox and `main` on a system on which every call succeeds.
use mping_sender_mirror.Prelude.{◌≡◌, refl, true, false, [], ◌∷◌}
use mping_sender_mirror.Prelude.Int.{ℤ, pos, is_zero, is_minus_one}
use mping_sender_mirror.Prelude.Outcome.{Outcome, returned}
use mping_sender_mirror.Asio.{HostAddress}
use mping_sender_mirror.Runtime.{Env, History, calls, seccomp_init, seccomp_release}
use mping_sender_mirror.Capability.{lock, check_for_capabilites, drop_all_capabilies}
use mping_sender_mirror.Landlock.{create, restrict_self}
use mping_sender_mirror.Seccomp
use mping_sender_mirror.Seccomp.Groups.{
  chown_syscalls, clock_syscalls, cpu_emulation_syscalls, debug_syscalls, others_syscalls,
  ipc_syscalls, keyring_syscalls, memlock_syscalls, module_syscalls, obsolete_syscalls,
  privileged_syscalls, rawio_syscalls, reboot_syscalls, resources_syscalls, setuid_syscalls,
  signal_syscalls, swap_syscalls, sync_syscalls, system_service_syscalls,
}
use mping_sender_mirror.Seccomp.{
  kill_chown, kill_clock, kill_cpu_emulation, kill_debug, kill_others, kill_ipc, kill_keyring,
  kill_memlock, kill_module, kill_obsolete, kill_privileged, kill_rawio, kill_reboot,
  kill_resources, kill_setuid, kill_signal, kill_swap, kill_sync, kill_system_service, release,
  kill_each, kill, rule_add, is_useable,
}
use mping_sender_mirror.Seccomp.Rules.{push_all, rules}
use mping_sender_mirror.Seccomp.Context.{IsDead, release_once}
use mping_sender_mirror.Seccomp.Concrete.{verdict, verdict-IsSeccomp, good-distinct}
use mping_sender_mirror.Configuration.{Configuration}
use mping_sender_mirror.Runtime.{info}
use mping_sender_mirror.Main.{
  restrict_capabilities, restrict_landlock, restrict_seccomp, add_rules, sandbox,
}
use mping_sender_mirror.Main.Sandbox.{blacklist}
use mping_sender_mirror.Main.Filter.{add_rules-calls, filter_allows_mounts}
use mping_sender_mirror.Main.Order.{
  full, seccomp_calls, landlock_calls, capability_calls, sandbox-calls,
}
use mping_sender_mirror.Main.Failing.{IsStrict, sandbox-IsStrict}
use mping_sender_mirror.Tests.Samples.{kernel}

abbrev pub raw : Configuration
raw = record {
  help = true;
  log_level = info;
  bind_address = "";
  bind_port = 1;
  address = "";
  port = 2;
  ttl = 3;
  interface_name = "";
}

abbrev seccomp_made : History HostAddress
seccomp_made = (seccomp_init "SCMP_ACT_ALLOW", record { result = pos 1; errno = 0 }) ∷ []

add_rules-calls_example :
    ((add_rules kernel (pos 1) seccomp_made).0 ≡ returned tt)
    × (calls (add_rules kernel (pos 1) seccomp_made).1
        ≡ push_all (rules kernel (pos 1) blacklist) (seccomp_init "SCMP_ACT_ALLOW" ∷ []))
add_rules-calls_example = add_rules-calls kernel (pos 1) seccomp_made refl

filter_allows_mounts_example :
    verdict (add_rules kernel (pos 1) seccomp_made).1 (pos 1) (pos 430) ≡ "SCMP_ACT_ALLOW"
filter_allows_mounts_example =
    filter_allows_mounts kernel verdict verdict-IsSeccomp [] refl good-distinct "fsopen" refl refl

abbrev confining : Outcome (Unit {0}) × History HostAddress
confining = sandbox kernel full []

confining_lem : confining.0 ≡ returned tt
unfolding sandbox restrict_capabilities lock check_for_capabilites drop_all_capabilies
    restrict_landlock create restrict_self restrict_seccomp Seccomp.init Seccomp.load add_rules
    kill_each kill rule_add kill_chown kill_clock kill_cpu_emulation kill_debug kill_others kill_ipc
    kill_keyring kill_memlock kill_module kill_obsolete kill_privileged kill_rawio kill_reboot
    kill_resources kill_setuid kill_signal kill_swap kill_sync kill_system_service chown_syscalls
    clock_syscalls cpu_emulation_syscalls debug_syscalls others_syscalls ipc_syscalls
    keyring_syscalls memlock_syscalls module_syscalls obsolete_syscalls privileged_syscalls
    rawio_syscalls reboot_syscalls resources_syscalls setuid_syscalls signal_syscalls swap_syscalls
    sync_syscalls system_service_syscalls
confining_lem = refl

sandbox-calls_example :
    (fd : ℤ) × (ctx : ℤ) × (is_minus_one fd ≡ false)
    × (is_zero ctx ≡ false)
    × (calls confining.1
        ≡ seccomp_calls kernel ctx (landlock_calls kernel fd (capability_calls kernel [])))
sandbox-calls_example = sandbox-calls kernel [] confining_lem

release_once_example :
    (ctx : ℤ) × (release kernel (pos 1) []
      ≡ (returned ctx, (seccomp_release (pos 1), record { result = pos 0; errno = 0 }) ∷ []))
    × IsDead kernel ctx
release_once_example = release_once kernel (pos 1) [] refl

-- A process without CAP_SETPCAP.
abbrev pub lacking : Env HostAddress
lacking = record kernel { answer = λ h c. record { result = pos 0; errno = 1 } }

abbrev refusing : Outcome (Unit {0}) × History HostAddress
refusing = sandbox lacking full []

sandbox-IsStrict_example : IsStrict refusing
sandbox-IsStrict_example = sandbox-IsStrict lacking full [] tt
