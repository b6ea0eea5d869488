-- ===== src/Main/Filter.antt =====
-- The filter that `main` loads: which system calls it kills and which it lets through.
-- Code: src/main.cpp.
use text.Mathlib.Text.{◌==◌ as str_eq}
use text.Mathlib.TextEquality.{eq_iff}
use mathlib.Core.Bool.{false≢true}
use mping_sender_mirror.Prelude.{
  ◌≡◌, ◌≢◌, refl, sym, ◌∙◌, Bool, true, false, not, ◌&&◌, String, List, [], ◌∷◌, inl, inr,
  Bool-cases,
}
use mping_sender_mirror.Prelude.Int.{ℤ, is_zero}
use mping_sender_mirror.Prelude.Outcome.{returned}
use mping_sender_mirror.Runtime.{Answer, Constant, Env, History, calls, seccomp_init}
use mping_sender_mirror.Seccomp.Groups.{
  chown_syscalls, clock_syscalls, cpu_emulation_syscalls, debug_syscalls, others_syscalls,
  ipc_syscalls, keyring_syscalls, memlock_syscalls, module_syscalls, obsolete_syscalls,
  privileged_syscalls, rawio_syscalls, reboot_syscalls, resources_syscalls, setuid_syscalls,
  swap_syscalls, sync_syscalls, system_service_syscalls, signal_syscalls,
}
use mping_sender_mirror.Seccomp.Rules.{push_all, rules, kill_each-calls}
use mping_sender_mirror.Seccomp.Filter.{IsSeccomp, Accepts, contains, filter_kills, filter_keeps}
use mping_sender_mirror.Main.{add_rules}
use mping_sender_mirror.Main.Sandbox.{blacklist, add_rules-blacklist}

-- The names of `kill_mount` that stand in no other list.
abbrev pub mount_only : List String
mount_only =
    "fsconfig" ∷ "fsmount" ∷ "fsopen" ∷ "fspick" ∷ "move_mount" ∷ "open_tree" ∷ "umount" ∷ []

abbrev absent_from : List String → List String → Bool
absent_from names [] = true
absent_from names (x ∷ xs) = not (contains x names) && absent_from names xs

absent :
    (names xs : List String) (name : String)
    → absent_from names xs ≡ true
    → contains name xs ≡ true
    → contains name names ≡ false
absent names [] name a listed = cc
absent names (x ∷ xs) name a listed = elim (Bool-cases (str_eq name x)) [
  | inl same ↦ rw ((eq_iff name x).0 same) (not_true _ _ a)
  | inr other ↦ absent names xs name (and_right _ _ a) (rw other at listed)
]
  where
    not_true : (b c : Bool) → (not b && c) ≡ true → b ≡ false
    not_true true c h = cc
    not_true false c h = refl

    and_right : (b c : Bool) → (b && c) ≡ true → c ≡ true
    and_right true c h = h
    and_right false c h = cc

mount_only_table : absent_from blacklist mount_only ≡ true
unfolding blacklist chown_syscalls clock_syscalls cpu_emulation_syscalls debug_syscalls
    others_syscalls ipc_syscalls keyring_syscalls memlock_syscalls module_syscalls obsolete_syscalls
    privileged_syscalls rawio_syscalls reboot_syscalls resources_syscalls setuid_syscalls
    swap_syscalls sync_syscalls system_service_syscalls signal_syscalls
mount_only_table = refl

mount_only-absent :
    (name : String) → contains name mount_only ≡ true → contains name blacklist ≡ false
mount_only-absent name listed = absent blacklist mount_only name mount_only_table listed

module _ {Address : Type 0} (env : Env Address) where
  -- On a context that is not null the kill functions of `main` never throw, whatever libseccomp
  -- answers, and the calls that they make are one rule for each name of the lists that the platform
  -- defines, in the order of the source.
  pub add_rules-calls :
      (ctx : ℤ) (h : History Address)
      → is_zero ctx ≡ false
      → ((add_rules env ctx h).0 ≡ returned tt)
        × (calls (add_rules env ctx h).1 ≡ push_all (rules env ctx blacklist) (calls h))
  add_rules-calls ctx h e = rw (add_rules-blacklist env ctx) (kill_each-calls env ctx blacklist h e)

  module _ (verdict : History Address → ℤ → ℤ → Constant) (promised : IsSeccomp verdict)
      (h : History Address) where
    -- The answer of seccomp_init, and the history when `main` begins to add rules.
    abbrev pub created : Answer
    created = env.answer h (seccomp_init "SCMP_ACT_ALLOW")

    abbrev pub before_rules : History Address
    before_rules = (seccomp_init "SCMP_ACT_ALLOW", created) ∷ h

    -- With libseccomp as its manual pages promise: if seccomp_init gives a context and libseccomp
    -- accepts the rules for it, then at the call of `load` the filter kills every system call of
    -- the lists that the platform defines.
    pub filter_kills_listed :
        is_zero created.result ≡ false
        → Accepts env created.result
        → (name : String) → contains name blacklist ≡ true
        → env.defines name ≡ true
        → verdict (add_rules env created.result before_rules).1 created.result (env.scmp_sys name)
          ≡ "SCMP_ACT_KILL"
    filter_kills_listed useable accepted name listed defined =
        rw (add_rules-blacklist env created.result) (
          filter_kills env verdict promised created.result useable blacklist before_rules name
            accepted listed defined)

    -- With libseccomp as its manual pages promise: if seccomp_init gives a context, then at the
    -- call of `load` the filter allows every system call whose number is that of no listed and
    -- defined name, whether or not libseccomp accepts the rules.
    pub filter_allows_others :
        is_zero created.result ≡ false
        → (n : ℤ)
        → ((x : String) → contains x blacklist ≡ true → env.defines x ≡ true → env.scmp_sys x ≢ n)
        → verdict (add_rules env created.result before_rules).1 created.result n ≡ "SCMP_ACT_ALLOW"
    filter_allows_others useable n other = rw (add_rules-blacklist env created.result) (
        filter_keeps env verdict promised created.result useable blacklist before_rules n other
        ∙ promised.after_init h created "SCMP_ACT_ALLOW" n)

    -- With libseccomp as its manual pages promise: if seccomp_init gives a context, and no two
    -- defined names have the same number, then at the call of `load` the filter allows the seven
    -- system calls that only `kill_mount` names (fsconfig, fsmount, fsopen, fspick, move_mount,
    -- open_tree, umount): `main` never calls `kill_mount`.
    pub filter_allows_mounts :
        is_zero created.result ≡ false
        → ((x y : String)
            → env.defines x ≡ true
            → env.defines y ≡ true
            → env.scmp_sys x ≡ env.scmp_sys y
            → x ≡ y)
        → (name : String) → contains name mount_only ≡ true
        → env.defines name ≡ true
        → verdict (add_rules env created.result before_rules).1 created.result (env.scmp_sys name)
          ≡ "SCMP_ACT_ALLOW"
    filter_allows_mounts useable distinct name listed defined =
        filter_allows_others useable (env.scmp_sys name) λ x on_list d same.
          let e : x ≡ name = distinct x name d defined same in
          false≢true (sym (mount_only-absent name listed) ∙ (rw e at on_list))
