-- ===== src/Main/Parts.antt =====
-- The parts of the sandbox: which calls they make, and that none ends the process.
-- Code: src/main.cpp.
use mping_sender_mirror.Prelude.{Bool, true, false, ◌≡◌, ◌⊎◌, List, [], ◌∷◌, String}
use mping_sender_mirror.Prelude.Int.{ℤ, is_zero}
use mping_sender_mirror.Runtime.{
  Call, Env, History, capng_have_capability, capng_lock, capng_clear, capng_apply,
  landlock_abi_version, landlock_create_ruleset, landlock_add_rule, landlock_restrict_self,
  seccomp_init, seccomp_rule_add, seccomp_load, seccomp_reset, seccomp_release,
}
use mping_sender_mirror.Runtime.Makes.{Makes, makes, Makes-then, Makes-if, Makes-pure}
use mping_sender_mirror.Runtime.Calm.{Calm, calm, Calm-then, Calm-if, Calm-pure}
use mping_sender_mirror.Capability.{lock, check_for_capabilites, drop_all_capabilies}
use mping_sender_mirror.Landlock.{create, restrict_self}
use mping_sender_mirror.Seccomp
use mping_sender_mirror.Seccomp.Kernel.{is_seccomp_load}
use mping_sender_mirror.Seccomp.{kill_each, kill}
use mping_sender_mirror.Main.{
  Build, restrict_capabilities, restrict_landlock, restrict_seccomp, add_rules, sandbox,
}
use mping_sender_mirror.Main.Sandbox.{blacklist, add_rules-blacklist}

-- The calls that confine the process.
abbrev pub is_sandbox_call : {Address : Type 0} → Call Address → Bool
is_sandbox_call (capng_have_capability t c) = true
is_sandbox_call capng_lock = true
is_sandbox_call (capng_clear s) = true
is_sandbox_call (capng_apply s) = true
is_sandbox_call landlock_abi_version = true
is_sandbox_call (landlock_create_ruleset f n) = true
is_sandbox_call (landlock_add_rule r a p) = true
is_sandbox_call (landlock_restrict_self r) = true
is_sandbox_call (seccomp_init a) = true
is_sandbox_call (seccomp_rule_add c a n) = true
is_sandbox_call (seccomp_load c) = true
is_sandbox_call (seccomp_reset c a) = true
is_sandbox_call (seccomp_release c) = true
is_sandbox_call _ = false

-- The last call of the first two parts of the sandbox.
abbrev pub is_capng_apply : {Address : Type 0} → Call Address → Bool
is_capng_apply (capng_apply s) = true
is_capng_apply _ = false

abbrev pub is_restrict_self : {Address : Type 0} → Call Address → Bool
is_restrict_self (landlock_restrict_self r) = true
is_restrict_self _ = false

-- A call of the kind `k` was made and answered with 0.
abbrev pub Did : {Address : Type 0} → (Call Address → Bool) → History Address → Type 0
Did k [] = ⊥
Did k (e ∷ h) = ((k e.0 ≡ true) × (is_zero e.1.result ≡ true)) ⊎ Did k h

-- What a part that the build contains needs.
abbrev pub Needs : Bool → Type 0 → Type 0
Needs true P = P
Needs false P = Unit {0}

-- The sandbox of a build is complete: libcap-ng has applied the empty set of capabilities, landlock
-- restricts the process, and the seccomp filter is loaded, as far as each is built in.
pub record IsConfined {Address : Type 0} (build : Build) (h : History Address) : Type 0 where
  pub capabilities : Needs build.have_libcapng (Did is_capng_apply h)
  pub landlock : Needs build.have_landlock (Did is_restrict_self h)
  pub seccomp : Needs build.have_seccomp (Did is_seccomp_load h)

module _ {Address : Type 0} (env : Env Address) where
  restrict_capabilities-Makes : Makes is_sandbox_call (restrict_capabilities env)
  unfolding restrict_capabilities lock check_for_capabilites drop_all_capabilies
  restrict_capabilities-Makes = search makes depth 12

  pub restrict_landlock-Makes : Makes is_sandbox_call (restrict_landlock env)
  unfolding restrict_landlock create restrict_self
  restrict_landlock-Makes = search makes depth 12

  kill-Makes : (ctx n : ℤ) → Makes is_sandbox_call (kill env ctx n)
  unfolding kill
  kill-Makes ctx n = search makes depth 12

  kill_each-Makes :
      (ctx : ℤ) (names : List String) → Makes is_sandbox_call (kill_each env ctx names)
  unfolding kill_each
  kill_each-Makes ctx [] = Makes-pure
  kill_each-Makes ctx (name ∷ names) =
      Makes-then (Makes-if (env.defines name) (kill-Makes ctx (env.scmp_sys name)) Makes-pure)
        (kill_each-Makes ctx names)

  add_rules-Makes : (ctx : ℤ) → Makes is_sandbox_call (add_rules env ctx)
  add_rules-Makes ctx = rw (add_rules-blacklist env ctx) (kill_each-Makes ctx blacklist)

  pub restrict_seccomp-Makes : Makes is_sandbox_call (restrict_seccomp env)
  unfolding restrict_seccomp Seccomp.init Seccomp.load
  restrict_seccomp-Makes = search (makes, add_rules-Makes) depth 12

  -- The sandbox makes no other calls, whatever is answered.
  pub sandbox-Makes : (build : Build) → Makes is_sandbox_call (sandbox env build)
  unfolding sandbox
  sandbox-Makes build =
      search (makes, restrict_capabilities-Makes, restrict_landlock-Makes, restrict_seccomp-Makes)
        depth 12

  -- None of the parts ends the process by std::exit.
  kill-Calm : (ctx n : ℤ) → Calm (kill env ctx n)
  unfolding kill
  kill-Calm ctx n = search calm depth 12

  kill_each-Calm : (ctx : ℤ) (names : List String) → Calm (kill_each env ctx names)
  unfolding kill_each
  kill_each-Calm ctx [] = Calm-pure
  kill_each-Calm ctx (name ∷ names) =
      Calm-then (Calm-if (env.defines name) (kill-Calm ctx (env.scmp_sys name)) Calm-pure)
        (kill_each-Calm ctx names)

  add_rules-Calm : (ctx : ℤ) → Calm (add_rules env ctx)
  add_rules-Calm ctx = rw (add_rules-blacklist env ctx) (kill_each-Calm ctx blacklist)

  restrict_capabilities-Calm : Calm (restrict_capabilities env)
  unfolding restrict_capabilities lock check_for_capabilites drop_all_capabilies
  restrict_capabilities-Calm = search calm depth 12

  restrict_landlock-Calm : Calm (restrict_landlock env)
  unfolding restrict_landlock create restrict_self
  restrict_landlock-Calm = search calm depth 12

  restrict_seccomp-Calm : Calm (restrict_seccomp env)
  unfolding restrict_seccomp Seccomp.init Seccomp.load
  restrict_seccomp-Calm = search (calm, add_rules-Calm) depth 12

  pub sandbox-Calm : (build : Build) → Calm (sandbox env build)
  unfolding sandbox
  sandbox-Calm build =
      search (calm, restrict_capabilities-Calm, restrict_landlock-Calm, restrict_seccomp-Calm) depth
        12
