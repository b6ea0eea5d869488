-- ===== src/Main/Order.antt =====
-- The calls of a complete sandbox, in their order.
-- Code: src/main.cpp.
use mping_sender_mirror.Prelude.{◌≡◌, ap, ◌∙◌, true, false, List, ◌∷◌, arith}
use mping_sender_mirror.Prelude.Int.{ℤ, is_zero, is_minus_one}
use mping_sender_mirror.Prelude.Outcome.{Outcome, returned}
use mping_sender_mirror.Runtime.{
  Call, Env, History, calls, capng_have_capability, capng_lock, capng_clear, capng_apply,
  landlock_abi_version, landlock_create_ruleset, landlock_restrict_self, seccomp_init, seccomp_load,
}
use mping_sender_mirror.Runtime.Monad.{◌>>◌, continue-eq-returned}
use mping_sender_mirror.Capability.{lock, check_for_capabilites, drop_all_capabilies}
use mping_sender_mirror.Landlock.{create, restrict_self}
use mping_sender_mirror.Seccomp
use mping_sender_mirror.Seccomp.Rules.{push_all, rules}
use mping_sender_mirror.Main.{
  Build, handled_access_fs, handled_access_net, restrict_capabilities, restrict_landlock,
  restrict_seccomp, add_rules, sandbox,
}
use mping_sender_mirror.Main.Sandbox.{blacklist}
use mping_sender_mirror.Main.Filter.{add_rules-calls}

-- A build with all three parts.
abbrev pub full : Build
full = record { have_libcapng = true; have_landlock = true; have_seccomp = true; clang = false }

module _ {Address : Type 0} (env : Env Address) where
  abbrev pub capability_calls : List (Call Address) → List (Call Address)
  capability_calls cs =
      capng_apply "CAPNG_SELECT_ALL"
      ∷ capng_clear "CAPNG_SELECT_ALL"
      ∷ capng_lock
      ∷ capng_have_capability "CAPNG_PERMITTED" "CAP_SETPCAP"
      ∷ cs

  abbrev pub landlock_calls : ℤ → List (Call Address) → List (Call Address)
  landlock_calls fd cs =
      landlock_restrict_self fd
      ∷ landlock_create_ruleset handled_access_fs handled_access_net
      ∷ landlock_abi_version
      ∷ cs

  abbrev pub seccomp_calls : ℤ → List (Call Address) → List (Call Address)
  seccomp_calls ctx cs =
      seccomp_load ctx ∷ push_all (rules env ctx blacklist) (seccomp_init "SCMP_ACT_ALLOW" ∷ cs)

  restrict_capabilities-calls :
      (h : History Address)
      → (restrict_capabilities env h).0 ≡ returned tt
      → calls (restrict_capabilities env h).1 ≡ capability_calls (calls h)
  unfolding restrict_capabilities lock check_for_capabilites drop_all_capabilies
  restrict_capabilities-calls h e = ground arith

  restrict_landlock-calls :
      (h : History Address)
      → (restrict_landlock env h).0 ≡ returned tt
      → (fd : ℤ) × (is_minus_one fd ≡ false)
        × (calls (restrict_landlock env h).1 ≡ landlock_calls fd (calls h))
  unfolding restrict_landlock create restrict_self
  restrict_landlock-calls h e =
      let asked : History Address = (landlock_abi_version, env.answer h landlock_abi_version) ∷ h in
      (
        (env.answer asked (landlock_create_ruleset handled_access_fs handled_access_net)).result,
        ground arith,
        ground arith,
      )

  pub init-calls :
      (h : History Address) (ctx : ℤ)
      → (Seccomp.init env "SCMP_ACT_ALLOW" h).0 ≡ returned ctx
      → (is_zero ctx ≡ false)
        × (calls (Seccomp.init env "SCMP_ACT_ALLOW" h).1 ≡ seccomp_init "SCMP_ACT_ALLOW" ∷ calls h)
  unfolding Seccomp.init
  init-calls h ctx e = ground arith

  load-calls :
      (h : History Address) (ctx : ℤ)
      → is_zero ctx ≡ false
      → calls (Seccomp.load env ctx h).1 ≡ seccomp_load ctx ∷ calls h
  unfolding Seccomp.load
  load-calls h ctx e = ground arith

  restrict_seccomp-calls :
      (h : History Address)
      → (restrict_seccomp env h).0 ≡ returned tt
      → (ctx : ℤ) × (is_zero ctx ≡ false)
        × (calls (restrict_seccomp env h).1 ≡ seccomp_calls ctx (calls h))
  unfolding restrict_seccomp
  restrict_seccomp-calls h e =
      let (ctx, h₁, e₁, f₁) =
        continue-eq-returned (Seccomp.init env "SCMP_ACT_ALLOW" h)
          (λ ctx. add_rules env ctx >> Seccomp.load env ctx) tt e in
      let (_, h₂, e₂, f₂) =
        continue-eq-returned (add_rules env ctx h₁) (λ _. Seccomp.load env ctx) tt f₁ in
      let (useable, made) : (is_zero ctx ≡ false)
          × (calls h₁ ≡ seccomp_init "SCMP_ACT_ALLOW" ∷ calls h) =
        (rw e₁ at (init-calls h ctx (ap (λ (r : Outcome ℤ × History Address). r.0) e₁))) in
      let added : calls h₂ ≡ push_all (rules env ctx blacklist) (calls h₁) =
        (rw e₂ at (add_rules-calls env ctx h₁ useable).1) in
      (
        ctx,
        useable,
        (rw (e₁, e₂)
            (load-calls h₂ ctx useable
              ∙ ap (λ (cs : List (Call Address)). seccomp_load ctx ∷ cs)
                  (added ∙ ap (push_all (rules env ctx blacklist)) made))),
      )

  -- In a build with all three parts, if the sandbox returns, its calls are these and no others, in
  -- this order: the check for CAP_SETPCAP before the securebits are locked, then the empty set of
  -- capabilities; a landlock ruleset (not -1) of the handled accesses, without any rule, which
  -- restricts the process; a seccomp context (not null), one rule for each listed system call that
  -- the platform defines, and the load of that same context.
  pub sandbox-calls :
      (h : History Address)
      → (sandbox env full h).0 ≡ returned tt
      → (fd : ℤ) × (ctx : ℤ) × (is_minus_one fd ≡ false)
        × (is_zero ctx ≡ false)
        × (calls (sandbox env full h).1
            ≡ seccomp_calls ctx (landlock_calls fd (capability_calls (calls h))))
  unfolding sandbox
  sandbox-calls h e =
      let (_, h₁, e₁, f₁) =
        continue-eq-returned (restrict_capabilities env h)
          (λ _. restrict_landlock env >> restrict_seccomp env) tt e in
      let (_, h₂, e₂, f₂) =
        continue-eq-returned (restrict_landlock env h₁) (λ _. restrict_seccomp env) tt f₁ in
      let first : calls h₁ ≡ capability_calls (calls h) = rw e₁ at (
        restrict_capabilities-calls h
          (ap (λ (r : Outcome (Unit {0}) × History Address). r.0) e₁)) in
      let (fd, made, second) : (fd : ℤ) × (is_minus_one fd ≡ false)
          × (calls h₂ ≡ landlock_calls fd (calls h₁)) =
        rw e₂ at (
          restrict_landlock-calls h₁ (ap (λ (r : Outcome (Unit {0}) × History Address). r.0) e₂)) in
      let (ctx, useable, third) = restrict_seccomp-calls h₂ f₂ in
      (
        fd,
        ctx,
        made,
        useable,
        rw (e₁, e₂) (third ∙ ap (seccomp_calls ctx) (second ∙ ap (landlock_calls fd) first)),
      )
