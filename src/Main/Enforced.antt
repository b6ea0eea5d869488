-- ===== src/Main/Enforced.antt =====
-- What the kernel does with system calls once `main` has its sandbox.
-- Code: src/main.cpp.
use mping_sender_mirror.Prelude.{
  ◌≡◌, refl, ap, ◌∙◌, inl, inr, Bool, true, false, ◌||◌, String, List, [], ◌∷◌, Bool-cases,
  if◌then◌else◌, arith,
}
use mping_sender_mirror.Prelude.Int.{ℤ, is_zero}
use mping_sender_mirror.Prelude.Outcome.{Outcome, returned}
use mping_sender_mirror.Runtime.{Answer, Constant, Env, History, seccomp_init, seccomp_load}
use mping_sender_mirror.Runtime.Monad.{Action, ◌>>◌, continue-eq-returned}
use mping_sender_mirror.Runtime.Makes.{Makes, makes, Makes-then, Makes-if, Makes-pure}
use mping_sender_mirror.Capability.{lock, check_for_capabilites, drop_all_capabilies}
use mping_sender_mirror.Landlock.{create, restrict_self}
use mping_sender_mirror.Seccomp
use mping_sender_mirror.Seccomp.{kill_each, kill}
use mping_sender_mirror.Seccomp.Filter.{IsSeccomp, Accepts}
use mping_sender_mirror.Seccomp.Decision.{hit, kill_each_decides}
use mping_sender_mirror.Seccomp.Kernel.{not_load, IsKernel, killed-append}
use mping_sender_mirror.Main.{
  Build, restrict_capabilities, restrict_landlock, restrict_seccomp, add_rules, sandbox, if_built,
}
use mping_sender_mirror.Main.Sandbox.{blacklist, add_rules-blacklist}

module _ {Address : Type 0} (env : Env Address) where
  restrict_capabilities-loads : Makes not_load (restrict_capabilities env)
  unfolding restrict_capabilities lock check_for_capabilites drop_all_capabilies
  restrict_capabilities-loads = search makes depth 12

  restrict_landlock-loads : Makes not_load (restrict_landlock env)
  unfolding restrict_landlock create restrict_self
  restrict_landlock-loads = search makes depth 12

  kill-loads : (ctx n : ℤ) → Makes not_load (kill env ctx n)
  unfolding kill
  kill-loads ctx n = search makes depth 12

  kill_each-loads : (ctx : ℤ) (names : List String) → Makes not_load (kill_each env ctx names)
  unfolding kill_each
  kill_each-loads ctx [] = Makes-pure
  kill_each-loads ctx (name ∷ names) =
      Makes-then (Makes-if (env.defines name) (kill-loads ctx (env.scmp_sys name)) Makes-pure)
        (kill_each-loads ctx names)

  add_rules-loads : (ctx : ℤ) → Makes not_load (add_rules env ctx)
  add_rules-loads ctx = rw (add_rules-blacklist env ctx) (kill_each-loads ctx blacklist)

  init-eq-returned :
      (h h' : History Address) (ctx : ℤ)
      → Seccomp.init env "SCMP_ACT_ALLOW" h ≡ (returned ctx, h')
      → let a = env.answer h (seccomp_init "SCMP_ACT_ALLOW") in
        (is_zero ctx ≡ false) × (ctx ≡ a.result) × (h' ≡ (seccomp_init "SCMP_ACT_ALLOW", a) ∷ h)
  unfolding Seccomp.init
  init-eq-returned h h' ctx e = ground arith

  load-eq-returned :
      (h : History Address) (ctx : ℤ)
      → (Seccomp.load env ctx h).0 ≡ returned tt
      → (is_zero (env.answer h (seccomp_load ctx)).result ≡ true)
        × ((Seccomp.load env ctx h).1 ≡ (seccomp_load ctx, env.answer h (seccomp_load ctx)) ∷ h)
  unfolding Seccomp.load
  load-eq-returned h ctx e = ground arith

  module _ (verdict : History Address → ℤ → ℤ → Constant) (promised : IsSeccomp verdict)
      (killed : History Address → ℤ → Bool) (kernel : IsKernel verdict killed)
      (accepted : (ctx : ℤ) → is_zero ctx ≡ false → Accepts env ctx) where
    -- A run without a load changes nothing for the kernel.
    same_killed :
        {A : Type 0} (m : Action Address A) (h : History Address) (n : ℤ)
        → Makes not_load m
        → killed (m h).1 n ≡ killed h n
    same_killed m h n made =
        let a = made.added h in rw a.on_top (killed-append verdict killed kernel a.new h n a.kinds)

    -- The load of a filter that is built from the list.
    loaded :
        (h h' : History Address) (ctx n : ℤ) (a : Answer)
        → is_zero a.result ≡ true
        → verdict h' ctx n ≡ (if hit env blacklist n then "SCMP_ACT_KILL" else "SCMP_ACT_ALLOW")
        → killed h' n ≡ killed h n
        → killed ((seccomp_load ctx, a) ∷ h') n ≡ (hit env blacklist n || killed h n)
    loaded h h' ctx n a fine v same = elim (Bool-cases (hit env blacklist n)) [
      | inl hits ↦ rw hits (kernel.load_kills h' a ctx n fine (rw hits at v))
      | inr misses ↦ rw misses (kernel.load_allows h' a ctx n fine (rw misses at v) ∙ same)
    ]

    -- The filter when all kills are done.
    add_rules_decides :
        (h : History Address) (a : Answer) (n : ℤ)
        → is_zero a.result ≡ false
        → verdict (add_rules env a.result ((seccomp_init "SCMP_ACT_ALLOW", a) ∷ h)).1 a.result n
          ≡ (if hit env blacklist n then "SCMP_ACT_KILL" else "SCMP_ACT_ALLOW")
    add_rules_decides h a n useable = rw (add_rules-blacklist env a.result) (
        kill_each_decides env verdict promised a.result useable (accepted a.result useable)
          blacklist _ n
        ∙ ap (λ (v : Constant). if hit env blacklist n then "SCMP_ACT_KILL" else v)
            (promised.after_init h a "SCMP_ACT_ALLOW" n))

    restrict_enforces :
        (h : History Address) (n : ℤ)
        → (restrict_seccomp env h).0 ≡ returned tt
        → killed (restrict_seccomp env h).1 n ≡ (hit env blacklist n || killed h n)
    unfolding restrict_seccomp
    restrict_enforces h n e =
        let (ctx, h₁, e₁, f₁) =
          continue-eq-returned (Seccomp.init env "SCMP_ACT_ALLOW" h)
            (λ ctx. add_rules env ctx >> Seccomp.load env ctx) tt e in
        let (_, h₂, e₂, f₂) =
          continue-eq-returned (add_rules env ctx h₁) (λ _. Seccomp.load env ctx) tt f₁ in
        let (useable, given, made) = init-eq-returned h h₁ ctx e₁ in
        let (fine, last) = load-eq-returned h₂ ctx f₂ in
        let a = env.answer h (seccomp_init "SCMP_ACT_ALLOW") in
        let added : (add_rules env a.result ((seccomp_init "SCMP_ACT_ALLOW", a) ∷ h)).1 ≡ h₂ =
          rw (given, made) at (ap (λ (r : Outcome (Unit {0}) × History Address). r.1) e₂) in
        rw (e₁, e₂, last)
          (loaded h h₂ ctx n _ fine
            (rw (given, ← added) (add_rules_decides h a n (rw given at useable)))
            (rw (← added) (
              same_killed (add_rules env a.result) _ n (add_rules-loads a.result)
              ∙ kernel.other_call h (seccomp_init "SCMP_ACT_ALLOW") a n refl)))

    -- A part under an `#ifdef` that returned, and loads no filter.
    part_killed :
        (have : Bool) (part : Action Address (Unit {0})) (h h' : History Address) (n : ℤ)
        → Makes not_load part
        → if_built env have part h ≡ (returned tt, h')
        → killed h' n ≡ killed h n
    part_killed have part h h' n made e =
        rw (ap (λ (r : Outcome (Unit {0}) × History Address). r.1) e) at
          (same_killed (if_built env have part) h n (Makes-if have made Makes-pure))

    pub sandbox_enforces :
        (build : Build) (h h' : History Address) (n : ℤ)
        → build.have_seccomp ≡ true
        → sandbox env build h ≡ (returned tt, h')
        → killed h' n ≡ (hit env blacklist n || killed h n)
    unfolding sandbox
    sandbox_enforces build h h' n have e =
        let (_, h₁, e₁, f₁) =
          continue-eq-returned (if_built env build.have_libcapng (restrict_capabilities env) h)
            (λ _.
              if_built env build.have_landlock (restrict_landlock env)
              >> if_built env build.have_seccomp (restrict_seccomp env))
            tt (ap (λ (r : Outcome (Unit {0}) × History Address). r.0) e) in
        let (_, h₂, e₂, f₂) =
          continue-eq-returned (if_built env build.have_landlock (restrict_landlock env) h₁)
            (λ _. if_built env build.have_seccomp (restrict_seccomp env)) tt f₁ in
        let first = part_killed build.have_libcapng _ h h₁ n restrict_capabilities-loads e₁ in
        let second = part_killed build.have_landlock _ h₁ h₂ n restrict_landlock-loads e₂ in
        let last : (restrict_seccomp env h₂).1 ≡ h' =
          rw (e₁, e₂, have) at (ap (λ (r : Outcome (Unit {0}) × History Address). r.1) e) in
        rw (← last) (
          restrict_enforces h₂ n (rw have at f₂) ∙ ap (◌||◌ (hit env blacklist n)) (second ∙ first))
