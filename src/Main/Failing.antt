-- ===== src/Main/Failing.antt =====
-- The sandbox when a call fails.
-- Code: src/main.cpp.
use mping_sender_mirror.Prelude.{
  All, List, Bool-cases, subst, String, inl, inr, ap, sym, ◌≡◌, refl, ap, Bool, true, false, not,
  [], ◌∷◌, arith, if◌then◌else◌,
}
use mping_sender_mirror.Prelude.Int.{ℤ, is_zero, is_minus_one, int_lt, int_eq}
use mping_sender_mirror.Prelude.Outcome.{Outcome, returned, thrown, exited}
use mping_sender_mirror.Runtime.{
  Answer, Call, Env, History, capng_have_capability, capng_lock, capng_apply, landlock_abi_version,
  landlock_create_ruleset, landlock_restrict_self, seccomp_init, seccomp_load,
}
use mping_sender_mirror.Runtime.Monad.{run_pair, Action, continue, ◌>>◌, pure}
use mping_sender_mirror.Capability.{lock, check_for_capabilites, drop_all_capabilies}
use mping_sender_mirror.Landlock.{create, restrict_self}
use mping_sender_mirror.Seccomp
use mping_sender_mirror.Seccomp.{kill_each}
use mping_sender_mirror.Seccomp.Rules.{kill_each_defined, kill_each_undefined}
use mping_sender_mirror.Main.Sandbox.{blacklist, add_rules-blacklist}
use mping_sender_mirror.Main.{
  Build, restrict_capabilities, restrict_landlock, restrict_seccomp, add_rules, sandbox, if_built,
}
use mping_sender_mirror.Main.Filter.{add_rules-calls}
use mping_sender_mirror.Main.Order.{init-calls}

-- A call of the sandbox whose answer is an error, by the manual page of the call. The answers to
-- rules are not among them.
abbrev pub is_failure : {Address : Type 0} → Call Address → Answer → Bool
is_failure (capng_have_capability t c) a = not (int_eq a.result 1)
is_failure capng_lock a = not (is_zero a.result)
is_failure (capng_apply s) a = not (is_zero a.result)
is_failure landlock_abi_version a = int_lt a.result 6
is_failure (landlock_create_ruleset f n) a = is_minus_one a.result
is_failure (landlock_restrict_self r) a = not (is_zero a.result)
is_failure (seccomp_init d) a = is_zero a.result
is_failure (seccomp_load c) a = not (is_zero a.result)
is_failure _ a = false

-- No call failed.
abbrev pub IsClean : {Address : Type 0} → History Address → Type 0
IsClean h = All (λ e. is_failure e.0 e.1 ≡ false) h

-- Where a part returned, no call failed; where it threw, the newest one did and no other.
abbrev pub IsStrict : {Address A : Type 0} → Outcome A × History Address → Type 0
IsStrict (returned a, h) = IsClean h
IsStrict (thrown x, []) = ⊥
IsStrict (thrown x, e ∷ h) = (is_failure e.0 e.1 ≡ true) × IsClean h
IsStrict (exited n, h) = ⊥

record Stops {Address A : Type 0} (m : Action Address A) : Type 0 where
  stops : (h : History Address) → IsClean h → IsStrict (m h)

continue-IsStrict :
    {Address A B : Type 0} (r : Outcome A × History Address) (f : A → Action Address B)
    → IsStrict r
    → ((a : A) (h : History Address) → r ≡ (returned a, h) → IsClean h → IsStrict (f a h))
    → IsStrict (continue r f)
continue-IsStrict (returned a, h) f first rest = rest a h refl first
continue-IsStrict (thrown y, []) f first rest = first
continue-IsStrict (thrown y, e ∷ h) f first rest = first
continue-IsStrict (exited n, h) f first rest = absurd first

Stops-then :
    {Address B : Type 0} (m : Action Address (Unit {0})) (k : Action Address B)
    → Stops m
    → Stops k
    → Stops (m >> k)
Stops-then m k a b = record {
  stops = λ h clean.
      continue-IsStrict (m h) (λ _. k) (a.stops h clean) (λ _ h' _ clean'. b.stops h' clean');
}

Stops-part :
    {Address : Type 0} (have : Bool) (m : Action Address (Unit {0}))
    → Stops m
    → Stops (if have then m else pure tt)
Stops-part true m a = a
Stops-part false m a = record { stops = λ h clean. clean }

module _ {Address : Type 0} (env : Env Address) where
  restrict_capabilities-Stops : Stops (restrict_capabilities env)
  unfolding restrict_capabilities lock check_for_capabilites drop_all_capabilies
  restrict_capabilities-Stops = record { stops = λ h clean. ground arith }

  restrict_landlock-Stops : Stops (restrict_landlock env)
  unfolding restrict_landlock create restrict_self
  restrict_landlock-Stops = record { stops = λ h clean. ground arith }

  init-Stops : Stops (Seccomp.init env "SCMP_ACT_ALLOW")
  unfolding Seccomp.init
  init-Stops = record { stops = λ h clean. ground arith }

  load-IsStrict :
      (ctx : ℤ) (h : History Address)
      → is_zero ctx ≡ false
      → IsClean h
      → IsStrict (Seccomp.load env ctx h)
  unfolding Seccomp.load
  load-IsStrict ctx h useable clean = ground arith

  kill_each-IsClean :
      (ctx : ℤ) (names : List String) (h : History Address)
      → is_zero ctx ≡ false
      → IsClean h
      → IsClean (kill_each env ctx names h).1
  kill_each-IsClean ctx [] h useable clean = unfold kill_each in clean
  kill_each-IsClean ctx (name ∷ names) h useable clean = elim (Bool-cases (env.defines name)) [
    | inl d ↦
        rw (kill_each_defined env ctx name names h useable d)
          (kill_each-IsClean ctx names _ useable (refl, clean))
    | inr d ↦
        rw (kill_each_undefined env ctx name names h d)
          (kill_each-IsClean ctx names h useable clean)
  ]

  add_rules-IsStrict :
      (ctx : ℤ) (h : History Address)
      → is_zero ctx ≡ false
      → IsClean h
      → IsStrict (add_rules env ctx h)
  add_rules-IsStrict ctx h useable clean =
      subst IsStrict
        (sym (run_pair (add_rules env ctx h) (returned tt) (add_rules-calls env ctx h useable).0))
        (rw (add_rules-blacklist env ctx) (kill_each-IsClean ctx blacklist h useable clean))

  restrict_seccomp-Stops : Stops (restrict_seccomp env)
  unfolding restrict_seccomp
  restrict_seccomp-Stops = record {
    stops = λ h clean.
        continue-IsStrict (Seccomp.init env "SCMP_ACT_ALLOW" h)
          (λ ctx. add_rules env ctx >> Seccomp.load env ctx) (init-Stops.stops h clean)
          λ ctx h₁ e clean₁.
            let useable : is_zero ctx ≡ false =
              (init-calls env h ctx (ap (λ (r : Outcome ℤ × History Address). r.0) e)).0 in
            continue-IsStrict (add_rules env ctx h₁) (λ _. Seccomp.load env ctx)
              (add_rules-IsStrict ctx h₁ useable clean₁)
              (λ _ h₂ _ clean₂. load-IsStrict ctx h₂ useable clean₂);
  }

  -- From a history without a failed call: if the sandbox returns, none of its calls failed; if it
  -- throws, the newest call failed and no other; and it never calls std::exit. So a missing
  -- CAP_SETPCAP, a landlock ABI before version 6, or an error of capng_lock, of capng_apply, of a
  -- landlock call, of seccomp_init or of seccomp_load ends the sandbox at once, by an exception.
  pub sandbox-IsStrict :
      (build : Build) (h : History Address) → IsClean h → IsStrict (sandbox env build h)
  unfolding sandbox
  sandbox-IsStrict build h clean =
      (Stops-then (if_built env build.have_libcapng (restrict_capabilities env)) _
          (Stops-part build.have_libcapng _ restrict_capabilities-Stops)
          (Stops-then (if_built env build.have_landlock (restrict_landlock env)) _
            (Stops-part build.have_landlock _ restrict_landlock-Stops)
            (Stops-part build.have_seccomp _ restrict_seccomp-Stops))).stops
        h clean
