-- ===== src/Seccomp/Rules.antt =====
-- The calls that a list of kills makes.
-- Code: src/seccomp.cpp.
use mping_sender_mirror.Prelude.{
  ◌≡◌, refl, sym, ap, ◌∙◌, true, false, String, List, [], ◌∷◌, ◌++◌, if◌then◌else◌, Bool-cases, inl,
  inr,
}
use mping_sender_mirror.Prelude.Int.{ℤ, is_zero}
use mping_sender_mirror.Prelude.Outcome.{returned}
use mping_sender_mirror.Runtime.{Call, Env, History, calls, seccomp_rule_add}
use mping_sender_mirror.Runtime.Monad.{Action, ◌>>◌, pure, >>-assoc}
use mping_sender_mirror.Seccomp.{rule_add, kill, kill_each}

-- Calls put in front of a history, the first of them deepest.
abbrev pub push_all {ℓ} : {A : Type ℓ} → List A → List A → List A
push_all [] h = h
push_all (c ∷ cs) h = push_all cs (c ∷ h)

module _ {Address : Type 0} (env : Env Address) (ctx : ℤ) where
  -- One rule for each name that the platform defines, in the order of the names.
  abbrev pub rules : List String → List (Call Address)
  rules [] = []
  rules (name ∷ names) =
      if env.defines name
      then seccomp_rule_add ctx "SCMP_ACT_KILL" (env.scmp_sys name) ∷ rules names
      else rules names

  -- On a context that is not null, a kill is one call, whatever it answers.
  pub kill_lem :
      (syscall : ℤ) (h : History Address)
      → is_zero ctx ≡ false
      → kill env ctx syscall h ≡ (
        returned tt,
        (
          seccomp_rule_add ctx "SCMP_ACT_KILL" syscall,
          env.answer h (seccomp_rule_add ctx "SCMP_ACT_KILL" syscall),
        )
            ∷ h,
      )
  unfolding kill
  kill_lem syscall h e = rw (e, rule_add)

  -- One step of `kill_each`.
  pub kill_each_defined :
      (name : String) (names : List String) (h : History Address)
      → is_zero ctx ≡ false
      → env.defines name ≡ true
      → kill_each env ctx (name ∷ names) h
        ≡ kill_each env ctx names (
            (
              seccomp_rule_add ctx "SCMP_ACT_KILL" (env.scmp_sys name),
              env.answer h (seccomp_rule_add ctx "SCMP_ACT_KILL" (env.scmp_sys name)),
            )
            ∷ h)
  unfolding kill_each
  kill_each_defined name names h e d = rw d (rw (kill_lem (env.scmp_sys name) h e))

  pub kill_each_undefined :
      (name : String) (names : List String) (h : History Address)
      → env.defines name ≡ false
      → kill_each env ctx (name ∷ names) h ≡ kill_each env ctx names h
  unfolding kill_each
  kill_each_undefined name names h d = rw d

  -- On a context that is not null, kills never throw, whatever libseccomp answers, and the calls
  -- are exactly the rules, in order.
  pub kill_each-calls :
      (names : List String) (h : History Address)
      → is_zero ctx ≡ false
      → ((kill_each env ctx names h).0 ≡ returned tt)
        × (calls (kill_each env ctx names h).1 ≡ push_all (rules names) (calls h))
  kill_each-calls [] h e = (unfold kill_each in refl, unfold kill_each in refl)
  kill_each-calls (name ∷ names) h e = elim (Bool-cases (env.defines name)) [
    | inl d ↦ rw (kill_each_defined name names h e d, d) (kill_each-calls names _ e)
    | inr d ↦ rw (kill_each_undefined name names h d, d) (kill_each-calls names h e)
  ]

  abbrev kill_one : String → Action Address (Unit {0})
  kill_one name = if env.defines name then kill env ctx (env.scmp_sys name) else pure tt

  kill_each-cons :
      (x : String) (xs : List String)
      → kill_each env ctx (x ∷ xs) ≡ (kill_one x >> kill_each env ctx xs)
  unfolding kill_each
  kill_each-cons x xs = refl

  -- Kills of one list and then of another are the kills of both.
  pub kill_each-append :
      (xs ys : List String)
      → kill_each env ctx (xs ++ ys) ≡ (kill_each env ctx xs >> kill_each env ctx ys)
  kill_each-append [] ys = unfold kill_each in refl
  kill_each-append (x ∷ xs) ys =
      kill_each-cons x (xs ++ ys)
      ∙ ap (λ (k : Action Address (Unit {0})). kill_one x >> k) (kill_each-append xs ys)
      ∙ sym (>>-assoc (kill_one x) (kill_each env ctx xs) (kill_each env ctx ys))
      ∙ ap (λ (k : Action Address (Unit {0})). k >> kill_each env ctx ys)
          (sym (kill_each-cons x xs))
