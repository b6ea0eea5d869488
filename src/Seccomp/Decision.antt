-- ===== src/Seccomp/Decision.antt =====
-- The filter that a list of kills builds, against a decision by the numbers of the names.
-- Code: src/seccomp.cpp.
use mathlib.Core.Bool.{false≢true}
use mping_sender_mirror.Prelude.{
  ◌≡◌, ◌≢◌, refl, sym, subst, ap, ◌∙◌, inl, inr, Bool, true, false, ◌&&◌, ◌||◌, String, List, [],
  ◌∷◌, if◌then◌else◌, Bool-cases,
}
use mping_sender_mirror.Prelude.Int.{ℤ, is_zero, same_int, same_int_refl, same_int-eq}
use mping_sender_mirror.Runtime.{Constant, Env, History, seccomp_rule_add}
use mping_sender_mirror.Seccomp.{kill_each}
use mping_sender_mirror.Seccomp.Rules.{kill_each_defined, kill_each_undefined}
use mping_sender_mirror.Seccomp.Filter.{IsSeccomp, Accepts}

module _ {Address : Type 0} (env : Env Address) where
  -- Whether n is the number of a listed name that the platform defines.
  abbrev pub hit : List String → ℤ → Bool
  hit [] n = false
  hit (x ∷ names) n = (env.defines x && same_int (env.scmp_sys x) n) || hit names n

  if_same : {A : Type 0} (b : Bool) (a : A) → (if b then a else a) ≡ a
  if_same true a = refl
  if_same false a = refl

  not_same : (x y : ℤ) → same_int x y ≡ false → x ≢ y
  not_same x y e same = false≢true (sym e ∙ ap (λ (z : ℤ). same_int z y) same ∙ same_int_refl y)

  module _ (verdict : History Address → ℤ → ℤ → Constant) (promised : IsSeccomp verdict) (ctx : ℤ)
      (useable : is_zero ctx ≡ false) (accepted : Accepts env ctx) where
    -- One accepted rule.
    after_kill :
        (x : String) (h : History Address) (n : ℤ) (b : Bool)
        → let c = seccomp_rule_add ctx "SCMP_ACT_KILL" (env.scmp_sys x) in
          (if b then "SCMP_ACT_KILL" else verdict ((c, env.answer h c) ∷ h) ctx n)
          ≡ (if same_int (env.scmp_sys x) n || b then "SCMP_ACT_KILL" else verdict h ctx n)
    after_kill x h n b =
        let c = seccomp_rule_add ctx "SCMP_ACT_KILL" (env.scmp_sys x) in
        let rest = λ (v : Constant). if b then "SCMP_ACT_KILL" else v in
        elim (Bool-cases (same_int (env.scmp_sys x) n)) [
          | inl same ↦ rw same (
              ap rest (
                subst (λ (m : ℤ). verdict ((c, env.answer h c) ∷ h) ctx m ≡ "SCMP_ACT_KILL")
                  (same_int-eq (env.scmp_sys x) n same)
                  (promised.after_rule h _ ctx "SCMP_ACT_KILL" (env.scmp_sys x)
                    (accepted h "SCMP_ACT_KILL" (env.scmp_sys x))))
              ∙ if_same b "SCMP_ACT_KILL")
          | inr other ↦ rw other (
              ap rest (
                promised.other_rule h _ ctx "SCMP_ACT_KILL" (env.scmp_sys x) n
                  (not_same (env.scmp_sys x) n other)))
        ]

    pub kill_each_decides :
        (names : List String) (h : History Address) (n : ℤ)
        → verdict (kill_each env ctx names h).1 ctx n
          ≡ (if hit names n then "SCMP_ACT_KILL" else verdict h ctx n)
    kill_each_decides [] h n = unfold kill_each in refl
    kill_each_decides (x ∷ names) h n = elim (Bool-cases (env.defines x)) [
      | inl d ↦
          rw (kill_each_defined env ctx x names h useable d, d)
            (kill_each_decides names _ n ∙ after_kill x h n (hit names n))
      | inr d ↦ rw (kill_each_undefined env ctx x names h d, d) (kill_each_decides names h n)
    ]
