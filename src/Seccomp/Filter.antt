-- ===== src/Seccomp/Filter.antt =====
-- What a filter does to a system call, by what libseccomp promises of its rules.
-- Code: src/seccomp.cpp.
use native.Mathlib.Decide.{ℕ_discrete}
use text.Mathlib.Text.{◌==◌ as str_eq}
use text.Mathlib.TextEquality.{eq_iff}
use mping_sender_mirror.Prelude.{
  ◌≡◌, ◌≢◌, refl, ◌∙◌, Bool, true, false, ◌||◌, String, List, [], ◌∷◌, Bool-cases, inl, inr,
}
use mping_sender_mirror.Prelude.Int.{ℤ, is_zero}
use mping_sender_mirror.Runtime.{Answer, Constant, Env, History, seccomp_init, seccomp_rule_add}
use mping_sender_mirror.Seccomp.{kill_each}
use mping_sender_mirror.Seccomp.Rules.{kill_each_defined, kill_each_undefined}

ℤ-discrete : Discrete ℤ
ℤ-discrete = hlevel ℕ_discrete

-- `verdict h ctx n` is the action of the filter `ctx`, as built by the calls `h`, on the system
-- call with the number n. What the manual pages promise: a new context has its default action for
-- every system call; an accepted rule decides its own system call and no other; a refused one
-- changes nothing.
pub record IsSeccomp {Address : Type 0} (verdict : History Address → ℤ → ℤ → Constant)
    : Type 0 where
  pub after_init :
      (h : History Address) (a : Answer) (def_action : Constant) (n : ℤ)
      → verdict ((seccomp_init def_action, a) ∷ h) a.result n ≡ def_action
  pub after_rule :
      (h : History Address) (a : Answer) (ctx : ℤ) (action : Constant) (n : ℤ)
      → is_zero a.result ≡ true
      → verdict ((seccomp_rule_add ctx action n, a) ∷ h) ctx n ≡ action
  pub other_rule :
      (h : History Address) (a : Answer) (ctx : ℤ) (action : Constant) (m n : ℤ)
      → m ≢ n
      → verdict ((seccomp_rule_add ctx action m, a) ∷ h) ctx n ≡ verdict h ctx n
  pub refused_rule :
      (h : History Address) (a : Answer) (ctx : ℤ) (action : Constant) (m n : ℤ)
      → is_zero a.result ≡ false
      → verdict ((seccomp_rule_add ctx action m, a) ∷ h) ctx n ≡ verdict h ctx n

-- Whether a list has a name.
abbrev pub contains : String → List String → Bool
contains x [] = false
contains x (y ∷ ys) = str_eq x y || contains x ys

-- libseccomp accepts every rule for the context.
abbrev pub Accepts : {Address : Type 0} → Env Address → ℤ → Type 0
Accepts {Address} env ctx =
    (h : History Address) (action : Constant) (n : ℤ)
    → is_zero (env.answer h (seccomp_rule_add ctx action n)).result ≡ true

module _ {Address : Type 0} (env : Env Address) (verdict : History Address → ℤ → ℤ → Constant)
    (promised : IsSeccomp verdict) (ctx : ℤ) (useable : is_zero ctx ≡ false) where
  -- Kills never turn a killed system call into another.
  stays_killed :
      (names : List String) (h : History Address) (n : ℤ)
      → verdict h ctx n ≡ "SCMP_ACT_KILL"
      → verdict (kill_each env ctx names h).1 ctx n ≡ "SCMP_ACT_KILL"
  stays_killed [] h n e = unfold kill_each in e
  stays_killed (name ∷ names) h n e = elim (Bool-cases (env.defines name)) [
    | inr d ↦ rw (kill_each_undefined env ctx name names h d) (stays_killed names h n e)
    | inl d ↦
        rw (kill_each_defined env ctx name names h useable d) (stays_killed names _ n (kept h e))
  ]
    where
      kept :
          (h : History Address)
          → verdict h ctx n ≡ "SCMP_ACT_KILL"
          → verdict
              ((
                seccomp_rule_add ctx "SCMP_ACT_KILL" (env.scmp_sys name),
                env.answer h (seccomp_rule_add ctx "SCMP_ACT_KILL" (env.scmp_sys name)),
              )
                ∷ h)
              ctx
              n
            ≡ "SCMP_ACT_KILL"
      kept h e = elim (ℤ-discrete (env.scmp_sys name) n) [
        | no other ↦ promised.other_rule h _ ctx _ (env.scmp_sys name) n other ∙ e
        | yes same ↦
            elim (Bool-cases (
              is_zero
                (env.answer h (seccomp_rule_add ctx "SCMP_ACT_KILL" (env.scmp_sys name))).result)) [
                  | inl accepted ↦
                      rw (← same) (promised.after_rule h _ ctx _ (env.scmp_sys name) accepted)
                  | inr refused ↦ promised.refused_rule h _ ctx _ (env.scmp_sys name) n refused ∙ e
                ]
      ]

  -- If libseccomp accepts the rules, every listed name that the platform defines is killed.
  pub filter_kills :
      (names : List String) (h : History Address) (name : String)
      → Accepts env ctx
      → contains name names ≡ true
      → env.defines name ≡ true
      → verdict (kill_each env ctx names h).1 ctx (env.scmp_sys name) ≡ "SCMP_ACT_KILL"
  filter_kills [] h name accepted listed d = cc
  filter_kills (x ∷ names) h name accepted listed d = elim (Bool-cases (str_eq name x)) [
    | inl same ↦
        let e : name ≡ x = (eq_iff name x).0 same in
        rw (kill_each_defined env ctx x names h useable (rw e at d), e)
          (stays_killed names _ (env.scmp_sys x) (promised.after_rule h _ ctx _ _ (accepted h _ _)))
    | inr other ↦ elim (Bool-cases (env.defines x)) [
      | inl defined ↦
          rw (kill_each_defined env ctx x names h useable defined)
            (filter_kills names _ name accepted (rw other at listed) d)
      | inr undefined ↦
          rw (kill_each_undefined env ctx x names h undefined)
            (filter_kills names h name accepted (rw other at listed) d)
    ]
  ]

  -- A system call that is the number of no listed and defined name keeps its verdict, whatever
  -- libseccomp answers.
  pub filter_keeps :
      (names : List String) (h : History Address) (n : ℤ)
      → ((x : String) → contains x names ≡ true → env.defines x ≡ true → env.scmp_sys x ≢ n)
      → verdict (kill_each env ctx names h).1 ctx n ≡ verdict h ctx n
  filter_keeps [] h n other = unfold kill_each in refl
  filter_keeps (x ∷ names) h n other = elim (Bool-cases (env.defines x)) [
    | inl d ↦ rw (kill_each_defined env ctx x names h useable d) (
        filter_keeps names _ n rest
        ∙ promised.other_rule h _ ctx _ (env.scmp_sys x) n (other x here d))
    | inr d ↦ rw (kill_each_undefined env ctx x names h d) (filter_keeps names h n rest)
  ]
    where
      here : contains x (x ∷ names) ≡ true
      here = rw ((eq_iff x x).1 refl)

      rest : (y : String) → contains y names ≡ true → env.defines y ≡ true → env.scmp_sys y ≢ n
      rest y listed d = other y (later (str_eq y x) listed) d
        where
          later : (b : Bool) → contains y names ≡ true → (b || contains y names) ≡ true
          later true l = refl
          later false l = l
