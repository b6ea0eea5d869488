-- ===== src/Seccomp/Context.antt =====
-- The life of a filter context: made, used and released.
-- Code: src/seccomp.cpp.
use mping_sender_mirror.Prelude.{◌≡◌, refl, true, ◌∷◌, arith}
use mping_sender_mirror.Prelude.Int.{ℤ, pos, is_zero}
use mping_sender_mirror.Prelude.Outcome.{Outcome, returned, thrown, runtime_error}
use mping_sender_mirror.Runtime.{Constant, Env, History, seccomp_release}
use mping_sender_mirror.Seccomp.{init, rule_add, load, reset, release, is_useable}

module _ {Address : Type 0} (env : Env Address) where
  abbrev unuseable : {A : Type 0} → History Address → Outcome A × History Address
  unuseable h = (thrown (runtime_error "seccomp filter context not useable."), h)

  -- The operations of a context that can be useless: each throws this and calls nothing.
  abbrev pub IsDead : ℤ → Type 0
  IsDead ctx =
      (h : History Address)
      → ((action : Constant) (n : ℤ) → rule_add env ctx action n h ≡ unuseable h)
        × (load env ctx h ≡ unuseable h)
        × ((action : Constant) → reset env ctx action h ≡ unuseable h)
        × (release env ctx h ≡ unuseable h)

  dead : (ctx : ℤ) → is_zero ctx ≡ true → IsDead ctx
  unfolding rule_add load reset release
  dead ctx e h = ((λ action n. rw e), rw e, (λ action. rw e), rw e)

  -- The context that a constructor returned is useable.
  pub init_useable :
      (action : Constant) (h : History Address) (ctx : ℤ)
      → (init env action h).0 ≡ returned ctx
      → is_useable env ctx ≡ true
  unfolding init
  init_useable action h ctx e = ground arith

  -- `release` of a useable context is one call of seccomp_release, and leaves a context of which
  -- every further operation (a rule, `load`, `reset`, a second `release`) throws and calls nothing:
  -- a released pointer is never handed to libseccomp again.
  pub release_once :
      (ctx : ℤ) (h : History Address)
      → is_useable env ctx ≡ true
      → (ctx' : ℤ) × (release env ctx h
          ≡ (returned ctx', (seccomp_release ctx, env.answer h (seccomp_release ctx)) ∷ h))
        × IsDead ctx'
  unfolding release
  release_once ctx h useable = (pos 0, rw useable, dead (pos 0) refl)
