-- ===== src/Capability/Dropped.antt =====
-- The capabilities of the process, by what libcap-ng and the kernel promise.
-- Code: src/capability_managment.cpp.
use mping_sender_mirror.Prelude.{◌≡◌, true, false, Bool, ◌∷◌, inl, inr, Bool-cases}
use mping_sender_mirror.Prelude.Int.{is_zero}
use mping_sender_mirror.Prelude.Outcome.{returned}
use mping_sender_mirror.Runtime.{Answer, Call, Constant, Env, History, capng_clear, capng_apply}
use mping_sender_mirror.Capability.{drop_all_capabilies}

-- `held h c` is whether the process has the capability c in some set after the calls h. What the
-- manual pages promise: the empty sets, once applied, hold no capability, and a process that has
-- given a capability up does not get it back.
pub record IsCapng {Address : Type 0} (held : History Address → Constant → Bool) : Type 0 where
  pub after_apply :
      (h : History Address) (a b : Answer) (c : Constant)
      → is_zero b.result ≡ true
      → held ((capng_apply "CAPNG_SELECT_ALL", b) ∷ (capng_clear "CAPNG_SELECT_ALL", a) ∷ h) c
        ≡ false
  pub stays :
      (h : History Address) (e : Call Address × Answer) (c : Constant)
      → held h c ≡ false
      → held (e ∷ h) c ≡ false

module _ {Address : Type 0} (env : Env Address) (held : History Address → Constant → Bool)
    (promised : IsCapng held) where
  -- When the function returns, no capability is left.
  pub drop_all_capabilies_lem :
      (h : History Address) (c : Constant)
      → (drop_all_capabilies env h).0 ≡ returned tt
      → held (drop_all_capabilies env h).1 c ≡ false
  unfolding drop_all_capabilies
  drop_all_capabilies_lem h c e =
      let a = env.answer h (capng_clear "CAPNG_SELECT_ALL") in
      let h₁ = (capng_clear "CAPNG_SELECT_ALL", a) ∷ h in
      let b = env.answer h₁ (capng_apply "CAPNG_SELECT_ALL") in
      elim (Bool-cases (is_zero b.result)) [
        | inl fine ↦ rw fine (promised.after_apply h a b c fine)
        | inr failed ↦ cc
      ]
