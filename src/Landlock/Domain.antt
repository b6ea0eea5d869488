-- ===== src/Landlock/Domain.antt =====
-- The accesses that a ruleset denies, by what the kernel promises.
-- Code: src/landlock.cpp.
use mping_sender_mirror.Prelude.{◌≡◌, ◌||◌, true, Bool, ◌∷◌, arith}
use mping_sender_mirror.Prelude.Int.{ℤ, is_zero}
use mping_sender_mirror.Prelude.Outcome.{returned}
use mping_sender_mirror.Runtime.{
  Answer, Call, Constant, Env, Flags, History, landlock_abi_version, landlock_create_ruleset,
  landlock_restrict_self,
}
use mping_sender_mirror.Runtime.Monad.{continue, continue-eq-returned}
use mping_sender_mirror.Landlock.{create, restrict_self, abi_version}
use mping_sender_mirror.Seccomp.Filter.{contains}

-- `denied h x` is whether after the calls h the process is denied the access x to all files and
-- ports that it does not have open. What the manual pages promise: a ruleset without a rule, once
-- it restricts the process, denies every access that it handles, and no later call allows an access
-- again.
pub record IsLandlock {Address : Type 0} (denied : History Address → Constant → Bool) : Type 0 where
  pub after_restrict :
      (h : History Address) (a b : Answer) (fs net : Flags) (x : Constant)
      → is_zero b.result ≡ true
      → (contains x fs || contains x net) ≡ true
      → denied ((landlock_restrict_self a.result, b) ∷ (landlock_create_ruleset fs net, a) ∷ h) x
        ≡ true
  pub stays :
      (h : History Address) (e : Call Address × Answer) (x : Constant)
      → denied h x ≡ true
      → denied (e ∷ h) x ≡ true

module _ {Address : Type 0} (env : Env Address) (denied : History Address → Constant → Bool)
    (promised : IsLandlock denied) where
  create-eq-returned :
      (fs net : Flags) (h h' : History Address) (fd : ℤ)
      → create env fs net h ≡ (returned fd, h')
      → let h₁ = (landlock_abi_version, env.answer h landlock_abi_version) ∷ h in
        let a = env.answer h₁ (landlock_create_ruleset fs net) in
        (fd ≡ a.result) × (h' ≡ (landlock_create_ruleset fs net, a) ∷ h₁)
  unfolding create abi_version
  create-eq-returned fs net h h' fd e = ground arith

  restrict_self-eq-returned :
      (h : History Address) (fd : ℤ)
      → (restrict_self env fd h).0 ≡ returned tt
      → (is_zero (env.answer h (landlock_restrict_self fd)).result ≡ true)
        × ((restrict_self env fd h).1
            ≡ (landlock_restrict_self fd, env.answer h (landlock_restrict_self fd)) ∷ h)
  unfolding restrict_self
  restrict_self-eq-returned h fd e = ground arith

  -- A ruleset that restricts the process as soon as it is made denies what it handles.
  pub restrict_self-create :
      (fs net : Flags) (h : History Address) (x : Constant)
      → (contains x fs || contains x net) ≡ true
      → (continue (create env fs net h) (restrict_self env)).0 ≡ returned tt
      → denied (continue (create env fs net h) (restrict_self env)).1 x ≡ true
  restrict_self-create fs net h x handled e =
      let (fd, h₁, e₁, f₁) = continue-eq-returned (create env fs net h) (restrict_self env) tt e in
      let (given, made) = create-eq-returned fs net h h₁ fd e₁ in
      let (fine, last) = restrict_self-eq-returned h₁ fd f₁ in
      rw (e₁, last, made, given)
        (promised.after_restrict _ _ _ fs net x (rw (made, given) at fine) handled)
