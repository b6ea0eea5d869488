-- ===== src/Main/Done.antt =====
-- What has been done when the parts of the sandbox return.
-- Code: src/main.cpp.
use mping_sender_mirror.Prelude.{Bool, true, false, ◌≡◌, ap, inr, [], ◌∷◌, ◌++◌, arith}
use mping_sender_mirror.Prelude.Int.{ℤ}
use mping_sender_mirror.Prelude.Outcome.{Outcome, returned}
use mping_sender_mirror.Runtime.{Answer, Call, Env, History}
use mping_sender_mirror.Runtime.Monad.{Action, ◌>>◌, continue-eq-returned}
use mping_sender_mirror.Runtime.Makes.{Makes}
use mping_sender_mirror.Capability.{lock, check_for_capabilites, drop_all_capabilies}
use mping_sender_mirror.Landlock.{create, restrict_self}
use mping_sender_mirror.Seccomp
use mping_sender_mirror.Seccomp.Kernel.{is_seccomp_load}
use mping_sender_mirror.Seccomp.{kill_each, kill}
use mping_sender_mirror.Main.{
  Build, restrict_capabilities, restrict_landlock, restrict_seccomp, add_rules, sandbox, if_built,
}
use mping_sender_mirror.Main.Parts.{
  is_sandbox_call, is_capng_apply, is_restrict_self, Did, Needs, IsConfined,
  restrict_landlock-Makes, restrict_seccomp-Makes,
}

-- What holds of a history still holds when calls follow.
abbrev pub Persists : {Address : Type 0} → (History Address → Type 0) → Type 0
Persists {Address} P = (h : History Address) (e : Call Address × Answer) → P h → P (e ∷ h)

pub Persists-append :
    {Address : Type 0} (P : History Address → Type 0)
    → Persists P
    → (new h : History Address) → P h
    → P (new ++ h)
Persists-append P stays [] h p = p
Persists-append P stays (e ∷ new) h p = stays (new ++ h) e (Persists-append P stays new h p)

pub Needs-map : (have : Bool) {P Q : Type 0} → (P → Q) → Needs have P → Needs have Q
Needs-map true f p = f p
Needs-map false f p = tt

module _ {Address : Type 0} (env : Env Address) where
  restrict_capabilities_done :
      (h : History Address)
      → (restrict_capabilities env h).0 ≡ returned tt
      → Did is_capng_apply (restrict_capabilities env h).1
  unfolding restrict_capabilities lock check_for_capabilites drop_all_capabilies
  restrict_capabilities_done h e = ground arith

  restrict_landlock_done :
      (h : History Address)
      → (restrict_landlock env h).0 ≡ returned tt
      → Did is_restrict_self (restrict_landlock env h).1
  unfolding restrict_landlock create restrict_self
  restrict_landlock_done h e = ground arith

  load_done :
      (ctx : ℤ) (h : History Address)
      → (Seccomp.load env ctx h).0 ≡ returned tt
      → Did is_seccomp_load (Seccomp.load env ctx h).1
  unfolding Seccomp.load
  load_done ctx h e = ground arith

  restrict_seccomp_done :
      (h : History Address)
      → (restrict_seccomp env h).0 ≡ returned tt
      → Did is_seccomp_load (restrict_seccomp env h).1
  unfolding restrict_seccomp
  restrict_seccomp_done h e =
      let (ctx, h₁, e₁, f₁) =
        continue-eq-returned (Seccomp.init env "SCMP_ACT_ALLOW" h)
          (λ ctx. add_rules env ctx >> Seccomp.load env ctx) tt e in
      let (_, h₂, e₂, f₂) =
        continue-eq-returned (add_rules env ctx h₁) (λ _. Seccomp.load env ctx) tt f₁ in
      rw (e₁, e₂) (load_done ctx h₂ f₂)

  -- What the three parts reach, when the sandbox returns; the first two must persist.
  module _ (P Q R : History Address → Type 0) (P_stays : Persists P) (Q_stays : Persists Q)
      (first : (h : History Address)
        → (restrict_capabilities env h).0 ≡ returned tt
        → P (restrict_capabilities env h).1)
      (second : (h : History Address)
        → (restrict_landlock env h).0 ≡ returned tt
        → Q (restrict_landlock env h).1)
      (third : (h : History Address)
        → (restrict_seccomp env h).0 ≡ returned tt
        → R (restrict_seccomp env h).1) where
    part_done :
        (have : Bool) (part : Action Address (Unit {0})) (S : History Address → Type 0)
        → ((h : History Address) → (part h).0 ≡ returned tt → S (part h).1)
        → (h : History Address) → (if_built env have part h).0 ≡ returned tt
        → Needs have (S (if_built env have part h).1)
    part_done true part S done h e = done h e
    part_done false part S done h e = tt

    -- A part that follows keeps what the earlier ones reached.
    part_keeps :
        (have : Bool) (part : Action Address (Unit {0})) (S : History Address → Type 0)
        → Persists S
        → Makes is_sandbox_call part
        → (h : History Address) → S h
        → S (if_built env have part h).1
    part_keeps true part S stays made h p =
        let a = made.added h in rw a.on_top (Persists-append S stays a.new h p)
    part_keeps false part S stays made h p = p

    pub sandbox_reaches :
        (build : Build) (h : History Address)
        → (sandbox env build h).0 ≡ returned tt
        → Needs build.have_libcapng (P (sandbox env build h).1)
          × Needs build.have_landlock (Q (sandbox env build h).1)
          × Needs build.have_seccomp (R (sandbox env build h).1)
    unfolding sandbox
    sandbox_reaches build h e =
        let (_, h₁, e₁, f₁) =
          continue-eq-returned (if_built env build.have_libcapng (restrict_capabilities env) h)
            (λ _.
              if_built env build.have_landlock (restrict_landlock env)
              >> if_built env build.have_seccomp (restrict_seccomp env))
            tt e in
        let (_, h₂, e₂, f₂) =
          continue-eq-returned (if_built env build.have_landlock (restrict_landlock env) h₁)
            (λ _. if_built env build.have_seccomp (restrict_seccomp env)) tt f₁ in
        let outcome = λ (r : Outcome (Unit {0}) × History Address). r.0 in
        let p : Needs build.have_libcapng (P h₁) =
          rw e₁ at
            (part_done build.have_libcapng (restrict_capabilities env) P first h (ap outcome e₁)) in
        let q : Needs build.have_landlock (Q h₂) =
          rw e₂ at
            (part_done build.have_landlock (restrict_landlock env) Q second h₁ (ap outcome e₂)) in
        let after_landlock : P h₁ → P h₂ = λ p. rw e₂ at (
          part_keeps build.have_landlock (restrict_landlock env) P P_stays
            (restrict_landlock-Makes env) h₁ p) in
        let seccomp = restrict_seccomp-Makes env in
        rw (e₁, e₂)
          (
            Needs-map build.have_libcapng
                (λ p.
                  part_keeps build.have_seccomp (restrict_seccomp env) P P_stays seccomp h₂
                    (after_landlock p))
                p,
            Needs-map build.have_landlock
                (part_keeps build.have_seccomp (restrict_seccomp env) Q Q_stays seccomp h₂) q,
            part_done build.have_seccomp (restrict_seccomp env) R third h₂ f₂,
          )

  -- When the sandbox returns, it is complete.
  pub sandbox_done :
      (build : Build) (h : History Address)
      → (sandbox env build h).0 ≡ returned tt
      → IsConfined build (sandbox env build h).1
  sandbox_done build h e =
      let (capabilities, landlock, seccomp) =
        sandbox_reaches (Did is_capng_apply) (Did is_restrict_self) (Did is_seccomp_load)
          (λ _ _. inr) (λ _ _. inr) restrict_capabilities_done restrict_landlock_done
          restrict_seccomp_done build h e in
      record { capabilities = capabilities; landlock = landlock; seccomp = seccomp }
