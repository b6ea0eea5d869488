-- ===== src/Seccomp/Concrete.antt =====
-- A concrete libseccomp and kernel, for the tests.
-- Code: src/seccomp.cpp.
use text.Mathlib.Text.{◌==◌ as str_eq}
use text.Mathlib.TextEquality.{eq_iff}
use mping_sender_mirror.Prelude.{
  ◌⊎◌, ◌≡◌, ◌≢◌, refl, ap, ◌∙◌, sym, Bool, true, false, ◌&&◌, ◌||◌, if◌then◌else◌, String, [], ◌∷◌,
  arith, Bool-cases, inl, inr,
}
use mping_sender_mirror.Prelude.Int.{
  ℤ, pos, is_zero, pos_part, same_int, same_int_refl, same_int-ne,
}
use mping_sender_mirror.Runtime.{
  Answer, Call, Constant, Env, History, capng_have_capability, landlock_abi_version,
  landlock_create_ruleset, seccomp_init, seccomp_rule_add, seccomp_load, if_nametoindex,
  steady_clock_now, random_u32,
}
use mping_sender_mirror.Seccomp.Filter.{IsSeccomp, Accepts}
use mping_sender_mirror.Seccomp.Kernel.{not_load, IsKernel}

-- A system on which every call succeeds. Its clock stands at 5 s after the epoch.
abbrev good_result : {Address : Type 0} → Call Address → ℤ
good_result (capng_have_capability t c) = pos 1
good_result landlock_abi_version = pos 6
good_result (landlock_create_ruleset f n) = pos 3
good_result (seccomp_init a) = pos 1
good_result (if_nametoindex name) = pos 2
good_result steady_clock_now = pos 5000000000
good_result random_u32 = pos 7
good_result _ = pos 0

-- The headers define chown and fsopen alone.
abbrev is_defined : String → Bool
is_defined name = str_eq name "chown" || str_eq name "fsopen"

abbrev number : String → ℤ
number name = if str_eq name "chown" then pos 92 else pos 430

abbrev pub good : {Address : Type 0} → Env Address
good = record {
  answer = λ h c. record { result = good_result c; errno = 0 };
  defines = is_defined;
  scmp_sys = number;
}

-- The newest accepted rule for a system call decides it.
abbrev pub verdict : {Address : Type 0} → History Address → ℤ → ℤ → Constant
verdict [] ctx n = "none"
verdict ((seccomp_init action, a) ∷ h) ctx n =
    if same_int a.result ctx then action else verdict h ctx n
verdict ((seccomp_rule_add ctx' action m, a) ∷ h) ctx n =
    if (same_int ctx' ctx && same_int m n) && is_zero a.result then action else verdict h ctx n
verdict (e ∷ h) ctx n = verdict h ctx n

and_false : (b : Bool) → (b && false) ≡ false
and_false true = refl
and_false false = refl

pub verdict-IsSeccomp : {Address : Type 0} → IsSeccomp {Address = Address} verdict
verdict-IsSeccomp = record {
  after_init = λ h a action n. rw (same_int_refl a.result);
  after_rule = λ h a ctx action n accepted. rw (accepted, same_int_refl ctx, same_int_refl n);
  other_rule = λ h a ctx action m n ne. rw (same_int_refl ctx, same_int-ne m n ne);
  refused_rule =
      λ h a ctx action m n refused. rw (refused, and_false (same_int ctx ctx && same_int m n));
}

-- A loaded filter stays.
abbrev pub killed : {Address : Type 0} → History Address → ℤ → Bool
killed [] n = false
killed ((seccomp_load ctx, a) ∷ h) n =
    (is_zero a.result && str_eq (verdict h ctx n) "SCMP_ACT_KILL") || killed h n
killed (e ∷ h) n = killed h n

pub killed-IsKernel : {Address : Type 0} → IsKernel {Address = Address} verdict killed
killed-IsKernel = record {
  load_kills = λ h a ctx n fine v. rw (fine, v);
  load_allows = λ h a ctx n fine v. rw (fine, v);
  other_call = λ h c a n e. other h c a n e;
}
  where
    other :
        {Address : Type 0} (h : History Address) (c : Call Address) (a : Answer) (n : ℤ)
        → not_load c ≡ true
        → killed ((c, a) ∷ h) n ≡ killed h n
    other h c a n e = ground arith

pub good-Accepts : {Address : Type 0} → Accepts {Address = Address} good (pos 1)
good-Accepts h action n = refl

either :
    (name : String)
    → is_defined name ≡ true
    → ((name ≡ "chown") × (number name ≡ pos 92)) ⊎ ((name ≡ "fsopen") × (number name ≡ pos 430))
either name d = elim (Bool-cases (str_eq name "chown")) [
  | inl c ↦ inl ((eq_iff name "chown").0 c, rw c)
  | inr c ↦ inr ((eq_iff name "fsopen").0 (rw c at d), rw c)
]

-- No two defined names have the same number.
pub good-distinct :
    (x y : String) → is_defined x ≡ true → is_defined y ≡ true → number x ≡ number y → x ≡ y
good-distinct x y d d' e = go (either x d) (either y d')
  where
    apart : pos 92 ≢ pos 430
    apart e = absurd (omega (arith, ap pos_part e))

    go :
        ((x ≡ "chown") × (number x ≡ pos 92)) ⊎ ((x ≡ "fsopen") × (number x ≡ pos 430))
        → ((y ≡ "chown") × (number y ≡ pos 92)) ⊎ ((y ≡ "fsopen") × (number y ≡ pos 430))
        → x ≡ y
    go (inl a) (inl b) = a.0 ∙ sym b.0
    go (inr a) (inr b) = a.0 ∙ sym b.0
    go (inl a) (inr b) = absurd (apart (sym a.1 ∙ e ∙ b.1))
    go (inr a) (inl b) = absurd (apart (sym b.1 ∙ sym e ∙ a.1))
