-- ===== src/Landlock/Wrappers.antt =====
-- src/landlock.hpp: the functions that stand in where the C library has none for landlock.
use mathlib.Core.Path.{fun_ext}
use mping_sender_mirror.Prelude.{
  ℕ, ◌-◌, ◌%◌, ◌^◌, ◌<◌, ◌≡◌, refl, sym, ◌∙◌, Bool, true, false, if◌then◌else◌, ltb, arith,
}
use mping_sender_mirror.Prelude.Int.{ℤ, pos, negsuc}
use mping_sender_mirror.Runtime.{
  Answer, Call, Constant, Env, Flags, History, landlock_abi_version, landlock_create_ruleset,
  landlock_add_rule, landlock_restrict_self,
}

-- NO_LANDLOCK_CREATE_RULESET, NO_LANDLOCK_ADD_RULE and NO_LANDLOCK_RESTRICT_SELF
pub record Missing : Type 0 where
  pub create_ruleset : Bool
  pub add_rule : Bool
  pub restrict_self : Bool

-- A number modulo 2 ^ 32 in the range of int.
abbrev signed : ℕ → ℤ
signed low = if ltb low (2 ^ 31) then pos low else negsuc (2 ^ 32 - 1 - low)

-- `static_cast<int>` of a long.
abbrev pub to_int : ℤ → ℤ
to_int (pos n) = signed (n % 2 ^ 32)
to_int (negsuc n) = signed (2 ^ 32 - 1 - n % 2 ^ 32)

-- The range of int.
abbrev pub IsInt : ℤ → Type 0
IsInt (pos n) = n < 2 ^ 31
IsInt (negsuc n) = n < 2 ^ 31

pub to_int_lem : (z : ℤ) → IsInt z → to_int z ≡ z
to_int_lem (pos n) range = ground arith
to_int_lem (negsuc n) range = ground arith

-- `syscall h number c` is the answer of `syscall(number, …)` with the arguments of the call c.
module _ {Address : Type 0} (syscall : History Address → Constant → Call Address → Answer)
    (missing : Missing) where
  -- The body of a wrapper.
  abbrev cast : Answer → Answer
  cast a = record a { result = to_int a.result }

  abbrev pub wrapped_answer : Env Address → History Address → Call Address → Answer
  wrapped_answer env h landlock_abi_version =
      if missing.create_ruleset
      then cast (syscall h "SYS_landlock_create_ruleset" landlock_abi_version)
      else env.answer h landlock_abi_version
  wrapped_answer env h (landlock_create_ruleset fs net) =
      if missing.create_ruleset
      then cast (syscall h "SYS_landlock_create_ruleset" (landlock_create_ruleset fs net))
      else env.answer h (landlock_create_ruleset fs net)
  wrapped_answer env h (landlock_add_rule fd access parent) =
      if missing.add_rule
      then cast (syscall h "SYS_landlock_add_rule" (landlock_add_rule fd access parent))
      else env.answer h (landlock_add_rule fd access parent)
  wrapped_answer env h (landlock_restrict_self fd) =
      if missing.restrict_self
      then cast (syscall h "SYS_landlock_restrict_self" (landlock_restrict_self fd))
      else env.answer h (landlock_restrict_self fd)
  wrapped_answer env h c = env.answer h c

  abbrev pub wrapped : Env Address → Env Address
  wrapped env = record env { answer = wrapped_answer env }

  -- The functions of a C library make the system call of their name.
  pub record IsLibrary (env : Env Address) : Type 0 where
    pub version :
        (h : History Address)
        → env.answer h landlock_abi_version
          ≡ syscall h "SYS_landlock_create_ruleset" landlock_abi_version
    pub create :
        (h : History Address) (fs net : Flags)
        → env.answer h (landlock_create_ruleset fs net)
          ≡ syscall h "SYS_landlock_create_ruleset" (landlock_create_ruleset fs net)
    pub add :
        (h : History Address) (fd : ℤ) (access : Flags) (parent : ℤ)
        → env.answer h (landlock_add_rule fd access parent)
          ≡ syscall h "SYS_landlock_add_rule" (landlock_add_rule fd access parent)
    pub restrict :
        (h : History Address) (fd : ℤ)
        → env.answer h (landlock_restrict_self fd)
          ≡ syscall h "SYS_landlock_restrict_self" (landlock_restrict_self fd)
    pub in_range :
        (h : History Address) (number : Constant) (c : Call Address)
        → IsInt (syscall h number c).result

  cast_lem : (a : Answer) → IsInt a.result → cast a ≡ a
  cast_lem a range = λ i. record a { result = to_int_lem a.result range i }

  chosen : (b : Bool) (a d : Answer) → d ≡ a → IsInt a.result → (if b then cast a else d) ≡ d
  chosen true a d same range = cast_lem a range ∙ sym same
  chosen false a d same range = refl

  answer_lem :
      (env : Env Address) (library : IsLibrary env) (h : History Address) (c : Call Address)
      → wrapped_answer env h c ≡ env.answer h c
  answer_lem env library h landlock_abi_version =
      chosen missing.create_ruleset _ _ (library.version h) (library.in_range h _ _)
  answer_lem env library h (landlock_create_ruleset fs net) =
      chosen missing.create_ruleset _ _ (library.create h fs net) (library.in_range h _ _)
  answer_lem env library h (landlock_add_rule fd access parent) =
      chosen missing.add_rule _ _ (library.add h fd access parent) (library.in_range h _ _)
  answer_lem env library h (landlock_restrict_self fd) =
      chosen missing.restrict_self _ _ (library.restrict h fd) (library.in_range h _ _)
  answer_lem env library h c = refl

  -- Whichever of the functions are missing, the process sees the same answers.
  pub wrapped_lem : (env : Env Address) → IsLibrary env → wrapped env ≡ env
  wrapped_lem env library =
      λ i. record env { answer = fun_ext (λ h. fun_ext (λ c. answer_lem env library h c)) i }
