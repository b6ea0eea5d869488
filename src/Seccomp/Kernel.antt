-- ===== src/Seccomp/Kernel.antt =====
-- What the kernel does with the filters that a process loads.
-- Code: src/seccomp.cpp.
use mping_sender_mirror.Prelude.{◌≡◌, refl, ◌∙◌, Bool, true, false, not, [], ◌∷◌, ◌++◌}
use mping_sender_mirror.Prelude.Int.{ℤ, is_zero}
use mping_sender_mirror.Runtime.{Answer, Call, Constant, History, seccomp_load}
use mping_sender_mirror.Runtime.Makes.{Only}

-- The last call of the seccomp part of the sandbox.
abbrev pub is_seccomp_load : {Address : Type 0} → Call Address → Bool
is_seccomp_load (seccomp_load c) = true
is_seccomp_load _ = false

abbrev pub not_load : {Address : Type 0} → Call Address → Bool
not_load c = not (is_seccomp_load c)

-- `killed h n` is whether the kernel kills a thread that makes the system call n after the calls h.
-- What the manual pages promise: a filter that was loaded with success is in force at once, next to
-- those that were loaded before, and no call takes a filter away.
pub record IsKernel {Address : Type 0} (verdict : History Address → ℤ → ℤ → Constant)
    (killed : History Address → ℤ → Bool) : Type 0 where
  pub load_kills :
      (h : History Address) (a : Answer) (ctx n : ℤ)
      → is_zero a.result ≡ true
      → verdict h ctx n ≡ "SCMP_ACT_KILL"
      → killed ((seccomp_load ctx, a) ∷ h) n ≡ true
  pub load_allows :
      (h : History Address) (a : Answer) (ctx n : ℤ)
      → is_zero a.result ≡ true
      → verdict h ctx n ≡ "SCMP_ACT_ALLOW"
      → killed ((seccomp_load ctx, a) ∷ h) n ≡ killed h n
  pub other_call :
      (h : History Address) (c : Call Address) (a : Answer) (n : ℤ)
      → not_load c ≡ true
      → killed ((c, a) ∷ h) n ≡ killed h n

module _ {Address : Type 0} (verdict : History Address → ℤ → ℤ → Constant)
    (killed : History Address → ℤ → Bool) (kernel : IsKernel verdict killed) where
  -- Without a further load the kernel goes on as before.
  pub killed-append :
      (new h : History Address) (n : ℤ) → Only not_load new → killed (new ++ h) n ≡ killed h n
  killed-append [] h n only = refl
  killed-append ((c, a) ∷ new) h n only =
      kernel.other_call (new ++ h) c a n only.0 ∙ killed-append new h n only.1
