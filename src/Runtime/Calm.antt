-- ===== src/Runtime/Calm.antt =====
-- Functions that never end the process by std::exit.
-- Code: the calls in src/.
use mping_sender_mirror.Prelude.{Bool, true, false, if◌then◌else◌}
use mping_sender_mirror.Prelude.Outcome.{
  Outcome, returned, thrown, exited, Exception, library_error,
}
use mping_sender_mirror.Prelude.Int.{is_zero}
use mping_sender_mirror.Runtime.{Call, Env, History, Severity, Line}
use mping_sender_mirror.Runtime.Monad.{
  Action, continue, ◌>>=◌, ◌>>◌, pure, throw, perform, lift, say, attempt,
}

abbrev pub IsNoExit : {A : Type 0} → Outcome A → Type 0
IsNoExit (returned a) = Unit {0}
IsNoExit (thrown x) = Unit {0}
IsNoExit (exited n) = ⊥

module _ {Address : Type 0} where
  -- Whatever is answered, `m` returns or throws.
  pub record Calm {A : Type 0} (m : Action Address A) : Type 0 where
    pub ends : (h : History Address) → IsNoExit (m h).0

  pub Calm-perform : (env : Env Address) (c : Call Address) → Calm (perform env c)
  Calm-perform env c = record { ends = λ h. tt }

  module _ {A : Type 0} where
    pub Calm-pure : {a : A} → Calm (pure a)
    Calm-pure = record { ends = λ h. tt }

    pub Calm-throw : {x : Exception} → Calm (throw {A = A} x)
    Calm-throw = record { ends = λ h. tt }

    pub Calm-if : (b : Bool) {m n : Action Address A} → Calm m → Calm n → Calm (if b then m else n)
    Calm-if true p q = p
    Calm-if false p q = q

  Calm-continue :
      {A B : Type 0} (r : Outcome A × History Address) (f : A → Action Address B)
      → IsNoExit r.0
      → ((a : A) → Calm (f a))
      → IsNoExit (continue r f).0
  Calm-continue (returned a, h) f p q = (q a).ends h
  Calm-continue (thrown x, h) f p q = tt
  Calm-continue (exited n, h) f p q = absurd p

  pub Calm-bind :
      {A B : Type 0} {m : Action Address A} {f : A → Action Address B}
      → Calm m
      → ((a : A) → Calm (f a))
      → Calm (m >>= f)
  Calm-bind {m} {f} p q = record { ends = λ h. Calm-continue (m h) f (p.ends h) q }

  pub Calm-then :
      {B : Type 0} {m : Action Address (Unit {0})} {l : Action Address B}
      → Calm m
      → Calm l
      → Calm (m >> l)
  Calm-then p q = Calm-bind p (λ _. q)

  pub Calm-lift : {A : Type 0} {o : Outcome A} → IsNoExit o → Calm (lift o)
  Calm-lift e = record { ends = λ h. e }

  pub Calm-say :
      (env : Env Address) (level : Severity) (line : Line Address) → Calm (say env level line)
  Calm-say env level line = record { ends = λ h. tt }

  pub Calm-attempt : (env : Env Address) (c : Call Address) → Calm (attempt env c)
  Calm-attempt env c =
      Calm-bind (Calm-perform env c)
        (λ a. Calm-if (is_zero a.result) Calm-pure (Calm-throw {x = library_error a.errno}))

pub ruleset calm = (
  Calm-perform, Calm-pure, Calm-throw, Calm-if, Calm-bind, Calm-then, Calm-lift, Calm-say,
  Calm-attempt,
)
