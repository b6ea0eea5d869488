-- ===== src/Runtime/Yields.antt =====
-- What holds of every value that a function returns.
-- Code: the calls in src/.
use mping_sender_mirror.Prelude.{◌≡◌, refl}
use mping_sender_mirror.Prelude.Outcome.{Outcome, returned, thrown, exited}
use mping_sender_mirror.Runtime.{History}
use mping_sender_mirror.Runtime.Monad.{Action, continue, ◌>>=◌, ◌>>◌, pure, lift}

-- A postcondition on the value alone.
abbrev pub Post : {A : Type 0} → (A → Type 0) → Outcome A → Type 0
Post P (returned a) = P a
Post P (thrown x) = Unit {0}
Post P (exited n) = Unit {0}

module _ {Address : Type 0} where
  pub record Yields {A : Type 0} (P : A → Type 0) (m : Action Address A) : Type 0 where
    pub post : (h : History Address) → Post P (m h).0

  Yields-continue :
      {A B : Type 0} (P : B → Type 0) (r : Outcome A × History Address) (f : A → Action Address B)
      → ((a : A) → Yields P (f a))
      → Post P (continue r f).0
  Yields-continue P (returned a, h) f q = (q a).post h
  Yields-continue P (thrown x, h) f q = tt
  Yields-continue P (exited n, h) f q = tt

  pub Yields-bind :
      {A B : Type 0} {P : B → Type 0} (m : Action Address A) {f : A → Action Address B}
      → ((a : A) → Yields P (f a))
      → Yields P (m >>= f)
  Yields-bind {P} m {f} q = record { post = λ h. Yields-continue P (m h) f q }

  pub Yields-then :
      {B : Type 0} {P : B → Type 0} (m : Action Address (Unit {0})) {l : Action Address B}
      → Yields P l
      → Yields P (m >> l)
  Yields-then m q = Yields-bind m (λ _. q)

  Yields-outcome :
      {A B : Type 0} (P : B → Type 0) (o o' : Outcome A) (h : History Address)
      (f : A → Action Address B)
      → o' ≡ o
      → ((a : A) → o' ≡ returned a → Yields P (f a))
      → Post P (continue (o, h) f).0
  Yields-outcome P (returned a) o' h f e q = (q a e).post h
  Yields-outcome P (thrown x) o' h f e q = tt
  Yields-outcome P (exited n) o' h f e q = tt

  -- After a computation without calls its value is known.
  pub Yields-lift :
      {A B : Type 0} {P : B → Type 0} (o : Outcome A) {f : A → Action Address B}
      → ((a : A) → o ≡ returned a → Yields P (f a))
      → Yields P (lift o >>= f)
  Yields-lift {P} o {f} q = record { post = λ h. Yields-outcome P o o h f refl q }

  module _ {A : Type 0} {P : A → Type 0} where
    pub Yields-pure : {a : A} → P a → Yields P (pure a)
    Yields-pure p = record { post = λ h. p }
