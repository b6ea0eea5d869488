-- ===== src/Runtime/Monad.antt =====
-- A C++ function that makes calls: it ends in an outcome, and the calls stay made.
-- Code: the calls in src/.
use mathlib.Core.Path.{fun_ext}
use mping_sender_mirror.Prelude.{ℕ, ◌∷◌, ◌≡◌, refl, if◌then◌else◌}
use mping_sender_mirror.Prelude.Int.{is_zero}
use mping_sender_mirror.Prelude.Outcome.{
  Outcome, returned, thrown, exited, Exception, library_error,
}
use mping_sender_mirror.Runtime.{Call, Answer, History, Env, Severity, Line, log}

abbrev pub Action : Type 0 → Type 0 → Type 0
Action Address A = History Address → Outcome A × History Address

-- Goes on after a value; an exception or an exit ends the function.
abbrev pub continue :
    {Address A B : Type 0}
    → Outcome A × History Address
    → (A → Action Address B)
    → Outcome B × History Address
continue (returned a, h) f = f a h
continue (thrown x, h) f = (thrown x, h)
continue (exited n, h) f = (exited n, h)

infixl 5 ◌>>=◌ ◌>>◌
abbrev pub ◌>>=◌ :
    {Address A B : Type 0} → Action Address A → (A → Action Address B) → Action Address B
◌>>=◌ m f h = continue (m h) f

abbrev pub ◌>>◌ :
    {Address B : Type 0} → Action Address (Unit {0}) → Action Address B → Action Address B
m >> k = m >>= λ _. k

module _ {Address : Type 0} where
  abbrev pub pure : {A : Type 0} → A → Action Address A
  pure a h = (returned a, h)

  abbrev pub throw : {A : Type 0} → Exception → Action Address A
  throw x h = (thrown x, h)

  -- std::exit
  abbrev pub exit : {A : Type 0} → ℕ → Action Address A
  exit n h = (exited n, h)

  -- A computation without calls.
  abbrev pub lift : {A : Type 0} → Outcome A → Action Address A
  lift o h = (o, h)

  abbrev pub perform : Env Address → Call Address → Action Address Answer
  perform env c h = (returned (env.answer h c), (c, env.answer h c) ∷ h)

  -- BOOST_LOG_TRIVIAL. The answer is not read.
  abbrev pub say : Env Address → Severity → Line Address → Action Address (Unit {0})
  say env level line = do _ ← perform env (log level line); pure tt

  abbrev pub said : Env Address → Severity → Line Address → History Address → History Address
  said env level line h = (log level line, env.answer h (log level line)) ∷ h

  -- A call of Boost.Asio: it throws if the answer is an error.
  abbrev pub attempt : Env Address → Call Address → Action Address (Unit {0})
  attempt env c = do
    a ← perform env c
    if is_zero a.result then pure tt else throw (library_error a.errno)

-- Parts of a function may be bracketed either way.
pub continue_assoc :
    {Address A B C : Type 0} (r : Outcome A × History Address) (f : A → Action Address B)
    (g : B → Action Address C)
    → continue (continue r f) g ≡ continue r (λ a h. continue (f a h) g)
continue_assoc (returned a, h) f g = refl
continue_assoc (thrown x, h) f g = refl
continue_assoc (exited n, h) f g = refl

pub >>-assoc :
    {Address C : Type 0} (m k : Action Address (Unit {0})) (l : Action Address C)
    → ((m >> k) >> l) ≡ (m >> (k >> l))
>>-assoc m k l = fun_ext λ h. continue_assoc (m h) (λ _. k) (λ _. l)

-- A bind that returned: its first part returned, and the rest ran from there.
pub continue-eq-returned :
    {Address A B : Type 0} (r : Outcome A × History Address) (f : A → Action Address B) (b : B)
    → (continue r f).0 ≡ returned b
    → (a : A) × (h : History Address) × (r ≡ (returned a, h)) × ((f a h).0 ≡ returned b)
continue-eq-returned (returned a, h) f b e = (a, h, refl, e)
continue-eq-returned (thrown x, h) f b e = cc
continue-eq-returned (exited n, h) f b e = cc

-- A run is the pair of its outcome and its history.
pub run_pair :
    {Address A : Type 0} (r : Outcome A × History Address) (o : Outcome A) → r.0 ≡ o → r ≡ (o, r.1)
run_pair (o', h) o e = λ i. (e i, h)
