-- ===== src/Runtime/Makes.antt =====
-- Which calls a function can make.
-- Code: the calls in src/.
use mathlib.Core.List.{append_assoc}
use mping_sender_mirror.Prelude.{
  ℕ, ◌≡◌, refl, sym, ap, ◌∙◌, Bool, true, false, [], ◌∷◌, ◌++◌, All, All-append, if◌then◌else◌,
}
use mping_sender_mirror.Prelude.Int.{is_zero}
use mping_sender_mirror.Prelude.Outcome.{
  Outcome, returned, thrown, exited, Exception, library_error,
}
use mping_sender_mirror.Runtime.{Severity, Line, log, Call, Env, History}
use mping_sender_mirror.Runtime.Monad.{
  say, Action, continue, ◌>>=◌, ◌>>◌, pure, throw, exit, lift, perform, attempt,
}

module _ {Address : Type 0} where
  -- Every event of a history is a call of the kind `k`.
  abbrev pub Only : (Call Address → Bool) → History Address → Type 0
  Only k = All (λ e. k e.0 ≡ true)

  -- What a run added to the history: calls of the kind `k`, on top of what was there.
  pub record Added (k : Call Address → Bool) (before after : History Address) : Type 0 where
    pub new : History Address
    pub on_top : after ≡ new ++ before
    pub kinds : Only k new

  -- Whatever is answered, `m` makes only calls of the kind `k`.
  pub record Makes {A : Type 0} (k : Call Address → Bool) (m : Action Address A) : Type 0 where
    pub added : (h : History Address) → Added k h (m h).1

  Added-refl : (k : Call Address → Bool) (h : History Address) → Added k h h
  Added-refl k h = record { new = []; on_top = refl; kinds = tt }

  Added-trans :
      (k : Call Address → Bool) (h h' h'' : History Address)
      → Added k h h'
      → Added k h' h''
      → Added k h h''
  Added-trans k h h' h'' a b = record {
    new = b.new ++ a.new;
    on_top = b.on_top ∙ ap (◌++◌ b.new) a.on_top ∙ sym (append_assoc b.new a.new h);
    kinds = All-append _ b.new a.new b.kinds a.kinds;
  }

  pub Makes-perform :
      {k : Call Address → Bool} (env : Env Address) (c : Call Address)
      → k c ≡ true
      → Makes k (perform env c)
  Makes-perform env c e = record {
    added = λ h. record { new = (c, env.answer h c) ∷ []; on_top = refl; kinds = (e, tt) };
  }

  module _ {A : Type 0} {k : Call Address → Bool} where
    pub Makes-pure : {a : A} → Makes k (pure a)
    Makes-pure = record { added = λ h. Added-refl k h }

    pub Makes-throw : {x : Exception} → Makes k (throw {A = A} x)
    Makes-throw = record { added = λ h. Added-refl k h }

    pub Makes-exit : {n : ℕ} → Makes k (exit {A = A} n)
    Makes-exit = record { added = λ h. Added-refl k h }

    pub Makes-lift : {o : Outcome A} → Makes k (lift o)
    Makes-lift = record { added = λ h. Added-refl k h }

    pub Makes-if :
        (b : Bool) {m n : Action Address A} → Makes k m → Makes k n → Makes k (if b then m else n)
    Makes-if true p q = p
    Makes-if false p q = q

  Makes-continue :
      {A B : Type 0} {k : Call Address → Bool} (h : History Address)
      (r : Outcome A × History Address) (f : A → Action Address B)
      → Added k h r.1
      → ((a : A) → Makes k (f a))
      → Added k h (continue r f).1
  Makes-continue {k} h (returned a, h') f p q = Added-trans k h h' _ p ((q a).added h')
  Makes-continue h (thrown x, h') f p q = p
  Makes-continue h (exited n, h') f p q = p

  pub Makes-bind :
      {A B : Type 0} {k : Call Address → Bool} {m : Action Address A} {f : A → Action Address B}
      → Makes k m
      → ((a : A) → Makes k (f a))
      → Makes k (m >>= f)
  Makes-bind {m} {f} p q = record { added = λ h. Makes-continue h (m h) f (p.added h) q }

  pub Makes-then :
      {B : Type 0} {k : Call Address → Bool} {m : Action Address (Unit {0})} {l : Action Address B}
      → Makes k m
      → Makes k l
      → Makes k (m >> l)
  Makes-then p q = Makes-bind p (λ _. q)

  pub Makes-attempt :
      {k : Call Address → Bool} (env : Env Address) (c : Call Address)
      → k c ≡ true
      → Makes k (attempt env c)
  Makes-attempt env c e =
      Makes-bind (Makes-perform env c e)
        (λ a. Makes-if (is_zero a.result) Makes-pure (Makes-throw {x = library_error a.errno}))

-- A wider kind of calls.
module _ {Address : Type 0} {k l : Call Address → Bool}
    (wider : (c : Call Address) → k c ≡ true → l c ≡ true) where
  Only-weaken : (new : History Address) → Only k new → Only l new
  Only-weaken [] only = tt
  Only-weaken ((c, a) ∷ new) only = (wider c only.0, Only-weaken new only.1)

  pub Makes-weaken : {A : Type 0} {m : Action Address A} → Makes k m → Makes l m
  Makes-weaken made = record {
    added = λ h.
        let a = made.added h in
        record { new = a.new; on_top = a.on_top; kinds = Only-weaken a.new a.kinds };
  }

pub Makes-say :
    {Address : Type 0} {k : Call Address → Bool} (env : Env Address) (level : Severity)
    (line : Line Address)
    → k (log level line) ≡ true
    → Makes k (say env level line)
Makes-say env level line e = Makes-bind (Makes-perform env (log level line) e) (λ _. Makes-pure)

pub ruleset makes = (
  Makes-say, Makes-perform, Makes-pure, Makes-throw, Makes-exit, Makes-lift, Makes-if, Makes-bind,
  Makes-then, Makes-attempt,
)
