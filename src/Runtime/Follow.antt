-- ===== src/Runtime/Follow.antt =====
-- A function that returned, call by call.
-- Code: the calls in src/.
use mping_sender_mirror.Prelude.{Bool, true, false, ◌∷◌, ◌≡◌, ◌≢◌, refl, if◌then◌else◌}
use mping_sender_mirror.Prelude.Int.{is_zero}
use mping_sender_mirror.Prelude.Outcome.{Outcome, returned, thrown, Exception, library_error}
use mping_sender_mirror.Runtime.{Call, Env, History}
use mping_sender_mirror.Runtime.Monad.{Action, ◌>>◌, pure, throw, attempt}

thrown-ne : {A : Type 0} (x : Exception) (a : A) → thrown x ≢ returned a
thrown-ne x a e = cc

module _ {Address B : Type 0} (P : Outcome B × History Address → Type 0) where
  -- Behind a test that must hold where the function returned.
  pub test_step :
      (ok : Bool) (x : Exception) (k : Action Address B) (b : B) (h : History Address)
      → (((if ok then pure tt else throw x) >> k) h).0 ≡ returned b
      → (ok ≡ true → (k h).0 ≡ returned b → P (k h))
      → P (((if ok then pure tt else throw x) >> k) h)
  test_step true x k b h e rest = rest refl e
  test_step false x k b h e rest = absurd (thrown-ne x b e)

  -- What holds of the rest behind a call of Boost.Asio that did not throw holds of the whole.
  pub attempt_step :
      (env : Env Address) (c : Call Address) (k : Action Address B) (b : B) (h : History Address)
      → ((attempt env c >> k) h).0 ≡ returned b
      → ((k ((c, env.answer h c) ∷ h)).0 ≡ returned b → P (k ((c, env.answer h c) ∷ h)))
      → P ((attempt env c >> k) h)
  attempt_step env c k b h e rest =
      test_step (is_zero (env.answer h c).result) (library_error (env.answer h c).errno) k b
        ((c, env.answer h c) ∷ h) e (λ _. rest)
