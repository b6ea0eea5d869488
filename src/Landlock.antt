-- ===== src/Landlock.antt =====
-- src/landlock.hpp and src/landlock.cpp: the ruleset of the landlock sandbox.
pub mod Domain
pub mod Wrappers
use mping_sender_mirror.Prelude.{if◌then◌else◌}
use mping_sender_mirror.Prelude.Int.{ℤ, is_zero, is_minus_one, int_lt}
use mping_sender_mirror.Prelude.Outcome.{runtime_error}
use mping_sender_mirror.Runtime.{
  Flags, Env, landlock_abi_version, landlock_create_ruleset, landlock_add_rule,
  landlock_restrict_self,
}
use mping_sender_mirror.Runtime.Monad.{Action, ◌>>=◌, pure, throw, perform}

-- The object is its one field, the descriptor `ruleset`.
abbrev pub LandlockRuleset : Type 0
LandlockRuleset = ℤ

module _ {Address : Type 0} (env : Env Address) where
  -- landlock_create_ruleset(nullptr, 0, LANDLOCK_CREATE_RULESET_VERSION)
  unfoldable pub abi_version : Action Address ℤ
  abi_version = do a ← perform env landlock_abi_version; pure a.result

  -- The constructor.
  unfoldable pub create : Flags → Flags → Action Address LandlockRuleset
  unfolding abi_version
  create handled_access_fr handled_access_net = do
    abi ← abi_version
    if int_lt abi 6 then throw (runtime_error "Landlock is too old.") else (do
      ruleset_fd ← perform env (landlock_create_ruleset handled_access_fr handled_access_net)
      if is_minus_one ruleset_fd.result
          then throw (runtime_error "Failed to create landlock ruleset.")
          else pure ruleset_fd.result)

  unfoldable pub add_path_beneath_rule : LandlockRuleset → Flags → ℤ → Action Address (Unit {0})
  add_path_beneath_rule ruleset_fd allowed_access parent_fd = do
    a ← perform env (landlock_add_rule ruleset_fd allowed_access parent_fd)
    if is_zero a.result then pure tt else throw (runtime_error "Failed to add rule.")

  unfoldable pub restrict_self : LandlockRuleset → Action Address (Unit {0})
  restrict_self ruleset_fd = do
    a ← perform env (landlock_restrict_self ruleset_fd)
    if is_zero a.result
        then pure tt
        else throw (runtime_error "Failed to restrict self via landlock.")
