-- ===== src/Capability.antt =====
-- src/capability_managment.cpp: the process's capabilities, over libcap-ng.
pub mod Dropped
use mping_sender_mirror.Prelude.{if◌then◌else◌}
use mping_sender_mirror.Prelude.Int.{is_zero, int_eq}
use mping_sender_mirror.Prelude.Outcome.{runtime_error, system_error}
use mping_sender_mirror.Runtime.{Env, capng_have_capability, capng_lock, capng_clear, capng_apply}
use mping_sender_mirror.Runtime.Monad.{Action, ◌>>=◌, pure, throw, perform}

module _ {Address : Type 0} (env : Env Address) where
  unfoldable pub lock : Action Address (Unit {0})
  lock = do
    a ← perform env capng_lock
    if is_zero a.result then pure tt else throw (system_error a.errno "Failed to lock capabilities")

  unfoldable pub check_for_capabilites : Action Address (Unit {0})
  check_for_capabilites = do
    a ← perform env (capng_have_capability "CAPNG_PERMITTED" "CAP_SETPCAP")
    if int_eq a.result 1 then pure tt else throw (runtime_error "Missing CAP_SETPCAP capability")

  unfoldable pub drop_all_capabilies : Action Address (Unit {0})
  drop_all_capabilies = do
    _ ← perform env (capng_clear "CAPNG_SELECT_ALL")
    a ← perform env (capng_apply "CAPNG_SELECT_ALL")
    if is_zero a.result
        then pure tt
        else throw (system_error a.errno "Failed to apply capabilities")
