-- ===== src/Main/Exit.antt =====
-- The error handlers of `main`.
-- Code: src/main.cpp.
use mping_sender_mirror.Prelude.{refl}
use mping_sender_mirror.Prelude.Outcome.{runtime_error}
use mping_sender_mirror.Sender.Loop.{IsFatal}
use mping_sender_mirror.Main.{error_handler}

-- The error handlers of `main` always throw.
pub error_handler-IsFatal : {Address : Type 0} → IsFatal {Address = Address} error_handler
unfolding error_handler
error_handler-IsFatal ec h = (runtime_error "Fatal error", h, refl)
