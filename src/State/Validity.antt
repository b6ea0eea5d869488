-- ===== src/State/Validity.antt =====
-- The ranges of the types of the fields.
-- Code: src/mping_state.cpp.
use mping_sender_mirror.Prelude.{ℕ, ◌^◌, ◌<◌, arith}
use mping_sender_mirror.Prelude.Int.{ℤ}
use mping_sender_mirror.State.{State, StateType, new, next_seq_no, set_current_time}

-- The ranges of the unsigned fields of MPingState.
pub record IsValid {Address : Type 0} (s : State Address) : Type 0 where
  pub ttl_u8 : s.ttl < 2 ^ 8
  pub src_port_u16 : s.src_port < 2 ^ 16
  pub dest_port_u16 : s.dest_port < 2 ^ 16
  pub sequence_number_u32 : s.sequence_number < 2 ^ 32
  pub pid_u32 : s.pid < 2 ^ 32

module _ {Address : Type 0} where
  -- A state made from values of the argument types keeps the ranges.
  pub new-IsValid :
      (type : StateType) (ttl : ℕ) (src : Address) (src_port : ℕ) (dest : Address) (dest_port : ℕ)
      (drawn : ℕ)
      → ttl < 2 ^ 8
      → src_port < 2 ^ 16
      → dest_port < 2 ^ 16
      → drawn < 2 ^ 32
      → IsValid (new type ttl src src_port dest dest_port drawn)
  unfolding new
  new-IsValid type ttl src src_port dest dest_port drawn t p q d = omega arith

  pub next_seq_no-IsValid : (s : State Address) → IsValid s → IsValid (next_seq_no s)
  unfolding next_seq_no
  next_seq_no-IsValid s v = ground arith

  pub set_current_time-IsValid :
      (now : ℤ) (s : State Address) → IsValid s → IsValid (set_current_time now s)
  unfolding set_current_time
  set_current_time-IsValid now s v = omega arith
