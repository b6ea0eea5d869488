-- ===== src/State/Clock.antt =====
-- The time stamp: what `get_seconds` and `get_microseconds` say of the steady clock.
-- Code: src/mping_state.cpp.
use mping_sender_mirror.Prelude.{ℕ, ◌/◌, ◌%◌, ◌^◌, ◌<◌, ◌≡◌, arith}
use mping_sender_mirror.Prelude.Int.{
  ℤ, pos, negsuc, pos_part, neg_part, scale, trunc_div, ◌+ℤ◌, ◌-ℤ◌, to_u64,
}
use mping_sender_mirror.State.{State, set_current_time, get_seconds, get_microseconds}

pub to_u64-lt : (z : ℤ) → to_u64 z < 2 ^ 64
to_u64-lt (pos n) = omega arith
to_u64-lt (negsuc n) = omega arith

abbrev seconds_of : ℤ → ℤ
seconds_of t = trunc_div t (10 ^ 9)

abbrev microseconds_of : ℤ → ℤ
microseconds_of t = trunc_div (t -ℤ scale (seconds_of t) (10 ^ 9)) 1000

microseconds_of_bounds :
    (t : ℤ) → (pos_part (microseconds_of t) < 10 ^ 6) × (neg_part (microseconds_of t) < 10 ^ 6)
microseconds_of_bounds (pos n) = ground arith
microseconds_of_bounds (negsuc n) = ground arith

microseconds_of_sum :
    (t : ℤ) → scale (seconds_of t) (10 ^ 6) +ℤ microseconds_of t ≡ trunc_div t 1000
microseconds_of_sum (pos n) = ground arith
microseconds_of_sum (negsuc n) = ground arith

module _ {Address : Type 0} (s : State Address) where
  -- For a time stamp before or after the clock's epoch, the two counts together are the time stamp
  -- in microseconds, rounded towards zero, and the second count stays below a second on either side
  -- of zero.
  pub time_split :
      (scale (get_seconds s) (10 ^ 6) +ℤ get_microseconds s ≡ trunc_div s.tv 1000)
      × (pos_part (get_microseconds s) < 10 ^ 6)
      × (neg_part (get_microseconds s) < 10 ^ 6)
  unfolding get_seconds get_microseconds
  time_split =
      let (above, below) = microseconds_of_bounds s.tv in (microseconds_of_sum s.tv, above, below)

  -- From the epoch on (n nanoseconds, in the range of int64_t) the two numbers of the packet are
  -- the whole seconds and the microseconds that remain.
  pub time_words :
      (n : ℕ)
      → n < 2 ^ 63
      → (to_u64 (get_seconds (set_current_time (pos n) s)) ≡ n / 10 ^ 9)
        × (to_u64 (get_microseconds (set_current_time (pos n) s)) ≡ n / 1000 % 10 ^ 6)
  unfolding get_seconds get_microseconds set_current_time
  time_words n h = (ground arith, ground arith)

  -- For every time stamp the two counts together are the time stamp in microseconds, rounded
  -- towards zero, with the second count below a second on either side of zero; and n nanoseconds
  -- behind the epoch, in the range of int64_t, the two numbers of the packet are the whole seconds
  -- and the microseconds that remain.
  pub time_shown :
      (n : ℕ)
      → n < 2 ^ 63
      → (scale (get_seconds s) (10 ^ 6) +ℤ get_microseconds s ≡ trunc_div s.tv 1000)
        × (pos_part (get_microseconds s) < 10 ^ 6)
        × (neg_part (get_microseconds s) < 10 ^ 6)
        × (to_u64 (get_seconds (set_current_time (pos n) s)) ≡ n / 10 ^ 9)
        × (to_u64 (get_microseconds (set_current_time (pos n) s)) ≡ n / 1000 % 10 ^ 6)
  time_shown n h =
      let (sum, above, below) = time_split in
      let (seconds, microseconds) = time_words n h in (sum, above, below, seconds, microseconds)
