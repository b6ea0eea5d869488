-- ===== src/State/Sequence.antt =====
-- The sequence number over any number of calls of `next_seq_no`.
-- Code: src/mping_state.cpp.
use mping_sender_mirror.Prelude.{ℕ, zero, suc, ◌+◌, ◌%◌, ◌^◌, ◌<◌, ◌≡◌, ◌↔◌, ap, ◌∙◌, arith}
use mping_sender_mirror.State.{State, next_seq_no}

module _ {Address : Type 0} where
  -- `next_seq_no` called n times.
  pub advance_seq : ℕ → State Address → State Address
  advance_seq zero s = s
  advance_seq (suc n) s = advance_seq n (next_seq_no s)

  -- For a 32-bit number the branch on the maximum is addition modulo 2 ^ 32.
  pub next_seq_no_lem :
      (s : State Address)
      → s.sequence_number < 2 ^ 32
      → next_seq_no s ≡ record s { sequence_number = (s.sequence_number + 1) % 2 ^ 32 }
  unfolding next_seq_no
  next_seq_no_lem s h = ground arith

  -- After n calls the sequence number of a state with a 32-bit sequence number has grown by n
  -- modulo 2 ^ 32, and no other field has changed.
  pub advance_seq_lem :
      (n : ℕ) (s : State Address)
      → s.sequence_number < 2 ^ 32
      → advance_seq n s ≡ record s { sequence_number = (s.sequence_number + n) % 2 ^ 32 }
  unfolding advance_seq
  advance_seq_lem zero s h = λ i. record s { sequence_number = same i }
    where
      same : s.sequence_number ≡ (s.sequence_number + 0) % 2 ^ 32
      same = omega arith
  advance_seq_lem (suc n) s h = rw (next_seq_no_lem s h) (
      advance_seq_lem n (record s { sequence_number = (s.sequence_number + 1) % 2 ^ 32 })
        (omega arith)
      ∙ (λ i. record s { sequence_number = same i }))
    where
      same : ((s.sequence_number + 1) % 2 ^ 32 + n) % 2 ^ 32 ≡ (s.sequence_number + suc n) % 2 ^ 32
      same = omega arith

  -- Between two equal sequence numbers lie at least 2 ^ 32 - 1 other packets: n further calls with
  -- 0 < n < 2 ^ 32 never give the number that was there.
  pub advance_seq-ne :
      (n : ℕ) (s : State Address)
      → s.sequence_number < 2 ^ 32
      → 0 < n
      → n < 2 ^ 32
      → ¬ ((advance_seq n s).sequence_number ≡ s.sequence_number)
  advance_seq-ne n s h lo hi e =
      absurd (omega (arith, ap (λ (t : State Address). t.sequence_number) (advance_seq_lem n s h)))

  -- For a state with a 32-bit sequence number, n calls of `next_seq_no` add n to it modulo 2 ^ 32
  -- and change no other field; so a number comes again after n calls exactly if 2 ^ 32 divides n.
  pub advance_seq_period :
      (n : ℕ) (s : State Address)
      → s.sequence_number < 2 ^ 32
      → (advance_seq n s ≡ record s { sequence_number = (s.sequence_number + n) % 2 ^ 32 })
        × (((advance_seq n s).sequence_number ≡ s.sequence_number) ↔ (n % 2 ^ 32 ≡ 0))
  advance_seq_period n s h =
      let number = ap (λ (t : State Address). t.sequence_number) (advance_seq_lem n s h) in
      (
        advance_seq_lem n s h,
        ((λ again. omega (arith, number, again)), λ divides. omega (arith, number, divides)),
      )
