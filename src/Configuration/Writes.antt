-- ===== src/Configuration/Writes.antt =====
-- The writes of `notify` through the pointers of the options.
-- Code: src/configuration.cpp.
use mping_sender_mirror.Prelude.{
  refl, ◌≡◌, ◌≢◌, sym, subst, ◌∙◌, ◌⊎◌, inl, inr, List, [], ◌∷◌, All, arith,
}
use mping_sender_mirror.Configuration.Api.{
  Value, severity, text, u16, u8, Member, log_level, bind_address, bind_port, address, port, ttl,
  interface_name, HasKind, IsWritten, member_kind,
}
use mping_sender_mirror.Configuration.{Configuration, write, write_all}

-- What stands in a member.
abbrev pub value_of : Configuration → Member → Value
value_of c log_level = severity c.log_level
value_of c bind_address = text c.bind_address
value_of c bind_port = u16 c.bind_port
value_of c address = text c.address
value_of c port = u16 c.port
value_of c ttl = u8 c.ttl
value_of c interface_name = text c.interface_name

pub Member-discrete : Discrete Member
Member-discrete = hlevel

-- A value of the member's type is found where it was written, and nothing else changes.
value_of-write_self :
    (c : Configuration) (m : Member) (v : Value)
    → HasKind (member_kind m) v
    → value_of (write c m v) m ≡ v
unfolding write
value_of-write_self c log_level v h = ground arith
value_of-write_self c bind_address v h = ground arith
value_of-write_self c bind_port v h = ground arith
value_of-write_self c address v h = ground arith
value_of-write_self c port v h = ground arith
value_of-write_self c ttl v h = ground arith
value_of-write_self c interface_name v h = ground arith

value_of-write_ne :
    (c : Configuration) (m m' : Member) (v : Value)
    → m' ≢ m
    → value_of (write c m' v) m ≡ value_of c m
unfolding write
value_of-write_ne c log_level m' v h = ground arith
value_of-write_ne c bind_address m' v h = ground arith
value_of-write_ne c bind_port m' v h = ground arith
value_of-write_ne c address m' v h = ground arith
value_of-write_ne c port m' v h = ground arith
value_of-write_ne c ttl m' v h = ground arith
value_of-write_ne c interface_name m' v h = ground arith

-- What holds of every write to a member holds of its last value.
pub write_all_member :
    (P : Value → Type 0) (m : Member) (c : Configuration) (ws : List (Member × Value))
    → All (λ w. HasKind (member_kind w.0) w.1) ws
    → All (λ w. (w.0 ≢ m) ⊎ P w.1) ws
    → P (value_of c m) ⊎ IsWritten m ws
    → P (value_of (write_all c ws) m)
unfolding write_all
write_all_member P m c [] typed holds (inl p) = p
write_all_member P m c [] typed holds (inr w) = absurd w
write_all_member P m c ((m', v) ∷ ws) typed holds start =
    write_all_member P m (write c m' v) ws typed.1 holds.1 (go (Member-discrete m' m) holds.0 start)
  where
    go :
        Dec (m' ≡ m)
        → (m' ≢ m) ⊎ P v
        → P (value_of c m) ⊎ ((m' ≡ m) ⊎ IsWritten m ws)
        → P (value_of (write c m' v) m) ⊎ IsWritten m ws
    go (yes e) (inl ne) start = absurd (ne e)
    go (yes e) (inr p) start = inl (
        subst P
          (sym (
            subst (λ (x : Member). value_of (write c m' v) x ≡ v) e
              (value_of-write_self c m' v typed.0)))
          p)
    go (no ne) q (inl p) = inl (subst P (sym (value_of-write_ne c m m' v ne)) p)
    go (no ne) q (inr (inl e)) = absurd (ne e)
    go (no ne) q (inr (inr w)) = inr w

-- A member that is written does not depend on what was there.
pub write_all_forgets :
    (m : Member) (c c' : Configuration) (ws : List (Member × Value))
    → All (λ w. HasKind (member_kind w.0) w.1) ws
    → (value_of c m ≡ value_of c' m) ⊎ IsWritten m ws
    → value_of (write_all c ws) m ≡ value_of (write_all c' ws) m
unfolding write_all
write_all_forgets m c c' [] typed (inl e) = e
write_all_forgets m c c' [] typed (inr w) = absurd w
write_all_forgets m c c' ((m', v) ∷ ws) typed start =
    write_all_forgets m (write c m' v) (write c' m' v) ws typed.1 (go (Member-discrete m' m) start)
  where
    go :
        Dec (m' ≡ m)
        → (value_of c m ≡ value_of c' m) ⊎ ((m' ≡ m) ⊎ IsWritten m ws)
        → (value_of (write c m' v) m ≡ value_of (write c' m' v) m) ⊎ IsWritten m ws
    go (yes e) start = inl (
        subst (λ (x : Member). value_of (write c m' v) x ≡ value_of (write c' m' v) x) e
          (value_of-write_self c m' v typed.0 ∙ sym (value_of-write_self c' m' v typed.0)))
    go (no ne) (inl e) =
        inl (value_of-write_ne c m m' v ne ∙ e ∙ sym (value_of-write_ne c' m m' v ne))
    go (no ne) (inr (inl e)) = absurd (ne e)
    go (no ne) (inr (inr w)) = inr w

-- A member that is not written keeps what was there.
pub write_all_untouched :
    (m : Member) (c : Configuration) (ws : List (Member × Value))
    → All (λ w. w.0 ≢ m) ws
    → value_of (write_all c ws) m ≡ value_of c m
unfolding write_all
write_all_untouched m c [] others = refl
write_all_untouched m c ((m', v) ∷ ws) others =
    write_all_untouched m (write c m' v) ws others.1 ∙ value_of-write_ne c m m' v others.0
