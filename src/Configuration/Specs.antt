-- ===== src/Configuration/Specs.antt =====
-- The options of either compiler, member by member.
-- Code: src/configuration.cpp.
use mping_sender_mirror.Prelude.{◌≡◌, ◌≢◌, refl, Bool, true, false, not, List, [], ◌∷◌, All, some}
use mping_sender_mirror.Configuration.Api.{
  u8_kind, Value, Member, log_level, bind_address, bind_port, address, port, ttl, interface_name,
  HasKind, kind_of, name_of, is_set, member_kind,
}
use mping_sender_mirror.Configuration.{options}

-- Whether an option is bound to the member.
abbrev pub is_bound : Bool → Member → Bool
is_bound clang log_level = not clang
is_bound clang bind_address = true
is_bound clang bind_port = true
is_bound clang address = true
is_bound clang port = true
is_bound clang ttl = true
is_bound clang interface_name = true

pub options-set :
    (clang : Bool) (m : Member) → is_bound clang m ≡ true → is_set (options clang) m ≡ true
options-set true log_level e = cc
options-set false log_level e = refl
options-set true bind_address e = refl
options-set false bind_address e = refl
options-set true bind_port e = refl
options-set false bind_port e = refl
options-set true address e = refl
options-set false address e = refl
options-set true port e = refl
options-set false port e = refl
options-set true ttl e = refl
options-set false ttl e = refl
options-set true interface_name e = refl
options-set false interface_name e = refl

pub ttl_kind : (clang : Bool) → kind_of (options clang) ttl ≡ some u8_kind
ttl_kind true = refl
ttl_kind false = refl

pub ttl_name : (clang : Bool) → name_of (options clang) ttl ≡ some "ttl"
ttl_name true = refl
ttl_name false = refl

-- An option has the type of its member.
HasKind-member :
    (clang : Bool) (m : Member) (v : Value)
    → HasKind (kind_of (options clang) m) v
    → HasKind (member_kind m) v
HasKind-member true log_level v h = absurd h
HasKind-member false log_level v h = h
HasKind-member true bind_address v h = h
HasKind-member false bind_address v h = h
HasKind-member true bind_port v h = h
HasKind-member false bind_port v h = h
HasKind-member true address v h = h
HasKind-member false address v h = h
HasKind-member true port v h = h
HasKind-member false port v h = h
HasKind-member true ttl v h = h
HasKind-member false ttl v h = h
HasKind-member true interface_name v h = h
HasKind-member false interface_name v h = h

pub All-HasKind :
    (clang : Bool) (ws : List (Member × Value))
    → All (λ w. HasKind (kind_of (options clang) w.0) w.1) ws
    → All (λ w. HasKind (member_kind w.0) w.1) ws
All-HasKind clang [] a = tt
All-HasKind clang ((m, v) ∷ ws) a = (HasKind-member clang m v a.0, All-HasKind clang ws a.1)

-- With clang nothing is written to the log level.
pub All-untouched :
    (ws : List (Member × Value))
    → All (λ w. HasKind (kind_of (options true) w.0) w.1) ws
    → All (λ w. w.0 ≢ log_level) ws
All-untouched [] a = tt
All-untouched ((m, v) ∷ ws) a = (other m v a.0, All-untouched ws a.1)
  where
    other : (m : Member) (v : Value) → HasKind (kind_of (options true) m) v → m ≢ log_level
    other log_level v h e = absurd h
    other bind_address v h e = cc
    other bind_port v h e = cc
    other address v h e = cc
    other port v h e = cc
    other ttl v h e = cc
    other interface_name v h e = cc
