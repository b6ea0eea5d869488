-- ===== src/Configuration/Concrete/Documented.antt =====
-- The concrete Boost.Program_options keeps what is documented.
-- Code: src/configuration.cpp.
use mathlib.Core.Bool.{true≢false}
use mping_sender_mirror.Prelude.{
  ℕ, ◌<◌, ◌≡◌, ◌≢◌, ◌⊎◌, inl, inr, refl, Bool, true, false, String, List, [], ◌∷◌, Option, none,
  some, All, arith, ltb, ltb→lt, ◌∙◌, sym, ap, Bool-cases,
}
use mping_sender_mirror.Prelude.Outcome.{returned, thrown, library_error}
use mping_sender_mirror.Configuration.Api.{
  u8_kind, Value, Member, log_level, bind_address, bind_port, address, port, ttl, interface_name,
  IsWritten, IsCharacter, codes, kind_of, name_of, default_of, is_set, HasKind, IsDocumented,
}
use mping_sender_mirror.Configuration.{options}
use mping_sender_mirror.Configuration.Specs.{ttl_name}
use mping_sender_mirror.Configuration.Writes.{Member-discrete}
use mping_sender_mirror.Configuration.Concrete.{
  after_ttl, given, writes_with, cast, notify_with, concrete_options,
}

refused : {A : Type 0} (n : ℕ) (a : A) → thrown (library_error n) ≢ returned a
refused n a e = cc

some_inj : (s t : String) → some s ≡ some t → s ≡ t
some_inj s t e = cc

returned_inj : (a b : List String) → returned a ≡ returned b → a ≡ b
returned_inj a b e = cc

same_writes :
    (clang : Bool) (n : ℕ) (writes : List (Member × Value))
    → returned (writes_with clang n) ≡ returned writes
    → writes ≡ writes_with clang n
same_writes clang n writes e = cc

cast_lem :
    (clang : Bool) (ns : List ℕ) (writes : List (Member × Value))
    → cast clang ns ≡ returned writes
    → (n : ℕ) × (n < 256) × (ns ≡ n ∷ []) × (writes ≡ writes_with clang n)
cast_lem clang [] writes e = cc
cast_lem clang (n ∷ []) writes e = elim (Bool-cases (ltb n 256)) [
  | inl small ↦ (n, ltb→lt n 256 small, refl, same_writes clang n writes (rw small at e))
  | inr large ↦ absurd (refused _ writes (rw large at e))
]
cast_lem clang (n ∷ (m ∷ rest)) writes e = cc

notify_lem :
    (clang : Bool) (t : Option String) (writes : List (Member × Value))
    → notify_with clang t ≡ returned writes
    → (n : ℕ) × (n < 256) × (writes ≡ writes_with clang n)
notify_lem clang none writes e = (64, omega arith, same_writes clang 64 writes e)
notify_lem clang (some t) writes e =
    let (n, small, _, same) = cast_lem clang (codes t) writes e in (n, small, same)

all-IsWritten :
    (clang : Bool) (n : ℕ) (m : Member)
    → is_set (options clang) m ≡ true
    → IsWritten m (writes_with clang n)
all-IsWritten true n log_level e = absurd (true≢false (sym e))
all-IsWritten false n log_level e = inl refl
all-IsWritten true n bind_address e = inl refl
all-IsWritten false n bind_address e = inr (inl refl)
all-IsWritten true n bind_port e = inr (inl refl)
all-IsWritten false n bind_port e = inr (inr (inl refl))
all-IsWritten true n address e = inr (inr (inl refl))
all-IsWritten false n address e = inr (inr (inr (inl refl)))
all-IsWritten true n port e = inr (inr (inr (inl refl)))
all-IsWritten false n port e = inr (inr (inr (inr (inl refl))))
all-IsWritten true n ttl e = inr (inr (inr (inr (inl refl))))
all-IsWritten false n ttl e = inr (inr (inr (inr (inr (inl refl)))))
all-IsWritten true n interface_name e = inr (inr (inr (inr (inr (inl refl)))))
all-IsWritten false n interface_name e = inr (inr (inr (inr (inr (inr (inl refl))))))

no_other :
    (m : Member) (t : String) (ws : List (Member × Value))
    → All (λ w. w.0 ≢ m) ws
    → All (λ w. (w.0 ≢ m) ⊎ IsCharacter t w.1) ws
no_other m t [] a = tt
no_other m t (w ∷ ws) a = (inl a.0, no_other m t ws a.1)

ttl-IsCharacter :
    (clang : Bool) (n : ℕ) (t : String)
    → codes t ≡ n ∷ []
    → All (λ w. (w.0 ≢ ttl) ⊎ IsCharacter t w.1) (writes_with clang n)
ttl-IsCharacter true n t e = (inl cc, (inl cc, (inl cc, (inl cc, (inr e, (inl cc, tt))))))
ttl-IsCharacter false n t e =
    (inl cc, (inl cc, (inl cc, (inl cc, (inl cc, (inr e, (inl cc, tt)))))))

only_ttl : (clang : Bool) (m : Member) → kind_of (options clang) m ≡ some u8_kind → m ≡ ttl
only_ttl true log_level e = cc
only_ttl false log_level e = cc
only_ttl true bind_address e = cc
only_ttl false bind_address e = cc
only_ttl true bind_port e = cc
only_ttl false bind_port e = cc
only_ttl true address e = cc
only_ttl false address e = cc
only_ttl true port e = cc
only_ttl false port e = cc
only_ttl true ttl e = refl
only_ttl false ttl e = refl
only_ttl true interface_name e = cc
only_ttl false interface_name e = cc

characters_lem :
    (clang : Bool) (args : List String) (writes : List (Member × Value)) (m : Member)
    (name t : String)
    → notify_with clang (after_ttl args) ≡ returned writes
    → kind_of (options clang) m ≡ some u8_kind
    → name_of (options clang) m ≡ some name
    → given args name ≡ some t
    → All (λ w. (w.0 ≢ m) ⊎ IsCharacter t w.1) writes
characters_lem clang args writes m name t e k named found =
    let at_ttl : m ≡ ttl = only_ttl clang m k in
    let is_ttl : "ttl" ≡ name =
      some_inj "ttl" name
        (sym (ttl_name clang) ∙ sym (ap (name_of (options clang)) at_ttl) ∙ named) in
    let text_found : after_ttl args ≡ some t = ap (given args) is_ttl ∙ found in
    let (n, _, single, same) =
      cast_lem clang (codes t) writes (sym (ap (notify_with clang) text_found) ∙ e) in
    rw (at_ttl, same) (ttl-IsCharacter clang n t single)

default_of-IsWritten :
    (clang : Bool) (n : ℕ) (m : Member) (v : Value)
    → default_of (options clang) m ≡ some v
    → (m ≡ ttl → n ≡ 64)
    → All (λ w. (w.0 ≢ m) ⊎ (w.1 ≡ v)) (writes_with clang n)
default_of-IsWritten true n log_level v e k = ground arith
default_of-IsWritten false n log_level v e k = ground arith
default_of-IsWritten true n bind_address v e k = ground arith
default_of-IsWritten false n bind_address v e k = ground arith
default_of-IsWritten true n bind_port v e k = ground arith
default_of-IsWritten false n bind_port v e k = ground arith
default_of-IsWritten true n address v e k = ground arith
default_of-IsWritten false n address v e k = ground arith
default_of-IsWritten true n port v e k = ground arith
default_of-IsWritten false n port v e k = ground arith
default_of-IsWritten true n ttl v e k = ground arith
default_of-IsWritten false n ttl v e k = ground arith
default_of-IsWritten true n interface_name v e k = ground arith
default_of-IsWritten false n interface_name v e k = ground arith

defaults_lem :
    (clang : Bool) (args : List String) (writes : List (Member × Value)) (m : Member)
    (name : String) (v : Value)
    → notify_with clang (after_ttl args) ≡ returned writes
    → name_of (options clang) m ≡ some name
    → default_of (options clang) m ≡ some v
    → given args name ≡ none
    → All (λ w. (w.0 ≢ m) ⊎ (w.1 ≡ v)) writes
defaults_lem clang args writes m name v e named default missing = elim (Member-discrete m ttl) [
  | yes at_ttl ↦
      let is_ttl : "ttl" ≡ name =
        some_inj "ttl" name
          (sym (ttl_name clang) ∙ sym (ap (name_of (options clang)) at_ttl) ∙ named) in
      let missed : after_ttl args ≡ none = ap (given args) is_ttl ∙ missing in
      rw (same_writes clang 64 writes (sym (ap (notify_with clang) missed) ∙ e))
        (default_of-IsWritten clang 64 m v default (λ _. refl))
  | no other ↦
      let (n, _, same) = notify_lem clang (after_ttl args) writes e in
      rw same (default_of-IsWritten clang n m v default (λ at_ttl. absurd (other at_ttl)))
]

written-HasKind :
    (clang : Bool) (n : ℕ)
    → n < 256
    → All (λ w. HasKind (kind_of (options clang) w.0) w.1) (writes_with clang n)
written-HasKind true n small = (tt, (omega arith, (tt, (omega arith, (small, (tt, tt))))))
written-HasKind false n small = (tt, (tt, (omega arith, (tt, (omega arith, (small, (tt, tt)))))))

pub concrete_options-IsDocumented :
    (clang : Bool) → IsDocumented (concrete_options clang) (options clang) given
concrete_options-IsDocumented clang = record {
  typed = λ style args vm writes parsed notified.
      let (n, small, same) = notify_lem clang (after_ttl vm) writes notified in
      rw same (written-HasKind clang n small);
  complete = λ style args vm writes m parsed notified set.
      let (n, _, same) = notify_lem clang (after_ttl vm) writes notified in
      rw same (all-IsWritten clang n m set);
  characters = λ style args vm writes m name t parsed notified k named found.
      characters_lem clang args writes m name t
        (ap (λ (args : List String). notify_with clang (after_ttl args)) (returned_inj _ _ parsed)
          ∙ notified)
        k named found;
  defaults = λ style args vm writes m name v parsed notified named default missing.
      defaults_lem clang args writes m name v
        (ap (λ (args : List String). notify_with clang (after_ttl args)) (returned_inj _ _ parsed)
          ∙ notified)
        named default missing;
}
