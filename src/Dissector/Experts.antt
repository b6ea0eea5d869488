-- ===== src/Dissector/Experts.antt =====
-- When the plugin reports something.
-- Code: wireshark/mping.lua.
use mathlib.Core.Bool.{true≢false}
use mping_sender_mirror.Prelude.{
  ℕ, ◌≡◌, ◌≢◌, ◌↔◌, ◌⊎◌, inl, inr, refl, sym, ap, ◌∙◌, true, false, ◌&&◌, List, [], ◌∷◌, ◌==◌, ltb,
  length, ◌≤◌, Bool-cases, arith,
}
use mping_sender_mirror.Network.Bytes.{from_big}
use mping_sender_mirror.Dissector.{
  slice, stringz, bytes_eq, End, depracated_version, invalid_source_host_family,
  mismatch_source_host_address, mismatch_source_host_port, invalid_destination_host_family,
  mismatch_destination_host_address, mismatch_destination_host_port, report, differs, Tree,
  dissect_tree, dissect, dissected, ignored, other_version,
}
use mping_sender_mirror.Dissector.Fields.{bytes_eq_refl}
use mping_sender_mirror.Dissector.Hosts.{
  HostMatches, bytes_eq→≡, append-nil_iff, dissect_host_silent,
}

-- The packet is that of a sender or a receiver, between the hosts of the headers.
pub record IsClean (buffer : List ℕ) (src dst : End) : Type 0 where
  pub type_known : (from_big 0 (slice buffer 4 1) ≡ b's') ⊎ (from_big 0 (slice buffer 4 1) ≡ b'r')
  pub source_matches : HostMatches buffer 8 src
  pub destination_matches : HostMatches buffer 136 dst

type_silent :
    (n : ℕ)
    → (report (differs (n == b's') && differs (n == b'r')) depracated_version ≡ [])
      ↔ ((n ≡ b's') ⊎ (n ≡ b'r'))
type_silent n = ground arith

dissect_tree_silent :
    (buffer : List ℕ) (src dst : End)
    → ((dissect_tree buffer src dst).experts ≡ []) ↔ IsClean buffer src dst
unfolding dissect_tree
dissect_tree_silent buffer src dst =
    let type = from_big 0 (slice buffer 4 1) in
    let (of_type, type_of) = type_silent type in
    let (of_source, source_of) =
      dissect_host_silent buffer 8 src invalid_source_host_family mismatch_source_host_port
        mismatch_source_host_address in
    let (of_destination, destination_of) =
      dissect_host_silent buffer 136 dst invalid_destination_host_family
        mismatch_destination_host_port mismatch_destination_host_address in
    (
      (λ e.
          let (t, hosts) = (append-nil_iff _ _).0 e in
          let (s, d) = (append-nil_iff _ _).0 hosts in
          record {
            type_known = of_type t;
            source_matches = of_source s;
            destination_matches = of_destination d;
          }),
      λ c. (append-nil_iff _ _).1 (
        type_of c.type_known,
        (append-nil_iff _ _).1 (source_of c.source_matches, destination_of c.destination_matches),
      ),
    )

same_tree : (t t' : Tree) → dissected t ≡ dissected t' → t ≡ t'
same_tree t t' e = cc

ignored_not : (t : Tree) → ignored ≢ dissected t
ignored_not t e = cc

other_not : (v : List ℕ) (t : Tree) → other_version v ≢ dissected t
other_not v t e = cc

too_short : (n : ℕ) → ltb n 288 ≡ true → ¬ (288 ≤ n)
too_short n e = ground arith

long_enough : (n : ℕ) → ltb n 288 ≡ false → 288 ≤ n
long_enough n e = ground arith

differing : (xs ys : List ℕ) → bytes_eq xs ys ≡ false → xs ≢ ys
differing xs ys e f = true≢false (sym (bytes_eq_refl ys) ∙ rw f at e)

-- The plugin accepts a packet and reports nothing exactly if it has at least 288 bytes, the version
-- 2.0, the type of a sender or a receiver, and in the place of each host the family, the port and
-- the address of the headers.
pub dissect_silent :
    (buffer : List ℕ) (src dst : End)
    → ((tree : Tree) × (dissect buffer src dst ≡ dissected tree) × (tree.experts ≡ [])) ↔ (
        (288 ≤ length buffer)
        × (stringz (slice buffer 0 4) ≡ b'2' ∷ b'.' ∷ b'0' ∷ [])
        × IsClean buffer src dst)
unfolding dissect
dissect_silent buffer src dst = elim (Bool-cases (ltb (length buffer) 288)) [
  | inl short ↦ rw short ((λ t. absurd (ignored_not t.0 t.1)), λ c. absurd (too_short _ short c.0))
  | inr long ↦ elim (Bool-cases (bytes_eq (stringz (slice buffer 0 4)) (b'2' ∷ b'.' ∷ b'0' ∷ []))) [
    | inl current ↦
        rw (long, current)
          (
            (λ t. (
              long_enough _ long,
              bytes_eq→≡ _ _ current,
              (dissect_tree_silent buffer src dst).0
                  (ap (λ (t : Tree). t.experts) (same_tree _ _ t.1) ∙ t.2),
            )),
            λ c. (dissect_tree buffer src dst, refl, (dissect_tree_silent buffer src dst).1 c.2),
          )
    | inr other ↦
        rw (long, other)
          ((λ t. absurd (other_not _ t.0 t.1)), λ c. absurd (differing _ _ other c.1))
  ]
]
