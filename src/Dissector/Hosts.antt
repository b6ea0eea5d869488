-- ===== src/Dissector/Hosts.antt =====
-- When the plugin reports something on a host.
-- Code: wireshark/mping.lua.
use mping_sender_mirror.Prelude.{
  ℕ, ◌+◌, ◌≡◌, ◌≢◌, ◌↔◌, ◌⊎◌, inl, inr, refl, sym, ap, Bool, true, false, List, [], ◌∷◌, ◌++◌, ◌==◌,
  ==_iff, Bool-cases, arith,
}
use mping_sender_mirror.Network.Bytes.{from_little, from_big}
use mping_sender_mirror.Dissector.{
  slice, bytes_eq, NetAddress, ipv4, ipv6, address_eq, End, Expert, report, differs, dissect_host,
}
use mping_sender_mirror.Dissector.Fields.{bytes_eq_refl}

pub bytes_eq→≡ : (xs ys : List ℕ) → bytes_eq xs ys ≡ true → xs ≡ ys
bytes_eq→≡ [] [] e = refl
bytes_eq→≡ [] (y ∷ ys) e = cc
bytes_eq→≡ (x ∷ xs) [] e = cc
bytes_eq→≡ (x ∷ xs) (y ∷ ys) e = ground (arith, bytes_eq→≡ xs ys)

address_eq→≡ : (a b : NetAddress) → address_eq a b ≡ true → a ≡ b
address_eq→≡ (ipv4 a) (ipv4 b) e = ap ipv4 (bytes_eq→≡ a b e)
address_eq→≡ (ipv4 a) (ipv6 b) e = cc
address_eq→≡ (ipv6 a) (ipv4 b) e = cc
address_eq→≡ (ipv6 a) (ipv6 b) e = ap ipv6 (bytes_eq→≡ a b e)

address_eq_refl : (a : NetAddress) → address_eq a a ≡ true
address_eq_refl (ipv4 a) = bytes_eq_refl a
address_eq_refl (ipv6 a) = bytes_eq_refl a

two_reports :
    (p a : Bool) (e f : Expert)
    → ((report (differs p) e ++ report (differs a) f) ≡ []) ↔ ((p ≡ true) × (a ≡ true))
two_reports true true e f = ground arith
two_reports true false e f = ground arith
two_reports false a e f = ground arith

one_report : (e : Expert) → (e ∷ []) ≢ []
one_report e h = cc

-- Of the two ways to match an address, the family leaves one.
module _ (family : ℕ) (address : NetAddress) (six four : List ℕ) where
  abbrev Matches : Type 0
  Matches = ((family ≡ 10) × (address ≡ ipv6 six)) ⊎ ((family ≡ 2) × (address ≡ ipv4 four))

  six_only : family ≡ 10 → Matches → address_eq (ipv6 six) address ≡ true
  six_only e (inl m) = rw m.1 (address_eq_refl (ipv6 six))
  six_only e (inr m) = absurd (omega arith)

  four_only : family ≡ 2 → Matches → address_eq (ipv4 four) address ≡ true
  four_only e (inl m) = absurd (omega arith)
  four_only e (inr m) = rw m.1 (address_eq_refl (ipv4 four))

  no_family : (family == 10) ≡ false → (family == 2) ≡ false → ¬ Matches
  no_family e f (inl m) = ground arith
  no_family e f (inr m) = ground arith

pub append-nil_iff : (xs ys : List Expert) → ((xs ++ ys) ≡ []) ↔ ((xs ≡ []) × (ys ≡ []))
append-nil_iff [] ys = ground arith
append-nil_iff (x ∷ xs) ys = ground arith

-- The block at `base` holds the host of the headers: the port and, in the place of its family, the
-- address.
pub record HostMatches (buffer : List ℕ) (base : ℕ) (info : End) : Type 0 where
  pub port_matches : from_big 0 (slice buffer (base + 2) 2) ≡ info.port
  pub address_matches :
      ((from_little (slice buffer base 2) ≡ 10)
        × (info.address ≡ ipv6 (slice buffer (base + 8) 16)))
      ⊎ ((from_little (slice buffer base 2) ≡ 2)
          × (info.address ≡ ipv4 (slice buffer (base + 4) 4)))

pub dissect_host_silent :
    (buffer : List ℕ) (base : ℕ) (info : End) (bad_family bad_port bad_address : Expert)
    → ((dissect_host buffer base info bad_family bad_port bad_address).1 ≡ [])
      ↔ HostMatches buffer base info
unfolding dissect_host
dissect_host_silent buffer base info bad_family bad_port bad_address =
    let family = from_little (slice buffer base 2) in
    let port = from_big 0 (slice buffer (base + 2) 2) in
    let six = slice buffer (base + 8) 16 in
    let four = slice buffer (base + 4) 4 in
    let port_iff = ==_iff port info.port in
    elim (Bool-cases (family == 10)) [
      | inl is_six ↦
          let (there, back) =
            two_reports (port == info.port) (address_eq (ipv6 six) info.address) bad_port
              bad_address in
          rw is_six (
            (λ e. record {
              port_matches = port_iff.0 (there e).0;
              address_matches =
                  inl ((==_iff family 10).0 is_six, sym (address_eq→≡ _ _ (there e).1));
            }),
            λ m. back (
              port_iff.1 m.port_matches,
              six_only family info.address _ _ ((==_iff family 10).0 is_six) m.address_matches,
            ),
          )
      | inr not_six ↦ elim (Bool-cases (family == 2)) [
        | inl is_four ↦
            let (there, back) =
              two_reports (port == info.port) (address_eq (ipv4 four) info.address) bad_port
                bad_address in
            rw (not_six, is_four)
              (
                (λ e. record {
                  port_matches = port_iff.0 (there e).0;
                  address_matches =
                      inr ((==_iff family 2).0 is_four, sym (address_eq→≡ _ _ (there e).1));
                }),
                λ m. back (
                  port_iff.1 m.port_matches,
                  four_only family info.address _ _ ((==_iff family 2).0 is_four) m.address_matches,
                ),
              )
        | inr not_four ↦
            rw (not_six, not_four)
              (
                (λ e. absurd (one_report bad_family e)),
                λ m. absurd (no_family family info.address _ _ not_six not_four m.address_matches),
              )
      ]
    ]
