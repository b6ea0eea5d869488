-- ===== src/Dissector/Fields.antt =====
-- What the dissector reads at the offsets of a packet whose parts are known.
-- Code: wireshark/mping.lua.
use mathlib.Core.List.{append_assoc}
use mping_sender_mirror.Prelude.{
  ℕ, zero, suc, ◌+◌, ◌^◌, ◌<◌, ◌≡◌, refl, sym, ap, ◌∙◌, true, List, [], ◌∷◌, ◌++◌, length, take,
  drop, take-append, replicate, arith, ◌==◌,
}
use mping_sender_mirror.Network.Bytes.{little_bytes, from_little, big_bytes, from_big}
use mping_sender_mirror.Network.Layout.{image}
use mping_sender_mirror.Dissector.{
  slice, bytes_eq, ipv4, ipv6, address_eq, End, Expert, inet6, inet, dissect_host, report, differs,
}

drop-nil : (n : ℕ) → drop {A = ℕ} n [] ≡ []
drop-nil zero = refl
drop-nil (suc n) = refl

pub drop-add : (m n : ℕ) (xs : List ℕ) → drop (m + n) xs ≡ drop n (drop m xs)
drop-add zero n xs = ap (λ (k : ℕ). drop k xs) (omega arith)
drop-add (suc m) n [] = drop-nil (suc m + n) ∙ sym (drop-nil n)
drop-add (suc m) n (x ∷ xs) = ap (λ (k : ℕ). drop k (x ∷ xs)) step ∙ drop-add m n xs
  where
    step : suc m + n ≡ suc (m + n)
    step = omega arith

pub bytes_eq_refl : (xs : List ℕ) → bytes_eq xs xs ≡ true
bytes_eq_refl [] = refl
bytes_eq_refl (x ∷ xs) = ground (arith, bytes_eq_refl xs)

-- The parts of a host's image, read at its offset in the buffer.
module _ (buffer address rest : List ℕ) (base family port pad : ℕ)
    (at_base : drop base buffer ≡ image family port address pad ++ rest) where
  field_at :
      (n size : ℕ)
      → slice buffer (base + n) size ≡ slice (image family port address pad ++ rest) n size
  field_at n size = ap (take size) (drop-add base n buffer ∙ ap (drop n) at_base)

  family_read : family < 2 ^ 16 → from_little (slice buffer base 2) ≡ family
  unfolding little_bytes from_little
  family_read h = ap (λ (xs : List ℕ). from_little (take 2 xs)) at_base ∙ omega arith

  port_read : port < 2 ^ 16 → from_big 0 (slice buffer (base + 2) 2) ≡ port
  unfolding little_bytes big_bytes from_big
  port_read h = ap (from_big 0) (field_at 2 2) ∙ omega arith

  zeros_read : slice buffer (base + 4) 4 ≡ replicate 4 0
  unfolding little_bytes big_bytes
  zeros_read = field_at 4 4

  pub address_read : (n : ℕ) → length address ≡ n → slice buffer (base + 8) n ≡ address
  unfolding little_bytes big_bytes
  address_read n h =
      field_at 8 n
      ∙ ap (take n) (append_assoc address (replicate pad 0) rest)
      ∙ take-append address (replicate pad 0 ++ rest) n h

  module _ (info : End) (bad_family bad_port bad_address : Expert) where
    -- The block of an IPv6 host gives its port and its address.
    pub dissect_host_v6 :
        family ≡ 10
        → port < 2 ^ 16
        → length address ≡ 16
        → dissect_host buffer base info bad_family bad_port bad_address ≡ (
          inet6 port address,
          report (differs (port == info.port)) bad_port
              ++ report (differs (address_eq (ipv6 address) info.address)) bad_address,
        )
    unfolding dissect_host
    dissect_host_v6 e h size = rw (family_read (omega arith), e, port_read h, address_read 16 size)

    -- The block of an IPv4 host reads four of the zeros in front of the address.
    pub dissect_host_v4 :
        family ≡ 2
        → port < 2 ^ 16
        → dissect_host buffer base info bad_family bad_port bad_address ≡ (
          inet port (replicate 4 0),
          report (differs (port == info.port)) bad_port
              ++ report (differs (address_eq (ipv4 (replicate 4 0)) info.address)) bad_address,
        )
    unfolding dissect_host
    dissect_host_v4 e h = rw (family_read (omega arith), e, port_read h, zeros_read)
