-- ===== src/Network/Layout.antt =====
-- What the sockaddr_storage images hold, byte by byte.
-- Code: src/network_serialization.hpp.
use mathlib.Core.List.{append_assoc}
use mping_sender_mirror.Prelude.{
  ℕ, ◌+◌, ◌≡◌, refl, sym, ap, ◌∙◌, List, [], ◌∷◌, ◌++◌, set, replicate, zero, suc, arith,
  length-replicate, length, set-append, length-append, All, All-append,
}
use mping_sender_mirror.Network.Bytes.{
  IsByte, little_bytes, length-little_bytes, little_bytes-IsByte, big_bytes, length-big_bytes,
  big_bytes-IsByte,
}
use mping_sender_mirror.Network.{
  Endian, Cursor, copy, advance, zeroed, ipv6_to_sockaddr_storage, ipv4_to_sockaddr_storage,
  to_byte_array, to_bigendian, to_littleendian,
}
use mping_sender_mirror.Network.Portable.{to_byte_array-to_bigendian, to_byte_array-to_littleendian}

-- `copy` puts its bytes in the place of as many that stand at the iterator, and moves it past them.
pub copy_lem :
    (pre old post bytes : List ℕ) (at : ℕ)
    → length pre ≡ at
    → length old ≡ length bytes
    → copy bytes (record { array = pre ++ (old ++ post); at = at })
      ≡ record { array = pre ++ (bytes ++ post); at = at + length bytes }
unfolding copy
copy_lem pre [] post [] at e h = λ i. record { array = pre ++ post; at = sum i }
  where
    sum : at ≡ at + 0
    sum = omega arith
copy_lem pre [] post (b ∷ bytes) at e h = absurd (omega arith)
copy_lem pre (o ∷ old) post [] at e h = absurd (omega arith)
copy_lem pre (o ∷ old) post (b ∷ bytes) at e h =
    ap (λ (xs : List ℕ). copy bytes (record { array = xs; at = suc at })) written
    ∙ copy_lem (pre ++ (b ∷ [])) old post bytes (suc at) longer (omega arith)
    ∙ (λ i. record { array = append_assoc pre (b ∷ []) (bytes ++ post) i; at = sum i })
  where
    written : set (pre ++ (o ∷ (old ++ post))) at b ≡ (pre ++ (b ∷ [])) ++ (old ++ post)
    written =
        ap (λ (n : ℕ). set (pre ++ (o ∷ (old ++ post))) n b) (sym e)
        ∙ set-append pre (old ++ post) o b
        ∙ sym (append_assoc pre (b ∷ []) (old ++ post))

    longer : length (pre ++ (b ∷ [])) ≡ suc at
    longer = omega (arith, length-append pre (b ∷ []))

    sum : suc at + length bytes ≡ at + length (b ∷ bytes)
    sum = omega arith

replicate-IsByte : (n : ℕ) → All IsByte (replicate n 0)
replicate-IsByte zero = tt
replicate-IsByte (suc n) = (omega arith, replicate-IsByte n)

-- The family in little-endian order, the port in network order, four zeros, the address, zeros.
abbrev pub image : ℕ → ℕ → List ℕ → ℕ → List ℕ
image family port address rest =
    little_bytes 2 family ++ (big_bytes 2 port ++ (replicate 4 0 ++ (address ++ replicate rest 0)))

module _ (native : Endian) (port : ℕ) where
  abbrev after_port : ℕ → Cursor
  after_port family = record {
    array = little_bytes 2 family ++ (big_bytes 2 port ++ replicate 124 0);
    at = 4;
  }

  after_port_lem :
      (family : ℕ)
      → copy
          (to_byte_array native 2 (to_bigendian native 2 port))
          (copy (to_byte_array native 2 (to_littleendian native 2 family)) zeroed)
        ≡ after_port family
  unfolding little_bytes big_bytes
  after_port_lem family =
      rw (to_byte_array-to_littleendian native 2 family, to_byte_array-to_bigendian native 2 port)
        (ap (copy (big_bytes 2 port))
            (copy_lem [] (0 ∷ 0 ∷ []) (replicate 126 0) (little_bytes 2 family) 0 refl refl)
          ∙ copy_lem (little_bytes 2 family) (0 ∷ 0 ∷ []) (replicate 124 0) (big_bytes 2 port) 2
              refl (sym (length-big_bytes 2 port)))

  -- The address goes to the eighth byte, whatever its length.
  address_copied :
      (family : ℕ) (address rest : List ℕ)
      → (old : List ℕ) → length old ≡ length address
      → replicate 124 0 ≡ replicate 4 0 ++ (old ++ rest)
      → (copy address (advance 4 (after_port family))).array
        ≡ little_bytes 2 family ++ (big_bytes 2 port ++ (replicate 4 0 ++ (address ++ rest)))
  unfolding advance little_bytes big_bytes
  address_copied family address rest old e zeros =
      ap (λ (xs : List ℕ). (copy address (record { array = front xs; at = 8 })).array) zeros
      ∙ ap (λ (c : Cursor). c.array) (copy_lem (front (replicate 4 0)) old rest address 8 refl e)
    where
      front : List ℕ → List ℕ
      front xs = little_bytes 2 family ++ (big_bytes 2 port ++ xs)

  -- For an IPv6 address of 16 bytes, on a host of either byte order, the array is the family 10 in
  -- little-endian order, the port in network order, four zeros (the flow label), the address and
  -- 104 zeros.
  pub ipv6_to_sockaddr_storage_lem :
      (address : List ℕ)
      → length address ≡ 16
      → ipv6_to_sockaddr_storage native address port ≡ image 10 port address 104
  unfolding ipv6_to_sockaddr_storage
  ipv6_to_sockaddr_storage_lem address h =
      ap (λ (c : Cursor). (copy address (advance 4 c)).array) (after_port_lem 10)
      ∙ address_copied 10 address (replicate 104 0) (replicate 16 0) (sym h) refl

  -- For an IPv4 address of 4 bytes, on a host of either byte order, the array is the family 2 in
  -- little-endian order, the port in network order, four zeros, the address and 116 zeros: the
  -- address starts at byte 8, as that of an IPv6 host does, and not behind the port.
  pub ipv4_to_sockaddr_storage_lem :
      (address : List ℕ)
      → length address ≡ 4
      → ipv4_to_sockaddr_storage native address port ≡ image 2 port address 116
  unfolding ipv4_to_sockaddr_storage
  ipv4_to_sockaddr_storage_lem address h =
      ap (λ (c : Cursor). (copy address (advance 4 c)).array) (after_port_lem 2)
      ∙ address_copied 2 address (replicate 116 0) (replicate 4 0) (sym h) refl

  -- For an IPv6 address of 16 bytes and an IPv4 address of 4 bytes, on a host of either byte order:
  -- both arrays are the family (10 or 2) in little-endian order, the port in network order, four
  -- zeros, the address, and zeros up to 128 bytes. So the address of an IPv4 host starts at byte 8,
  -- as that of an IPv6 host does behind its flow label, and not behind the port.
  pub sockaddr_storage_lem :
      (address address_v4 : List ℕ)
      → length address ≡ 16
      → length address_v4 ≡ 4
      → (ipv6_to_sockaddr_storage native address port ≡ image 10 port address 104)
        × (ipv4_to_sockaddr_storage native address_v4 port ≡ image 2 port address_v4 116)
  sockaddr_storage_lem address address_v4 h h' =
      (ipv6_to_sockaddr_storage_lem address h, ipv4_to_sockaddr_storage_lem address_v4 h')

pub length-image :
    (family port : ℕ) (address : List ℕ) (rest : ℕ)
    → length (image family port address rest) ≡ 8 + length address + rest
length-image family port address rest =
    simp (length-append, length-little_bytes, length-big_bytes, length-replicate) (omega arith)

pub image-IsByte :
    (family port : ℕ) (address : List ℕ) (rest : ℕ)
    → All IsByte address
    → All IsByte (image family port address rest)
image-IsByte family port address rest h =
    All-append IsByte (little_bytes 2 family) _ (little_bytes-IsByte 2 family) (
      All-append IsByte (big_bytes 2 port) _ (big_bytes-IsByte 2 port) (
        All-append IsByte (replicate 4 0) _ (omega arith)
          (All-append IsByte address _ h (replicate-IsByte rest))))
