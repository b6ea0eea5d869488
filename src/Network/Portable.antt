-- ===== src/Network/Portable.antt =====
-- The byte order of what is written, on a host of either byte order.
-- Code: src/network_serialization.hpp.
use mathlib.Core.List.{reverse-reverse}
use mping_sender_mirror.Prelude.{ℕ, ◌≡◌, refl, ap, ◌∙◌, reverse, length-reverse}
use mping_sender_mirror.Network.Bytes.{
  little_bytes, big_bytes, little_bytes-from_little, reverse-little_bytes, reverse-IsByte,
  little_bytes-IsByte, length-little_bytes,
}
use mping_sender_mirror.Network.{
  Endian, little, big, byteswap, bit_cast, to_bigendian, to_littleendian, to_byte_array,
}

-- The bytes of a swapped integer are its bytes reversed.
little_bytes-byteswap : (k v : ℕ) → little_bytes k (byteswap k v) ≡ reverse (little_bytes k v)
unfolding byteswap
little_bytes-byteswap k v =
    little_bytes-from_little k (reverse (little_bytes k v))
      (length-reverse (little_bytes k v) ∙ length-little_bytes k v)
      (reverse-IsByte (little_bytes k v) (little_bytes-IsByte k v))

-- On a host of either byte order, and for an integer of any width,
-- to_byte_array(to_bigendian(v)) is the network order of `v`.
pub to_byte_array-to_bigendian :
    (native : Endian) (k v : ℕ) → to_byte_array native k (to_bigendian native k v) ≡ big_bytes k v
unfolding to_byte_array to_bigendian bit_cast
to_byte_array-to_bigendian little k v = little_bytes-byteswap k v ∙ reverse-little_bytes k v
to_byte_array-to_bigendian big k v = reverse-little_bytes k v

-- On a host of either byte order, and for an integer of any width,
-- to_byte_array(to_littleendian(v)) is the bytes of `v`, the least significant first.
pub to_byte_array-to_littleendian :
    (native : Endian) (k v : ℕ)
    → to_byte_array native k (to_littleendian native k v) ≡ little_bytes k v
unfolding to_byte_array to_littleendian bit_cast
to_byte_array-to_littleendian little k v = refl
to_byte_array-to_littleendian big k v =
    ap reverse (little_bytes-byteswap k v) ∙ reverse-reverse (little_bytes k v)

-- On a host of either byte order, and for an integer of any width: to_byte_array(to_bigendian(v))
-- is the network order of `v`, and to_byte_array(to_littleendian(v)) is its bytes with the least
-- significant first.
pub to_byte_array_portable :
    (native : Endian) (k v : ℕ)
    → (to_byte_array native k (to_bigendian native k v) ≡ big_bytes k v)
      × (to_byte_array native k (to_littleendian native k v) ≡ little_bytes k v)
to_byte_array_portable native k v =
    (to_byte_array-to_bigendian native k v, to_byte_array-to_littleendian native k v)
