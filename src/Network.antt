-- ===== src/Network.antt =====
-- src/network_serialization.hpp: byte order, and the sockaddr_storage images of the two families.
pub mod Bytes
pub mod Portable
pub mod Layout
use mping_sender_mirror.Prelude.{ℕ, ◌+◌, List, [], ◌∷◌, reverse, set, replicate, zero, suc}
use Bytes.{little_bytes, from_little}

-- std::endian::native, of which the code asks that it be one of these two.
pub data Endian : Type 0 where
  little big : Endian

-- std::byteswap of an unsigned integer of k bytes.
unfoldable pub byteswap : ℕ → ℕ → ℕ
byteswap k v = from_little (reverse (little_bytes k v))

-- std::bit_cast to an array of k bytes: the representation of the integer on the host.
unfoldable pub bit_cast : Endian → ℕ → ℕ → List ℕ
bit_cast little k v = little_bytes k v
bit_cast big k v = reverse (little_bytes k v)

-- The width k = sizeof(T) is an argument where the source has a type.
unfoldable pub to_bigendian : Endian → ℕ → ℕ → ℕ
to_bigendian little k host = byteswap k host
to_bigendian big k host = host

unfoldable pub to_littleendian : Endian → ℕ → ℕ → ℕ
to_littleendian big k host = byteswap k host
to_littleendian little k host = host

unfoldable pub to_byte_array : Endian → ℕ → ℕ → List ℕ
to_byte_array native k i = bit_cast native k i

-- The array that is filled, and where the iterator `it` stands in it.
pub record Cursor : Type 0 where
  pub array : List ℕ
  pub at : ℕ

-- std::ranges::copy(bytes, it).out
unfoldable pub copy : List ℕ → Cursor → Cursor
copy [] it = it
copy (b ∷ bytes) it = copy bytes (record { array = set it.array it.at b; at = suc it.at })

-- std::advance(it, n)
unfoldable pub advance : ℕ → Cursor → Cursor
advance n it = record it { at = it.at + n }

-- `result.fill('\0')` and `result.begin()`.
abbrev pub zeroed : Cursor
zeroed = record { array = replicate 128 0; at = 0 }

-- `address` is what `address.to_bytes()` gives.
unfoldable pub ipv6_to_sockaddr_storage : Endian → List ℕ → ℕ → List ℕ
ipv6_to_sockaddr_storage native address port =
    let it₁ = copy (to_byte_array native 2 (to_littleendian native 2 10)) zeroed in
    let it₂ = copy (to_byte_array native 2 (to_bigendian native 2 port)) it₁ in
    let it₃ = advance 4 it₂ in (copy address it₃).array

unfoldable pub ipv4_to_sockaddr_storage : Endian → List ℕ → ℕ → List ℕ
ipv4_to_sockaddr_storage native address port =
    let it₁ = copy (to_byte_array native 2 (to_littleendian native 2 2)) zeroed in
    let it₂ = copy (to_byte_array native 2 (to_bigendian native 2 port)) it₁ in
    let it₃ = advance 4 it₂ in (copy address it₃).array
