-- ===== src/State/Host.antt =====
-- One host of the packet: what `serialize_host` writes for an address of either family.
-- Code: src/mping_state.cpp.
use mping_sender_mirror.Prelude.{
  ℕ, ◌≡◌, ap, ◌⊎◌, inl, inr, true, false, List, String, length, All, arith, Bool-cases,
}
use mping_sender_mirror.Prelude.Outcome.{returned, thrown, invalid_argument}
use mping_sender_mirror.Asio.Api.{Asio, IsDocumented}
use mping_sender_mirror.Network.{Endian}
use mping_sender_mirror.Network.Bytes.{IsByte}
use mping_sender_mirror.Network.Layout.{
  image, length-image, image-IsByte, ipv4_to_sockaddr_storage_lem, ipv6_to_sockaddr_storage_lem,
}
use mping_sender_mirror.State.{serialize_host}

-- An address of one of the two families.
abbrev pub IsHost : (api : Asio) → api.Address → Type 0
IsHost api a = (api.is_v6 a ≡ true) ⊎ (api.is_v4 a ≡ true)

-- A host of neither family is refused.
pub serialize_host_other :
    (api : Asio) (native : Endian) (a : api.Address) (port : ℕ) (message : String)
    → api.is_v6 a ≡ false
    → api.is_v4 a ≡ false
    → serialize_host api native a port message ≡ thrown (invalid_argument message)
unfolding serialize_host
serialize_host_other api native a port message six four = rw (six, four)

module _ {api : Asio} (documented : IsDocumented api) where
  -- An IPv6 host is written as its image.
  pub serialize_host_v6 :
      (native : Endian) (a : api.Address) (port : ℕ) (message : String) (v : api.V6)
      → api.is_v6 a ≡ true
      → api.to_v6 a ≡ returned v
      → serialize_host api native a port message ≡ returned (image 10 port (api.v6_to_bytes v) 104)
  unfolding serialize_host
  serialize_host_v6 native a port message v six e =
      rw (six, e)
        (ap returned (ipv6_to_sockaddr_storage_lem native port _ (documented.v6_length v)))

  pub serialize_host_v4 :
      (native : Endian) (a : api.Address) (port : ℕ) (message : String) (v : api.V4)
      → api.is_v6 a ≡ false
      → api.is_v4 a ≡ true
      → api.to_v4 a ≡ returned v
      → serialize_host api native a port message ≡ returned (image 2 port (api.v4_to_bytes v) 116)
  unfolding serialize_host
  serialize_host_v4 native a port message v other four e =
      rw (other, four, e)
        (ap returned (ipv4_to_sockaddr_storage_lem native port _ (documented.v4_length v)))

  -- What a host of either family gives: 128 bytes, the same on every host machine.
  abbrev pub HostBytes : api.Address → ℕ → List ℕ → Type 0
  HostBytes a port bytes =
      ((native : Endian) (message : String)
        → serialize_host api native a port message ≡ returned bytes)
      × (length bytes ≡ 128)
      × All IsByte bytes

  pub host_bytes :
      (a : api.Address) (port : ℕ) → IsHost api a → (bytes : List ℕ) × HostBytes a port bytes
  host_bytes a port h = elim (Bool-cases (api.is_v6 a)) [
    | inl six ↦
        let (v, e) = documented.to_v6_returns a six in
        (
          image 10 port (api.v6_to_bytes v) 104,
          (
            (λ native message. serialize_host_v6 native a port message v six e),
            omega (arith, length-image 10 port (api.v6_to_bytes v) 104, documented.v6_length v),
            image-IsByte 10 port (api.v6_to_bytes v) 104 (documented.v6_bytes v),
          ),
        )
    | inr other ↦
        let (v, e) = documented.to_v4_returns a (four other h) in
        (
          image 2 port (api.v4_to_bytes v) 116,
          (
            (λ native message. serialize_host_v4 native a port message v other (four other h) e),
            omega (arith, length-image 2 port (api.v4_to_bytes v) 116, documented.v4_length v),
            image-IsByte 2 port (api.v4_to_bytes v) 116 (documented.v4_bytes v),
          ),
        )
  ]
    where
      four : api.is_v6 a ≡ false → IsHost api a → api.is_v4 a ≡ true
      four other (inl six) = cc
      four other (inr yes_four) = yes_four
