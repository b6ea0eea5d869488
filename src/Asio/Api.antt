-- ===== src/Asio/Api.antt =====
-- boost::asio::ip as an interface.
-- Code: the use of Boost.Asio in src/.
use mping_sender_mirror.Prelude.{ℕ, ◌≡◌, Bool, true, List, String, length, All}
use mping_sender_mirror.Prelude.Outcome.{Outcome, returned}
use mping_sender_mirror.Network.Bytes.{IsByte}

-- `Address` is boost::asio::ip::address, `V4` is address_v4 and `V6` is address_v6.
-- `to_v4` and `to_v6` throw on an address of the other family, and `make_address` on a text that is
-- no address. `unspecified` is what the default constructor makes.
pub record Asio : Type 1 where
  pub Address : Type 0
  pub V4 : Type 0
  pub V6 : Type 0
  pub is_v4 : Address → Bool
  pub is_v6 : Address → Bool
  pub to_v4 : Address → Outcome V4
  pub to_v6 : Address → Outcome V6
  pub v4_to_bytes : V4 → List ℕ
  pub v6_to_bytes : V6 → List ℕ
  pub unspecified : Address
  pub make_address : String → Outcome Address

-- What the documentation promises: `to_bytes` gives an array of 4, or of 16, unsigned chars, and a
-- conversion to the family that an address has does not throw.
pub record IsDocumented (api : Asio) : Type 0 where
  pub v4_length : (v : api.V4) → length (api.v4_to_bytes v) ≡ 4
  pub v6_length : (v : api.V6) → length (api.v6_to_bytes v) ≡ 16
  pub v4_bytes : (v : api.V4) → All IsByte (api.v4_to_bytes v)
  pub v6_bytes : (v : api.V6) → All IsByte (api.v6_to_bytes v)
  pub to_v4_returns :
      (a : api.Address) → api.is_v4 a ≡ true → (v : api.V4) × (api.to_v4 a ≡ returned v)
  pub to_v6_returns :
      (a : api.Address) → api.is_v6 a ≡ true → (v : api.V6) × (api.to_v6 a ≡ returned v)
