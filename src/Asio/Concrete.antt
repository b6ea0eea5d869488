-- ===== src/Asio/Concrete.antt =====
-- A concrete function for each member of the interface, for the tests.
-- Code: the use of Boost.Asio in src/.
use mping_sender_mirror.Prelude.{ℕ, ◌≡◌, refl, Bool, true, false, String, if◌then◌else◌}
use mping_sender_mirror.Prelude.Outcome.{Outcome, returned, thrown, library_error}
use mping_sender_mirror.Network.Bytes.{big_bytes, length-big_bytes, big_bytes-IsByte}
use mping_sender_mirror.Asio.Api.{Asio, IsDocumented}
use text.Mathlib.Text.{◌==◌ as str_eq}

-- An address is the number that its bytes stand for.
pub data HostAddress : Type 0 where
  ipv4 : ℕ → HostAddress
  ipv6 : ℕ → HostAddress

abbrev pub is_ipv4 : HostAddress → Bool
is_ipv4 (ipv4 n) = true
is_ipv4 (ipv6 n) = false

abbrev pub is_ipv6 : HostAddress → Bool
is_ipv6 (ipv4 n) = false
is_ipv6 (ipv6 n) = true

abbrev pub ipv4_number : HostAddress → Outcome ℕ
ipv4_number (ipv4 n) = returned n
ipv4_number (ipv6 n) = thrown (library_error 1)

abbrev pub ipv6_number : HostAddress → Outcome ℕ
ipv6_number (ipv4 n) = thrown (library_error 1)
ipv6_number (ipv6 n) = returned n

-- The few texts that the tests name.
abbrev pub read_address : String → Outcome HostAddress
read_address t =
    if str_eq t "ff2e::42"
    then returned (ipv6 0xff2e_0000_0000_0000_0000_0000_0000_0042)
    else if str_eq t "fd00:8e13:ce5d:e::1"
    then returned (ipv6 0xfd00_8e13_ce5d_000e_0000_0000_0000_0001)
    else if str_eq t "192.0.2.1"
    then returned (ipv4 0xc000_0201)
    else thrown (library_error 22)

abbrev pub concrete : Asio
concrete = record {
  Address = HostAddress;
  V4 = ℕ;
  V6 = ℕ;
  is_v4 = is_ipv4;
  is_v6 = is_ipv6;
  to_v4 = ipv4_number;
  to_v6 = ipv6_number;
  v4_to_bytes = big_bytes 4;
  v6_to_bytes = big_bytes 16;
  unspecified = ipv4 0;
  make_address = read_address;
}

to_ipv4 : (a : HostAddress) → is_ipv4 a ≡ true → (v : ℕ) × (ipv4_number a ≡ returned v)
to_ipv4 (ipv4 n) h = (n, refl)
to_ipv4 (ipv6 n) h = cc

to_ipv6 : (a : HostAddress) → is_ipv6 a ≡ true → (v : ℕ) × (ipv6_number a ≡ returned v)
to_ipv6 (ipv4 n) h = cc
to_ipv6 (ipv6 n) h = (n, refl)

pub concrete-IsDocumented : IsDocumented concrete
concrete-IsDocumented = record {
  v4_length = length-big_bytes 4;
  v6_length = length-big_bytes 16;
  v4_bytes = big_bytes-IsByte 4;
  v6_bytes = big_bytes-IsByte 16;
  to_v4_returns = to_ipv4;
  to_v6_returns = to_ipv6;
}
