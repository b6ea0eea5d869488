-- ===== src/Network/Bytes.antt =====
-- The object representation of an unsigned integer of k bytes: what std::byteswap and
-- std::bit_cast do in src/network_serialization.hpp.
use native.Mathlib.Nat.{div-div-eq-div-mul, mod-add-div, mod-eq_of_lt, pow-suc, pow-succ'}
use mping_sender_mirror.Prelude.{
  ℕ, zero, suc, ◌+◌, ◌*◌, ◌/◌, ◌%◌, ◌^◌, ◌<◌, ◌≡◌, refl, sym, ap, ap₂, ◌∙◌, List, [], ◌∷◌, ◌++◌,
  reverse, length, All, All-append, arith,
}
use mathlib.Core.List.{reverse-cons}

abbrev pub IsByte : ℕ → Type 0
IsByte b = b < 256

-- The k bytes of `v`, the least significant one first.
unfoldable pub little_bytes : ℕ → ℕ → List ℕ
little_bytes zero v = []
little_bytes (suc k) v = (v % 256) ∷ little_bytes k (v / 256)

unfoldable pub from_little : List ℕ → ℕ
from_little [] = 0
from_little (b ∷ bs) = b + 256 * from_little bs

-- The k bytes of `v` in network order, by their place values.
unfoldable pub big_bytes : ℕ → ℕ → List ℕ
big_bytes zero v = []
big_bytes (suc k) v = (v / 256 ^ k % 256) ∷ big_bytes k v

-- The number that bytes in network order stand for, read from the left.
unfoldable pub from_big : ℕ → List ℕ → ℕ
from_big acc [] = acc
from_big acc (b ∷ bs) = from_big (acc * 256 + b) bs

pub length-little_bytes : (k v : ℕ) → length (little_bytes k v) ≡ k
unfolding little_bytes
length-little_bytes zero v = refl
length-little_bytes (suc k) v = ap suc (length-little_bytes k (v / 256))

pub length-big_bytes : (k v : ℕ) → length (big_bytes k v) ≡ k
unfolding big_bytes
length-big_bytes zero v = refl
length-big_bytes (suc k) v = ap suc (length-big_bytes k v)

pub little_bytes-IsByte : (k v : ℕ) → All IsByte (little_bytes k v)
unfolding little_bytes
little_bytes-IsByte zero v = tt
little_bytes-IsByte (suc k) v = (omega arith, little_bytes-IsByte k (v / 256))

pub big_bytes-IsByte : (k v : ℕ) → All IsByte (big_bytes k v)
unfolding big_bytes
big_bytes-IsByte zero v = tt
big_bytes-IsByte (suc k) v = (omega arith, big_bytes-IsByte k v)

pub reverse-IsByte : (xs : List ℕ) → All IsByte xs → All IsByte (reverse xs)
reverse-IsByte [] h = tt
reverse-IsByte (x ∷ xs) h =
    rw (reverse-cons x xs)
      (All-append IsByte (reverse xs) (x ∷ []) (reverse-IsByte xs h.1) (h.0, tt))

-- Bytes come back from the number that they stand for.
pub little_bytes-from_little :
    (k : ℕ) (xs : List ℕ) → length xs ≡ k → All IsByte xs → little_bytes k (from_little xs) ≡ xs
unfolding little_bytes from_little
little_bytes-from_little zero [] e h = refl
little_bytes-from_little zero (x ∷ xs) e h = absurd (omega arith)
little_bytes-from_little (suc k) [] e h = absurd (omega arith)
little_bytes-from_little (suc k) (x ∷ xs) e h =
    ap₂ ◌∷◌ (omega arith)
      (ap (little_bytes k) (omega arith) ∙ little_bytes-from_little k xs (omega arith) h.1)

div_div : (v k : ℕ) → v / 256 / 256 ^ k ≡ v / 256 ^ suc k
div_div v k = rw (div-div-eq-div-mul v 256 (256 ^ k), pow-succ' 256 k)

big_bytes-append_last : (k v : ℕ) → big_bytes (suc k) v ≡ big_bytes k (v / 256) ++ (v % 256) ∷ []
unfolding big_bytes
big_bytes-append_last zero v = ap (λ (t : ℕ). t ∷ []) (omega arith)
big_bytes-append_last (suc k) v =
    ap₂ ◌∷◌ (ap (λ (t : ℕ). t % 256) (sym (div_div v k))) (big_bytes-append_last k v)

-- Network order is the little-endian representation reversed.
pub reverse-little_bytes : (k v : ℕ) → reverse (little_bytes k v) ≡ big_bytes k v
unfolding little_bytes
reverse-little_bytes zero v = unfold big_bytes in refl
reverse-little_bytes (suc k) v =
    reverse-cons (v % 256) (little_bytes k (v / 256))
    ∙ ap (λ (xs : List ℕ). xs ++ (v % 256) ∷ []) (reverse-little_bytes k (v / 256))
    ∙ sym (big_bytes-append_last k v)

-- A digit and the digits below it, as one number.
mod_split : (p v : ℕ) → v / p % 256 * p + v % p ≡ v % (p * 256)
mod_split p v = omega (
  arith,
  mod-add-div v (p * 256),
  ap (λ (t : ℕ). p * 256 * t) (div-div-eq-div-mul v p 256),
  mod-add-div v p,
  ap (λ (t : ℕ). p * t) (mod-add-div (v / p) 256),
)

-- Reading network order gives the number back, modulo the width.
pub from_big-big_bytes : (k v acc : ℕ) → from_big acc (big_bytes k v) ≡ acc * 256 ^ k + v % 256 ^ k
unfolding from_big big_bytes
from_big-big_bytes zero v acc = omega arith
from_big-big_bytes (suc k) v acc =
    from_big-big_bytes k v (acc * 256 + v / 256 ^ k % 256)
    ∙ omega (
      arith,
      mod_split (256 ^ k) v,
      pow-suc 256 k,
      ap (λ (t : ℕ). acc * t) (pow-suc 256 k),
      ap (λ (t : ℕ). v % t) (pow-suc 256 k),
    )

pub from_big-big_bytes_lt : (k v : ℕ) → v < 256 ^ k → from_big 0 (big_bytes k v) ≡ v
from_big-big_bytes_lt k v h = from_big-big_bytes k v 0 ∙ omega (arith, mod-eq_of_lt h)

-- A number in the range of k bytes is known by its bytes.
pub big_bytes-inj : (k v w : ℕ) → v < 256 ^ k → w < 256 ^ k → big_bytes k v ≡ big_bytes k w → v ≡ w
big_bytes-inj k v w p q e =
    sym (from_big-big_bytes_lt k v p) ∙ ap (from_big 0) e ∙ from_big-big_bytes_lt k w q
