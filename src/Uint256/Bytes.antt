-- ===== src/Uint256/Bytes.antt =====
-- The 32-byte little-endian form (src/crypto/uint256.h, getBytesLE and setBytesLE).
use cdx.Base.{
  length-drop, length-take, ◌^◌, ◌<◌, ◌≤◌, ◌+◌, arith, ℕ, suc, zero, [], ◌∷◌, ◌≡◌, refl, ◌++◌,
  length, take, drop,
}
use cdx.Bytes.{of_le-lt, IsBytes, Bytes, le_bytes, of_le, of_le-le_bytes}
use cdx.Uint256.{U256, IsWords}

-- getBytesLE
unfoldable pub get_bytes_le : U256 → Bytes
get_bytes_le a = le_bytes 8 a.w0 ++ (le_bytes 8 a.w1 ++ (le_bytes 8 a.w2 ++ le_bytes 8 a.w3))

-- setBytesLE
unfoldable pub set_bytes_le : Bytes → U256
set_bytes_le p = record {
  w0 = of_le (take 8 p);
  w1 = of_le (take 8 (drop 8 p));
  w2 = of_le (take 8 (drop 16 p));
  w3 = of_le (take 8 (drop 24 p));
}

pub length-get_bytes_le : (a : U256) → length (get_bytes_le a) ≡ 32
unfolding get_bytes_le le_bytes
length-get_bytes_le a = refl

-- Reading the bytes of an integer gives the integer back.
pub set_bytes_le-get_bytes_le : (a : U256) → IsWords a → set_bytes_le (get_bytes_le a) ≡ a
unfolding get_bytes_le set_bytes_le le_bytes
set_bytes_le-get_bytes_le a h = λ i. record {
  w0 = of_le-le_bytes 8 a.w0 h.0 i;
  w1 = of_le-le_bytes 8 a.w1 h.1 i;
  w2 = of_le-le_bytes 8 a.w2 h.2 i;
  w3 = of_le-le_bytes 8 a.w3 h.3 i;
}

take-IsBytes : (n : ℕ) (p : Bytes) → IsBytes p → IsBytes (take n p)
take-IsBytes zero p h = tt
take-IsBytes (suc n) [] h = tt
take-IsBytes (suc n) (x ∷ p) h = (h.0, take-IsBytes n p h.1)

drop-IsBytes : (n : ℕ) (p : Bytes) → IsBytes p → IsBytes (drop n p)
drop-IsBytes zero p h = h
drop-IsBytes (suc n) [] h = tt
drop-IsBytes (suc n) (x ∷ p) h = drop-IsBytes n p h.1

-- A field of eight bytes is a word.
field-lt : (n : ℕ) (p : Bytes) → IsBytes p → n + 8 ≤ length p → of_le (take 8 (drop n p)) < 2 ^ 64
field-lt n p h long =
    of_le-lt (take 8 (drop n p)) 8 (take-IsBytes 8 (drop n p) (drop-IsBytes n p h))
      (omega (arith, length-take 8 (drop n p), length-drop n p))

-- What is read from 32 bytes has 64-bit words.
pub set_bytes_le-IsWords : (p : Bytes) → IsBytes p → length p ≡ 32 → IsWords (set_bytes_le p)
unfolding set_bytes_le
set_bytes_le-IsWords p h e = (
  field-lt 0 p h (omega arith),
  field-lt 8 p h (omega arith),
  field-lt 16 p h (omega arith),
  field-lt 24 p h (omega arith),
)
