-- ===== src/Bytes.antt =====
-- Little-endian numbers in byte arrays: the loops of src/transaction/serializer.h and
-- src/crypto/encoding.h that shift a number out byte by byte and put it together again. A byte
-- array is a list of numbers; the bytes that the program shifts and joins by `|` have disjoint
-- bits, so `|` is a sum.
use cdx.Base.{
  ℕ, zero, suc, ◌+◌, ◌-◌, ◌*◌, ◌/◌, ◌%◌, ◌^◌, ◌<◌, ◌≡◌, refl, ap, List, [], ◌∷◌, All, arith, length,
  ltb, if◌then◌else◌,
}
use cdx.Base.Int.{◌≤ℤ◌, ℤ, pos, negsuc}
use native.Mathlib.Nat.{pow-suc}

abbrev pub Bytes : Type 0
Bytes = List ℕ

abbrev pub IsBytes : Bytes → Type 0
IsBytes = All (λ b. b < 256)

-- for (i = 0; i < k; ++i) out[i] = (uint8_t)(v >> (8 * i))
unfoldable pub le_bytes : ℕ → ℕ → Bytes
le_bytes zero v = []
le_bytes (suc k) v = (v % 256) ∷ le_bytes k (v / 256)

-- v = 0; for (i) v |= b[i] << (8 * i)
unfoldable pub of_le : Bytes → ℕ
of_le [] = 0
of_le (b ∷ bs) = b + 256 * of_le bs

-- (uint32_t) of an int32_t and (uint64_t) of an int64_t: the bit pattern, for w = 32 and w = 64.
abbrev pub to_bits : ℕ → ℤ → ℕ
to_bits w (pos n) = n % 2 ^ w
to_bits w (negsuc n) = 2 ^ w - 1 - n % 2 ^ w

-- (int32_t) of a uint32_t and (int64_t) of a uint64_t; `half` is 2 ^ (w - 1).
abbrev pub of_bits : ℕ → ℕ → ℕ → ℤ
of_bits w half v = if ltb v half then pos v else negsuc (2 ^ w - 1 - v)

-- What an int64_t holds of a sum, which wraps around.
unfoldable pub as_int64 : ℤ → ℤ
as_int64 z = of_bits 64 (2 ^ 63) (to_bits 64 z)

-- The value lies in the signed range with the bound `half`.
abbrev pub IsInt : ℕ → ℤ → Type 0
IsInt half (pos n) = n < half
IsInt half (negsuc n) = n < half

pub length-le_bytes : (k v : ℕ) → length (le_bytes k v) ≡ k
unfolding le_bytes
length-le_bytes zero v = refl
length-le_bytes (suc k) v = ap suc (length-le_bytes k (v / 256))

pub le_bytes-IsBytes : (k v : ℕ) → IsBytes (le_bytes k v)
unfolding le_bytes
le_bytes-IsBytes zero v = tt
le_bytes-IsBytes (suc k) v = (omega arith, le_bytes-IsBytes k (v / 256))

-- The k low bytes of a number below 256 ^ k are that number.
pub of_le-le_bytes : (k v : ℕ) → v < 256 ^ k → of_le (le_bytes k v) ≡ v
unfolding of_le le_bytes
of_le-le_bytes zero v h = omega arith
of_le-le_bytes (suc k) v h =
    omega (arith, of_le-le_bytes k (v / 256) (omega (arith, pow-suc 256 k)))

pub of_le-lt : (bs : Bytes) (k : ℕ) → IsBytes bs → length bs ≡ k → of_le bs < 256 ^ k
unfolding of_le
of_le-lt [] zero h e = omega arith
of_le-lt [] (suc k) h e = absurd (omega arith)
of_le-lt (b ∷ bs) zero h e = absurd (omega arith)
of_le-lt (b ∷ bs) (suc k) h e = omega (arith, pow-suc 256 k, of_le-lt bs k h.1 (omega arith))

-- The other way round, for an array of k bytes.
pub le_bytes-of_le : (bs : Bytes) (k : ℕ) → IsBytes bs → length bs ≡ k → le_bytes k (of_le bs) ≡ bs
unfolding of_le le_bytes
le_bytes-of_le [] zero h e = refl
le_bytes-of_le [] (suc k) h e = absurd (omega arith)
le_bytes-of_le (b ∷ bs) zero h e = absurd (omega arith)
le_bytes-of_le (b ∷ bs) (suc k) h e =
    let low : (b + 256 * of_le bs) % 256 ≡ b = omega arith in
    let high : (b + 256 * of_le bs) / 256 ≡ of_le bs = omega arith in
    rw (low, high, le_bytes-of_le bs k h.1 (omega arith))

-- Casting to the unsigned type and back keeps an int32_t and an int64_t.
pub of_bits-to_bits32 : (z : ℤ) → IsInt (2 ^ 31) z → of_bits 32 (2 ^ 31) (to_bits 32 z) ≡ z
of_bits-to_bits32 (pos n) h = ground arith
of_bits-to_bits32 (negsuc n) h = ground arith

pub of_bits-to_bits64 : (z : ℤ) → IsInt (2 ^ 63) z → of_bits 64 (2 ^ 63) (to_bits 64 z) ≡ z
of_bits-to_bits64 (pos n) h = ground arith
of_bits-to_bits64 (negsuc n) h = ground arith

pub as_int64-exact : (z : ℤ) → IsInt (2 ^ 63) z → as_int64 z ≡ z
unfolding as_int64
as_int64-exact z h = of_bits-to_bits64 z h

pub as_int64-IsInt : (z : ℤ) → IsInt (2 ^ 63) (as_int64 z)
unfolding as_int64
as_int64-IsInt (pos n) = ground arith
as_int64-IsInt (negsuc n) = ground arith

-- Wrapping around makes a sum of two such numbers, one of them not negative, no larger.
pub as_int64-le : (z : ℤ) → negsuc (2 ^ 63 - 1) ≤ℤ z → as_int64 z ≤ℤ z
unfolding as_int64
as_int64-le (pos n) h = ground arith
as_int64-le (negsuc n) h = ground arith
