-- ===== src/Base/Bits.antt =====
-- Bounds of the operations on binary digits.
use Prim.Native.Nat.{digits, max, min, bit_or-bitwise, bit_and-bitwise}
use cdx.Base.{ℕ, zero, suc, ◌/◌, ◌%◌, ◌^◌, ◌<◌, ◌≤◌, arith, bit_or, bit_and}

digits-lt :
    (z : ℕ → ℕ) (f : ℕ → ℕ → ℕ)
    → ((b : ℕ) → z b ≤ b)
    → ((x y : ℕ) → x < 2 → y < 2 → f x y < 2)
    → (k n a b : ℕ) → a < 2 ^ k
    → b < 2 ^ k
    → digits z f n a b < 2 ^ k
digits-lt z f hz hf k zero a b ha hb = omega (arith, hz b)
digits-lt z f hz hf k (suc n) zero b ha hb = omega (arith, hz b)
digits-lt z f hz hf zero (suc n) (suc a) b ha hb = ground arith
digits-lt z f hz hf (suc k) (suc n) (suc a) b ha hb = omega (
  arith,
  digits-lt z f hz hf k n (suc a / 2) (b / 2) (omega arith) (omega arith),
  hf (suc a % 2) (b % 2) (omega arith) (omega arith),
)

pub bit_or-lt : (k a b : ℕ) → a < 2 ^ k → b < 2 ^ k → bit_or a b < 2 ^ k
bit_or-lt k a b ha hb =
    rw (bit_or-bitwise a b)
      (digits-lt (λ b. b) max (λ b. omega arith) (λ x y hx hy. omega arith) k a a b ha hb)

pub bit_and-lt : (k a b : ℕ) → a < 2 ^ k → b < 2 ^ k → bit_and a b < 2 ^ k
bit_and-lt k a b ha hb =
    rw (bit_and-bitwise a b)
      (digits-lt (λ b. 0) min (λ b. omega arith) (λ x y hx hy. omega arith) k a a b ha hb)
