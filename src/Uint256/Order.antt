-- ===== src/Uint256/Order.antt =====
-- Comparison of 256-bit integers (src/crypto/uint256.h, operator==, operator<, operator<=, isZero).
use cdx.Base.{◌≤◌, ◌<◌, ◌≡◌, ◌↔◌, true, false, arith}
use cdx.Uint256.{U256, IsWords, to_nat, u256_eq, less, less_eq, is_zero}

-- `less` holds exactly when the integer on the left is the smaller one, for words of 64 bits.
pub less-lt : (a b : U256) → IsWords a → IsWords b → (less a b ≡ true) ↔ (to_nat a < to_nat b)
unfolding less
less-lt a b ha hb = ground arith

pub less-ge : (a b : U256) → IsWords a → IsWords b → (less a b ≡ false) ↔ (to_nat b ≤ to_nat a)
unfolding less
less-ge a b ha hb = ground arith

pub less_eq-le : (a b : U256) → IsWords a → IsWords b → (less_eq a b ≡ true) ↔ (to_nat a ≤ to_nat b)
unfolding less_eq
less_eq-le a b ha hb = ground (arith, less-ge b a hb ha)

pub u256_eq_iff : (a b : U256) → (u256_eq a b ≡ true) ↔ (a ≡ b)
u256_eq_iff a b = ground arith

pub is_zero-eq : (a : U256) → (is_zero a ≡ true) ↔ (to_nat a ≡ 0)
unfolding is_zero
is_zero-eq a = ground arith

pub to_nat_injective : (a b : U256) → IsWords a → IsWords b → to_nat a ≡ to_nat b → a ≡ b
to_nat_injective a b ha hb e = ground arith
