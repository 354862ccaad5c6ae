-- ===== src/Utxo.antt =====
-- The UTXO set (src/utxo/utxo-set.h): class CCoinsView and its operations.
pub mod Value
use cdx.Base.{
  ltb, ℕ, ◌+◌, Bool, true, false, Option, none, some, List, [], ◌∷◌, ◌≡◌, ◌↔◌, arith, not, ◌&&◌,
  if◌then◌else◌,
}
use cdx.Base.Int.{ℤ, pos, ◌+ℤ◌, ◌-ℤ◌, ltb_ℤ}
use cdx.Bytes.{Bytes}
use cdx.Uint256.{U256, less, u256_eq}
use cdx.Uint256.Order.{u256_eq_iff}
use cdx.Transaction.{OutPoint, outpoint_eq}
use cdx.Params.{coinbase_maturity}
use cdx.StdMap.{Key, StdMap, find, contains, insert, erase}

-- CUTXO
pub record Coin : Type 0 where
  pub value : ℤ
  pub script_pub_key : Bytes
  pub height : ℤ
  pub is_coinbase : Bool

-- CUTXO::IsSpendable
unfoldable pub is_spendable : Coin → ℤ → Bool
is_spendable c current =
    if c.is_coinbase && ltb_ℤ (current -ℤ c.height) (pos coinbase_maturity) then false else true

-- COutPoint::operator<
unfoldable pub outpoint_less : OutPoint → OutPoint → Bool
outpoint_less a b = if not (u256_eq a.hash b.hash) then less a.hash b.hash else ltb a.n b.n

pub outpoint_eq_iff : (a b : OutPoint) → (outpoint_eq a b ≡ true) ↔ (a ≡ b)
outpoint_eq_iff a b = ground (arith, u256_eq_iff a.hash b.hash)

instance abbrev pub outpoint_key : Key OutPoint
outpoint_key = record {
  key_eq = outpoint_eq;
  key_less = outpoint_less;
  key_eq_iff = outpoint_eq_iff;
}

instance abbrev pub uint256_key : Key U256
uint256_key = record { key_eq = u256_eq; key_less = less; key_eq_iff = u256_eq_iff }

abbrev pub CoinsView : Type 0
CoinsView = StdMap OutPoint Coin

-- GetCoin
unfoldable pub get_coin : OutPoint → CoinsView → Option Coin
get_coin out view = find out view

-- HaveCoin
unfoldable pub have_coin : OutPoint → CoinsView → Bool
have_coin out view = contains out view

-- AddCoin
unfoldable pub add_coin : OutPoint → Coin → CoinsView → CoinsView
add_coin out coin view = insert out coin view

-- SpendCoin, whose result is whether there was such a coin
unfoldable pub spend_coin : OutPoint → CoinsView → CoinsView × Bool
spend_coin out view = (erase out view, contains out view)

-- TotalValue
unfoldable pub total_value : CoinsView → ℤ
total_value [] = pos 0
total_value ((_, c) ∷ view) = c.value +ℤ total_value view
