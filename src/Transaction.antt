-- ===== src/Transaction.antt =====
-- The transaction model (src/transaction/transaction.h): outpoints, inputs, outputs, transactions.
-- A script is its bytes; an int64_t value is an integer (ℤ), since the program adds and compares it.
pub mod Codec
use cdx.Base.{
  ℕ, zero, suc, ◌^◌, ◌≤◌, ◌<◌, Bool, true, false, ◌&&◌, List, [], ◌∷◌, All, length, ◌==◌,
}
use cdx.Base.Int.{ℤ}
use cdx.Bytes.{Bytes, IsInt}
use cdx.Uint256.{U256, IsWords, u256_eq, is_zero}

-- COutPoint
pub record OutPoint : Type 0 where
  pub hash : U256
  pub n : ℕ

-- CTxIn
pub record TxIn : Type 0 where
  pub prevout : OutPoint
  pub script_sig : Bytes
  pub sequence : ℕ

-- CTxOut
pub record TxOut : Type 0 where
  pub value : ℤ
  pub script_pub_key : Bytes

-- CTransaction
pub record Tx : Type 0 where
  pub version : ℤ
  pub vin : List TxIn
  pub vout : List TxOut
  pub lock_time : ℕ

-- COutPoint::operator==
abbrev pub outpoint_eq : OutPoint → OutPoint → Bool
outpoint_eq a b = u256_eq a.hash b.hash && a.n == b.n

is_null_prevout : List TxIn → Bool
is_null_prevout (i ∷ []) = is_zero i.prevout.hash && i.prevout.n == 0xffffffff
is_null_prevout _ = false

-- CTransaction::IsCoinBase
unfoldable pub is_coinbase : Tx → Bool
unfolding is_null_prevout
is_coinbase tx = is_null_prevout tx.vin

-- The fields have the ranges of their C++ types.
abbrev pub IsOutPoint : OutPoint → Type 0
IsOutPoint o = IsWords o.hash × (o.n < 2 ^ 32)

abbrev pub IsTxIn : TxIn → Type 0
IsTxIn i = IsOutPoint i.prevout × (length i.script_sig < 2 ^ 64) × (i.sequence < 2 ^ 32)

abbrev pub IsTxOut : TxOut → Type 0
IsTxOut o = IsInt (2 ^ 63) o.value × (length o.script_pub_key < 2 ^ 64)

abbrev pub IsTx : Tx → Type 0
IsTx tx =
    IsInt (2 ^ 31) tx.version × All IsTxIn tx.vin × All IsTxOut tx.vout × (tx.lock_time < 2 ^ 32)
