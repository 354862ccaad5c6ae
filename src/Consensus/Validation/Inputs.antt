-- ===== src/Consensus/Validation/Inputs.antt =====
-- What a successful CheckTxInputs says of the inputs (src/consensus/validation.cpp).
use cdx.Bytes.{as_int64, as_int64-exact, as_int64-le, as_int64-IsInt, IsInt}
use cdx.Consensus.Validation.Outputs.{check_transaction_total}
use cdx.Base.{
  ◌^◌, ◌-◌, sym, ◌∙◌, none, false, true, ◌+◌, some, Option, ℕ, ◌≡◌, refl, List, [], ◌∷◌, All, arith,
}
use cdx.Base.Int.{ -ℤ_parts, negsuc, ltb_ℤ, ℤ, pos, ◌+ℤ◌, ◌-ℤ◌, ◌≤ℤ◌, int_laws}
use cdx.Utxo.{is_spendable, get_coin, Coin, CoinsView}
use cdx.Result.{ok_injective, fail_if-then, ok, >>=-eq-ok}
use cdx.Transaction.{is_coinbase, Tx, TxIn, OutPoint}
use cdx.Crypto.{Openssl}
use cdx.Consensus.Validation.{
  check_transaction, sum_outputs, max_money, check_tx_inputs, check_input, check_inputs,
}

-- The value of the coin behind an outpoint, 0 if there is none.
unfoldable pub coin_value : CoinsView → OutPoint → ℤ
coin_value view out = elim (get_coin out view) [ none ↦ pos 0 | some c ↦ c.value ]

-- The values of the coins that the inputs spend.
unfoldable pub sum_inputs : CoinsView → List TxIn → ℤ
sum_inputs view [] = pos 0
sum_inputs view (i ∷ vin) = coin_value view i.prevout +ℤ sum_inputs view vin

-- The coin behind an input is in the view and may be spent at the height.
abbrev pub IsUsable : CoinsView → ℕ → TxIn → Type 0
IsUsable view height i =
    (c : Coin) × (get_coin i.prevout view ≡ some c) × (is_spendable c (pos height) ≡ true)

-- No coin of the view is negative, and each is worth at most MAX_MONEY.
abbrev pub HasNonneg : CoinsView → Type 0
HasNonneg view = (out : OutPoint) (c : Coin) → get_coin out view ≡ some c → pos 0 ≤ℤ c.value

abbrev pub HasMoney : CoinsView → Type 0
HasMoney view =
    (out : OutPoint) (c : Coin)
    → get_coin out view ≡ some c
    → (pos 0 ≤ℤ c.value) × (c.value ≤ℤ max_money)

IsInt_bounds : (z : ℤ) → IsInt (2 ^ 63) z → (negsuc (2 ^ 63 - 1) ≤ℤ z) × (z ≤ℤ pos (2 ^ 63 - 1))
IsInt_bounds (pos n) h = omega arith
IsInt_bounds (negsuc n) h = omega arith

nonneg_IsInt : (z : ℤ) → pos 0 ≤ℤ z → z ≤ℤ pos (2 ^ 63 - 1) → IsInt (2 ^ 63) z
nonneg_IsInt (pos n) lo hi = omega arith
nonneg_IsInt (negsuc n) lo hi = omega arith

not_more : (z : ℤ) → ltb_ℤ max_money z ≡ false → z ≤ℤ max_money
not_more z h = ground arith

not_less : (a b : ℤ) → ltb_ℤ a b ≡ false → pos 0 ≤ℤ a -ℤ b
not_less a b h = ground (arith, -ℤ_parts a b)

pub coin_value-some :
    (view : CoinsView) (out : OutPoint) (c : Coin)
    → get_coin out view ≡ some c
    → coin_value view out ≡ c.value
unfolding coin_value
coin_value-some view out c e = ground arith

module _ (ssl : Openssl) where
  check_input_lem :
      (tx : Tx) (height i : ℕ) (input : TxIn) (o : Option Coin) (v : ℤ)
      → check_input ssl tx height i input o ≡ ok v
      → (c : Coin) × (o ≡ some c) × (is_spendable c (pos height) ≡ true) × (v ≡ c.value)
  unfolding check_input
  check_input_lem tx height i input none v e = cc
  check_input_lem tx height i input (some c) v e = (c, refl, ground arith, ground arith)

  check_inputs_step :
      (tx : Tx) (view : CoinsView) (height i : ℕ) (acc s : ℤ) (input : TxIn) (vin : List TxIn)
      → check_inputs ssl tx view height i acc (input ∷ vin) ≡ ok s
      → (c : Coin) × (get_coin input.prevout view ≡ some c)
        × (is_spendable c (pos height) ≡ true)
        × (as_int64 (acc +ℤ c.value) ≤ℤ max_money)
        × (check_inputs ssl tx view height (i + 1) (as_int64 (acc +ℤ c.value)) vin ≡ ok s)
  unfolding check_inputs
  check_inputs_step tx view height i acc s input vin e =
      let (v, ev, rest) =
        >>=-eq-ok (check_input ssl tx height i input (get_coin input.prevout view)) _ e in
      let (few, later) = fail_if-then (ltb_ℤ max_money (as_int64 (acc +ℤ v))) _ _ rest in
      let (c, found, ripe, same) = check_input_lem tx height i input _ v ev in
      let few' = rw same at few in
      let later' = rw same at later in
      (c, found, ripe, not_more (as_int64 (acc +ℤ c.value)) few', later')

  pub check_inputs-IsUsable :
      (tx : Tx) (view : CoinsView) (height i : ℕ) (acc s : ℤ) (vin : List TxIn)
      → check_inputs ssl tx view height i acc vin ≡ ok s
      → All (IsUsable view height) vin
  check_inputs-IsUsable tx view height i acc s [] e = tt
  check_inputs-IsUsable tx view height i acc s (input ∷ vin) e =
      let (c, found, ripe, _, rest) = check_inputs_step tx view height i acc s input vin e in
      ((c, found, ripe), check_inputs-IsUsable tx view height (i + 1) _ s vin rest)

  -- The sum that the loop computes is no more than the value of the coins, if none is negative.
  check_inputs_le :
      (tx : Tx) (view : CoinsView) (height i : ℕ) (acc s : ℤ) (vin : List TxIn)
      → HasNonneg view
      → IsInt (2 ^ 63) acc
      → check_inputs ssl tx view height i acc vin ≡ ok s
      → IsInt (2 ^ 63) s × (s ≤ℤ acc +ℤ sum_inputs view vin)
  unfolding sum_inputs
  check_inputs_le tx view height i acc s [] coins int e =
      unfold check_inputs in rw (← ok_injective e) (int, omega int_laws)
  check_inputs_le tx view height i acc s (input ∷ vin) coins int e =
      let (c, found, _, _, rest) = check_inputs_step tx view height i acc s input vin e in
      let nonneg = coins input.prevout c found in
      let low = IsInt_bounds acc int in
      let less = as_int64-le (acc +ℤ c.value) (omega (int_laws, nonneg, low)) in
      let (int', sum) =
        check_inputs_le tx view height (i + 1) _ s vin coins (as_int64-IsInt (acc +ℤ c.value))
          rest in
      (int', rw (coin_value-some view input.prevout c found) (omega (int_laws, less, sum)))

  -- It is their value, if each is worth at most MAX_MONEY.
  check_inputs_exact :
      (tx : Tx) (view : CoinsView) (height i : ℕ) (acc s : ℤ) (vin : List TxIn)
      → HasMoney view
      → pos 0 ≤ℤ acc
      → acc ≤ℤ max_money
      → check_inputs ssl tx view height i acc vin ≡ ok s
      → (s ≡ acc +ℤ sum_inputs view vin) × (s ≤ℤ max_money)
  unfolding sum_inputs
  check_inputs_exact tx view height i acc s [] coins lo hi e =
      unfold check_inputs in rw (← ok_injective e) (omega int_laws, hi)
  check_inputs_exact tx view height i acc s (input ∷ vin) coins lo hi e =
      let (c, found, _, few, rest) = check_inputs_step tx view height i acc s input vin e in
      let (nonneg, money) = coins input.prevout c found in
      let same =
        as_int64-exact (acc +ℤ c.value) (nonneg_IsInt _ (omega int_laws) (omega int_laws)) in
      let few' = rw same at few in
      let rest' = rw same at rest in
      let (sum, bound) =
        check_inputs_exact tx view height (i + 1) _ s vin coins (omega int_laws) few' rest' in
      (sum ∙ rw (coin_value-some view input.prevout c found) (omega int_laws), bound)

  -- What a successful CheckTxInputs did.
  check_tx_inputs-cases :
      (tx : Tx) (view : CoinsView) (height : ℕ) (fee : ℤ)
      → check_tx_inputs ssl tx view height ≡ ok fee
      → (is_coinbase tx ≡ false)
        × (s : ℤ) × (check_inputs ssl tx view height 0 (pos 0) tx.vin ≡ ok s)
        × (ltb_ℤ s (as_int64 (sum_outputs tx.vout)) ≡ false)
        × (as_int64 (s -ℤ as_int64 (sum_outputs tx.vout)) ≡ fee)
  unfolding check_tx_inputs
  check_tx_inputs-cases tx view height fee e =
      let (not_coinbase, rest) = fail_if-then (is_coinbase tx) _ _ e in
      let (s, es, tail) = >>=-eq-ok (check_inputs ssl tx view height 0 (pos 0) tx.vin) _ rest in
      let (enough, last) = fail_if-then (ltb_ℤ s (as_int64 (sum_outputs tx.vout))) _ _ tail in
      (not_coinbase, s, es, enough, ok_injective last)

  pub check_tx_inputs-IsUsable :
      (tx : Tx) (view : CoinsView) (height : ℕ) (fee : ℤ)
      → check_tx_inputs ssl tx view height ≡ ok fee
      → All (IsUsable view height) tx.vin
  check_tx_inputs-IsUsable tx view height fee e =
      let (_, s, es, _, _) = check_tx_inputs-cases tx view height fee e in
      check_inputs-IsUsable tx view height 0 (pos 0) s tx.vin es

  -- The fee of a sum of inputs, without wrap-around.
  fee_exact :
      (tx : Tx) (s fee : ℤ)
      → IsInt (2 ^ 63) s
      → check_transaction tx ≡ ok tt
      → ltb_ℤ s (as_int64 (sum_outputs tx.vout)) ≡ false
      → as_int64 (s -ℤ as_int64 (sum_outputs tx.vout)) ≡ fee
      → (fee ≡ s -ℤ sum_outputs tx.vout) × (pos 0 ≤ℤ fee)
  fee_exact tx s fee int good enough e =
      let (lo, hi) = check_transaction_total tx good in
      let out =
        as_int64-exact (sum_outputs tx.vout) (nonneg_IsInt _ (omega int_laws) (omega int_laws)) in
      let enough' = rw out at enough in
      let e' = rw out at e in
      let some_left = not_less s (sum_outputs tx.vout) enough' in
      let low = IsInt_bounds s int in
      let same =
        as_int64-exact (s -ℤ sum_outputs tx.vout)
          (nonneg_IsInt _ (omega int_laws) (omega int_laws)) in
      let paid = sym e' ∙ same in (paid, rw paid some_left)

  -- The fee of a transaction that passes CheckTransaction is at most what its inputs are worth above
  -- its outputs, if no coin is negative.
  pub check_tx_inputs_le :
      (tx : Tx) (view : CoinsView) (height : ℕ) (fee : ℤ)
      → HasNonneg view
      → check_transaction tx ≡ ok tt
      → check_tx_inputs ssl tx view height ≡ ok fee
      → (fee ≤ℤ sum_inputs view tx.vin -ℤ sum_outputs tx.vout) × (pos 0 ≤ℤ fee)
  check_tx_inputs_le tx view height fee coins good e =
      let (_, s, es, enough, last) = check_tx_inputs-cases tx view height fee e in
      let (int, sum) = check_inputs_le tx view height 0 (pos 0) s tx.vin coins (omega arith) es in
      let (paid, nonneg) = fee_exact tx s fee int good enough last in
      (rw paid (omega (int_laws, sum)), nonneg)

  -- When CheckTransaction and CheckTxInputs succeed on coins of which each is worth between 0 and
  -- MAX_MONEY, the transaction is no coinbase, every input spends a coin of the view that is
  -- spendable at the height, and the fee, which int64_t computes without a wrap-around, is the value
  -- of these coins less the value of the outputs, and lies between 0 and MAX_MONEY.
  pub check_tx_inputs_lem :
      (tx : Tx) (view : CoinsView) (height : ℕ) (fee : ℤ)
      → HasMoney view
      → check_transaction tx ≡ ok tt
      → check_tx_inputs ssl tx view height ≡ ok fee
      → (is_coinbase tx ≡ false)
        × All (IsUsable view height) tx.vin
        × (fee ≡ sum_inputs view tx.vin -ℤ sum_outputs tx.vout)
        × (pos 0 ≤ℤ fee)
        × (fee ≤ℤ max_money)
  check_tx_inputs_lem tx view height fee coins good e =
      let (not_coinbase, s, es, enough, last) = check_tx_inputs-cases tx view height fee e in
      let (sum, few) =
        check_inputs_exact tx view height 0 (pos 0) s tx.vin coins (omega arith) (omega arith) es in
      let usable = check_inputs-IsUsable tx view height 0 (pos 0) s tx.vin es in
      let (int, _) =
        check_inputs_le tx view height 0 (pos 0) s tx.vin (λ out c q. (coins out c q).0)
          (omega arith) es in
      let (paid, nonneg) = fee_exact tx s fee int good enough last in
      let (lo, _) = check_transaction_total tx good in
      let same : s ≡ sum_inputs view tx.vin = sum ∙ omega int_laws in
      (not_coinbase, usable, rw (← same) paid, nonneg, rw paid (omega (int_laws, lo, few)))
