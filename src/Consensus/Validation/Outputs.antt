-- ===== src/Consensus/Validation/Outputs.antt =====
-- What CheckTransaction says of the outputs (src/consensus/validation.cpp).
use cdx.Base.{false, ◌==◌, length, ltb, Bool, ℕ, ◌≡◌, List, [], ◌∷◌, All, arith}
use cdx.Base.Int.{ltb_ℤ, ℤ, pos, ◌+ℤ◌, ◌≤ℤ◌, int_laws}
use cdx.Result.{ok, >>=-eq-ok, fail_if-then}
use cdx.Transaction.{TxOut, Tx}
use cdx.Consensus.Validation.{
  check_script_sigs, duplicate_inputs, has_duplicate_inputs, too_many_outputs, too_many_inputs,
  no_outputs, no_inputs, max_tx_count_per_block, max_money, sum_outputs, check_transaction,
  check_outputs,
}

check_outputs_nonneg :
    (total s : ℤ) (vout : List TxOut)
    → check_outputs total vout ≡ ok s
    → All (λ o. pos 0 ≤ℤ o.value) vout
unfolding check_outputs
check_outputs_nonneg total s [] e = tt
check_outputs_nonneg total s (o ∷ vout) e =
    let (nonneg, e1) = fail_if-then (ltb_ℤ o.value (pos 0)) _ _ e in
    let (_, e2) = fail_if-then (ltb_ℤ max_money o.value) _ _ e1 in
    let (_, e3) = fail_if-then (ltb_ℤ max_money (total +ℤ o.value)) _ _ e2 in
    (ground arith, check_outputs_nonneg (total +ℤ o.value) s vout e3)

check_transaction_outputs :
    (tx : Tx) → check_transaction tx ≡ ok tt → (s : ℤ) × (check_outputs (pos 0) tx.vout ≡ ok s)
unfolding check_transaction
check_transaction_outputs tx e =
    let many : ℕ → Bool = ltb max_tx_count_per_block in
    let (_, e1) = fail_if-then (length tx.vin == 0) no_inputs _ e in
    let (_, e2) = fail_if-then (length tx.vout == 0) no_outputs _ e1 in
    let (_, e3) = fail_if-then (many (length tx.vin)) too_many_inputs _ e2 in
    let (_, e4) = fail_if-then (many (length tx.vout)) too_many_outputs _ e3 in
    let (_, e5) = fail_if-then (has_duplicate_inputs tx.vin) duplicate_inputs _ e4 in
    let (s, es, _) = >>=-eq-ok (check_outputs (pos 0) tx.vout) (λ x. check_script_sigs tx) e5 in
    (s, es)

-- A transaction that passes CheckTransaction pays no negative amount.
pub check_transaction_nonneg :
    (tx : Tx) → check_transaction tx ≡ ok tt → All (λ o. pos 0 ≤ℤ o.value) tx.vout
check_transaction_nonneg tx e =
    let (s, es) = check_transaction_outputs tx e in check_outputs_nonneg (pos 0) s tx.vout es

pub sum_outputs_nonneg :
    (vout : List TxOut) → All (λ o. pos 0 ≤ℤ o.value) vout → pos 0 ≤ℤ sum_outputs vout
unfolding sum_outputs
sum_outputs_nonneg [] h = omega arith
sum_outputs_nonneg (o ∷ vout) h = omega (int_laws, sum_outputs_nonneg vout h.1)

check_outputs_le :
    (total s : ℤ) (vout : List TxOut)
    → total ≤ℤ max_money
    → check_outputs total vout ≡ ok s
    → total +ℤ sum_outputs vout ≤ℤ max_money
unfolding check_outputs sum_outputs
check_outputs_le total s [] h e = omega int_laws
check_outputs_le total s (o ∷ vout) h e =
    let (_, e1) = fail_if-then (ltb_ℤ o.value (pos 0)) _ _ e in
    let (_, e2) = fail_if-then (ltb_ℤ max_money o.value) _ _ e1 in
    let (few, e3) = fail_if-then (ltb_ℤ max_money (total +ℤ o.value)) _ _ e2 in
    let le = not_more (total +ℤ o.value) few in
    let rest = check_outputs_le (total +ℤ o.value) s vout le e3 in omega (int_laws, rest)
  where
    not_more : (z : ℤ) → ltb_ℤ max_money z ≡ false → z ≤ℤ max_money
    not_more z h = ground arith

-- The total of the outputs of such a transaction lies between 0 and MAX_MONEY.
pub check_transaction_total :
    (tx : Tx)
    → check_transaction tx ≡ ok tt
    → (pos 0 ≤ℤ sum_outputs tx.vout) × (sum_outputs tx.vout ≤ℤ max_money)
check_transaction_total tx e =
    let (s, es) = check_transaction_outputs tx e in
    (
      sum_outputs_nonneg tx.vout (check_outputs_nonneg (pos 0) s tx.vout es),
      (let le = check_outputs_le (pos 0) s tx.vout (omega arith) es in omega (int_laws, le)),
    )
