-- ===== src/Wallet/Payment.antt =====
-- What CreateTransaction makes (src/wallet/wallet.cpp).
use cdx.Base.{
  ◌≤◌, Option-cases, refl, ap, arith, ◌∙◌, ◌+◌, Bool-cases, ◌⊎◌, ℕ, ◌≡◌, List, suc, [], ◌∷◌, true,
  false, inl, inr,
}
use cdx.Result.{fail_if-then, Result, >>=-eq-ok, ok_injective, ok, err}
use cdx.Wallet.Signer.{SignError, sign_input, sign_inputs}
use cdx.Wallet.Send.{
  done, approx_size, estimate_fee, done, with_change, signing_keys, unsigned_inputs, as_valid,
  as_signed, Payment, Selected, finish, sum_selected, take_enough,
}
use cdx.Crypto.{Openssl}
use cdx.Transaction.{Tx, TxOut}
use cdx.Crypto.Keys.{Curve}
use cdx.Base.Int.{int_laws, ltb_ℤ, leb_ℤ, pos, ◌-ℤ◌, ◌+ℤ◌, ◌≤ℤ◌, ℤ}
use cdx.Wallet.Keystore.{Cipher}
use cdx.Utxo.{CoinsView}
use cdx.Bytes.{Bytes}
use cdx.Wallet.Account.{generate_new_address, Wallet}
use cdx.Merkle.{get_tx_id}
use cdx.Script.{build_p2pkh_script}
use cdx.Consensus.Validation.{Error, sum_outputs, validate_transaction}
use cdx.Address.{decode_address}

-- The change, if any, is one output of at least 1000 that pays to a hash.
abbrev pub IsChange : List TxOut → Type 0
IsChange rest =
    (rest ≡ [])
    ⊎ ((change : ℤ) × (hash : Bytes) × (pos 1000 ≤ℤ change)
        × (rest ≡ record { value = change; script_pub_key = build_p2pkh_script hash } ∷ []))

sign_inputs-vout :
    (ssl : Openssl) (c : Curve) (rounds : ℕ) (tx tx' : Tx) (i : ℕ) (keys : List (ℕ × Bytes × Bytes))
    → sign_inputs ssl c rounds tx i keys ≡ ok tx'
    → tx'.vout ≡ tx.vout
unfolding sign_inputs
sign_inputs-vout ssl c rounds tx tx' i [] e = rw (← ok_injective e) refl
sign_inputs-vout ssl c rounds tx tx' i ((d, pubkey, script) ∷ keys) e =
    let (mid, one, rest) = >>=-eq-ok (sign_input ssl c rounds tx i d pubkey script) _ e in
    sign_inputs-vout ssl c rounds mid tx' (i + 1) keys rest
    ∙ (unfold sign_input in ground (arith, one))

leb_ℤ→le : (a b : ℤ) → leb_ℤ a b ≡ true → a ≤ℤ b
leb_ℤ→le a b h = ground arith

-- The coins that are taken pay what is needed, if they are reported to be enough.
pub take_enough-enough :
    (needed total : ℤ) (l : List Selected)
    → (take_enough needed total l).1 ≡ true
    → needed ≤ℤ total +ℤ sum_selected (take_enough needed total l).0
unfolding take_enough sum_selected
take_enough-enough needed total [] e = absurd (cc)
take_enough-enough needed total (s ∷ l) e =
    elim (Bool-cases (leb_ℤ needed (total +ℤ s.coin.value))) [
      | inl enough ↦
          rw (take_enough, enough)
            (let le = leb_ℤ→le needed (total +ℤ s.coin.value) enough in omega (int_laws, le))
      | inr short ↦
          let e' : (take_enough needed (total +ℤ s.coin.value) l).1 ≡ true =
            ground (arith, short) in
          let later = take_enough-enough needed (total +ℤ s.coin.value) l e' in
          rw (take_enough, short) (omega (int_laws, later))
    ]

not_less_ℤ : (a b : ℤ) → ltb_ℤ a b ≡ false → b ≤ℤ a
not_less_ℤ a b h = ground arith

less_ℤ : (a : ℤ) (n : ℕ) → ltb_ℤ a (pos (suc n)) ≡ true → a ≤ℤ pos n
less_ℤ a n h = ground arith

-- The fee without an output for the change, and with one.
one_output :
    (sum amount fee : ℤ)
    → amount +ℤ fee ≤ℤ sum
    → ltb_ℤ (sum -ℤ (amount +ℤ fee)) (pos 1000) ≡ true
    → (fee ≤ℤ sum -ℤ (amount +ℤ pos 0)) × (sum -ℤ (amount +ℤ pos 0) ≤ℤ fee +ℤ pos 999)
one_output sum amount fee h dust =
    let small = less_ℤ (sum -ℤ (amount +ℤ fee)) 999 dust in
    (omega (int_laws, h), omega (int_laws, small))

two_outputs :
    (sum amount fee : ℤ)
    → (fee ≤ℤ sum -ℤ (amount +ℤ ((sum -ℤ (amount +ℤ fee)) +ℤ pos 0)))
      × (sum -ℤ (amount +ℤ ((sum -ℤ (amount +ℤ fee)) +ℤ pos 0)) ≤ℤ fee +ℤ pos 999)
two_outputs sum amount fee = (omega int_laws, omega int_laws)

pub estimate_bounds :
    (attempt : ℕ)
    → (530 ≤ estimate_fee (approx_size attempt)) × (estimate_fee (approx_size attempt) ≤ 680)
unfolding estimate_fee approx_size
estimate_bounds attempt = ground arith

module _ (ssl : Openssl) (c : Curve) (ci : Cipher) (rounds : ℕ) where
  -- A transaction that ValidateTransaction accepts, with these outputs and this fee.
  abbrev IsFinished : CoinsView → ℕ → List TxOut → ℤ → Payment → Type 0
  IsFinished view height vout fee p =
      (p.tx.vout ≡ vout)
      × (p.fee ≡ fee)
      × (p.txid ≡ get_tx_id ssl p.tx)
      × (paid : ℤ) × (validate_transaction ssl p.tx view height (pos 0) false ≡ ok paid)

  finish-ok :
      (w : Wallet) (view : CoinsView) (height : ℕ) (selected : List Selected) (vout : List TxOut)
      (p : Payment)
      → finish ssl c ci rounds w view height selected vout ≡ ok p
      → IsFinished view height vout (sum_selected selected -ℤ sum_outputs vout) p
  unfolding finish
  finish-ok w view height selected vout p e =
      let tx : Tx = record {
        version = pos 1;
        vin = unsigned_inputs selected;
        vout = vout;
        lock_time = 0;
      } in
      let (_, e1) =
        fail_if-then (ltb_ℤ (sum_selected selected -ℤ sum_outputs vout) (pos 0)) _ _ e in
      let (keys, _, e2) = >>=-eq-ok (signing_keys ssl c ci rounds w selected) _ e1 in
      let (signed, s, e3) = >>=-eq-ok (as_signed (sign_inputs ssl c rounds tx 0 keys)) _ e2 in
      let (paid, v, e4) =
        >>=-eq-ok (as_valid (validate_transaction ssl signed view height (pos 0) false)) _ e3 in
      let same = ok_injective e4 in
      rw (← same) (
        sign_inputs-vout ssl c rounds tx signed 0 keys (as_signed-ok _ s),
        refl,
        refl,
        paid,
        as_valid-ok _ v,
      )
    where
      as_signed-ok : {A : Type 0} {a : A} (r : Result SignError A) → as_signed r ≡ ok a → r ≡ ok a
      as_signed-ok (ok a) q = unfold as_signed in ap ok (ok_injective q)
      as_signed-ok (err x) q = unfold as_signed in cc

      as_valid-ok : {A : Type 0} {a : A} (r : Result Error A) → as_valid r ≡ ok a → r ≡ ok a
      as_valid-ok (ok a) q = unfold as_valid in ap ok (ok_injective q)
      as_valid-ok (err x) q = unfold as_valid in cc

  -- What an attempt has made, if it has made a payment: the outputs, and a fee that is the estimate, or
  -- less than 1000 more.
  abbrev pub IsPayment : CoinsView → ℕ → Bytes → ℤ → ℤ → Payment → Type 0
  IsPayment view height to_hash amount fee p =
      (rest : List TxOut) × (p.tx.vout
        ≡ record { value = amount; script_pub_key = build_p2pkh_script to_hash } ∷ rest)
      × IsChange rest
      × (fee ≤ℤ p.fee)
      × (p.fee ≤ℤ fee +ℤ pos 999)
      × (p.txid ≡ get_tx_id ssl p.tx)
      × (paid : ℤ) × (validate_transaction ssl p.tx view height (pos 0) false ≡ ok paid)

  -- A payment with one of the fees that EstimateFee gives.
  abbrev pub IsEstimated : CoinsView → ℕ → Bytes → ℤ → Payment → Type 0
  IsEstimated view height to_hash amount p =
      (fee : ℕ) × (530 ≤ fee) × (fee ≤ 680) × IsPayment view height to_hash amount (pos fee) p

  pub with_change-IsPayment :
      (random : List Bytes) (iv : Bytes) (now : ℕ) (w w' : Wallet) (view : CoinsView) (height : ℕ)
      (selected : List Selected) (to_hash : Bytes) (amount fee : ℤ) (p : Payment)
      → amount +ℤ fee ≤ℤ sum_selected selected
      → with_change ssl c ci rounds random iv now w view height selected
          (sum_selected selected -ℤ (amount +ℤ fee))
          (record { value = amount; script_pub_key = build_p2pkh_script to_hash })
        ≡ done w' (ok p)
      → IsPayment view height to_hash amount fee p
  unfolding with_change sum_outputs
  with_change-IsPayment random iv now w w' view height selected to_hash amount fee p enough e =
      let out : TxOut = record { value = amount; script_pub_key = build_p2pkh_script to_hash } in
      let change = sum_selected selected -ℤ (amount +ℤ fee) in
      elim (Bool-cases (ltb_ℤ change (pos 1000))) [
        | inl dust ↦
            let made : finish ssl c ci rounds w view height selected (out ∷ []) ≡ ok p =
              ground (arith, dust) in
            let (outs, paid, id, v, valid) = finish-ok w view height selected (out ∷ []) p made in
            let (lo, hi) = one_output (sum_selected selected) amount fee enough dust in
            ([], outs, inl refl, rw paid lo, rw paid hi, id, v, valid)
        | inr large ↦ elim (Option-cases (generate_new_address ssl c ci random iv now w)) [
          | inl failed ↦ absurd (ground (arith, large, failed))
          | inr ((w2, kp), made_pair) ↦ elim (Option-cases (decode_address ssl kp.address)) [
            | inl bad ↦ absurd (ground (arith, large, made_pair, bad))
            | inr ((version, hash), decoded) ↦
                let more : TxOut = record {
                  value = change;
                  script_pub_key = build_p2pkh_script hash;
                } in
                let made : finish ssl c ci rounds w2 view height selected (out ∷ more ∷ []) ≡ ok p =
                  ground (arith, large, made_pair, decoded) in
                let (outs, paid, id, v, valid) =
                  finish-ok w2 view height selected (out ∷ more ∷ []) p made in
                let (lo, hi) = two_outputs (sum_selected selected) amount fee in
                (
                  more ∷ [],
                  outs,
                  inr (change, hash, not_less_ℤ change (pos 1000) large, refl),
                  rw paid lo,
                  rw paid hi,
                  id,
                  v,
                  valid,
                )
          ]
        ]
      ]
