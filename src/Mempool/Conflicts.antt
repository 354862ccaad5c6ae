-- ===== src/Mempool/Conflicts.antt =====
-- Transactions that conflict with a block leave the mempool (src/mempool/mempool.cpp,
-- RemoveConflicts), and what CheckTx admits does not conflict with it.
use cdx.Base.{
  ◌∙◌, ◌&&◌, ◌≤◌, length, sym, some_injective, Option-cases, if◌then◌else◌, refl, inl, inr, false,
  Bool-cases, arith, true, ℕ, ◌≡◌, [], ◌∷◌, List, some, none, Option,
}
use cdx.Utxo.{outpoint_eq_iff, CoinsView, outpoint_key, uint256_key}
use cdx.Result.{ok_injective, >>=-eq-ok, fail_if-then, ok}
use cdx.Mempool.{
  as_mempool, has_double_spend, add_unchecked, Entry, remove_conflicts, Mempool, check_tx,
  compares_again, erase_prev_outs_at, erase_prev_outs, remove_entry_at, remove_owner_at, is_owner,
  remove_entry, remove_conflicting, remove_tx,
}
use cdx.Transaction.{is_coinbase, outpoint_eq, OutPoint, TxIn, Tx}
use cdx.Crypto.{Openssl}
use cdx.Uint256.{U256}
use cdx.Consensus.Validation.{check_tx_inputs, check_transaction, spends}
use cdx.StdMap.{erase, contains, find, StdMap}
use cdx.StdMap.Laws.{find-erase}
use cdx.Mempool.Consistency.{
  add_unchecked-IsConsistent, no_double_spend, owner_self, find-erase_prev_outs,
  remove_tx-IsConsistent, IsConsistent,
}
use cdx.Base.Int.{int_laws, ltb_ℤ, ◌≤ℤ◌, pos, ℤ}

-- RemoveTx names no new spender.
remove_tx-keeps_free :
    (out : OutPoint) (txid : U256) (pool : Mempool)
    → find out pool.map_prev_out ≡ none
    → find out (remove_tx txid pool).map_prev_out ≡ none
unfolding remove_tx remove_entry
remove_tx-keeps_free out txid pool h = go (find txid pool.map_tx)
  where
    go : (o : Option Entry) → find out (remove_entry txid o pool).map_prev_out ≡ none
    go none = h
    go (some e) = ground (arith, find-erase_prev_outs out txid e.tx.vin pool.map_prev_out)

-- RemoveTx frees the outpoints of the transaction.
remove_tx-frees :
    (out : OutPoint) (txid : U256) (pool : Mempool)
    → IsConsistent pool
    → find out pool.map_prev_out ≡ some txid
    → find out (remove_tx txid pool).map_prev_out ≡ none
unfolding remove_tx
remove_tx-frees out txid pool h q =
    let (e, p, s) = h.0 out txid q in
    rw p (
      unfold remove_entry in
      ground
        (arith, find-erase_prev_outs out txid e.tx.vin pool.map_prev_out, owner_self txid, q, s))

-- The same loop with copies of the identifiers.
unfoldable remove_owner : Option U256 → Mempool → Mempool
remove_owner none pool = pool
remove_owner (some txid) pool = remove_tx txid pool

unfoldable remove_copies : List TxIn → Mempool → Mempool
remove_copies [] pool = pool
remove_copies (input ∷ vin) pool =
    remove_copies vin (remove_owner (find input.prevout pool.map_prev_out) pool)

remove_owner-keeps_free :
    (out : OutPoint) (o : Option U256) (pool : Mempool)
    → find out pool.map_prev_out ≡ none
    → find out (remove_owner o pool).map_prev_out ≡ none
unfolding remove_owner
remove_owner-keeps_free out none pool h = h
remove_owner-keeps_free out (some txid) pool h = remove_tx-keeps_free out txid pool h

remove_copies-keeps_free :
    (out : OutPoint) (vin : List TxIn) (pool : Mempool)
    → find out pool.map_prev_out ≡ none
    → find out (remove_copies vin pool).map_prev_out ≡ none
unfolding remove_copies
remove_copies-keeps_free out [] pool h = h
remove_copies-keeps_free out (input ∷ vin) pool h =
    remove_copies-keeps_free out vin _
      (remove_owner-keeps_free out (find input.prevout pool.map_prev_out) pool h)

remove_owner-IsConsistent :
    (o : Option U256) (pool : Mempool) → IsConsistent pool → IsConsistent (remove_owner o pool)
unfolding remove_owner
remove_owner-IsConsistent none pool h = h
remove_owner-IsConsistent (some txid) pool h = remove_tx-IsConsistent txid pool h

remove_copies-IsConsistent :
    (vin : List TxIn) (pool : Mempool) → IsConsistent pool → IsConsistent (remove_copies vin pool)
unfolding remove_copies
remove_copies-IsConsistent [] pool h = h
remove_copies-IsConsistent (input ∷ vin) pool h =
    remove_copies-IsConsistent vin _
      (remove_owner-IsConsistent (find input.prevout pool.map_prev_out) pool h)

remove_owner-frees :
    (out : OutPoint) (o : Option U256) (pool : Mempool)
    → IsConsistent pool
    → find out pool.map_prev_out ≡ o
    → find out (remove_owner o pool).map_prev_out ≡ none
unfolding remove_owner
remove_owner-frees out none pool h q = q
remove_owner-frees out (some txid) pool h q = remove_tx-frees out txid pool h q

remove_copies-frees :
    (out : OutPoint) (vin : List TxIn) (pool : Mempool)
    → IsConsistent pool
    → spends out vin ≡ true
    → find out (remove_copies vin pool).map_prev_out ≡ none
unfolding remove_copies spends
remove_copies-frees out [] pool h s = cc
remove_copies-frees out (input ∷ vin) pool h s =
    let owner = find input.prevout pool.map_prev_out in
    elim (Bool-cases (outpoint_eq out input.prevout)) [
      | inl here ↦
          let same = (outpoint_eq_iff out input.prevout).0 here in
          remove_copies-keeps_free out vin (remove_owner owner pool)
            (rw same (remove_owner-frees input.prevout owner pool h refl))
      | inr there ↦
          remove_copies-frees out vin (remove_owner owner pool)
            (remove_owner-IsConsistent owner pool h) (ground (arith, there, s))
    ]

erase_prev_outs-none :
    (txid : U256) (vin : List TxIn) (m : StdMap OutPoint U256)
    → compares_again vin m ≡ false
    → erase_prev_outs txid vin m ≡ m
unfolding compares_again erase_prev_outs contains is_owner
erase_prev_outs-none txid [] m h = refl
erase_prev_outs-none txid (input ∷ vin) m h = elim (Option-cases (find input.prevout m)) [
  | inl absent ↦ rw absent (erase_prev_outs-none txid vin m (ground (arith, absent)))
  | inr (other, found) ↦ absurd (ground (arith, found))
]

-- Where the reference is good, it does not matter that it is one.
erase_prev_outs_at-same :
    (at : OutPoint) (txid : U256) (vin : List TxIn) (m m' : StdMap OutPoint U256)
    → erase_prev_outs_at at txid vin m ≡ some m'
    → m' ≡ erase_prev_outs txid vin m
unfolding erase_prev_outs_at erase_prev_outs
erase_prev_outs_at-same at txid [] m m' e = sym (some_injective e)
erase_prev_outs_at-same at txid (input ∷ vin) m m' e =
    let owner = is_owner txid (find input.prevout m) in
    let n = if owner then erase input.prevout m else m in
    elim (Bool-cases (owner && outpoint_eq input.prevout at)) [
      | inr other ↦ erase_prev_outs_at-same at txid vin n m' (rw other at e)
      | inl here ↦
          let e' = rw here at e in
          elim (Bool-cases (compares_again vin n)) [
            | inl again ↦ absurd (ground (arith, again))
            | inr done ↦
                let last : some n ≡ some m' = ground (arith, done) in
                sym (some_injective last) ∙ sym (erase_prev_outs-none txid vin n done)
          ]
    ]

remove_owner_at-same :
    (at : OutPoint) (o : Option U256) (pool pool' : Mempool)
    → remove_owner_at at o pool ≡ some pool'
    → pool' ≡ remove_owner o pool
unfolding remove_owner_at remove_owner remove_tx remove_entry_at
remove_owner_at-same at none pool pool' e = sym (some_injective e)
remove_owner_at-same at (some txid) pool pool' e = by_entry (find txid pool.map_tx) e
  where
    by_entry :
        (o : Option Entry)
        → remove_entry_at at txid o pool ≡ some pool'
        → pool' ≡ remove_entry txid o pool
    by_entry none q = unfold remove_entry_at remove_entry in sym (some_injective q)
    by_entry (some e) q =
        elim (Option-cases (erase_prev_outs_at at txid e.tx.vin pool.map_prev_out)) [
          | inl bad ↦ absurd (let q' = rw (remove_entry_at, bad) at q in cc)
          | inr (m, good) ↦
              let q' = rw (remove_entry_at, good) at q in
              let same = erase_prev_outs_at-same at txid e.tx.vin pool.map_prev_out m good in
              unfold remove_entry in rw (← same) (sym (some_injective q'))
        ]

remove_conflicting-same :
    (vin : List TxIn) (pool pool' : Mempool)
    → remove_conflicting vin pool ≡ some pool'
    → pool' ≡ remove_copies vin pool
unfolding remove_conflicting remove_copies
remove_conflicting-same [] pool pool' e = sym (some_injective e)
remove_conflicting-same (input ∷ vin) pool pool' e =
    let owner = find input.prevout pool.map_prev_out in
    elim (Option-cases (remove_owner_at input.prevout owner pool)) [
      | inl bad ↦ absurd (let e' = rw (remove_conflicting, bad) at e in cc)
      | inr (next, good) ↦
          let e' = rw (remove_conflicting, good) at e in
          let same = remove_owner_at-same input.prevout owner pool next good in
          rw same at (remove_conflicting-same vin next pool' e')
    ]

-- Each transaction of the mempool has one input.
abbrev pub HasOneInput : Mempool → Type 0
HasOneInput pool = (txid : U256) (e : Entry) → find txid pool.map_tx ≡ some e → length e.tx.vin ≤ 1

erase_prev_outs_at-one :
    (at : OutPoint) (txid : U256) (vin : List TxIn) (m : StdMap OutPoint U256)
    → length vin ≤ 1
    → (m' : StdMap OutPoint U256) × (erase_prev_outs_at at txid vin m ≡ some m')
unfolding erase_prev_outs_at compares_again
erase_prev_outs_at-one at txid [] m h = (m, refl)
erase_prev_outs_at-one at txid (input ∷ []) m h =
    let owner = is_owner txid (find input.prevout m) in
    let n = if owner then erase input.prevout m else m in
    elim (Bool-cases (owner && outpoint_eq input.prevout at)) [
      | inl here ↦ (n, rw here refl)
      | inr other ↦ (n, rw other refl)
    ]
erase_prev_outs_at-one at txid (input ∷ next ∷ vin) m h = absurd (omega arith)

remove_owner_at-one :
    (at : OutPoint) (o : Option U256) (pool : Mempool)
    → HasOneInput pool
    → (pool' : Mempool) × (remove_owner_at at o pool ≡ some pool')
unfolding remove_owner_at remove_entry_at
remove_owner_at-one at none pool h = (pool, refl)
remove_owner_at-one at (some txid) pool h = by_entry (find txid pool.map_tx) refl
  where
    by_entry :
        (o : Option Entry)
        → find txid pool.map_tx ≡ o
        → (pool' : Mempool) × (remove_entry_at at txid o pool ≡ some pool')
    by_entry none q = unfold remove_entry_at in (pool, refl)
    by_entry (some e) q =
        let (m, good) = erase_prev_outs_at-one at txid e.tx.vin pool.map_prev_out (h txid e q) in
        (
          record { map_tx = erase txid pool.map_tx; map_prev_out = m },
          rw (remove_entry_at, good) refl,
        )

remove_owner-HasOneInput :
    (o : Option U256) (pool : Mempool) → HasOneInput pool → HasOneInput (remove_owner o pool)
unfolding remove_owner remove_tx remove_entry
remove_owner-HasOneInput none pool h = h
remove_owner-HasOneInput (some txid) pool h = by_entry (find txid pool.map_tx)
  where
    by_entry : (o : Option Entry) → HasOneInput (remove_entry txid o pool)
    by_entry none = h
    by_entry (some e) = λ other f q. h other f (ground (arith, find-erase txid other pool.map_tx))

remove_conflicting-one :
    (vin : List TxIn) (pool : Mempool)
    → HasOneInput pool
    → (pool' : Mempool) × (remove_conflicting vin pool ≡ some pool')
unfolding remove_conflicting
remove_conflicting-one [] pool h = (pool, refl)
remove_conflicting-one (input ∷ vin) pool h =
    let owner = find input.prevout pool.map_prev_out in
    let (next, good) = remove_owner_at-one input.prevout owner pool h in
    let same = remove_owner_at-same input.prevout owner pool next good in
    let kept : HasOneInput next = rw same (remove_owner-HasOneInput owner pool h) in
    let (last, rest) = remove_conflicting-one vin next kept in
    (last, rw (remove_conflicting, good) rest)

-- What is left when no reference was bad.
conflict_free :
    (tx : Tx) (pool : Mempool)
    → IsConsistent pool
    → (out : OutPoint) (txid : U256) (e : Entry)
    → find txid (remove_copies tx.vin pool).map_tx ≡ some e
    → spends out tx.vin ≡ true
    → spends out e.tx.vin ≡ false
conflict_free tx pool h out txid e found s = elim (Bool-cases (spends out e.tx.vin)) [
  | inl spent ↦
      let named = (remove_copies-IsConsistent tx.vin pool h).1 out txid e found spent in
      let free = remove_copies-frees out tx.vin pool h s in absurd (cc)
  | inr free ↦ free
]

-- On a consistent mempool, where RemoveConflicts does not read an identifier that it has erased, it
-- keeps the maps consistent, and no transaction that it leaves spends an outpoint that tx spends. If
-- each transaction of the mempool has one input, it reads no such identifier.
pub remove_conflicts_lem :
    (tx : Tx) (pool : Mempool)
    → IsConsistent pool
    → ((pool' : Mempool)
        → remove_conflicts tx pool ≡ some pool'
        → IsConsistent pool'
          × ((out : OutPoint) (txid : U256) (e : Entry)
              → find txid pool'.map_tx ≡ some e
              → spends out tx.vin ≡ true
              → spends out e.tx.vin ≡ false))
      × (HasOneInput pool → (pool' : Mempool) × (remove_conflicts tx pool ≡ some pool'))
remove_conflicts_lem tx pool h = (
  λ pool' e.
      let same = remove_conflicting-same tx.vin pool pool' e in
      rw same (remove_copies-IsConsistent tx.vin pool h, conflict_free tx pool h),
  λ one. remove_conflicting-one tx.vin pool one,
)

module _ (ssl : Openssl) where
  -- A transaction that CheckTx accepts spends nothing that a transaction of a consistent mempool
  -- spends, pays a fee of at least 100, and AddUnchecked of it keeps the maps consistent.
  pub check_tx-add_unchecked :
      (tx : Tx) (pool : Mempool) (view : CoinsView) (height : ℕ) (fee now : ℤ)
      → IsConsistent pool
      → check_tx ssl tx pool view height ≡ ok fee
      → IsConsistent (add_unchecked ssl tx fee height now pool).0
        × (pos 100 ≤ℤ fee)
        × ((out : OutPoint) (txid : U256) (e : Entry)
            → find txid pool.map_tx ≡ some e
            → spends out tx.vin ≡ true
            → spends out e.tx.vin ≡ false)
  unfolding check_tx
  check_tx-add_unchecked tx pool view height fee now h e =
      let (_, e1) = fail_if-then (is_coinbase tx) _ _ e in
      let (_, _, e2) = >>=-eq-ok (as_mempool (check_transaction tx)) _ e1 in
      let (fresh, e3) = fail_if-then (has_double_spend tx.vin pool) _ _ e2 in
      let (paid, _, e4) = >>=-eq-ok (as_mempool (check_tx_inputs ssl tx view height)) _ e3 in
      let (enough, e5) = fail_if-then (ltb_ℤ paid (pos 100)) _ _ e4 in
      let same = ok_injective e5 in
      (
        add_unchecked-IsConsistent ssl tx fee height now pool fresh h,
        rw (← same) (at_least paid enough),
        λ out txid entry found s. apart out txid entry found s fresh,
      )
    where
      at_least : (z : ℤ) → ltb_ℤ z (pos 100) ≡ false → pos 100 ≤ℤ z
      at_least z p = grind int_laws

      apart :
          (out : OutPoint) (txid : U256) (entry : Entry)
          → find txid pool.map_tx ≡ some entry
          → spends out tx.vin ≡ true
          → has_double_spend tx.vin pool ≡ false
          → spends out entry.tx.vin ≡ false
      apart out txid entry found s fresh = elim (Bool-cases (spends out entry.tx.vin)) [
        | inl spent ↦
            let named = h.1 out txid entry found spent in
            let free = no_double_spend out tx.vin pool fresh s in cc
        | inr free ↦ free
      ]
