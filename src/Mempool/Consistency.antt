-- ===== src/Mempool/Consistency.antt =====
-- The two maps of the mempool agree (src/mempool/mempool.cpp): its transactions are exactly the
-- spenders that mapPrevOut names, so that no two of them spend one outpoint.
use cdx.Base.{
  inl, inr, Bool-cases, ℕ, false, Option, refl, none, true, arith, ◌&&◌, ◌≡◌, if◌then◌else◌, some,
  [], ◌∷◌, List,
}
use cdx.Utxo.{outpoint_eq_iff, outpoint_key, uint256_key}
use cdx.Mempool.{
  remove_entry, add_unchecked, has_double_spend, remove_tx, Entry, Mempool, insert_prev_outs,
  is_owner, erase_prev_outs,
}
use cdx.Transaction.{Tx, outpoint_eq, TxIn, OutPoint}
use cdx.Uint256.{u256_eq, U256}
use cdx.Consensus.Validation.{spends}
use cdx.StdMap.{contains, insert, erase, find, StdMap}
use cdx.Uint256.Order.{u256_eq_iff}
use cdx.StdMap.Laws.{key_eq_refl, find-erase, find-insert}
use cdx.Crypto.{Openssl}
use cdx.Base.Int.{ℤ}
use cdx.Merkle.{get_tx_id}

-- Each named spender is in the mempool and spends the outpoint, and each transaction of the
-- mempool is the named spender of its inputs.
abbrev pub IsConsistent : Mempool → Type 0
IsConsistent pool =
    ((out : OutPoint) (txid : U256)
      → find out pool.map_prev_out ≡ some txid
      → (e : Entry) × (find txid pool.map_tx ≡ some e) × (spends out e.tx.vin ≡ true))
    × ((out : OutPoint) (txid : U256) (e : Entry)
        → find txid pool.map_tx ≡ some e
        → spends out e.tx.vin ≡ true
        → find out pool.map_prev_out ≡ some txid)

find-insert_prev_outs :
    (out : OutPoint) (txid : U256) (vin : List TxIn) (m : StdMap OutPoint U256)
    → find out (insert_prev_outs txid vin m) ≡ (if spends out vin then some txid else find out m)
unfolding insert_prev_outs spends
find-insert_prev_outs out txid [] m = refl
find-insert_prev_outs out txid (input ∷ vin) m = ground (
  arith,
  find-insert_prev_outs out txid vin (insert input.prevout txid m),
  find-insert input.prevout out txid m,
)

owner_eq : (txid other : U256) → is_owner txid (some other) ≡ true → other ≡ txid
unfolding is_owner
owner_eq txid other h = (u256_eq_iff other txid).0 h

pub owner_self : (txid : U256) → is_owner txid (some txid) ≡ true
unfolding is_owner
owner_self txid = (u256_eq_iff txid txid).1 refl

find-erase_one :
    (out at : OutPoint) (txid : U256) (m : StdMap OutPoint U256)
    → find out (if is_owner txid (find at m) then erase at m else m)
      ≡ (if outpoint_eq out at && is_owner txid (find out m) then none else find out m)
find-erase_one out at txid m = ground (arith, find-erase at out m, outpoint_eq_iff out at)

pub find-erase_prev_outs :
    (out : OutPoint) (txid : U256) (vin : List TxIn) (m : StdMap OutPoint U256)
    → find out (erase_prev_outs txid vin m)
      ≡ (if spends out vin && is_owner txid (find out m) then none else find out m)
unfolding erase_prev_outs spends is_owner
find-erase_prev_outs out txid [] m = refl
find-erase_prev_outs out txid (input ∷ vin) m =
    let m' = if is_owner txid (find input.prevout m) then erase input.prevout m else m in
    ground (arith, find-erase_prev_outs out txid vin m', find-erase_one out input.prevout txid m)

pub no_double_spend :
    (out : OutPoint) (vin : List TxIn) (pool : Mempool)
    → has_double_spend vin pool ≡ false
    → spends out vin ≡ true
    → find out pool.map_prev_out ≡ none
unfolding has_double_spend spends contains
no_double_spend out [] pool h s = cc
no_double_spend out (input ∷ vin) pool h s =
    ground (arith, outpoint_eq_iff out input.prevout, no_double_spend out vin pool)

absent : (txid : U256) (m : StdMap U256 Entry) → contains txid m ≡ false → find txid m ≡ none
unfolding contains
absent txid m h = ground arith

-- The maps after a new transaction.
new_spender :
    (tx : Tx) (entry : Entry) (pool : Mempool) (txid : U256)
    → has_double_spend tx.vin pool ≡ false
    → entry.tx ≡ tx
    → IsConsistent pool
    → contains txid pool.map_tx ≡ false
    → (out : OutPoint) (id : U256)
    → find out (insert_prev_outs txid tx.vin pool.map_prev_out) ≡ some id
    → (e : Entry) × (find id (insert txid entry pool.map_tx) ≡ some e)
      × (spends out e.tx.vin ≡ true)
new_spender tx entry pool txid fresh same h new out id q =
    let after = find-insert_prev_outs out txid tx.vin pool.map_prev_out in
    elim (Bool-cases (spends out tx.vin)) [
      | inl spent ↦
          let same_id : id ≡ txid = ground (arith, after) in
          (
            entry,
            rw (find-insert txid id entry pool.map_tx, same_id, key_eq_refl txid) refl,
            rw same spent,
          )
      | inr free ↦
          let (e, p, s) = h.0 out id (ground (arith, after)) in
          let gone = absent txid pool.map_tx new in
          let differ : u256_eq id txid ≡ false = ground (arith, u256_eq_iff id txid) in
          (e, rw (find-insert txid id entry pool.map_tx, differ) p, s)
    ]

new_entry :
    (tx : Tx) (entry : Entry) (pool : Mempool) (txid : U256)
    → has_double_spend tx.vin pool ≡ false
    → entry.tx ≡ tx
    → IsConsistent pool
    → contains txid pool.map_tx ≡ false
    → (out : OutPoint) (id : U256) (e : Entry) → find id (insert txid entry pool.map_tx) ≡ some e
    → spends out e.tx.vin ≡ true
    → find out (insert_prev_outs txid tx.vin pool.map_prev_out) ≡ some id
new_entry tx entry pool txid fresh same h new out id e q s =
    let inserted = find-insert txid id entry pool.map_tx in
    let after = find-insert_prev_outs out txid tx.vin pool.map_prev_out in
    elim (Bool-cases (u256_eq id txid)) [
      | inl equal ↦
          let same_id = (u256_eq_iff id txid).0 equal in
          let same_entry : entry ≡ e = ground (arith, inserted) in
          let spent : spends out tx.vin ≡ true = rw (← same, same_entry) s in
          rw (after, spent, same_id) refl
      | inr differ ↦
          let found : find id pool.map_tx ≡ some e = ground (arith, inserted) in
          let named = h.1 out id e found s in
          let free : spends out tx.vin ≡ false = elim (Bool-cases (spends out tx.vin)) [
            | inl spent ↦ let none_there = no_double_spend out tx.vin pool fresh spent in cc
            | inr free ↦ free
          ] in
          rw (after, free) named
    ]

module _ (ssl : Openssl) where
  pub add_unchecked-IsConsistent :
      (tx : Tx) (fee : ℤ) (height : ℕ) (now : ℤ) (pool : Mempool)
      → has_double_spend tx.vin pool ≡ false
      → IsConsistent pool
      → IsConsistent (add_unchecked ssl tx fee height now pool).0
  unfolding add_unchecked
  add_unchecked-IsConsistent tx fee height now pool fresh h =
      elim (Bool-cases (contains (get_tx_id ssl tx) pool.map_tx)) [
        | inl known ↦ rw known h
        | inr new ↦
            rw new
              (new_spender tx _ pool _ fresh refl h new, new_entry tx _ pool _ fresh refl h new)
      ]

kept :
    (out : OutPoint) (txid other : U256) (vin : List TxIn) (m : StdMap OutPoint U256)
    → find out (erase_prev_outs txid vin m) ≡ some other
    → (find out m ≡ some other) × ((spends out vin && u256_eq other txid) ≡ false)
unfolding is_owner
kept out txid other vin m q = ground (arith, find-erase_prev_outs out txid vin m)

still :
    (out : OutPoint) (txid other : U256) (vin : List TxIn) (m : StdMap OutPoint U256)
    → u256_eq other txid ≡ false
    → find out m ≡ some other
    → find out (erase_prev_outs txid vin m) ≡ some other
unfolding is_owner
still out txid other vin m differ q = ground (arith, find-erase_prev_outs out txid vin m)

-- RemoveTx keeps the maps consistent.
pub remove_tx-IsConsistent :
    (txid : U256) (pool : Mempool) → IsConsistent pool → IsConsistent (remove_tx txid pool)
unfolding remove_tx remove_entry
remove_tx-IsConsistent txid pool h = go (find txid pool.map_tx) refl
  where
    go : (o : Option Entry) → find txid pool.map_tx ≡ o → IsConsistent (remove_entry txid o pool)
    go none e = h
    go (some e) p = (
      λ out other q.
          let (found, apart) = kept out txid other e.tx.vin pool.map_prev_out q in
          let (e', p', s') = h.0 out other found in
          let differ : u256_eq other txid ≡ false = ground (arith, u256_eq_iff other txid) in
          (e', rw (find-erase txid other pool.map_tx, differ) p', s'),
      λ out other e' p' s'.
          let erased = find-erase txid other pool.map_tx in
          let differ : u256_eq other txid ≡ false = ground (arith, erased) in
          let named = h.1 out other e' (ground (arith, erased)) s' in
          still out txid other e.tx.vin pool.map_prev_out differ named,
    )
