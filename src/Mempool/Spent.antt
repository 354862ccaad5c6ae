-- ===== src/Mempool/Spent.antt =====
-- What a new block has spent leaves the mempool (src/mempool/mempool.cpp, RemoveSpent).
use cdx.Base.{
  true, refl, arith, ◌||◌, if◌then◌else◌, false, ℕ, ◌≡◌, Bool, [], ◌∷◌, List, some, none, Option,
}
use cdx.Utxo.{CoinsView, outpoint_key, uint256_key}
use cdx.Uint256.{u256_eq, U256}
use cdx.Mempool.{
  has_invalid_input, Entry, remove_entry, Mempool, remove_spent, to_remove, remove_tx, remove_all,
}
use cdx.StdMap.{StdMap, find}
use cdx.Mempool.Consistency.{remove_tx-IsConsistent, IsConsistent}
use cdx.Uint256.Order.{u256_eq_iff}
use cdx.StdMap.Laws.{find-erase}

unfoldable listed : U256 → List U256 → Bool
listed txid [] = false
listed txid (id ∷ ids) = u256_eq txid id || listed txid ids

-- A transaction with an input that is no longer spendable is listed for removal.
to_remove-lists :
    (view : CoinsView) (height : ℕ) (txid : U256) (e : Entry) (m : StdMap U256 Entry)
    → find txid m ≡ some e
    → has_invalid_input view height e.tx.vin ≡ true
    → listed txid (to_remove view height m) ≡ true
unfolding to_remove find listed
to_remove-lists view height txid e [] q bad = cc
to_remove-lists view height txid e ((id, e') ∷ m) q bad =
    ground (arith, u256_eq_iff txid id, to_remove-lists view height txid e m)

find-remove_tx :
    (id txid : U256) (pool : Mempool)
    → find id (remove_tx txid pool).map_tx ≡ (if u256_eq id txid then none else find id pool.map_tx)
unfolding remove_tx remove_entry
find-remove_tx id txid pool = go (find txid pool.map_tx) refl
  where
    go :
        (o : Option Entry)
        → find txid pool.map_tx ≡ o
        → find id (remove_entry txid o pool).map_tx
          ≡ (if u256_eq id txid then none else find id pool.map_tx)
    go none q = ground (arith, u256_eq_iff id txid, q)
    go (some e) q = find-erase txid id pool.map_tx

find-remove_all :
    (id : U256) (ids : List U256) (pool : Mempool)
    → find id (remove_all ids pool).map_tx ≡ (if listed id ids then none else find id pool.map_tx)
unfolding remove_all listed
find-remove_all id [] pool = refl
find-remove_all id (txid ∷ ids) pool =
    ground (arith, find-remove_all id ids (remove_tx txid pool), find-remove_tx id txid pool)

remove_all-IsConsistent :
    (ids : List U256) (pool : Mempool) → IsConsistent pool → IsConsistent (remove_all ids pool)
unfolding remove_all
remove_all-IsConsistent [] pool h = h
remove_all-IsConsistent (txid ∷ ids) pool h =
    remove_all-IsConsistent ids (remove_tx txid pool) (remove_tx-IsConsistent txid pool h)

-- RemoveSpent keeps the maps of a consistent mempool consistent, adds no transaction, and each
-- transaction that it leaves has for every input a coin of the view that is spendable at the height.
pub remove_spent_lem :
    (view : CoinsView) (height : ℕ) (pool : Mempool)
    → IsConsistent pool
    → IsConsistent (remove_spent view height pool).0
      × ((txid : U256) (e : Entry)
          → find txid (remove_spent view height pool).0.map_tx ≡ some e
          → (find txid pool.map_tx ≡ some e) × (has_invalid_input view height e.tx.vin ≡ false))
unfolding remove_spent
remove_spent_lem view height pool h =
    (remove_all-IsConsistent ids pool h, λ txid e q. left txid e q)
  where
    ids : List U256
    ids = to_remove view height pool.map_tx

    left :
        (txid : U256) (e : Entry)
        → find txid (remove_all ids pool).map_tx ≡ some e
        → (find txid pool.map_tx ≡ some e) × (has_invalid_input view height e.tx.vin ≡ false)
    left txid e q =
        ground
          (arith, find-remove_all txid ids pool, to_remove-lists view height txid e pool.map_tx, q)
