-- ===== src/Chain/Heights.antt =====
-- The active chain and the index of its blocks (src/blockchain/blockchain.h, CChain).
use cdx.Base.{
  zero, length-append, get_elem?-lt, dec_lt, get_elem?-snoc, get_elem?-last, ◌∙◌, sym,
  get_elem?-take, get_elem?, take, length, ℕ, suc, List, [], ◌∷◌, ◌++◌, ◌≡◌, some, none, arith,
}
use cdx.Base.Int.{pos}
use cdx.Uint256.{U256}
use cdx.Utxo.{uint256_key}
use cdx.Chain.{BlockIndex, Chain}
use cdx.StdMap.{insert, find, StdMap}
use cdx.StdMap.Laws.{find-insert}
use cdx.Uint256.Order.{u256_eq_iff}

-- The block at height h of the vector has an index entry with this height, which names the block
-- below it.
abbrev pub HasEntry : StdMap U256 BlockIndex → List U256 → ℕ → U256 → Type 0
HasEntry index by_height h hash =
    (e : BlockIndex) × (find hash index ≡ some e)
    × (e.height ≡ pos h)
    × ((i : ℕ) (prev : U256) → h ≡ suc i → get_elem? by_height i ≡ some prev → e.prev_hash ≡ prev)

abbrev pub IsIndexed : StdMap U256 BlockIndex → List U256 → Type 0
IsIndexed index by_height =
    (h : ℕ) (hash : U256) → get_elem? by_height h ≡ some hash → HasEntry index by_height h hash

-- The vector ends with the tip at the height of the chain, and all its blocks are indexed.
abbrev pub IsActive : Chain → ℕ → Type 0
IsActive c n =
    (c.height ≡ pos n)
    × (length c.by_height ≡ suc n)
    × (get_elem? c.by_height n ≡ some c.tip_hash)
    × IsIndexed c.index c.by_height

pub take-IsIndexed :
    (index : StdMap U256 BlockIndex) (by_height : List U256) (n : ℕ)
    → IsIndexed index by_height
    → IsIndexed index (take n by_height)
take-IsIndexed index by_height n indexed h hash e =
    let (entry, found, at_h, link) = indexed h hash (get_elem?-take n by_height h e) in
    (entry, found, at_h, λ i prev q p. link i prev q (get_elem?-take n by_height i p))

-- The entry of a hash that is new leaves the others.
find-insert_old :
    (index : StdMap U256 BlockIndex) (new hash : U256) (entry old : BlockIndex)
    → find new index ≡ none
    → find hash index ≡ some old
    → find hash (insert new entry index) ≡ some old
find-insert_old index new hash entry old fresh found =
    ground (arith, find-insert new hash entry index, u256_eq_iff hash new)

find-insert_new :
    (index : StdMap U256 BlockIndex) (new : U256) (entry : BlockIndex)
    → find new (insert new entry index) ≡ some entry
find-insert_new index new entry =
    ground (arith, find-insert new new entry index, u256_eq_iff new new)

-- A new block on top of indexed ones.
pub snoc-IsIndexed :
    (index : StdMap U256 BlockIndex) (by_height : List U256) (new : U256) (entry : BlockIndex)
    → find new index ≡ none
    → entry.height ≡ pos (length by_height)
    → ((i : ℕ) (prev : U256)
        → length by_height ≡ suc i
        → get_elem? by_height i ≡ some prev
        → entry.prev_hash ≡ prev)
    → IsIndexed index by_height
    → IsIndexed (insert new entry index) (by_height ++ (new ∷ []))
snoc-IsIndexed index by_height new entry fresh at_top link indexed h hash e =
    elim (dec_lt h (length by_height)) [
      | yes lt ↦
          let (old, found, at_h, below) =
            indexed h hash (sym (get_elem?-snoc by_height new h lt) ∙ e) in
          (
            old,
            find-insert_old index new hash entry old fresh found,
            at_h,
            λ i prev q p. below i prev q (sym (get_elem?-snoc by_height new i (omega arith)) ∙ p),
          )
      | no ge ↦ at_end (
          omega
            (arith, get_elem?-lt (by_height ++ (new ∷ [])) h e, length-append by_height (new ∷ [])))
    ]
  where
    at_end :
        h ≡ length by_height → HasEntry (insert new entry index) (by_height ++ (new ∷ [])) h hash
    at_end top =
        let same : some hash ≡ some new = sym e ∙ (rw top (get_elem?-last by_height new)) in
        let is_new : hash ≡ new = cc in
        (
          entry,
          rw is_new (find-insert_new index new entry),
          rw top at_top,
          λ i prev q p.
              link i prev (sym top ∙ q) (sym (get_elem?-snoc by_height new i (omega arith)) ∙ p),
        )

-- A single block.
pub single-IsIndexed :
    (index : StdMap U256 BlockIndex) (new : U256) (entry : BlockIndex)
    → entry.height ≡ pos 0
    → IsIndexed (insert new entry index) (new ∷ [])
single-IsIndexed index new entry at_bottom zero hash e =
    let same : new ≡ hash = cc in
    (
      entry,
      rw (← same) (find-insert_new index new entry),
      at_bottom,
      λ i prev q p. absurd (omega arith),
    )
single-IsIndexed index new entry at_bottom (suc h) hash e = cc
