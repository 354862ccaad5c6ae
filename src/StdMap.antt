-- ===== src/StdMap.antt =====
-- std::map, which the program uses for the UTXO set, the mempool and the block index: the entries
-- in the order of their keys. The interface `Key` is what the key types of the program provide.
pub mod Laws
pub mod Order
use cdx.Base.{Bool, true, false, Option, none, some, List, [], ◌∷◌, ◌≡◌, ◌↔◌, if◌then◌else◌}

pub record Key (K : Type 0) : Type 0 where
  pub key_eq : K → K → Bool
  pub key_less : K → K → Bool
  pub key_eq_iff : (a b : K) → (key_eq a b ≡ true) ↔ (a ≡ b)

abbrev pub StdMap : Type 0 → Type 0 → Type 0
StdMap K V = List (K × V)

module _ {K V : Type 0} ⦃e : Key K⦄ where
  -- find, as the value or none for end()
  unfoldable pub find : K → StdMap K V → Option V
  find k [] = none
  find k ((j, v) ∷ m) = if e.key_eq k j then some v else find k m

  -- count(k) > 0
  unfoldable pub contains : K → StdMap K V → Bool
  unfolding find
  contains k m = elim (find k m) [ none ↦ false | some _ ↦ true ]

  -- m[k] = v
  unfoldable pub insert : K → V → StdMap K V → StdMap K V
  insert k v [] = (k, v) ∷ []
  insert k v ((j, w) ∷ m) =
      if e.key_eq k j
      then (k, v) ∷ m
      else if e.key_less k j
      then (k, v) ∷ (j, w) ∷ m
      else (j, w) ∷ insert k v m

  -- erase(k); a map has at most one entry for a key
  unfoldable pub erase : K → StdMap K V → StdMap K V
  erase k [] = []
  erase k ((j, w) ∷ m) = let rest = erase k m in if e.key_eq k j then rest else (j, w) ∷ rest
