-- ===== src/StdMap/Laws.antt =====
-- Lookup after a write and after an erase.
use cdx.Base.{Bool, Option, true, false, none, some, [], ◌∷◌, ◌≡◌, ◌≢◌, if◌then◌else◌, arith, refl}
use cdx.StdMap.{contains, Key, StdMap, find, insert, erase}

module _ {K V : Type 0} ⦃e : Key K⦄ where
  pub find-insert :
      (k j : K) (v : V) (m : StdMap K V)
      → find j (insert k v m) ≡ (if e.key_eq j k then some v else find j m)
  unfolding find insert
  find-insert k j v [] = refl
  find-insert k j v ((i, w) ∷ m) =
      ground (arith, e.key_eq_iff k i, e.key_eq_iff j k, e.key_eq_iff j i, find-insert k j v m)

  pub find-erase :
      (k j : K) (m : StdMap K V) → find j (erase k m) ≡ (if e.key_eq j k then none else find j m)
  unfolding find erase
  find-erase k j [] = ground arith
  find-erase k j ((i, w) ∷ m) =
      ground (arith, e.key_eq_iff k i, e.key_eq_iff j k, e.key_eq_iff j i, find-erase k j m)

module _ {K : Type 0} ⦃e : Key K⦄ where
  pub key_eq_refl : (k : K) → e.key_eq k k ≡ true
  key_eq_refl k = (e.key_eq_iff k k).1 refl

  pub key_eq_ne : (j k : K) → j ≢ k → e.key_eq j k ≡ false
  key_eq_ne j k ne = ground (arith, e.key_eq_iff j k)

module _ {K V : Type 0} ⦃e : Key K⦄ where
  pub contains-find : (k : K) (m : StdMap K V) → contains k m ≡ true → (v : V) × (find k m ≡ some v)
  unfolding contains
  contains-find k m h = go (find k m) refl h
    where
      test : Option V → Bool
      test none = false
      test (some _) = true

      go : (o : Option V) → find k m ≡ o → contains k m ≡ true → (v : V) × (find k m ≡ some v)
      go none p h = ground (arith, p)
      go (some v) p h = (v, p)
