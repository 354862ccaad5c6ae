-- ===== src/StdMap/Order.antt =====
-- A map that is written out in the order of its keys and inserted again, entry by entry.
use cdx.Base.{◌∙◌, append_assoc, append-nil, sym, refl, [], ◌∷◌, ◌++◌, ◌≡◌, false, All}
use cdx.StdMap.{Key, StdMap, insert}

module _ {K V : Type 0} ⦃e : Key K⦄ where
  abbrev IsBefore : K → K × V → Type 0
  IsBefore k p = (e.key_eq k p.0 ≡ false) × (e.key_less k p.0 ≡ false)

  -- No key is equal to an earlier key or less than it.
  abbrev pub IsOrdered : StdMap K V → Type 0
  IsOrdered [] = Unit {0}
  IsOrdered ((k, v) ∷ m) =
      All (λ p. (e.key_eq p.0 k ≡ false) × (e.key_less p.0 k ≡ false)) m × IsOrdered m

  -- The loop that inserts the entries of one map into another.
  unfoldable pub insert_all : StdMap K V → StdMap K V → StdMap K V
  insert_all [] m = m
  insert_all ((k, v) ∷ n) m = insert_all n (insert k v m)

  insert-last :
      (k : K) (v : V) (m : StdMap K V) → All (IsBefore k) m → insert k v m ≡ m ++ ((k, v) ∷ [])
  unfolding insert
  insert-last k v [] h = refl
  insert-last k v ((j, w) ∷ m) h = rw (h.0.0, h.0.1, insert-last k v m h.1) refl

  IsOrdered-IsBefore :
      (k : K) (v : V) (done rest : StdMap K V)
      → IsOrdered (done ++ ((k, v) ∷ rest))
      → All (IsBefore k) done
  IsOrdered-IsBefore k v [] rest h = tt
  IsOrdered-IsBefore k v ((j, w) ∷ done) rest h =
      (mid done h.0, IsOrdered-IsBefore k v done rest h.1)
    where
      mid :
          (l : StdMap K V)
          → All (λ p. (e.key_eq p.0 j ≡ false) × (e.key_less p.0 j ≡ false)) (l ++ ((k, v) ∷ rest))
          → (e.key_eq k j ≡ false) × (e.key_less k j ≡ false)
      mid [] q = q.0
      mid (x ∷ l) q = mid l q.1

  insert_all-append :
      (rest done : StdMap K V) → IsOrdered (done ++ rest) → insert_all rest done ≡ done ++ rest
  unfolding insert_all
  insert_all-append [] done h = sym (append-nil done)
  insert_all-append ((k, v) ∷ rest) done h =
      let same = append_assoc done ((k, v) ∷ []) rest in
      rw (insert-last k v done (IsOrdered-IsBefore k v done rest h))
        (insert_all-append rest (done ++ ((k, v) ∷ [])) (rw same h) ∙ same)

  -- Inserting the entries of an ordered map into the empty one gives the map.
  pub insert_all-IsOrdered : (m : StdMap K V) → IsOrdered m → insert_all m [] ≡ m
  insert_all-IsOrdered m h = insert_all-append m [] h
