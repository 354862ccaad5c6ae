-- ===== src/Merkle/Levels.antt =====
-- The rounds of the merkle tree (src/blockchain/merkle.cpp).
use cdx.Base.{
  length-append, ◌∙◌, ap, ℕ, suc, zero, List, [], ◌∷◌, ◌++◌, ◌≡◌, ◌≤◌, arith, length, ◌+◌, ◌*◌,
  refl,
}
use cdx.Uint256.{U256}
use cdx.Crypto.{Openssl}
use cdx.Merkle.{merkle_parent, next_level, merkle_loop, compute_merkle_root}

module _ (ssl : Openssl) where
  -- The level after k rounds.
  unfoldable pub level_rounds : ℕ → List U256 → List U256
  level_rounds zero level = level
  level_rounds (suc k) level = level_rounds k (next_level ssl level)

  length-next_level : (level : List U256) → 2 * length (next_level ssl level) ≤ length level + 1
  unfolding next_level
  length-next_level [] = omega arith
  length-next_level (a ∷ []) = omega arith
  length-next_level (a ∷ b ∷ level) = omega (arith, length-next_level level)

  next_level-some : (a : U256) (level : List U256) → 1 ≤ length (next_level ssl (a ∷ level))
  unfolding next_level
  next_level-some a [] = omega arith
  next_level-some a (b ∷ level) = omega arith

  -- With as much fuel as hashes, the loop leaves the root as the only hash.
  merkle_loop-level_rounds :
      (fuel : ℕ) (level : List U256)
      → 1 ≤ length level
      → length level ≤ suc fuel
      → (k : ℕ) × (k ≤ fuel) × (level_rounds k level ≡ merkle_loop ssl fuel level ∷ [])
  unfolding level_rounds merkle_loop
  merkle_loop-level_rounds fuel [] some few = absurd (omega arith)
  merkle_loop-level_rounds fuel (a ∷ []) some few = (0, omega arith, unfold merkle_loop in refl)
  merkle_loop-level_rounds zero (a ∷ b ∷ level) some few = absurd (omega arith)
  merkle_loop-level_rounds (suc fuel) (a ∷ b ∷ level) some few =
      let (k, le, e) =
        merkle_loop-level_rounds fuel (next_level ssl (a ∷ b ∷ level))
          (next_level-some a (b ∷ level)) (omega (arith, length-next_level (a ∷ b ∷ level))) in
      (suc k, omega arith, e)

  merkle_loop-fuel :
      (f g : ℕ) (level : List U256)
      → length level ≤ suc f
      → length level ≤ suc g
      → merkle_loop ssl f level ≡ merkle_loop ssl g level
  unfolding merkle_loop
  merkle_loop-fuel f g [] p q = refl
  merkle_loop-fuel f g (a ∷ []) p q = refl
  merkle_loop-fuel zero g (a ∷ b ∷ level) p q = absurd (omega arith)
  merkle_loop-fuel (suc f) zero (a ∷ b ∷ level) p q = absurd (omega arith)
  merkle_loop-fuel (suc f) (suc g) (a ∷ b ∷ level) p q =
      let less = length-next_level (a ∷ b ∷ level) in
      merkle_loop-fuel f g (next_level ssl (a ∷ b ∷ level)) (omega (arith, less))
        (omega (arith, less))

  -- The loop of ComputeMerkleRoot ends: for at least one hash there is a number of rounds, less than
  -- the number of hashes, after which one hash is left, and this is the root.
  pub compute_merkle_root-level_rounds :
      (a : U256) (hashes : List U256)
      → (k : ℕ) × (k ≤ length hashes)
        × (level_rounds k (a ∷ hashes) ≡ compute_merkle_root ssl (a ∷ hashes) ∷ [])
  unfolding compute_merkle_root
  compute_merkle_root-level_rounds a hashes =
      let n = length hashes in
      let (k, le, e) = merkle_loop-level_rounds n (a ∷ hashes) (omega arith) (omega arith) in
      let same = merkle_loop-fuel n (suc n) (a ∷ hashes) (omega arith) (omega arith) in
      (k, le, e ∙ ap (λ r. r ∷ []) same)

  next_level-last :
      (level : List U256) (c : U256) (k : ℕ)
      → length level ≡ 2 * k
      → next_level ssl (level ++ (c ∷ [])) ≡ next_level ssl (level ++ (c ∷ c ∷ []))
  unfolding next_level
  next_level-last [] c k e = refl
  next_level-last (a ∷ []) c k e = absurd (omega arith)
  next_level-last (a ∷ b ∷ level) c zero e = absurd (omega arith)
  next_level-last (a ∷ b ∷ level) c (suc k) e =
      ap (λ l. merkle_parent ssl a b ∷ l) (next_level-last level c k (omega arith))

  -- The last hash of a list of odd length, three or more, may be repeated without a change of the
  -- merkle root.
  pub compute_merkle_root-last :
      (a b : U256) (hashes : List U256) (c : U256) (k : ℕ)
      → length hashes ≡ 2 * k
      → compute_merkle_root ssl (a ∷ b ∷ (hashes ++ (c ∷ [])))
        ≡ compute_merkle_root ssl (a ∷ b ∷ (hashes ++ (c ∷ c ∷ [])))
  unfolding compute_merkle_root merkle_loop
  compute_merkle_root-last a b hashes c k e =
      let one = hashes ++ (c ∷ []) in
      let two = hashes ++ (c ∷ c ∷ []) in
      let next = next_level-last (a ∷ b ∷ hashes) c (suc k) (omega (arith, e)) in
      let less = length-next_level (a ∷ b ∷ two) in
      let len1 = length-append hashes (c ∷ []) in
      let len2 = length-append hashes (c ∷ c ∷ []) in
      ap (merkle_loop ssl (suc (length one))) next
      ∙ merkle_loop-fuel (suc (length one)) (suc (length two)) (next_level ssl (a ∷ b ∷ two))
          (omega (arith, less, len1, len2)) (omega (arith, less, len1, len2))
