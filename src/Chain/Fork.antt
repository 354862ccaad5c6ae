-- ===== src/Chain/Fork.antt =====
-- What TryAcceptBlock reads and checks for a reorganisation (src/blockchain/reorg.cpp).
use cdx.Base.{
  none, drop-cons, inl, inr, ◌+◌, Option-cases, drop, Option, take, map, ap, refl, length,
  get_elem?, ℕ, suc, zero, List, [], ◌∷◌, ◌++◌, ◌≡◌, some, arith,
}
use cdx.Base.Int.{int_laws, pos, ◌≤ℤ◌, ◌+ℤ◌}
use cdx.Uint256.{U256}
use cdx.Utxo.{total_value, CoinsView, uint256_key}
use cdx.Result.{>>=-eq-ok, ok_injective, Result, ok, err}
use cdx.Chain.{read_found, hash_at, get_block_hash_by_height, get_block_by_height, Blockchain}
use cdx.Chain.Reorg.{some_blocks, validate_fork, read_chain, as_fork_block, as_fork_header}
use cdx.Crypto.{Openssl}
use cdx.Block.{BlockHeader, Block}
use cdx.Storage.{IsStorage, Storage}
use cdx.Consensus.Header.{check_block_header, get_hash, HeaderError}
use cdx.Consensus.Validation.{check_block, Error}
use cdx.Params.{ChainParams}
use cdx.Consensus.Rewards.Supply.{subsidies}
use cdx.Utxo.Value.{IsNonneg}
use cdx.Consensus.Header.Work.{check_block_header-link}
use cdx.Consensus.Validation.Supply.{check_block_supply}

-- The last of a list of hashes, or the hash before it.
unfoldable pub last_hash : U256 → List U256 → U256
last_hash d [] = d
last_hash d (x ∷ xs) = last_hash x xs

pub last_hash-get_elem? :
    (d : U256) (xs : List U256) → get_elem? (d ∷ xs) (length xs) ≡ some (last_hash d xs)
unfolding last_hash
last_hash-get_elem? d [] = refl
last_hash-get_elem? d (x ∷ xs) = last_hash-get_elem? x xs

pub as_fork_header-ok :
    {A : Type 0} {a : A} (r : Result HeaderError A) → as_fork_header r ≡ ok a → r ≡ ok a
unfolding as_fork_header
as_fork_header-ok (ok a) e = ap ok (ok_injective e)
as_fork_header-ok (err x) e = cc

pub as_fork_block-ok : {A : Type 0} {a : A} (r : Result Error A) → as_fork_block r ≡ ok a → r ≡ ok a
unfolding as_fork_block
as_fork_block-ok (ok a) e = ap ok (ok_injective e)
as_fork_block-ok (err x) e = cc

pub some_blocks-ok :
    {blks : List Block} (o : Option (List Block)) → some_blocks o ≡ ok blks → o ≡ some blks
unfolding some_blocks
some_blocks-ok none e = cc
some_blocks-ok (some l) e = ap some (ok_injective e)

module _ (ssl : Openssl) where
  abbrev pub hash_of : Block → U256
  hash_of blk = get_hash ssl blk.header

module _ (ssl : Openssl) (st : Storage) (params : ChainParams) (store : IsStorage ssl st) where
  -- The block at a height has the hash of that height.
  pub get_block_by_height-hash :
      (bc : Blockchain st) (h : ℕ) (blk : Block)
      → get_block_by_height st bc (pos h) ≡ some blk
      → get_elem? bc.chain.by_height h ≡ some (hash_of ssl blk)
  unfolding get_block_by_height get_block_hash_by_height hash_at
  get_block_by_height-hash bc h blk e =
      elim (Option-cases (get_block_hash_by_height st bc (pos h))) [
        | inl gone ↦ unfold read_found in cc
        | inr (hash, q) ↦
            let r : st.read_block bc.stored hash ≡ some blk = unfold read_found in cc in
            let same = store.get_hash-read_block bc.stored hash blk r in
            let p : get_elem? bc.chain.by_height h ≡ some hash = ground (arith, q) in rw same p
      ]

  -- The blocks that the loop reads are those of the active chain from height h on.
  pub read_chain_lem :
      (n h : ℕ) (bc : Blockchain st) (blks : List Block)
      → read_chain ssl st params n h bc ≡ some blks
      → (length blks ≡ n) × (map (hash_of ssl) blks ≡ take n (drop h bc.chain.by_height))
  unfolding read_chain
  read_chain_lem zero h bc blks e = let same : [] ≡ blks = cc in rw (← same) (refl, refl)
  read_chain_lem (suc n) h bc blks e = elim (Option-cases (get_block_by_height st bc (pos h))) [
    | inl gone ↦ cc
    | inr (blk, found) ↦ elim (Option-cases (read_chain ssl st params n (h + 1) bc)) [
      | inl gone ↦ cc
      | inr (rest, q) ↦
          let same : blk ∷ rest ≡ blks = cc in
          let (len, hashes) = read_chain_lem n (h + 1) bc rest q in
          let next : h + 1 ≡ suc h = omega arith in
          let front = drop-cons h bc.chain.by_height (get_block_by_height-hash bc h blk found) in
          let all : map (hash_of ssl) rest ≡ take n (drop (suc h) bc.chain.by_height) =
            rw (← next) hashes in
          rw (← same) (omega (arith, len), rw front (ap (λ l. hash_of ssl blk ∷ l) all))
    ]
  ]

module _ (ssl : Openssl) (st : Storage) (params : ChainParams) where
  -- A block that the check of a fork accepts behind others names the last of them.
  pub validate_fork-link :
      (blks : List Block) (blk : Block) (prev : BlockHeader) (h : ℕ) (view view' : CoinsView)
      → validate_fork ssl st params (blks ++ (blk ∷ [])) (some prev) h view ≡ ok view'
      → blk.header.prev_block_hash ≡ last_hash (get_hash ssl prev) (map (hash_of ssl) blks)
  unfolding validate_fork last_hash
  validate_fork-link [] blk prev h view view' e =
      let (_, checked, _) =
        >>=-eq-ok (as_fork_header (check_block_header ssl blk.header (some prev) params)) _ e in
      check_block_header-link ssl blk.header prev params (as_fork_header-ok _ checked)
  validate_fork-link (b ∷ blks) blk prev h view view' e =
      let (_, _, e1) =
        >>=-eq-ok (as_fork_header (check_block_header ssl b.header (some prev) params)) _ e in
      let (checked, _, e2) = >>=-eq-ok (as_fork_block (check_block ssl b h view)) _ e1 in
      validate_fork-link blks blk b.header (h + 1) checked.0 view' e2

  -- The coins behind an accepted fork are worth at most what was there and the subsidies.
  pub validate_fork-supply :
      (blks : List Block) (prev : Option BlockHeader) (h : ℕ) (view view' : CoinsView)
      → IsNonneg view
      → validate_fork ssl st params blks prev h view ≡ ok view'
      → IsNonneg view' × (total_value view' ≤ℤ total_value view +ℤ pos (subsidies h (length blks)))
  unfolding validate_fork subsidies
  validate_fork-supply [] prev h view view' nonneg e =
      let same = ok_injective e in rw (← same) (nonneg, omega int_laws)
  validate_fork-supply (b ∷ blks) prev h view view' nonneg e =
      let (_, _, e1) =
        >>=-eq-ok (as_fork_header (check_block_header ssl b.header prev params)) _ e in
      let (checked, q, e2) = >>=-eq-ok (as_fork_block (check_block ssl b h view)) _ e1 in
      let (nonneg1, grow, _, _) =
        check_block_supply ssl b h view checked.0 checked.1 nonneg (as_fork_block-ok _ q) in
      let (nonneg2, more) =
        validate_fork-supply blks (some b.header) (h + 1) checked.0 view' nonneg1 e2 in
      (nonneg2, omega int_laws)
