-- ===== src/Consensus/Header/Work.antt =====
-- What an accepted header promises (src/consensus/validation.cpp, CheckBlockHeader).
use cdx.Base.{arith, leb, not, ◌^◌, some, ◌<◌, ◌≤◌, ◌≡◌}
use cdx.Result.{fail_if-eq-ok, fail_if-then, ok}
use cdx.Crypto.{sha256d-IsWords, IsOpenssl, Openssl}
use cdx.Consensus.Header.{check_prev, check_block_header, get_hash}
use cdx.Block.{serialize_header, BlockHeader}
use cdx.Params.{ChainParams}
use cdx.Uint256.{u256_eq, to_nat, IsWords}
use cdx.Consensus.Difficulty.{check_proof_of_work, target_from_bits}
use cdx.Consensus.Difficulty.Target.{check_proof_of_work_lem}
use cdx.Uint256.Order.{u256_eq_iff}

module _ (ssl : Openssl) where
  link_lem :
      (header prev : BlockHeader) (params : ChainParams)
      → check_prev ssl header (some prev) params ≡ ok tt
      → (header.prev_block_hash ≡ get_hash ssl prev) × (prev.timestamp < header.timestamp)
  unfolding check_prev
  link_lem header prev params e =
      let (linked, e1) =
        fail_if-then (not (u256_eq header.prev_block_hash (get_hash ssl prev))) _ _ e in
      let later = fail_if-eq-ok (leb header.timestamp prev.timestamp) _ e1 in
      (ground (arith, u256_eq_iff header.prev_block_hash (get_hash ssl prev)), ground arith)

  -- A header that CheckBlockHeader accepts after a previous header carries its hash.
  pub check_block_header-link :
      (header prev : BlockHeader) (params : ChainParams)
      → check_block_header ssl header (some prev) params ≡ ok tt
      → header.prev_block_hash ≡ get_hash ssl prev
  unfolding check_block_header
  check_block_header-link header prev params e =
      (link_lem header prev params
        (fail_if-then (not (check_proof_of_work (get_hash ssl header) header.bits)) _ _ e).1).0

module _ (ssl : Openssl) (sha : IsOpenssl ssl) where
  header-IsWords : (header : BlockHeader) → IsWords (get_hash ssl header)
  unfolding get_hash
  header-IsWords header = sha256d-IsWords ssl sha (serialize_header header)

  -- A header that CheckBlockHeader accepts after a previous header carries the hash of that header
  -- and a later timestamp, and its own hash, as an integer, is at most the target of its bits, which
  -- is not zero.
  pub check_block_header_lem :
      (header prev : BlockHeader) (params : ChainParams)
      → header.bits < 2 ^ 32
      → check_block_header ssl header (some prev) params ≡ ok tt
      → (header.prev_block_hash ≡ get_hash ssl prev)
        × (prev.timestamp < header.timestamp)
        × (0 < to_nat (target_from_bits header.bits))
        × (to_nat (get_hash ssl header) ≤ to_nat (target_from_bits header.bits))
  unfolding check_block_header
  check_block_header_lem header prev params hb e =
      let hw : IsWords (get_hash ssl header) = header-IsWords header in
      let (work, e1) =
        fail_if-then (not (check_proof_of_work (get_hash ssl header) header.bits)) _ _ e in
      let (linked, later) = link_lem ssl header prev params e1 in
      let (some_target, low) =
        (check_proof_of_work_lem (get_hash ssl header) header.bits hw hb).0 (ground arith) in
      (linked, later, some_target, low)
