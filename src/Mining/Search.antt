-- ===== src/Mining/Search.antt =====
-- The nonce that MineBlockHeader finds (src/mining/pow.cpp).
use cdx.Base.{
  Option, ap, refl, dec_lt, length-append, ◌^◌, append_assoc, sym, ◌+◌, ◌≤◌, Bool-cases, ◌<◌,
  length, take-append, ℕ, suc, zero, ◌++◌, ◌≡◌, some, none, arith, inl, inr, true, false, Bool,
}
use cdx.Uint256.{is_zero, less_eq, U256}
use cdx.Block.{serialize_header, BlockHeader}
use cdx.Crypto.{sha256d, Openssl}
use cdx.Mining.{with_nonce, set_nonce, mine_block_header, mine_loop}
use cdx.Bytes.{length-le_bytes, to_bits, Bytes}
use cdx.Serializer.{write_u32, write_uint256}
use cdx.Consensus.Difficulty.{target_from_bits, check_proof_of_work}
use cdx.Consensus.Header.{get_hash}
use cdx.Uint256.Bytes.{length-get_bytes_le}

-- The bytes in front of the nonce.
header_front : BlockHeader → Bytes
header_front h =
    write_u32 (to_bits 32 h.version)
    ++ (write_uint256 h.prev_block_hash
        ++ (write_uint256 h.merkle_root ++ (write_u32 h.timestamp ++ write_u32 h.bits)))

serialize_header-front :
    (h : BlockHeader) → serialize_header h ≡ header_front h ++ write_u32 h.nonce
unfolding serialize_header header_front
serialize_header-front h = simp append_assoc refl

length-header_front : (h : BlockHeader) → length (header_front h) ≡ 76
unfolding header_front write_uint256
length-header_front h = simp (length-append, length-le_bytes, length-get_bytes_le) (omega arith)

-- Bytes 76 to 79 of a serialized header are its nonce.
set_nonce-serialize_header :
    (h : BlockHeader) (n : ℕ)
    → set_nonce (serialize_header h) n ≡ serialize_header (record h { nonce = n })
unfolding set_nonce header_front
set_nonce-serialize_header h n =
    let cut = take-append (header_front h) (write_u32 h.nonce) in
    let cut' = rw (length-header_front h) at cut in
    rw (serialize_header-front h, cut') (sym (serialize_header-front (record h { nonce = n })))

module _ (ssl : Openssl) (stop : ℕ → Bool) (target : U256) (hdr : Bytes) where
  abbrev IsGood : ℕ → Type 0
  IsGood n = less_eq (sha256d ssl (set_nonce hdr n)) target ≡ true

  mine_loop-IsGood : (fuel k m : ℕ) → mine_loop ssl stop target hdr fuel k ≡ some m → IsGood m
  unfolding mine_loop
  mine_loop-IsGood zero k m e = cc
  mine_loop-IsGood (suc fuel) k m e = elim (Bool-cases (stop k)) [
    | inl halted ↦ let e' = rw (mine_loop, halted) at e in cc
    | inr on ↦ elim (Bool-cases (less_eq (sha256d ssl (set_nonce hdr k)) target)) [
      | inl good ↦
          let e' = rw (mine_loop, on, good) at e in let same : k ≡ m = cc in rw (← same) good
      | inr bad ↦ mine_loop-IsGood fuel (k + 1) m (rw (mine_loop, on, bad) at e)
    ]
  ]

  mine_loop-finds :
      (fuel k n : ℕ)
      → k ≤ n
      → n < fuel + k
      → ((i : ℕ) → i ≤ n → stop i ≡ false)
      → IsGood n
      → (m : ℕ) × (mine_loop ssl stop target hdr fuel k ≡ some m) × (m ≤ n)
  unfolding mine_loop
  mine_loop-finds zero k n lo hi going good = absurd (omega arith)
  mine_loop-finds (suc fuel) k n lo hi going good =
      let on : stop k ≡ false = going k lo in
      elim (Bool-cases (less_eq (sha256d ssl (set_nonce hdr k)) target))
        as (λ x. (m : ℕ) × (mine_loop ssl stop target hdr (suc fuel) k ≡ some m) × (m ≤ n)) [
          | inl found ↦ (k, rw (mine_loop, on, found) refl, lo)
          | inr bad ↦
              let later : k + 1 ≤ n = elim (dec_lt k n) [
                | yes lt ↦ omega arith
                | no ge ↦ let same : k ≡ n = omega arith in let bad' = rw same at bad in cc
              ] in
              let (m, e, le) = mine_loop-finds fuel (k + 1) n later (omega arith) going good in
              (m, rw (mine_loop, on, bad) e, le)
        ]

module _ (ssl : Openssl) where
  no_target :
      (hash : U256) (bits : ℕ)
      → is_zero (target_from_bits bits) ≡ true
      → check_proof_of_work hash bits ≡ false
  unfolding check_proof_of_work
  no_target hash bits z = rw z refl

  below_target :
      (hash : U256) (bits : ℕ)
      → is_zero (target_from_bits bits) ≡ false
      → check_proof_of_work hash bits ≡ less_eq hash (target_from_bits bits)
  unfolding check_proof_of_work
  below_target hash bits z = rw z refl

  get_hash-set_nonce :
      (h : BlockHeader) (n : ℕ)
      → sha256d ssl (set_nonce (serialize_header h) n) ≡ get_hash ssl (record h { nonce = n })
  unfolding get_hash
  get_hash-set_nonce h n = ap (sha256d ssl) (set_nonce-serialize_header h n)

  found-good :
      (header : BlockHeader) (bits : ℕ) (stop : ℕ → Bool) (o : Option ℕ)
      → is_zero (target_from_bits bits) ≡ false
      → mine_loop ssl stop
          (target_from_bits bits)
          (serialize_header (record header { bits = bits }))
          (2 ^ 32)
          0
        ≡ o
      → (with_nonce ssl (record header { bits = bits }) o).1 ≡ true
      → (nonce : ℕ) × ((with_nonce ssl (record header { bits = bits }) o).0
          ≡ record header { bits = bits; nonce = nonce })
        × (check_proof_of_work
              (get_hash ssl (with_nonce ssl (record header { bits = bits }) o).0)
              bits
            ≡ true)
  unfolding with_nonce
  found-good header bits stop none some_target q e = cc
  found-good header bits stop (some m) some_target q e =
      let good = mine_loop-IsGood ssl stop (target_from_bits bits) _ (2 ^ 32) 0 m q in
      let good' = rw (get_hash-set_nonce (record header { bits = bits }) m) at good in
      (m, refl, rw (below_target _ bits some_target) good')

  -- If MineBlockHeader succeeds, the header that it leaves differs from the one it was given in its
  -- nonce and its bits only, has the bits that were asked for, and passes CheckProofOfWork.
  pub mine_block_header-good :
      (header : BlockHeader) (bits : ℕ) (stop : ℕ → Bool)
      → (mine_block_header ssl header bits stop).1 ≡ true
      → (nonce : ℕ) × ((mine_block_header ssl header bits stop).0
          ≡ record header { bits = bits; nonce = nonce })
        × (check_proof_of_work (get_hash ssl (mine_block_header ssl header bits stop).0) bits
            ≡ true)
  unfolding mine_block_header
  mine_block_header-good header bits stop e = elim (Bool-cases (is_zero (target_from_bits bits))) [
    | inl none_left ↦ let e' = rw (mine_block_header, none_left) at e in cc
    | inr some_target ↦
        rw (mine_block_header, some_target)
          (found-good header bits stop _ some_target refl
            (rw (mine_block_header, some_target) at e))
  ]

  -- If some nonce below 2 ^ 32 makes the hash of the header, with the bits that were asked for, pass
  -- CheckProofOfWork, and the stop flag is not raised up to that nonce, then MineBlockHeader ends with
  -- success, with a nonce that is at most that one.
  pub mine_block_header-finds :
      (header : BlockHeader) (bits : ℕ) (stop : ℕ → Bool) (n : ℕ)
      → n < 2 ^ 32
      → ((i : ℕ) → i ≤ n → stop i ≡ false)
      → check_proof_of_work (get_hash ssl (record header { bits = bits; nonce = n })) bits ≡ true
      → ((mine_block_header ssl header bits stop).1 ≡ true)
        × ((mine_block_header ssl header bits stop).0.nonce ≤ n)
  unfolding mine_block_header with_nonce
  mine_block_header-finds header bits stop n lt going good =
      elim (Bool-cases (is_zero (target_from_bits bits))) [
        | inl none_left ↦
            let none_good =
              no_target (get_hash ssl (record header { bits = bits; nonce = n })) bits none_left in
            absurd (ground (arith, none_good, good))
        | inr some_target ↦
            let hash_eq = get_hash-set_nonce (record header { bits = bits }) n in
            let good' = rw (below_target _ bits some_target, ← hash_eq) at good in
            let (m, e, le) =
              mine_loop-finds ssl stop (target_from_bits bits)
                (serialize_header (record header { bits = bits })) (2 ^ 32) 0 n (omega arith)
                (omega arith) going good' in
            rw (mine_block_header, some_target, e) (refl, le)
      ]
