-- ===== src/Node/Served.antt =====
-- What the node serves to a peer that synchronises (bin/cdxd.cpp): locators and headers.
use cdx.Base.{
  ◌&&◌, not, true, refl, some_injective, false, if◌then◌else◌, ◌<◌, List, Bool-cases, Bool, sym, ap,
  ◌∙◌, Option-cases, ◌⊎◌, ◌+◌, ◌≤◌, get_elem?, length, arith, ◌≡◌, ℕ, some, zero, suc, [], ◌∷◌, inl,
  inr,
}
use cdx.Base.Int.{ltb_ℤ, ℤ, pos, ◌+ℤ◌}
use cdx.Crypto.{Openssl}
use cdx.Storage.{IsStorage, Storage}
use cdx.Chain.{get_index, hash_at, get_block_hash_by_height, Blockchain, get_block_by_height}
use cdx.Node.Headers.{start_height, handle_get_headers, headers_from}
use cdx.Uint256.{u256_eq, u256_zero, is_zero, U256}
use cdx.Block.{Block, BlockHeader}
use cdx.Consensus.Header.{get_hash}
use cdx.Node.State.{Node, locator_from, chain_locator}
use cdx.Chain.Heights.{IsActive}
use cdx.Bytes.{Bytes}
use cdx.P2p.Server.{send_to, Peer}
use cdx.P2p.Sync.{build_headers_payload, parse_get_headers_payload}
use cdx.Node.Command.{headers_command}

pos_suc : (h : ℕ) → pos h +ℤ pos 1 ≡ pos (suc h)
unfolding ◌+ℤ◌
pos_suc h = ground arith

cons_cases :
    (x hdr : BlockHeader) (b : Bool) (rest : List BlockHeader) (i : ℕ)
    → get_elem? (x ∷ (if b then [] else rest)) i ≡ some hdr
    → ((i ≡ 0) × (x ≡ hdr)) ⊎ ((j : ℕ) × (i ≡ suc j) × (get_elem? rest j ≡ some hdr))
cons_cases x hdr b rest zero e = inl (refl, some_injective e)
cons_cases x hdr true rest (suc i) e = absurd (cc)
cons_cases x hdr false rest (suc i) e = inr (i, refl, e)

module _ (ssl : Openssl) (st : Storage) (store : IsStorage ssl st) where
  block_at :
      (bc : Blockchain st) (h : ℤ) (blk : Block)
      → get_block_by_height st bc h ≡ some blk
      → get_block_hash_by_height st bc h ≡ some (get_hash ssl blk.header)
  unfolding get_block_by_height
  block_at bc h blk e = elim (Option-cases (get_block_hash_by_height st bc h)) [
    | inl absent ↦ absurd (ground (arith, absent))
    | inr (hash, found) ↦
        let read : st.read_block bc.stored hash ≡ some blk = ground (arith, found) in
        found ∙ ap some (sym (store.get_hash-read_block bc.stored hash blk read))
  ]

  headers_from-cons :
      (room h : ℕ) (bc : Blockchain st) (stop : U256) (i : ℕ) (hdr : BlockHeader)
      → get_elem? (headers_from ssl st (suc room) bc stop (pos h)) i ≡ some hdr
      → (blk : Block) × (get_block_by_height st bc (pos h) ≡ some blk)
        × (((i ≡ 0) × (blk.header ≡ hdr))
            ⊎ ((j : ℕ) × (i ≡ suc j)
                × (get_elem? (headers_from ssl st room bc stop (pos (suc h))) j ≡ some hdr)))
  unfolding headers_from
  headers_from-cons room h bc stop i hdr e =
      elim (Option-cases (get_block_by_height st bc (pos h))) [
        | inl absent ↦ absurd (ground (arith, absent))
        | inr (blk, found) ↦ (
          blk,
          found,
          elim (Bool-cases (ltb_ℤ bc.chain.height (pos h))) [
            | inl above ↦ absurd (let e' = rw (headers_from, above) at e in cc)
            | inr below ↦
                let stopped = not (is_zero stop) && u256_eq (get_hash ssl blk.header) stop in
                let cases =
                  cons_cases blk.header hdr stopped
                    (headers_from ssl st room bc stop (pos h +ℤ pos 1)) i
                    (rw (headers_from, below, found) at e) in
                rw (pos_suc h) at cases
          ],
        )
      ]

  -- The i-th header from height h on is that of the block of the active chain at height h + i.
  headers_from-at :
      (room h : ℕ) (bc : Blockchain st) (stop : U256) (i : ℕ) (hdr : BlockHeader)
      → get_elem? (headers_from ssl st room bc stop (pos h)) i ≡ some hdr
      → get_block_hash_by_height st bc (pos (h + i)) ≡ some (get_hash ssl hdr)
  headers_from-at zero h bc stop i hdr e = unfold headers_from in cc
  headers_from-at (suc room) h bc stop i hdr e =
      let (blk, found, cases) = headers_from-cons room h bc stop i hdr e in
      elim cases [
        | inl (first, same) ↦
            let here : h + i ≡ h = omega arith in rw (here, ← same) (block_at bc (pos h) blk found)
        | inr (j, next, later) ↦
            let there : h + i ≡ suc h + j = omega arith in
            rw there (headers_from-at room (suc h) bc stop j hdr later)
      ]

  length-headers_from :
      (room : ℕ) (bc : Blockchain st) (stop : U256) (h : ℤ)
      → length (headers_from ssl st room bc stop h) ≤ room
  unfolding headers_from
  length-headers_from zero bc stop h = omega arith
  length-headers_from (suc room) bc stop h =
      ground (arith, length-headers_from room bc stop (h +ℤ pos 1))

  -- Every height that is left in the chain has a header, if its block can be read, up to the room.
  headers_from_complete :
      (room h n : ℕ) (bc : Blockchain st) (i : ℕ)
      → bc.chain.height ≡ pos n
      → ((k : ℕ) → k ≤ n → (blk : Block) × (get_block_by_height st bc (pos k) ≡ some blk))
      → i < room
      → h + i ≤ n
      → (hdr : BlockHeader) × (get_elem? (headers_from ssl st room bc u256_zero (pos h)) i
          ≡ some hdr)
  unfolding headers_from is_zero
  headers_from_complete zero h n bc i at_n readable lt le = absurd (omega arith)
  headers_from_complete (suc room) h n bc zero at_n readable lt le =
      let (blk, found) = readable h (omega arith) in
      let below : ltb_ℤ bc.chain.height (pos h) ≡ false = rw at_n (ground arith) in
      (blk.header, rw (headers_from, below, found) refl)
  headers_from_complete (suc room) h n bc (suc i) at_n readable lt le =
      let (blk, found) = readable h (omega arith) in
      let below : ltb_ℤ bc.chain.height (pos h) ≡ false = rw at_n (ground arith) in
      let (hdr, later) =
        headers_from_complete room (suc h) n bc i at_n readable (omega arith) (omega arith) in
      (hdr, rw (headers_from, below, found, pos_suc h) later)

  tip_at :
      (bc : Blockchain st) (n : ℕ)
      → IsActive bc.chain n
      → get_block_hash_by_height st bc bc.chain.height ≡ some bc.chain.tip_hash
  unfolding get_block_hash_by_height hash_at
  tip_at bc n (at_n, _, at_tip, _) =
      let low : ltb_ℤ (pos n) (pos 0) ≡ false = ground arith in
      let high : ltb_ℤ (pos n) (pos n) ≡ false = ground arith in rw (at_n, low, high) at_tip

  -- The locator starts at the tip.
  chain_locator-tip :
      (bc : Blockchain st) (n : ℕ)
      → IsActive bc.chain n
      → (rest : List U256) × (chain_locator st bc ≡ bc.chain.tip_hash ∷ rest)
  unfolding chain_locator locator_from
  chain_locator-tip bc n active =
      let low : ltb_ℤ bc.chain.height (pos 0) ≡ false = rw active.0 (ground arith) in
      let found = tip_at bc n active in rw (low, found) (_, refl)

  start_height-tip :
      (ours theirs : Blockchain st) (n m : ℕ)
      → IsActive ours.chain n
      → IsActive theirs.chain m
      → get_elem? ours.chain.by_height m ≡ some theirs.chain.tip_hash
      → start_height ssl st ours (chain_locator st theirs) ≡ pos (suc m)
  unfolding start_height get_index
  start_height-tip ours theirs n m mine peers shared =
      let (rest, at_tip) = chain_locator-tip theirs m peers in
      let (entry, found, at_m, _) = mine.3 m theirs.chain.tip_hash shared in
      rw (at_tip, start_height, found, at_m) (pos_suc m)

  -- HandleGetHeaders answers the locator of a peer whose tip is the block of our active chain at height
  -- m, if all our blocks can be read: one headers message with at most 2000 headers, the i-th of which
  -- is that of our block at height m + 1 + i; and while there is room, every height up to our tip has
  -- its header. The node's state and the peer's stay as they are.
  pub handle_get_headers_lem :
      (s : Node st) (theirs : Blockchain st) (n m : ℕ) (payload : Bytes) (node : Peer)
      → IsActive s.bc.chain n
      → IsActive theirs.chain m
      → get_elem? s.bc.chain.by_height m ≡ some theirs.chain.tip_hash
      → ((k : ℕ) → k ≤ n → (blk : Block) × (get_block_by_height st s.bc (pos k) ≡ some blk))
      → parse_get_headers_payload payload ≡ some (chain_locator st theirs, u256_zero)
      → (out : List BlockHeader) × (handle_get_headers ssl st payload node s ≡ record {
        state = s;
        node = node;
        actions = send_to headers_command (build_headers_payload out) ∷ [];
      })
        × (length out ≤ 2000)
        × ((i : ℕ) (hdr : BlockHeader)
            → get_elem? out i ≡ some hdr
            → get_block_hash_by_height st s.bc (pos (suc m + i)) ≡ some (get_hash ssl hdr))
        × ((i : ℕ) → i < 2000 → suc m + i ≤ n → (hdr : BlockHeader) × (get_elem? out i ≡ some hdr))
  unfolding handle_get_headers
  handle_get_headers_lem s theirs n m payload node mine peers shared readable asked =
      let start = start_height-tip s.bc theirs n m mine peers shared in
      (
        headers_from ssl st 2000 s.bc u256_zero (pos (suc m)),
        rw (handle_get_headers, asked, start) refl,
        length-headers_from 2000 s.bc u256_zero (pos (suc m)),
        λ i hdr e. headers_from-at 2000 (suc m) s.bc u256_zero i hdr e,
        λ i lt le. headers_from_complete 2000 (suc m) n s.bc i mine.0 readable lt le,
      )
