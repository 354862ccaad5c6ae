-- ===== src/Chain/Errors.antt =====
-- What a call of TryAcceptBlock or AcceptBlock leaves behind when it fails
-- (src/blockchain/reorg.cpp, blockchain.cpp).
use native.Mathlib.Nat.{div-add-mod'}
use cdx.Base.{
  get_elem?, Bool, ◌≢◌, Option-cases, not, false, ◌==◌, get_elem?-ge, true, Bool-cases, refl, ◌⊎◌,
  Option, ◌%◌, ◌+◌, ℕ, suc, List, ◌≡◌, some, none, arith, inl, inr,
}
use cdx.Base.Int.{ℤ, pos}
use cdx.Uint256.{u256_eq}
use cdx.Uint256.Order.{u256_eq_iff}
use cdx.Utxo.{CoinsView, uint256_key}
use cdx.Result.{>>=-eq-err, >>=-eq-err_later, fail_if, Result, ok, err}
use cdx.Chain.{have_block, BlockIndex, Blockchain}
use cdx.Crypto.{Openssl}
use cdx.Storage.{Storage}
use cdx.Params.{ChainParams}
use cdx.Block.{Block}
use cdx.Chain.Accept.{
  Fault, fails, unknown_prev_block, cannot_read_prev, incorrect_bits, as_block, as_header, some_or,
  index_out_of_range, connect_block, accept_checked, interval_start, first_time, ChainError,
  check_accept, accept_block,
}
use cdx.Chain.Reorg.{
  check_fork, rejected, need_sync, add_index_entry, Connected, replace_chain, extended, ReorgError,
  try_child, try_accept_block, fork_checked,
}
use cdx.Consensus.Validation.{check_block, Error}
use cdx.Consensus.Header.{HeaderError, check_block_header, get_hash}
use cdx.Chain.Heights.{IsActive}
use cdx.StdMap.{find}
use cdx.Consensus.Difficulty.{get_next_work_required, next_height}
use cdx.Chain.Steps.{some_or-ok, accept_block-cases, next_height-pos}

module _ (ssl : Openssl) (st : Storage) (params : ChainParams) where
  -- The call has a defined end: a failure that changes nothing, or a state whose tip is the block.
  abbrev pub IsAtomic :
      Block → Blockchain st → Blockchain st × Result (Fault ReorgError) Connected → Type 0
  IsAtomic blk bc (bc', r) =
      ((bc' ≡ bc) × (e : ReorgError) × (r ≡ err (fails e)))
      ⊎ ((bc'.chain.tip_hash ≡ get_hash ssl blk.header) × (c : Connected) × (r ≡ ok c))

  -- The block is on the tip, and the entry of byHeight at which its interval starts is not there.
  abbrev pub IsPastEnd : Block → Blockchain st → Type 0
  IsPastEnd blk bc =
      (prev : BlockIndex) × (find blk.header.prev_block_hash bc.chain.index ≡ some prev)
      × (blk.header.prev_block_hash ≡ bc.chain.tip_hash)
      × (get_elem? bc.chain.by_height (interval_start ssl st params prev.height) ≡ none)

  first_time-past :
      (bc : Blockchain st) (height : ℤ) (time : ℕ) (f : Fault ChainError)
      → first_time ssl st params bc height time ≡ err f
      → get_elem? bc.chain.by_height (interval_start ssl st params height) ≡ none
  unfolding first_time
  first_time-past bc height time f e =
      elim (Option-cases (get_elem? bc.chain.by_height (interval_start ssl st params height))) [
        | inl absent ↦ absent
        | inr (hash, found) ↦ elim (Option-cases (st.read_block bc.stored hash)) [
          | inl gone ↦ absurd (ground (arith, found, gone))
          | inr (blk, read) ↦ absurd (ground (arith, found, read))
        ]
      ]

  some_or-defined :
      {A : Type 0} (e : ChainError) (o : Option A) → some_or e o ≢ err index_out_of_range
  unfolding some_or
  some_or-defined e none h = cc
  some_or-defined e (some a) h = cc

  as_header-defined : {A : Type 0} (r : Result HeaderError A) → as_header r ≢ err index_out_of_range
  unfolding as_header
  as_header-defined (ok a) h = cc
  as_header-defined (err e) h = cc

  as_block-defined : {A : Type 0} (r : Result Error A) → as_block r ≢ err index_out_of_range
  unfolding as_block
  as_block-defined (ok a) h = cc
  as_block-defined (err e) h = cc

  fail_if-defined :
      (b : Bool) (e : ChainError)
      → ◌≢◌ {A = Result (Fault ChainError) (Unit {0})}
          (fail_if b (fails e))
          (err index_out_of_range)
  fail_if-defined true e h = cc
  fail_if-defined false e h = cc

  -- The checks of AcceptBlock read behind the end only in the search for the first time.
  check_accept-past :
      (blk : Block) (height : ℕ) (bc : Blockchain st)
      → check_accept ssl st params blk height bc ≡ err index_out_of_range
      → (prev : BlockIndex) × (find blk.header.prev_block_hash bc.chain.index ≡ some prev)
        × (get_elem? bc.chain.by_height (interval_start ssl st params prev.height) ≡ none)
  unfolding check_accept
  check_accept-past blk height bc e =
      let found = find blk.header.prev_block_hash bc.chain.index in
      let read = st.read_block bc.stored blk.header.prev_block_hash in
      let body = check_block ssl blk height bc.chain.view in
      let (prev, p, e1) =
        >>=-eq-err_later (some_or unknown_prev_block found) _
          (some_or-defined unknown_prev_block found) e in
      let (before, _, e2) =
        >>=-eq-err_later (some_or cannot_read_prev read) _ (some_or-defined cannot_read_prev read)
          e1 in
      let time = before.header.timestamp in
      let header = check_block_header ssl blk.header (some before.header) params in
      let (_, _, e3) = >>=-eq-err_later (as_header header) _ (as_header-defined header) e2 in
      let past : get_elem? bc.chain.by_height (interval_start ssl st params prev.height) ≡ none =
        elim (>>=-eq-err (first_time ssl st params bc prev.height time) _ e3) [
          | inl bad ↦ first_time-past bc prev.height time _ bad
          | inr (first, _, e4) ↦
              let differ = not (
                blk.header.bits
                == get_next_work_required (pos time) prev.height before.header.bits (pos first)
                    params) in
              let (_, _, e5) =
                >>=-eq-err_later (fail_if differ (fails incorrect_bits)) _
                  (fail_if-defined differ incorrect_bits) e4 in
              let (_, _, e6) = >>=-eq-err_later (as_block body) _ (as_block-defined body) e5 in
              absurd (cc)
        ] in
      (prev, some_or-ok unknown_prev_block found p, past)

  accept_block-past :
      (blk : Block) (height : ℕ) (bc : Blockchain st)
      → (accept_block ssl st params blk height bc).1 ≡ err index_out_of_range
      → check_accept ssl st params blk height bc ≡ err index_out_of_range
  unfolding accept_block
  accept_block-past blk height bc = by_check (check_accept ssl st params blk height bc)
    where
      by_check :
          (r : Result (Fault ChainError) (BlockIndex × CoinsView))
          → (accept_checked ssl st params blk height bc r).1 ≡ err index_out_of_range
          → r ≡ err index_out_of_range
      by_check (err f) h = unfold accept_checked in cc
      by_check (ok (prev, view)) h = unfold accept_checked in absurd (cc)

  accept_block-tip :
      (blk : Block) (height : ℕ) (bc : Blockchain st)
      → (accept_block ssl st params blk height bc).1 ≡ ok tt
      → (accept_block ssl st params blk height bc).0.chain.tip_hash ≡ get_hash ssl blk.header
  unfolding accept_block
  accept_block-tip blk height bc = by_check (check_accept ssl st params blk height bc)
    where
      by_check :
          (r : Result (Fault ChainError) (BlockIndex × CoinsView))
          → (accept_checked ssl st params blk height bc r).1 ≡ ok tt
          → (accept_checked ssl st params blk height bc r).0.chain.tip_hash
            ≡ get_hash ssl blk.header
      by_check (err e) h = unfold accept_checked in cc
      by_check (ok (prev, view)) h = unfold accept_checked connect_block in refl

  -- The end of a call, or the read behind the end.
  abbrev IsAtomicOr :
      Type 0 → Block → Blockchain st → Blockchain st × Result (Fault ReorgError) Connected → Type 0
  IsAtomicOr Past blk bc r = IsAtomic blk bc r ⊎ ((r.1 ≡ err index_out_of_range) × Past)

  extended-IsAtomic :
      (blk : Block) (height : ℕ) (bc : Blockchain st)
      → IsAtomicOr (check_accept ssl st params blk height bc ≡ err index_out_of_range) blk bc (
          extended ssl st params
            (get_hash ssl blk.header)
            (accept_block ssl st params blk height bc))
  extended-IsAtomic blk height bc =
      by_result (accept_block ssl st params blk height bc)
        (accept_block-cases ssl st params blk height bc) (accept_block-tip blk height bc)
        (accept_block-past blk height bc)
    where
      by_result :
          (r : Blockchain st × Result (Fault ChainError) (Unit {0}))
          → ((r.0 ≡ bc) × (f : Fault ChainError) × (r.1 ≡ err f)) ⊎ (r.1 ≡ ok tt)
          → (r.1 ≡ ok tt → r.0.chain.tip_hash ≡ get_hash ssl blk.header)
          → (r.1 ≡ err index_out_of_range
              → check_accept ssl st params blk height bc ≡ err index_out_of_range)
          → IsAtomicOr
              (check_accept ssl st params blk height bc ≡ err index_out_of_range)
              blk
              bc
              (extended ssl st params (get_hash ssl blk.header) r)
      by_result (bc', ok _) (inl (same, f, q)) tip past = absurd (cc)
      by_result (bc', ok _) (inr q) tip past = unfold extended in inl (inr (tip refl, _, refl))
      by_result (bc', err (fails e)) (inl (same, _, q)) tip past =
          unfold extended in inl (inl (same, rejected e, refl))
      by_result (bc', err index_out_of_range) (inl (same, _, q)) tip past =
          unfold extended in inr (refl, past refl)
      by_result (bc', err f) (inr q) tip past = absurd (cc)

  fork_checked-IsAtomic :
      (blk : Block) (prev : BlockIndex) (bc : Blockchain st)
      (r : Result ReorgError (List Block × CoinsView))
      → IsAtomic blk bc (fork_checked ssl st params blk prev bc r)
  unfolding fork_checked replace_chain add_index_entry
  fork_checked-IsAtomic blk prev bc (err e) = inl (refl, e, refl)
  fork_checked-IsAtomic blk prev bc (ok (blks, view)) = inr (refl, _, refl)

  child-IsAtomic :
      (blk : Block) (o : Option BlockIndex) (bc : Blockchain st)
      → IsAtomicOr (IsPastEnd blk bc) blk bc (try_child ssl st params blk o bc)
  unfolding try_child
  child-IsAtomic blk none bc = inl (inl (refl, need_sync, refl))
  child-IsAtomic blk (some prev) bc =
      elim (Bool-cases (u256_eq blk.header.prev_block_hash bc.chain.tip_hash))
        as (λ x.
          IsAtomicOr (IsPastEnd blk bc) blk bc (try_child ssl st params blk (some prev) bc)) [
            | inl top ↦ rw top (elim (extended-IsAtomic blk (next_height prev.height) bc) [
              | inl done ↦ inl done
              | inr (r, past) ↦
                  let (p, found, behind) =
                    check_accept-past blk (next_height prev.height) bc past in
                  let at_tip = (u256_eq_iff blk.header.prev_block_hash bc.chain.tip_hash).0 top in
                  inr (r, (p, found, at_tip, behind))
            ])
            | inr side ↦ rw side (inl (fork_checked-IsAtomic blk prev bc _))
          ]

  -- TryAcceptBlock is atomic, up to the read behind the end of byHeight. For a block whose hash is not in
  -- the index yet, either it reports an error and leaves the chain and the storage as they were, or it
  -- succeeds and the block is the new tip, or AcceptBlock reads the entry of byHeight at which the
  -- interval of the block starts, for a block on the tip and where the vector has no such entry, after
  -- which nothing is claimed. For a block that is in the index it succeeds and changes nothing.
  pub try_accept_block-IsAtomic :
      (blk : Block) (bc : Blockchain st)
      → IsAtomic blk bc (try_accept_block ssl st params blk bc)
        ⊎ (((try_accept_block ssl st params blk bc).1 ≡ err index_out_of_range) × IsPastEnd blk bc)
        ⊎ ((have_block st bc (get_hash ssl blk.header) ≡ true)
            × ((try_accept_block ssl st params blk bc).0 ≡ bc)
            × (c : Connected) × ((try_accept_block ssl st params blk bc).1 ≡ ok c))
  unfolding try_accept_block
  try_accept_block-IsAtomic blk bc =
      elim (Bool-cases (have_block st bc (get_hash ssl blk.header))) [
        | inl known ↦ rw known (inr (inr (refl, refl, _, refl)))
        | inr fresh ↦
            rw fresh
              (elim (child-IsAtomic blk (find blk.header.prev_block_hash bc.chain.index) bc) [
                | inl done ↦ inl done
                | inr past ↦ inr (inl past)
              ])
      ]

  child-kept :
      (blk : Block) (o : Option BlockIndex) (bc : Blockchain st) (f : Fault ReorgError)
      → (try_child ssl st params blk o bc).1 ≡ err f
      → (try_child ssl st params blk o bc).0 ≡ bc
  unfolding try_child
  child-kept blk none bc f e = refl
  child-kept blk (some prev) bc f e =
      elim (Bool-cases (u256_eq blk.header.prev_block_hash bc.chain.tip_hash)) [
        | inl top ↦
            let e' = rw top at e in
            rw top (
              on_tip (accept_block ssl st params blk (next_height prev.height) bc)
                (accept_block-cases ssl st params blk (next_height prev.height) bc) e')
        | inr side ↦
            let e' = rw side at e in
            rw side
              (elim (fork_checked-IsAtomic blk prev bc (check_fork ssl st params blk prev bc)) [
                | inl (same, _, _) ↦ same
                | inr (_, c, done) ↦ absurd (cc)
              ])
      ]
    where
      on_tip :
          (r : Blockchain st × Result (Fault ChainError) (Unit {0}))
          → ((r.0 ≡ bc) × (g : Fault ChainError) × (r.1 ≡ err g)) ⊎ (r.1 ≡ ok tt)
          → (extended ssl st params (get_hash ssl blk.header) r).1 ≡ err f
          → (extended ssl st params (get_hash ssl blk.header) r).0 ≡ bc
      on_tip (bc', ok _) h q = unfold extended in absurd (cc)
      on_tip (bc', err (fails x)) (inl (same, _, _)) q = unfold extended in same
      on_tip (bc', err index_out_of_range) (inl (same, _, _)) q = unfold extended in same
      on_tip (bc', err g) (inr done) q = absurd (cc)

  -- The model's state beside a failure, or beside the read behind the end, is the one before the call.
  pub try_accept_block-kept :
      (blk : Block) (bc : Blockchain st) (f : Fault ReorgError)
      → (try_accept_block ssl st params blk bc).1 ≡ err f
      → (try_accept_block ssl st params blk bc).0 ≡ bc
  unfolding try_accept_block
  try_accept_block-kept blk bc f e =
      elim (Bool-cases (have_block st bc (get_hash ssl blk.header))) [
        | inl known ↦ rw known refl
        | inr fresh ↦ let e' = rw fresh at e in rw fresh (child-kept blk _ bc f e')
      ]

  interval_start_at :
      (n : ℕ)
      → (n + 1) % params.difficulty_interval ≡ 0
      → interval_start ssl st params (pos n) ≡ suc n
  interval_start_at n start = rw next_height-pos (
      let e : n + 1 ≡ suc n = omega arith in
      rw (← e) (omega (arith, start, div-add-mod' (n + 1) params.difficulty_interval)))

  -- Where the next height starts a difficulty interval, AcceptBlock reads behind the end of byHeight,
  -- whatever the network: this is so for every block on the tip of an active chain whose height plus
  -- one is a multiple of the interval, once its previous block is read and its header is accepted.
  pub accept_block_at_interval :
      (blk : Block) (n : ℕ) (bc : Blockchain st) (prev : BlockIndex) (before : Block)
      → IsActive bc.chain n
      → (n + 1) % params.difficulty_interval ≡ 0
      → find blk.header.prev_block_hash bc.chain.index ≡ some prev
      → prev.height ≡ pos n
      → st.read_block bc.stored blk.header.prev_block_hash ≡ some before
      → check_block_header ssl blk.header (some before.header) params ≡ ok tt
      → accept_block ssl st params blk (suc n) bc ≡ (bc, err index_out_of_range)
  unfolding accept_block accept_checked check_accept first_time some_or as_header
  accept_block_at_interval blk n bc prev before active start found at_n read header_ok =
      let (height, len, _, _) = active in
      let at_start = interval_start_at n start in
      let behind = get_elem?-ge bc.chain.by_height (suc n) (omega arith) in
      let later : (suc n == 0) ≡ false = ground arith in
      rw (found, read, header_ok, at_n, at_start, later, behind) refl
