-- ===== src/Chain/Steps.antt =====
-- What AcceptBlock and the check of a fork leave when they succeed
-- (src/blockchain/blockchain.cpp, reorg.cpp).
use cdx.Base.{
  inr, inl, ◌⊎◌, ◌==◌, not, Option, get_elem?, refl, ◌∙◌, sym, get_elem?-last, length-append,
  length, ap, ℕ, suc, [], ◌∷◌, ◌≡◌, some, none, arith,
}
use cdx.Base.Int.{int_laws, ℤ, pos, ◌≤ℤ◌}
use cdx.Uint256.{U256}
use cdx.Utxo.{CoinsView, total_value, uint256_key}
use cdx.Result.{fail_if-then, >>=-eq-ok, ok_injective, Result, ok, err}
use mathlib.Core.Path.{subst}
use cdx.Chain.{BlockIndex, index_entry, Chain, Blockchain}
use cdx.Chain.Accept.{
  accept_checked, accept_block, fails, Fault, ChainError, incorrect_bits, first_time, as_header,
  cannot_read_prev, unknown_prev_block, connect_block, check_accept, some_or, as_block,
}
use cdx.Crypto.{Openssl}
use cdx.Chain.Heights.{snoc-IsIndexed, IsActive}
use cdx.Storage.{Storage}
use cdx.Consensus.Validation.{check_block, Error}
use cdx.Utxo.Value.{IsNonneg}
use cdx.Params.{ChainParams}
use cdx.Consensus.Rewards.Supply.{subsidies-suc, subsidies}
use cdx.Block.{Block}
use cdx.StdMap.{find}
use cdx.Consensus.Header.{check_block_header, get_hash}
use cdx.Consensus.Validation.Supply.{check_block_supply}
use cdx.Consensus.Difficulty.{next_height, get_next_work_required}

pub next_height-pos : {n : ℕ} → next_height (pos n) ≡ suc n
unfolding next_height
next_height-pos = refl

pub some_or-ok :
    {A : Type 0} {a : A} (e : ChainError) (o : Option A) → some_or e o ≡ ok a → o ≡ some a
unfolding some_or
some_or-ok e none h = cc
some_or-ok e (some a) h = ap some (ok_injective h)

as_block-ok : {A : Type 0} {a : A} (r : Result Error A) → as_block r ≡ ok a → r ≡ ok a
unfolding as_block
as_block-ok (ok a) e = ap ok (ok_injective e)
as_block-ok (err x) e = cc

-- The blocks up to height n are indexed, no coin is negative, and the coins are worth at most the
-- subsidies of the blocks from 0 to n.
abbrev pub IsValid : Chain → ℕ → Type 0
IsValid c n = IsActive c n × IsNonneg c.view × (total_value c.view ≤ℤ pos (subsidies 0 (suc n)))

module _ (ssl : Openssl) (st : Storage) (params : ChainParams) where
  check_accept-ok :
      (blk : Block) (height : ℕ) (bc : Blockchain st) (prev : BlockIndex) (view : CoinsView)
      → check_accept ssl st params blk height bc ≡ ok (prev, view)
      → (find blk.header.prev_block_hash bc.chain.index ≡ some prev)
        × (fees : ℤ) × (check_block ssl blk height bc.chain.view ≡ ok (view, fees))
  unfolding check_accept
  check_accept-ok blk height bc prev view e =
      let (idx, e1, r1) =
        >>=-eq-ok (some_or unknown_prev_block (find blk.header.prev_block_hash bc.chain.index)) _
          e in
      let (before, e2, r2) =
        >>=-eq-ok (some_or cannot_read_prev (st.read_block bc.stored blk.header.prev_block_hash)) _
          r1 in
      let (_, e3, r3) =
        >>=-eq-ok (as_header (check_block_header ssl blk.header (some before.header) params)) _
          r2 in
      let (first, e4, r4) =
        >>=-eq-ok (first_time ssl st params bc idx.height before.header.timestamp) _ r3 in
      let differ = not (
        blk.header.bits
        == get_next_work_required (pos before.header.timestamp) idx.height before.header.bits
            (pos first) params) in
      let (_, r5) = fail_if-then differ (fails incorrect_bits) _ r4 in
      let (checked, e6, r6) =
        >>=-eq-ok (as_block (check_block ssl blk height bc.chain.view)) _ r5 in
      subst
        (λ p.
          (find blk.header.prev_block_hash bc.chain.index ≡ some p.0)
          × (fees : ℤ) × (check_block ssl blk height bc.chain.view ≡ ok (p.1, fees)))
        (ok_injective r6) (some_or-ok unknown_prev_block _ e1, checked.1, as_block-ok _ e6)

  -- The block that AcceptBlock puts on the tip.
  connect_block-IsValid :
      (blk : Block) (n : ℕ) (bc : Blockchain st) (prev : BlockIndex) (view : CoinsView) (fees : ℤ)
      → IsValid bc.chain n
      → find (get_hash ssl blk.header) bc.chain.index ≡ none
      → blk.header.prev_block_hash ≡ bc.chain.tip_hash
      → check_block ssl blk (suc n) bc.chain.view ≡ ok (view, fees)
      → IsValid (connect_block ssl st params blk (suc n) prev view bc).chain (suc n)
  unfolding connect_block index_entry
  connect_block-IsValid blk n bc prev view fees ((height, len, top, indexed), nonneg, supply) fresh
        on_tip checked =
      let hash = get_hash ssl blk.header in
      let len' : length bc.chain.by_height ≡ suc n = len in
      let (nonneg', grow, _, _) =
        check_block_supply ssl blk (suc n) bc.chain.view view fees nonneg checked in
      (
        (
          refl,
          omega (arith, length-append bc.chain.by_height (hash ∷ [])),
          rw (← len') (get_elem?-last bc.chain.by_height hash),
          snoc-IsIndexed bc.chain.index bc.chain.by_height hash _ fresh (ap pos (sym len'))
              (λ i p q r. on_tip ∙ at_tip i p (omega arith) r) indexed,
        ),
        nonneg',
        omega (int_laws, subsidies-suc (suc n)),
      )
    where
      at_tip :
          (i : ℕ) (p : U256)
          → i ≡ n
          → get_elem? bc.chain.by_height i ≡ some p
          → bc.chain.tip_hash ≡ p
      at_tip i p same r = let r' = rw same at r in cc

  -- A block that AcceptBlock connects on the tip leaves a valid chain, one block higher.
  pub accept_block-IsValid :
      (blk : Block) (n : ℕ) (bc : Blockchain st)
      → IsValid bc.chain n
      → find (get_hash ssl blk.header) bc.chain.index ≡ none
      → blk.header.prev_block_hash ≡ bc.chain.tip_hash
      → (accept_block ssl st params blk (suc n) bc).1 ≡ ok tt
      → IsValid (accept_block ssl st params blk (suc n) bc).0.chain (suc n)
  unfolding accept_block accept_checked
  accept_block-IsValid blk n bc valid fresh on_tip e =
      by_check (check_accept ssl st params blk (suc n) bc) refl e
    where
      by_check :
          (r : Result (Fault ChainError) (BlockIndex × CoinsView))
          → check_accept ssl st params blk (suc n) bc ≡ r
          → (accept_checked ssl st params blk (suc n) bc r).1 ≡ ok tt
          → IsValid (accept_checked ssl st params blk (suc n) bc r).0.chain (suc n)
      by_check (err x) q h = unfold accept_checked in cc
      by_check (ok (prev, view)) q h =
          let (_, fees, checked) = check_accept-ok blk (suc n) bc prev view q in
          connect_block-IsValid blk n bc prev view fees valid fresh on_tip checked

  -- AcceptBlock succeeds, or it changes nothing.
  pub accept_block-cases :
      (blk : Block) (height : ℕ) (bc : Blockchain st)
      → (((accept_block ssl st params blk height bc).0 ≡ bc)
          × (f : Fault ChainError) × ((accept_block ssl st params blk height bc).1 ≡ err f))
        ⊎ ((accept_block ssl st params blk height bc).1 ≡ ok tt)
  unfolding accept_block accept_checked
  accept_block-cases blk height bc = by_check (check_accept ssl st params blk height bc)
    where
      by_check :
          (r : Result (Fault ChainError) (BlockIndex × CoinsView))
          → (((accept_checked ssl st params blk height bc r).0 ≡ bc)
              × (f : Fault ChainError) × ((accept_checked ssl st params blk height bc r).1 ≡ err f))
            ⊎ ((accept_checked ssl st params blk height bc r).1 ≡ ok tt)
      by_check (err e) = unfold accept_checked in inl (refl, e, refl)
      by_check (ok (prev, view)) = unfold accept_checked in inr refl
