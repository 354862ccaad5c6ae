-- ===== src/CoinSelection.antt =====
-- The greedy selection of coins (src/utxo/coin-selection.h, coin-selection.cpp, SelectCoinsGreedy).
-- std::sort is a parameter, of which the order of coins with one value is not known.
use cdx.Base.{Bool, true, false, List, [], ◌∷◌, ◌++◌, map, ◌≡◌, ◌⊎◌, if◌then◌else◌}
use cdx.Base.Int.{ℤ, pos, ◌+ℤ◌, ◌≤ℤ◌, leb_ℤ}
use cdx.Transaction.{OutPoint}
use cdx.Utxo.{Coin, CoinsView, total_value}

-- CoinSelectionResult
pub record Selection : Type 0 where
  pub inputs : List OutPoint
  pub total : ℤ
  pub sufficient : Bool

-- The loop over the sorted coins.
unfoldable pub select_loop : ℤ → List (OutPoint × Coin) → Selection → Selection
select_loop needed [] r = r
select_loop needed ((out, c) ∷ coins) r =
    let taken : Selection = record {
      inputs = r.inputs ++ (out ∷ []);
      total = r.total +ℤ c.value;
      sufficient = r.sufficient;
    } in
    let rest = select_loop needed coins taken in
    if leb_ℤ needed taken.total then record taken { sufficient = true } else rest

module _ (sort : List (OutPoint × Coin) → List (OutPoint × Coin)) where
  -- SelectCoinsGreedy
  unfoldable pub select_coins_greedy : CoinsView → ℤ → Selection
  select_coins_greedy view needed =
      select_loop needed (sort view) (record { inputs = []; total = pos 0; sufficient = false })

-- The coins that a selection has taken from the front of a list, and whether they pay the amount.
abbrev IsPrefix : ℤ → List (OutPoint × Coin) → Selection → Type 0
IsPrefix needed coins r =
    (xs : List (OutPoint × Coin)) × (ys : List (OutPoint × Coin)) × (coins ≡ xs ++ ys)
    × (r.inputs ≡ map (λ p. p.0) xs)
    × (r.total ≡ total_value xs)
    × (((r.sufficient ≡ true) × (needed ≤ℤ r.total)) ⊎ ((r.sufficient ≡ false) × (ys ≡ [])))
