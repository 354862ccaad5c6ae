-- ===== src/Utxo/Value.antt =====
-- The total value of the UTXO set under each operation (src/utxo/utxo-set.h, TotalValue).
use cdx.Base.{none, some, ◌≡◌, [], ◌∷◌, All, arith}
use cdx.Base.Int.{◌+ℤ◌, ◌≤ℤ◌, pos, int_laws}
use cdx.Utxo.{Coin, spend_coin, add_coin, CoinsView, get_coin, total_value}
use cdx.StdMap.{insert, erase, find}
use cdx.Transaction.{OutPoint}

-- No coin has a negative value.
abbrev pub IsNonneg : CoinsView → Type 0
IsNonneg = All (λ e. pos 0 ≤ℤ e.1.value)

pub get_coin_nonneg :
    (out : OutPoint) (c : Coin) (view : CoinsView)
    → IsNonneg view
    → get_coin out view ≡ some c
    → pos 0 ≤ℤ c.value
unfolding get_coin find
get_coin_nonneg out c [] h e = cc
get_coin_nonneg out c (x ∷ view) h e = ground (arith, get_coin_nonneg out c view h.1)

pub total_value_nonneg : (view : CoinsView) → IsNonneg view → pos 0 ≤ℤ total_value view
unfolding total_value
total_value_nonneg [] h = omega arith
total_value_nonneg (x ∷ view) h = omega (int_laws, total_value_nonneg view h.1)

pub add_coin-IsNonneg :
    (out : OutPoint) (c : Coin) (view : CoinsView)
    → IsNonneg view
    → pos 0 ≤ℤ c.value
    → IsNonneg (add_coin out c view)
unfolding add_coin insert
add_coin-IsNonneg out c [] h p = (p, tt)
add_coin-IsNonneg out c (x ∷ view) h p = ground (arith, add_coin-IsNonneg out c view h.1 p)

pub spend_coin-IsNonneg :
    (out : OutPoint) (view : CoinsView) → IsNonneg view → IsNonneg (spend_coin out view).0
unfolding spend_coin erase
spend_coin-IsNonneg out [] h = tt
spend_coin-IsNonneg out (x ∷ view) h = ground (arith, spend_coin-IsNonneg out view h.1)

-- A new coin adds at most its value: a coin that it replaces is lost.
pub total_value-add_coin :
    (out : OutPoint) (c : Coin) (view : CoinsView)
    → IsNonneg view
    → total_value (add_coin out c view) ≤ℤ total_value view +ℤ c.value
unfolding total_value add_coin insert
total_value-add_coin out c [] h = omega int_laws
total_value-add_coin out c (x ∷ view) h = grind (int_laws, total_value-add_coin out c view h.1)

-- A coin that was not there adds exactly its value.
pub total_value-add_coin_new :
    (out : OutPoint) (c : Coin) (view : CoinsView)
    → get_coin out view ≡ none
    → total_value (add_coin out c view) ≡ total_value view +ℤ c.value
unfolding total_value add_coin insert get_coin find
total_value-add_coin_new out c [] h = omega int_laws
total_value-add_coin_new out c (x ∷ view) h = grind (int_laws, total_value-add_coin_new out c view)

total_value-erase :
    (out : OutPoint) (view : CoinsView)
    → IsNonneg view
    → total_value (spend_coin out view).0 ≤ℤ total_value view
unfolding total_value spend_coin erase
total_value-erase out [] h = omega int_laws
total_value-erase out (x ∷ view) h = grind (int_laws, total_value-erase out view h.1)

-- Spending a coin takes at least its value away.
pub total_value-spend_coin :
    (out : OutPoint) (c : Coin) (view : CoinsView)
    → IsNonneg view
    → get_coin out view ≡ some c
    → total_value (spend_coin out view).0 +ℤ c.value ≤ℤ total_value view
unfolding total_value spend_coin erase get_coin find
total_value-spend_coin out c [] h e = cc
total_value-spend_coin out c (x ∷ view) h e =
    grind (int_laws, total_value-erase out view h.1, total_value-spend_coin out c view h.1)
