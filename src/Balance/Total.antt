-- ===== src/Balance/Total.antt =====
-- The parts of a balance as sums over the coins of the address (src/utxo/utxo-set.cpp).
use cdx.Base.{sym, sym, not, Bool, ◌&&◌, if◌then◌else◌, ◌≡◌, [], ◌∷◌}
use cdx.Bytes.{Bytes}
use cdx.Balance.{pays_to, Balance}
use cdx.Utxo.{is_spendable, Coin, CoinsView}
use cdx.Base.Int.{ltb_ℤ, ◌+ℤ◌, pos, ℤ}

-- The value of the coins that pass a test.
unfoldable pub value_where : (Coin → Bool) → CoinsView → ℤ
value_where test [] = pos 0
value_where test ((_, c) ∷ view) =
    let rest = value_where test view in if test c then c.value +ℤ rest else rest

-- The coins whose scripts pay to the hash; of these the ones that IsSpendable refuses, and the
-- spendable ones from above the height and from below it.
abbrev pub owned : Bytes → Coin → Bool
owned hash c = pays_to hash c.script_pub_key

abbrev pub owned_unspendable : Bytes → ℤ → Coin → Bool
owned_unspendable hash current c = owned hash c && not (is_spendable c current)

abbrev pub owned_later : Bytes → ℤ → Coin → Bool
owned_later hash current c = owned hash c && (is_spendable c current && ltb_ℤ current c.height)

abbrev pub owned_now : Bytes → ℤ → Coin → Bool
owned_now hash current c = owned hash c && (is_spendable c current && not (ltb_ℤ current c.height))

-- What a coin adds to the parts.
abbrev IsCredited : Bytes → ℤ → Coin → Balance → Balance → Type 0
IsCredited hash current c b b' =
    (b'.confirmed ≡ (if owned_now hash current c then b.confirmed +ℤ c.value else b.confirmed))
    × (b'.unconfirmed
        ≡ (if owned_later hash current c then b.unconfirmed +ℤ c.value else b.unconfirmed))
    × (b'.immature
        ≡ (if owned_unspendable hash current c then b.immature +ℤ c.value else b.immature))
