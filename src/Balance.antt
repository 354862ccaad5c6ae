-- ===== src/Balance.antt =====
-- The balance of an address (src/utxo/utxo-set.cpp, CCoinsView::GetAddressBalance).
pub mod Total
use cdx.Base.{false, Bool, List, [], ◌∷◌, some, none, ◌&&◌, if◌then◌else◌}
use cdx.Base.Int.{◌-ℤ◌, ◌+ℤ◌, ltb_ℤ, pos, ℤ}
use cdx.Bytes.{Bytes}
use cdx.Utxo.{CoinsView, Coin}
use cdx.Script.{bytes_eq, extract_p2pkh_hash}
use cdx.Params.{coinbase_maturity}

-- confirmed, unconfirmed and immature
pub record Balance : Type 0 where
  pub confirmed : ℤ
  pub unconfirmed : ℤ
  pub immature : ℤ

-- The sum of a coin in the part that its height puts it in.
unfoldable pub credit : ℤ → Coin → Balance → Balance
credit current c b =
    if c.is_coinbase && ltb_ℤ (current -ℤ c.height) (pos coinbase_maturity)
    then record b { immature = b.immature +ℤ c.value }
    else if ltb_ℤ current c.height
    then record b { unconfirmed = b.unconfirmed +ℤ c.value }
    else record b { confirmed = b.confirmed +ℤ c.value }

-- Whether the script pays to this hash.
unfoldable pub pays_to : Bytes → Bytes → Bool
pays_to hash script = elim (extract_p2pkh_hash script) [ none ↦ false | some h ↦ bytes_eq h hash ]

unfoldable pub balance_loop : Bytes → ℤ → CoinsView → Balance → Balance
balance_loop hash current [] b = b
balance_loop hash current ((_, c) ∷ view) b =
    balance_loop hash current view (if pays_to hash c.script_pub_key then credit current c b else b)

-- GetAddressBalance, whose result is the sum of the three parts
unfoldable pub get_address_balance : Bytes → ℤ → CoinsView → Balance × ℤ
get_address_balance hash current view =
    let b =
      balance_loop hash current view
        (record { confirmed = pos 0; unconfirmed = pos 0; immature = pos 0 }) in
    (b, b.confirmed +ℤ b.unconfirmed +ℤ b.immature)
