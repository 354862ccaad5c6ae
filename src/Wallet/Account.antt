-- ===== src/Wallet/Account.antt =====
-- The wallet (src/wallet/wallet.h, wallet.cpp, keypair.cpp): class CWallet over its keystore. What
-- RAND_bytes gives and the clock are arguments; a call in which OpenSSL throws is none.
use cdx.Crypto
use cdx.Base.{length, ◌==◌, if◌then◌else◌, Bool, List, ℕ, Option, some, none, [], ◌∷◌, false}
use cdx.Wallet.Keystore.{add_key, get_addresses, Cipher, Keystore}
use cdx.Crypto.{Openssl}
use cdx.Balance.{get_address_balance, Balance}
use cdx.Crypto.Keys.{set_priv_key, get_pub_key_compressed, generate, Curve}
use cdx.Base.Int.{pos, ℤ, ◌+ℤ◌}
use cdx.Utxo.{CoinsView}
use cdx.Bytes.{Bytes}
use cdx.Address.{wif_to_priv_key, decode_address, hash160_to_address}
use cdx.Ripemd160.{zeros}

-- CKeyPair
pub record KeyPair : Type 0 where
  pub key : Option ℕ
  pub pubkey : Bytes
  pub hash160 : Bytes
  pub address : Bytes

-- CWallet, without its history
pub record Wallet : Type 0 where
  pub keystore : Keystore
  pub version_byte : ℕ

module _ (ssl : Openssl) (c : Curve) where
  -- The public key of a key pair, an array of zeros if there is none.
  unfoldable pub pubkey_of : ℕ → Bytes
  pubkey_of d = elim (get_pub_key_compressed c d) [ none ↦ zeros 33 | some p ↦ p ]

  unfoldable pub pair_of : ℕ → ℕ → KeyPair
  pair_of d version =
      let hash = Crypto.hash160 ssl (pubkey_of d) in
      record {
        key = some d;
        pubkey = pubkey_of d;
        hash160 = hash;
        address = hash160_to_address ssl hash version;
      }

  -- CKeyPair::Generate; none if it throws
  unfoldable pub generate_pair : List Bytes → ℕ → Option KeyPair
  generate_pair random version = elim (generate c random) [
    | none ↦ none
    | some d ↦ some (pair_of d version)
  ]

  -- CKeyPair::FromPrivKey
  unfoldable pub from_priv_key : Bytes → ℕ → KeyPair
  from_priv_key priv version = elim (set_priv_key c priv) as (λ x. KeyPair) [
    | none ↦ record { key = none; pubkey = zeros 33; hash160 = zeros 20; address = [] }
    | some d ↦ pair_of d version
  ]

module _ (ssl : Openssl) (c : Curve) (ci : Cipher) where
  -- AddKey of a key pair; GetPrivKey gives zeros where the key is not valid
  unfoldable pub add_pair : Bytes → ℕ → KeyPair → Wallet → Option (Wallet × Bool)
  add_pair iv now kp w =
      let d = elim kp.key as (λ x. ℕ) [ none ↦ 0 | some d ↦ d ] in
      elim (add_key c ci kp.address d iv now w.keystore) as (λ x. Option (Wallet × Bool)) [
        | none ↦ none
        | some (ks, added) ↦ some (record w { keystore = ks }, added)
      ]

  -- GenerateNewAddress, which ignores what AddKey returns
  unfoldable pub generate_new_address : List Bytes → Bytes → ℕ → Wallet → Option (Wallet × KeyPair)
  generate_new_address random iv now w =
      elim (generate_pair ssl c random w.version_byte) as (λ x. Option (Wallet × KeyPair)) [
        | none ↦ none
        | some kp ↦ elim (add_pair iv now kp w) as (λ x. Option (Wallet × KeyPair)) [
          | none ↦ none
          | some (w', _) ↦ some (w', kp)
        ]
      ]

  -- ImportKey
  unfoldable pub import_key : Bytes → ℕ → KeyPair → Wallet → Option (Wallet × Bool)
  import_key iv now kp w = if length kp.address == 0 then some (w, false) else add_pair iv now kp w

  -- ImportWIF
  unfoldable pub import_wif : Bytes → ℕ → Bytes → Wallet → Option (Wallet × Bool)
  import_wif iv now wif w = elim (wif_to_priv_key ssl wif) as (λ x. Option (Wallet × Bool)) [
    | none ↦ some (w, false)
    | some (_, priv) ↦ import_key iv now (from_priv_key ssl c priv w.version_byte) w
  ]

-- CWallet::Balance; `spendable` is `confirmed`
unfoldable pub add_balance : Balance → Balance → Balance
add_balance a b = record {
  confirmed = a.confirmed +ℤ b.confirmed;
  unconfirmed = a.unconfirmed +ℤ b.unconfirmed;
  immature = a.immature +ℤ b.immature;
}

module _ (ssl : Openssl) where
  -- The hash of an address of this network.
  unfoldable pub own_hash : ℕ → Bytes → Option Bytes
  own_hash version address = elim (decode_address ssl address) [
    | none ↦ none
    | some (v, hash) ↦ if v == version then some hash else none
  ]

  -- The loop of GetBalance over the addresses.
  unfoldable pub sum_balances : ℕ → ℤ → CoinsView → List Bytes → Balance → Balance
  sum_balances version height view [] bal = bal
  sum_balances version height view (a ∷ addrs) bal =
      sum_balances version height view addrs (elim (own_hash version a) as (λ x. Balance) [
        | none ↦ bal
        | some hash ↦ add_balance bal (get_address_balance hash height view).0
      ])

  -- GetBalance
  unfoldable pub get_balance : CoinsView → ℤ → Wallet → Balance
  get_balance view height w =
      sum_balances w.version_byte height view (get_addresses w.keystore)
        (record { confirmed = pos 0; unconfirmed = pos 0; immature = pos 0 })
