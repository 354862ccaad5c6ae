-- ===== src/Address.antt =====
-- Addresses and private keys as text (src/wallet/address.cpp).
use cdx.Base.{
  ℕ, Bool, true, false, Option, some, none, [], ◌∷◌, ◌++◌, ◌==◌, length, take, if◌then◌else◌,
}
use cdx.Bytes.{Bytes}
use cdx.Crypto.{Openssl, hash160}
use cdx.Encoding.Base58.{encode_base58_check, decode_base58_check}

module _ (ssl : Openssl) where
  -- Hash160ToAddress
  unfoldable pub hash160_to_address : Bytes → ℕ → Bytes
  hash160_to_address hash version = encode_base58_check ssl (version ∷ hash)

  -- PubKeyToAddress
  unfoldable pub pub_key_to_address : Bytes → ℕ → Bytes
  pub_key_to_address pubkey version = hash160_to_address (hash160 ssl pubkey) version

  -- A version byte and what stands behind it, if the payload has n bytes.
  unfoldable pub split_payload : ℕ → Option Bytes → Option (ℕ × Bytes)
  split_payload n none = none
  split_payload n (some []) = none
  split_payload n (some (version ∷ payload)) =
      if length (version ∷ payload) == n then some (version, payload) else none

  -- DecodeAddress
  unfoldable pub decode_address : Bytes → Option (ℕ × Bytes)
  decode_address address = split_payload 21 (decode_base58_check ssl address)

  -- IsValidAddress
  unfoldable pub is_valid_address : Bytes → Bool
  is_valid_address address = elim (decode_address address) [ none ↦ false | some _ ↦ true ]

  -- PrivKeyToWIF
  unfoldable pub priv_key_to_wif : Bytes → ℕ → Bytes
  priv_key_to_wif priv version = encode_base58_check ssl (version ∷ (priv ++ (1 ∷ [])))

  unfoldable pub first_32 : Option (ℕ × Bytes) → Option (ℕ × Bytes)
  first_32 none = none
  first_32 (some (version, payload)) = some (version, take 32 payload)

  -- WIFToPrivKey
  unfoldable pub wif_to_priv_key : Bytes → Option (ℕ × Bytes)
  wif_to_priv_key wif = first_32 (split_payload 34 (decode_base58_check ssl wif))
