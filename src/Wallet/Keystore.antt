-- ===== src/Wallet/Keystore.antt =====
-- The encrypted keys of the wallet (src/wallet/keystore.h, keystore.cpp): class CKeystore and its
-- file. AES-256-GCM and PBKDF2 are OpenSSL's and are the fields of `Cipher`; a call that fails there
-- is none, where the code throws. What RAND_bytes gives and the clock are arguments.
pub mod RoundTrip
pub mod Laws
pub mod Password
use mathlib.Core.Option
use cdx.Base.{
  drop, ◌==◌, arith, ltb, take, not, ◌++◌, length, ◌↔◌, map, ℕ, ◌≡◌, if◌then◌else◌, Option, List,
  Bool, some, none, zero, suc, [], ◌∷◌, true, false,
}
use cdx.Bytes.{IsBytes, Bytes}
use cdx.Script.{bytes_eq}
use cdx.StdMap.{insert, find, contains, StdMap, Key}
use cdx.Crypto.Keys.{set_priv_key, get_priv_key, Curve}
use cdx.Serializer.{
  read_u64, read_var_int, read_var_str, ◌>>=◌, pure, write_all, write_var_int, write_u64,
  write_var_str, Reader,
}
use cdx.Transaction.Codec.{read_at_most}
use cdx.StdMap.Order.{insert_all}

pub record Cipher : Type 0 where
  -- PKCS5_PBKDF2_HMAC with 210000 rounds: password and salt
  pub pbkdf2 : Bytes → Bytes → Option Bytes
  -- AES-256-GCM: key, nonce and plain text give the cipher text and its tag
  pub gcm_encrypt : Bytes → Bytes → Bytes → Option (Bytes × Bytes)
  -- key, nonce, tag and cipher text
  pub gcm_decrypt : Bytes → Bytes → Bytes → Bytes → Option Bytes

-- What is documented of AES-GCM: under the same key, decryption gives the plain text back; and what
-- it gives are bytes.
pub record IsCipher (ci : Cipher) : Type 0 where
  pub decrypt-encrypt :
      (key iv plain cipher tag : Bytes)
      → ci.gcm_encrypt key iv plain ≡ some (cipher, tag)
      → ci.gcm_decrypt key iv tag cipher ≡ some plain
  pub decrypt-IsBytes :
      (key iv tag cipher plain : Bytes)
      → ci.gcm_decrypt key iv tag cipher ≡ some plain
      → IsBytes plain

-- EncryptedKeyEntry, without the address, which is its key in the map
pub record KeyEntry : Type 0 where
  pub ciphertext : Bytes
  pub iv : Bytes
  pub tag : Bytes
  pub created : ℕ

-- CKeystore; the key `kek` is only there while it is unlocked
pub record Keystore : Type 0 where
  pub locked : Bool
  pub salt : Bytes
  pub kek : Bytes
  pub keys : StdMap Bytes KeyEntry

-- CKeystore()
abbrev pub empty_keystore : Keystore
empty_keystore = record { locked = true; salt = []; kek = []; keys = [] }

-- std::string::operator<
unfoldable pub bytes_less : Bytes → Bytes → Bool
bytes_less a [] = false
bytes_less [] (y ∷ b) = true
bytes_less (x ∷ a) (y ∷ b) =
    let rest = bytes_less a b in if ltb x y then true else if ltb y x then false else rest

pub bytes_eq_iff : (a b : Bytes) → (bytes_eq a b ≡ true) ↔ (a ≡ b)
unfolding bytes_eq
bytes_eq_iff [] [] = ground arith
bytes_eq_iff [] (y ∷ b) = ground arith
bytes_eq_iff (x ∷ a) [] = ground arith
bytes_eq_iff (x ∷ a) (y ∷ b) = ground (arith, bytes_eq_iff a b)

instance abbrev pub bytes_key : Key Bytes
bytes_key = record { key_eq = bytes_eq; key_less = bytes_less; key_eq_iff = bytes_eq_iff }

-- HasAddress
unfoldable pub has_address : Bytes → Keystore → Bool
has_address address ks = contains address ks.keys

-- GetAddresses
unfoldable pub get_addresses : Keystore → List Bytes
get_addresses ks = map (λ (p : Bytes × KeyEntry). p.0) ks.keys

-- Lock
unfoldable pub lock : Keystore → Keystore
lock ks = record ks { kek = []; locked = true }

module _ (c : Curve) (ci : Cipher) where
  unfoldable pub store_key : Bytes → Bytes → ℕ → Option (Bytes × Bytes) → Keystore → Option Keystore
  store_key address iv now none ks = none
  store_key address iv now (some (cipher, tag)) ks =
      let entry : KeyEntry = record { ciphertext = cipher; iv = iv; tag = tag; created = now } in
      some (record ks { keys = insert address entry ks.keys })

  -- AddKey of a private key, of which an unlocked store gives true; none if it throws
  unfoldable pub add_key : Bytes → ℕ → Bytes → ℕ → Keystore → Option (Keystore × Bool)
  add_key address d iv now ks =
      if ks.locked
      then some (ks, false)
      else Option.map (λ (ks' : Keystore). (ks', true))
          (store_key address iv now (ci.gcm_encrypt ks.kek iv (get_priv_key c d)) ks)

  unfoldable pub decrypt_entry : Bytes → KeyEntry → Option Bytes
  decrypt_entry key e = ci.gcm_decrypt key e.iv e.tag e.ciphertext

  -- GetKey: none where it returns false and where it throws
  unfoldable pub get_key : Bytes → Keystore → Option ℕ
  get_key address ks = if ks.locked then none else elim (find address ks.keys) as (λ x. Option ℕ) [
    | none ↦ none
    | some e ↦ elim (decrypt_entry ks.kek e) as (λ x. Option ℕ) [
      | none ↦ none
      | some plain ↦ if length plain == 32 then set_priv_key c plain else none
    ]
  ]

  -- Whether Unlock finds that a derived key opens the first entry.
  unfoldable pub opens_first : Bytes → StdMap Bytes KeyEntry → Bool
  opens_first key [] = true
  opens_first key ((_, e) ∷ keys) = elim (decrypt_entry key e) [
    | none ↦ false
    | some plain ↦ length plain == 32
  ]

  unfoldable pub unlock_with : Option Bytes → Keystore → Keystore × Bool
  unlock_with none ks = (ks, false)
  unlock_with (some key) ks =
      if opens_first key ks.keys
      then (record ks { kek = key; locked = false }, true)
      else (ks, false)

  -- Unlock; `random` is what RAND_bytes gives for a salt
  unfoldable pub unlock : Bytes → Bytes → Keystore → Keystore × Bool
  unlock random password ks =
      let salted = elim ks.salt as (λ x. Keystore) [
        | [] ↦ record ks { salt = random }
        | _ ∷ _ ↦ ks
      ] in
      unlock_with (ci.pbkdf2 password salted.salt) salted

  -- The keys of the addresses, as the first loop of ChangePassword copies them. An entry that does not
  -- open counts as a key that GetKey refuses, where the code throws.
  unfoldable pub copy_keys : List Bytes → Keystore → Option (List (Bytes × ℕ))
  copy_keys [] ks = some []
  copy_keys (a ∷ addrs) ks =
      let rest = copy_keys addrs ks in
      elim (get_key a ks) as (λ x. Option (List (Bytes × ℕ))) [
        | none ↦ none
        | some d ↦ Option.map (λ (l : List (Bytes × ℕ)). (a, d) ∷ l) rest
      ]

  -- The second loop, which encrypts the keys again; `ivs` is what RAND_bytes gives for each.
  unfoldable pub store_keys : (ℕ → Bytes) → ℕ → List (Bytes × ℕ) → Keystore → Option Keystore
  store_keys ivs now [] ks = some ks
  store_keys ivs now ((a, d) ∷ l) ks =
      let iv = ivs (length l) in
      elim (store_key a iv now (ci.gcm_encrypt ks.kek iv (get_priv_key c d)) ks)
        as (λ x. Option Keystore) [ none ↦ none | some ks' ↦ store_keys ivs now l ks' ]

  unfoldable pub change_unlocked :
      (ℕ → Bytes) → ℕ → Bytes → Bytes → Keystore → Option (Keystore × Bool)
  change_unlocked ivs now new_salt new_password ks =
      elim (copy_keys (get_addresses ks) ks) as (λ x. Option (Keystore × Bool)) [
        | none ↦ some (lock ks, false)
        | some l ↦ elim (ci.pbkdf2 new_password new_salt) as (λ x. Option (Keystore × Bool)) [
          | none ↦ some (lock ks, false)
          | some key ↦
              Option.map (λ (ks' : Keystore). (ks', true))
                (store_keys ivs now l (record ks { kek = key; salt = new_salt; keys = [] }))
        ]
      ]

  -- ChangePassword; `random` and `new_salt` are what RAND_bytes gives for salts, none if it throws
  unfoldable pub change_password :
      (ℕ → Bytes) → ℕ → Bytes → Bytes → Bytes → Bytes → Keystore → Option (Keystore × Bool)
  change_password ivs now random new_salt old_password new_password ks =
      let (opened, right) = unlock random old_password ks in
      if not ks.locked
      then change_unlocked ivs now new_salt new_password ks
      else if right
      then change_unlocked ivs now new_salt new_password opened
      else some (opened, false)

-- The file of a keystore: "CDXW", the version, the salt and the entries.
unfoldable pub write_entry : Bytes × KeyEntry → Bytes
write_entry (address, e) =
    write_var_str address
    ++ (write_var_str e.ciphertext
        ++ (write_var_str e.iv ++ (write_var_str e.tag ++ write_u64 e.created)))

-- Serialize
unfoldable pub serialize_keystore : Keystore → Bytes
serialize_keystore ks =
    67
    ∷ 68
    ∷ 88
    ∷ 87
    ∷ 1
    ∷ (write_var_str ks.salt ++ (write_var_int (length ks.keys) ++ write_all write_entry ks.keys))

unfoldable pub read_entry : Reader (Bytes × KeyEntry)
read_entry = do
  address ← read_var_str
  cipher ← read_var_str
  iv ← read_var_str
  tag ← read_var_str
  created ← read_u64
  pure (address, record { ciphertext = cipher; iv = iv; tag = tag; created = created })

unfoldable pub read_keystore : Reader Keystore
read_keystore = do
  salt ← read_var_str
  n ← read_var_int
  entries ← read_at_most 1000000 read_entry n
  pure (record { locked = true; salt = salt; kek = []; keys = insert_all entries [] })

-- Deserialize, which throws where this is none
unfoldable pub deserialize_keystore : Bytes → Option Keystore
deserialize_keystore p =
    if bytes_eq (take 5 p) (67 ∷ 68 ∷ 88 ∷ 87 ∷ 1 ∷ [])
    then Option.map (λ (r : Keystore × Bytes). r.0) (read_keystore (drop 5 p))
    else none
