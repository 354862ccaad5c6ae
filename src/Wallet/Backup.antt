-- ===== src/Wallet/Backup.antt =====
-- The backup of a wallet under a password (src/wallet/wallet.cpp, Backup and Restore).
use mathlib.Core.Option
use cdx.Crypto.Keys.{get_priv_key, Curve}
use cdx.Serializer.{read_var_int, write_var_int, read_var_str, write_var_str, ◌>>=◌, pure, Reader}
use cdx.Crypto.{Openssl}
use cdx.Base.{
  ◌++◌, Bool, ◌==◌, some, none, zero, suc, [], ◌∷◌, true, false, Option, drop, take, ltb, not,
  if◌then◌else◌, length, List, ℕ,
}
use cdx.Wallet.Keystore.{lock, get_addresses, empty_keystore, get_key, unlock, Keystore, Cipher}
use cdx.Wallet.Account.{from_priv_key, import_key, Wallet, KeyPair}
use cdx.Script.{bytes_eq}
use cdx.Bytes.{Bytes}

-- The errors of Restore.
pub data RestoreError : Type 0 where
  invalid_backup_file unsupported_version corrupt_backup kdf_failed : RestoreError
  corrupt_entry wrong_password corrupt_private_key : RestoreError

-- "CDXB" and the version
abbrev backup_start : Bytes
backup_start = 67 ∷ 68 ∷ 88 ∷ 66 ∷ 1 ∷ []

module _ (c : Curve) (ci : Cipher) where
  -- The keys of the addresses; an address without one is left out.
  unfoldable pub backup_keys : List Bytes → Keystore → List (Bytes × ℕ)
  backup_keys [] ks = []
  backup_keys (a ∷ addrs) ks =
      let rest = backup_keys addrs ks in
      elim (get_key c ci a ks) [ none ↦ rest | some d ↦ (a, d) ∷ rest ]

  -- The entries of the backup under a key; none if an encryption throws.
  unfoldable pub write_backup_keys : (ℕ → Bytes) → Bytes → List (Bytes × ℕ) → Option Bytes
  write_backup_keys ivs key [] = some []
  write_backup_keys ivs key ((a, d) ∷ l) =
      let iv = ivs (length l) in
      let rest = write_backup_keys ivs key l in
      elim (ci.gcm_encrypt key iv (get_priv_key c d)) as (λ x. Option Bytes) [
        | none ↦ none
        | some (cipher, tag) ↦
            Option.map
              (λ (p : Bytes).
                write_var_str a
                ++ (write_var_str cipher ++ (write_var_str iv ++ (write_var_str tag ++ p))))
              rest
      ]

  -- Backup; none if it throws
  unfoldable pub backup : (ℕ → Bytes) → Bytes → Bytes → Wallet → Option Bytes
  backup ivs salt password w =
      let keys = backup_keys (get_addresses w.keystore) w.keystore in
      elim (ci.pbkdf2 password salt) as (λ x. Option Bytes) [
        | none ↦ none
        | some key ↦
            Option.map
              (λ (p : Bytes).
                backup_start ++ (write_var_str salt ++ (write_var_int (length keys) ++ p)))
              (write_backup_keys ivs key keys)
      ]

-- An entry of a backup: the address, the cipher text, the nonce and the tag.
unfoldable pub read_backup_entry : Reader (Bytes × (Bytes × (Bytes × Bytes)))
read_backup_entry = do
  address ← read_var_str
  cipher ← read_var_str
  iv ← read_var_str
  tag ← read_var_str
  pure (address, (cipher, (iv, tag)))

unfoldable pub read_backup_start : Reader (Bytes × ℕ)
read_backup_start = do salt ← read_var_str; n ← read_var_int; pure (salt, n)

module _ (ssl : Openssl) (c : Curve) (ci : Cipher) (random password : Bytes) (ivs : ℕ → Bytes)
    (now : ℕ) where
  -- The two calls of Unlock, of which the second is made if the first fails.
  unfoldable pub unlock_twice : Keystore → Keystore
  unlock_twice ks =
      let (ks', opened) = unlock c ci random password ks in
      if opened then ks' else (unlock c ci random password ks').0

  -- The import of a key, if it has the address that stands in the backup; none if it throws.
  unfoldable pub restore_pair : Bytes → Bytes → KeyPair → Wallet → Option Wallet
  restore_pair address iv kp w = elim kp.key as (λ x. Option Wallet) [
    | none ↦ some w
    | some _ ↦
        if bytes_eq kp.address address
        then Option.map (λ (r : Wallet × Bool). r.0)
            (import_key ssl c ci iv now kp (record w { keystore = unlock_twice w.keystore }))
        else some w
  ]

  -- The loop of Restore over the entries that are left; an error leaves the wallet as it is then.
  unfoldable pub restore_entries :
      ℕ → Bytes → Bytes → Wallet → Option (Wallet × Option RestoreError)
  restore_entries zero key p w = some (record w { keystore = lock w.keystore }, none)
  restore_entries (suc left) key p w =
      elim (read_backup_entry p) as (λ x. Option (Wallet × Option RestoreError)) [
        | none ↦ some (w, some corrupt_entry)
        | some ((address, (cipher, (iv, tag))), rest) ↦
            elim (ci.gcm_decrypt key iv tag cipher)
              as (λ x. Option (Wallet × Option RestoreError)) [
                | none ↦ some (w, some wrong_password)
                | some plain ↦
                    elim (length plain == 32) as (λ x. Option (Wallet × Option RestoreError)) [
                      | false ↦ some (w, some corrupt_private_key)
                      | true ↦
                          elim (restore_pair address (ivs left)
                              (from_priv_key ssl c plain w.version_byte) w)
                            as (λ x. Option (Wallet × Option RestoreError)) [
                              | none ↦ none
                              | some w' ↦ restore_entries left key rest w'
                            ]
                    ]
              ]
      ]

  -- Restore behind the salt and the number of entries.
  unfoldable pub restore_body :
      Wallet → Option ((Bytes × ℕ) × Bytes) → Option (Wallet × Option RestoreError)
  restore_body w none = some (w, some corrupt_backup)
  restore_body w (some ((salt, n), p)) =
      if ltb 1000000 n
      then some (w, some corrupt_backup)
      else elim (ci.pbkdf2 password salt) as (λ x. Option (Wallet × Option RestoreError)) [
        | none ↦ some (w, some kdf_failed)
        | some key ↦ restore_entries n key p w
      ]

  -- Restore: the wallet of version byte 0x1E, and the error; none if it throws
  unfoldable pub restore : Bytes → Option (Wallet × Option RestoreError)
  restore p =
      let w : Wallet = record { keystore = empty_keystore; version_byte = 0x1E } in
      if not (bytes_eq (take 4 p) (take 4 backup_start))
      then some (w, some invalid_backup_file)
      else if not (bytes_eq (take 1 (drop 4 p)) (1 ∷ []))
      then some (w, some unsupported_version)
      else restore_body w (read_backup_start (drop 5 p))
