-- ===== src/Tests/Purse.antt =====
use cdx.Wallet.Keystore.{
  bytes_less, add_key, store_key, store_keys, get_addresses, copy_keys, change_unlocked,
  decrypt_entry, opens_first, unlock_with, lock, unlock, serialize_keystore, get_key, Keystore,
  deserialize_keystore, KeyEntry, Cipher, change_password, IsCipher,
}
use mathlib.Core.Option
use cdx.Crypto.{verify_signature, verify_parsed, sha256d, sha256d_bytes, hash160}
use cdx.Tests.{zero_ssl, small}
use cdx.Address.{split_payload, decode_address, hash160_to_address}
use cdx.Wallet.Account.{pair_of, from_priv_key, import_key, add_pair, pubkey_of, own_hash, Wallet}
use cdx.Utxo.{is_spendable, get_coin, CoinsView}
use cdx.Uint256.{is_zero, u256_zero}
use cdx.Base.Int.{◌-ℤ◌, ◌+ℤ◌, ℤ, pos, ◌≤ℤ◌}
use cdx.Script.{
  verify_script, eval_script, eval_loop, exec_op, is_false, get_script_sig_pub_key, last_push,
  parse_push, extract_p2pkh_hash, is_p2pkh_script, build_p2pkh_script,
}
use cdx.Result.{Result, ok, err}
use cdx.Wallet.Send.{
  with_change, finish, signing_keys, as_valid, as_signed, unsigned_inputs, approx_size,
  estimate_fee, take_enough, sum_selected, own_coins, wallet_coins, select_coins, attempt_payment,
  payment_loop, WalletError, Payment, create_transaction,
}
use cdx.Crypto.Keys.{
  replicate, der_signature, der_number, trim_zeros, sign, sign_with, generate_k, generate_k_loop,
  get_pub_key_compressed, get_priv_key, set_priv_key, be_bytes, Curve,
}
use cdx.Base.{
  List, ℕ, ap, some_injective, inl, inr, refl, ◌&&◌, arith, none, ltb, Bool-cases, true,
  if◌then◌else◌, [], ◌∷◌, false, Bool, some, Option, ◌≡◌,
}
use cdx.Ripemd160.{
  ripemd160, rmd160_final, rmd160_update, update_loop, rmd160_transform, words, rounds, line_step,
  f1of, rol, zeros,
}
use cdx.Wallet.Keystore.RoundTrip.{deserialize_keystore-serialize_keystore}
use cdx.Wallet.Keystore.Password.{change_password_lem}
use cdx.StdMap.{insert, find}
use cdx.Script.{bytes_eq}
use cdx.Transaction.{is_coinbase, TxOut}
use cdx.Wallet.Payment.{IsChange}
use cdx.Merkle.{get_tx_id}
use cdx.Consensus.Validation.{
  check_tx_inputs, check_inputs, check_input, signature_hash, sum_outputs, check_transaction,
  check_script_sigs, has_null_prevout, check_outputs, has_duplicate_inputs, spends,
  validate_transaction,
}
use cdx.Wallet.Created.{create_transaction_lem}
use cdx.Wallet.Signer.{sign_inputs, sign_input, signed_script, put_script_sig}
use cdx.Encoding.Base58.{
  decode_base58_check, check_payload, encode_base58_check, decode_base58, reversed, decode_loop,
  push_carry, mul_pass, encode_base58, or_one, map_chars, encode_loop, div_pass, repeat,
  count_leading, char_at, base58_index, index_of,
}
use cdx.Balance.{pays_to}
use cdx.Uint256.Bytes.{get_bytes_le, set_bytes_le}
use cdx.Transaction.Codec.{write_tx_out, write_tx_in, serialize_tx}
use cdx.Serializer.{
  read_bytes, read_le, read_var_int, read_var_str, write_uint256, write_var_int, write_var_str,
  write_all,
}
use cdx.Wallet.Backup.{
  restore_body, restore_entries, restore_pair, unlock_twice, read_backup_start, read_backup_entry,
  write_backup_keys, backup_keys, restore, RestoreError, backup,
}
use cdx.Bytes.{as_int64, le_bytes, of_le, IsBytes, Bytes}  -- The theorems on the wallet, with stand-ins for the ciphers and the curve.

-- A cipher that leaves bytes as they are.
unfoldable all_bytes : Bytes → Bool
all_bytes [] = true
all_bytes (b ∷ p) = ltb b 256 && all_bytes p

all_bytes-IsBytes : (p : Bytes) → all_bytes p ≡ true → IsBytes p
unfolding all_bytes
all_bytes-IsBytes [] h = tt
all_bytes-IsBytes (b ∷ p) h = elim (Bool-cases (ltb b 256)) [
  | inl small ↦ (ground (arith, small), all_bytes-IsBytes p (ground (arith, small)))
  | inr large ↦ absurd (ground (arith, large))
]

unfoldable seal : Bytes → Option (Bytes × Bytes)
seal plain = if all_bytes plain then some (plain, []) else none

unfoldable open_seal : Bytes → Option Bytes
open_seal cipher = if all_bytes cipher then some cipher else none

abbrev plain_cipher : Cipher
plain_cipher = record {
  pbkdf2 = λ password salt. some password;
  gcm_encrypt = λ key iv plain. seal plain;
  gcm_decrypt = λ key iv tag cipher. open_seal cipher;
}

seal-cases :
    (plain cipher tag : Bytes)
    → seal plain ≡ some (cipher, tag)
    → (all_bytes plain ≡ true) × (plain ≡ cipher)
unfolding seal
seal-cases plain cipher tag e = elim (Bool-cases (all_bytes plain)) [
  | inl good ↦
      let same : some (plain, []) ≡ some (cipher, tag) = ground (arith, good) in
      (good, ap (λ (x : Bytes × Bytes). x.0) (some_injective same))
  | inr bad ↦ absurd (ground (arith, bad))
]

opened-seal :
    (plain cipher tag : Bytes) → seal plain ≡ some (cipher, tag) → open_seal cipher ≡ some plain
unfolding open_seal
opened-seal plain cipher tag e =
    let (good, same) = seal-cases plain cipher tag e in rw (← same, good) refl

open_seal-IsBytes : (cipher plain : Bytes) → open_seal cipher ≡ some plain → IsBytes plain
unfolding open_seal
open_seal-IsBytes cipher plain e = elim (Bool-cases (all_bytes cipher)) [
  | inl good ↦
      let same : some cipher ≡ some plain = ground (arith, good) in
      rw (← some_injective same) (all_bytes-IsBytes cipher good)
  | inr bad ↦ absurd (ground (arith, bad))
]

plain_cipher-IsCipher : IsCipher plain_cipher
plain_cipher-IsCipher = record {
  decrypt-encrypt = λ key iv plain cipher tag e. opened-seal plain cipher tag e;
  decrypt-IsBytes = λ key iv tag cipher plain e. open_seal-IsBytes cipher plain e;
}

-- A group of 1000 elements, in which every key has one public key.
abbrev small_curve : Curve
small_curve = record {
  order = 1000;
  compressed_point = λ d. some (zeros 33);
  affine_x = λ k. some k;
  mod_inverse = λ k. 1;
  hmac_sha256 = λ key m. 7 ∷ [];
}

abbrev seven : Bytes
seven = be_bytes 32 7

abbrev entry : KeyEntry
entry = record { ciphertext = seven; iv = 1 ∷ []; tag = []; created = 9 }

abbrev keystore : Keystore
keystore = record { locked = false; salt = 4 ∷ []; kek = 5 ∷ []; keys = (49 ∷ [], entry) ∷ [] }

deserialize_keystore-serialize_keystore_example :
    deserialize_keystore (serialize_keystore keystore) ≡ some (lock keystore)
unfolding le_bytes
deserialize_keystore-serialize_keystore_example =
    deserialize_keystore-serialize_keystore keystore (omega arith)
      ((omega arith, omega arith, omega arith, omega arith, omega arith), tt) (omega arith) (tt, tt)

abbrev changed_entry : KeyEntry
changed_entry = record { ciphertext = seven; iv = 2 ∷ []; tag = []; created = 10 }

abbrev changed : Keystore
changed = record {
  locked = false;
  salt = 6 ∷ [];
  kek = 8 ∷ [];
  keys = (49 ∷ [], changed_entry) ∷ [];
}

changed_good :
    change_password small_curve plain_cipher (λ n. 2 ∷ []) 10 (3 ∷ []) (6 ∷ []) [] (8 ∷ []) keystore
    ≡ some (changed, true)
unfolding change_password unlock unlock_with opens_first decrypt_entry change_unlocked copy_keys
    get_key get_addresses store_keys store_key find insert bytes_eq seal open_seal all_bytes
    set_priv_key get_priv_key of_le le_bytes zeros
changed_good = refl

change_password_lem_example :
    ((address : Bytes)
      → get_key small_curve plain_cipher address changed
        ≡ get_key small_curve plain_cipher address keystore)
    × ((later : Bytes) → (unlock small_curve plain_cipher later (8 ∷ []) (lock changed)).1 ≡ true)
change_password_lem_example =
    change_password_lem small_curve plain_cipher plain_cipher-IsCipher (λ n. 2 ∷ []) 10 (3 ∷ [])
      (6 ∷ []) [] (8 ∷ []) keystore changed refl (omega arith) changed_good

-- A wallet with one key, and a coin that pays to it.
abbrev own : Bytes
own = hash160 zero_ssl (zeros 33)

abbrev own_address : Bytes
own_address = hash160_to_address zero_ssl own 0

abbrev wallet : Wallet
wallet = record {
  keystore = record {
    locked = false;
    salt = 4 ∷ [];
    kek = 5 ∷ [];
    keys = (own_address, entry) ∷ [];
  };
  version_byte = 0;
}

abbrev coins : CoinsView
coins =
    (
      record { hash = small; n = 7 },
      record {
        value = pos 6000;
        script_pub_key = build_p2pkh_script own;
        height = pos 1;
        is_coinbase = false;
      },
    )
    ∷ []

abbrev attempted : Wallet × Result WalletError Payment
attempted =
    create_transaction zero_ssl (λ l. l) small_curve plain_cipher 3 (λ n. []) (λ n. []) 10 coins 9
      own_address (pos 5000) wallet

unfoldable has_paid : Result WalletError Payment → Bool
has_paid (ok p) = true
has_paid (err e) = false

unfoldable payment_of : Result WalletError Payment → Payment
payment_of (ok p) = p
payment_of (err e) = record {
  tx = record { version = pos 1; vin = []; vout = []; lock_time = 0 };
  txid = u256_zero;
  fee = pos 0;
}

paid_lem :
    (r : Wallet × Result WalletError Payment) → has_paid r.1 ≡ true → r ≡ (r.0, ok (payment_of r.1))
unfolding has_paid payment_of
paid_lem (w, ok p) h = refl
paid_lem (w, err e) h = absurd (cc)

paid : has_paid attempted.1 ≡ true
unfolding has_paid payment_loop attempt_payment select_coins wallet_coins own_coins sum_selected
    take_enough estimate_fee approx_size unsigned_inputs as_signed as_valid signing_keys finish
    with_change create_transaction own_hash pubkey_of put_script_sig signed_script sign_input
    sign_inputs set_priv_key get_priv_key get_pub_key_compressed generate_k_loop generate_k
    sign_with sign trim_zeros der_number der_signature replicate get_key decrypt_entry get_addresses
    seal open_seal all_bytes rol f1of line_step rounds words rmd160_transform update_loop
    rmd160_update zeros rmd160_final ripemd160 sha256d_bytes sha256d hash160 verify_parsed
    verify_signature bytes_eq build_p2pkh_script is_p2pkh_script extract_p2pkh_hash parse_push
    last_push get_script_sig_pub_key is_false exec_op eval_loop eval_script verify_script index_of
    base58_index char_at count_leading repeat div_pass encode_loop map_chars or_one encode_base58
    mul_pass push_carry decode_loop reversed decode_base58 encode_base58_check check_payload
    decode_base58_check hash160_to_address split_payload decode_address spends has_duplicate_inputs
    check_outputs has_null_prevout check_script_sigs check_transaction sum_outputs signature_hash
    check_input check_inputs as_int64 check_tx_inputs validate_transaction is_coinbase is_zero
    get_coin find is_spendable pays_to le_bytes of_le set_bytes_le get_bytes_le ◌+ℤ◌ ◌-ℤ◌
    serialize_tx write_all write_tx_in write_tx_out write_var_str write_var_int write_uint256
    get_tx_id
paid = refl

create_transaction_lem_example :
    let p = payment_of attempted.1 in
    (wallet.keystore.locked ≡ false)
    × (version : ℕ) × (to_hash : Bytes) × (decode_address zero_ssl own_address
        ≡ some (version, to_hash))
    × (pos 1 ≤ℤ pos 5000)
    × (rest : List TxOut) × (p.tx.vout
        ≡ record { value = pos 5000; script_pub_key = build_p2pkh_script to_hash } ∷ rest)
    × IsChange rest
    × (pos 530 ≤ℤ p.fee)
    × (p.fee ≤ℤ pos 1679)
    × (p.txid ≡ get_tx_id zero_ssl p.tx)
    × (fee : ℤ) × (validate_transaction zero_ssl p.tx coins 9 (pos 0) false ≡ ok fee)
create_transaction_lem_example =
    create_transaction_lem zero_ssl (λ l. l) small_curve plain_cipher 3 (λ n. []) (λ n. []) 10 coins
      9 own_address (pos 5000) wallet attempted.0 (payment_of attempted.1) (paid_lem attempted paid)

-- A backup of a wallet of version byte 0x1E gives its address back, and one of another wallet gives none.
abbrev main_address : Bytes
main_address = hash160_to_address zero_ssl own 0x1E

abbrev main_wallet : Wallet
main_wallet = record {
  keystore = record {
    locked = false;
    salt = 4 ∷ [];
    kek = 5 ∷ [];
    keys = (main_address, entry) ∷ [];
  };
  version_byte = 0x1E;
}

unfoldable restored_addresses : Wallet → Option (List Bytes)
restored_addresses w =
    elim (backup small_curve plain_cipher (λ n. 1 ∷ []) (2 ∷ []) (3 ∷ []) w)
      as (λ x. Option (List Bytes)) [
        | none ↦ none
        | some p ↦
            Option.map (λ (r : Wallet × Option RestoreError). get_addresses r.0.keystore)
              (restore zero_ssl small_curve plain_cipher (7 ∷ []) (3 ∷ []) (λ n. 1 ∷ []) 11 p)
      ]

restored_main : restored_addresses main_wallet ≡ some (main_address ∷ [])
unfolding restored_addresses read_le read_bytes backup restore backup_keys write_backup_keys
    read_backup_entry read_backup_start unlock_twice restore_pair restore_entries restore_body
    read_var_str read_var_int unlock unlock_with opens_first decrypt_entry store_key add_key
    add_pair import_key from_priv_key pair_of lock insert find bytes_less write_var_str
    write_var_int set_priv_key get_priv_key get_pub_key_compressed pubkey_of get_key get_addresses
    seal open_seal all_bytes rol f1of line_step rounds words rmd160_transform update_loop
    rmd160_update zeros rmd160_final ripemd160 sha256d_bytes sha256d hash160 bytes_eq index_of
    base58_index char_at count_leading repeat div_pass encode_loop map_chars or_one encode_base58
    encode_base58_check hash160_to_address le_bytes of_le
restored_main = refl

restored_other : restored_addresses wallet ≡ some []
unfolding restored_addresses read_le read_bytes backup restore backup_keys write_backup_keys
    read_backup_entry read_backup_start unlock_twice restore_pair restore_entries restore_body
    read_var_str read_var_int unlock unlock_with opens_first decrypt_entry store_key add_key
    add_pair import_key from_priv_key pair_of lock insert find bytes_less write_var_str
    write_var_int set_priv_key get_priv_key get_pub_key_compressed pubkey_of get_key get_addresses
    seal open_seal all_bytes rol f1of line_step rounds words rmd160_transform update_loop
    rmd160_update zeros rmd160_final ripemd160 sha256d_bytes sha256d hash160 bytes_eq index_of
    base58_index char_at count_leading repeat div_pass encode_loop map_chars or_one encode_base58
    encode_base58_check hash160_to_address le_bytes of_le
restored_other = refl
