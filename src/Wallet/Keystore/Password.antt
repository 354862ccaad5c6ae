-- ===== src/Wallet/Keystore/Password.antt =====
-- Changing the password of the keystore (src/wallet/keystore.cpp, ChangePassword).
use mathlib.Core.Path.{subst}
use cdx.Base.{
  sym, ◌∙◌, if◌then◌else◌, refl, ap, ◌⊎◌, arith, ◌<◌, Bool-cases, Option-cases, map, false, true,
  length, Option, some_injective, All, ℕ, List, ◌≡◌, inl, inr, [], ◌∷◌, some, none,
}
use cdx.Wallet.Keystore.{
  bytes_eq_iff, bytes_less, decrypt_entry, opens_first, get_key, get_addresses, unlock_with,
  KeyEntry, lock, unlock, change_unlocked, Keystore, store_keys, change_password, store_key,
  copy_keys, IsCipher, Cipher, bytes_key,
}
use cdx.Crypto.Keys.{get_priv_key, Curve}
use cdx.Bytes.{Bytes}
use cdx.StdMap.{find, StdMap, insert}
use cdx.Script.{bytes_eq}
use cdx.P2p.Protocol.{is_among}
use cdx.Wallet.Keystore.Laws.{get_key-stored, get_key-valid}

module _ (c : Curve) (ci : Cipher) (laws : IsCipher ci) where
  -- The keys that ChangePassword copies are those of the addresses.
  abbrev Copied : Keystore → List (Bytes × ℕ) → Type 0
  Copied ks l = All (λ (p : Bytes × ℕ). get_key c ci p.0 ks ≡ some p.1) l

  copy_keys-Copied :
      (addrs : List Bytes) (ks : Keystore) (l : List (Bytes × ℕ))
      → copy_keys c ci addrs ks ≡ some l
      → Copied ks l × (map (λ (p : Bytes × ℕ). p.0) l ≡ addrs)
  unfolding copy_keys
  copy_keys-Copied [] ks l e = rw (← some_injective e) (tt, refl)
  copy_keys-Copied (a ∷ addrs) ks l e = elim (Option-cases (get_key c ci a ks)) [
    | inl absent ↦ absurd (ground (arith, absent))
    | inr (d, found) ↦ elim (Option-cases (copy_keys c ci addrs ks)) [
      | inl none_left ↦ absurd (ground (arith, found, none_left))
      | inr (rest, copied) ↦
          let (h, same) = copy_keys-Copied addrs ks rest copied in
          let whole : some ((a, d) ∷ rest) ≡ some l = ground (arith, found, copied) in
          rw (← some_injective whole) ((found, h), ap (λ m. a ∷ m) same)
    ]
  ]

  store_key-locked :
      (a iv : Bytes) (now : ℕ) (o : Option (Bytes × Bytes)) (ks ks' : Keystore)
      → store_key c ci a iv now o ks ≡ some ks'
      → ks.locked ≡ false
      → ks'.locked ≡ false
  unfolding store_key
  store_key-locked a iv now none ks ks' e h = cc
  store_key-locked a iv now (some (cipher, tag)) ks ks' e h = rw (← some_injective e) h

  -- Encrypting copied keys again gives each address the key that it had.
  store_keys-same :
      (ivs : ℕ → Bytes) (now : ℕ) (old : Keystore) (l : List (Bytes × ℕ)) (ks ks' : Keystore)
      (other : Bytes)
      → Copied old l
      → ks.locked ≡ false
      → (get_key c ci other ks ≡ get_key c ci other old)
        ⊎ (is_among other (map (λ (p : Bytes × ℕ). p.0) l) ≡ true)
      → store_keys c ci ivs now l ks ≡ some ks'
      → get_key c ci other ks' ≡ get_key c ci other old
  unfolding store_keys
  store_keys-same ivs now old [] ks ks' other h opened (inl same) e = rw (← some_injective e) same
  store_keys-same ivs now old [] ks ks' other h opened (inr listed) e =
      absurd (unfold is_among in cc)
  store_keys-same ivs now old ((a, d) ∷ l) ks ks' other h opened start e =
      elim (Option-cases (
        store_key c ci a (ivs (length l)) now
          (ci.gcm_encrypt ks.kek (ivs (length l)) (get_priv_key c d)) ks)) [
            | inl failed ↦ absurd (ground (arith, failed))
            | inr (k, stored) ↦
                let (valid, size, _) = get_key-valid c ci laws a d old h.0 in
                let one =
                  get_key-stored c ci laws a other (ivs (length l)) d now ks k valid size opened
                    stored in
                let later : store_keys c ci ivs now l k ≡ some ks' = ground (arith, stored) in
                let opened' = store_key-locked a (ivs (length l)) now _ ks k stored opened in
                store_keys-same ivs now old l k ks' other h.1 opened'
                  (kept a d other l k one start h.0) later
          ]
    where
      kept :
          (a : Bytes) (d : ℕ) (other : Bytes) (l : List (Bytes × ℕ)) (k : Keystore)
          → get_key c ci other k ≡ (if bytes_eq other a then some d else get_key c ci other ks)
          → (get_key c ci other ks ≡ get_key c ci other old)
            ⊎ (is_among other (a ∷ map (λ (p : Bytes × ℕ). p.0) l) ≡ true)
          → get_key c ci a old ≡ some d
          → (get_key c ci other k ≡ get_key c ci other old)
            ⊎ (is_among other (map (λ (p : Bytes × ℕ). p.0) l) ≡ true)
      kept a d other l k one start found = elim (Bool-cases (bytes_eq other a)) [
        | inl same ↦
            let at = (bytes_eq_iff other a).0 same in
            inl (one ∙ (rw same (sym found)) ∙ ap (λ x. get_key c ci x old) (sym at))
        | inr differ ↦ elim start [
          | inl before ↦ inl (one ∙ (rw differ before))
          | inr listed ↦ inr (
              unfold is_among in
              ground (arith, differ, bytes_eq_iff other a, bytes_eq_iff a other, listed))
        ]
      ]

  -- Every entry of a store opens under its key; the salt and the key are as given.
  abbrev IsOpen : Bytes → Bytes → Keystore → Type 0
  IsOpen salt key ks =
      (ks.salt ≡ salt)
      × (ks.kek ≡ key)
      × All (λ (p : Bytes × KeyEntry). opens_first c ci key (p ∷ []) ≡ true) ks.keys

  All-insert :
      (P : Bytes × KeyEntry → Type 0) (a : Bytes) (e : KeyEntry) (m : StdMap Bytes KeyEntry)
      → P (a, e)
      → All P m
      → All P (insert a e m)
  unfolding insert
  All-insert P a e [] h q = (h, tt)
  All-insert P a e ((b, f) ∷ m) h q = elim (Bool-cases (bytes_eq a b)) [
    | inl same ↦ rw same (h, q.1)
    | inr differ ↦ elim (Bool-cases (bytes_less a b)) [
      | inl less ↦ rw (differ, less) (h, q)
      | inr more ↦ rw (differ, more) (q.0, All-insert P a e m h q.1)
    ]
  ]

  store_key-IsOpen :
      (a iv salt key : Bytes) (d now : ℕ) (ks ks' : Keystore)
      → length (get_priv_key c d) ≡ 32
      → IsOpen salt key ks
      → store_key c ci a iv now (ci.gcm_encrypt ks.kek iv (get_priv_key c d)) ks ≡ some ks'
      → IsOpen salt key ks'
  store_key-IsOpen a iv salt key d now ks ks' size h e =
      by_result (ci.gcm_encrypt ks.kek iv (get_priv_key c d)) refl e
    where
      by_result :
          (o : Option (Bytes × Bytes))
          → ci.gcm_encrypt ks.kek iv (get_priv_key c d) ≡ o
          → store_key c ci a iv now o ks ≡ some ks'
          → IsOpen salt key ks'
      by_result none q g = unfold store_key in cc
      by_result (some (cipher, tag)) q g =
          let entry : KeyEntry = record {
            ciphertext = cipher;
            iv = iv;
            tag = tag;
            created = now;
          } in
          let back = laws.decrypt-encrypt ks.kek iv (get_priv_key c d) cipher tag q in
          let back' = rw h.1 at back in
          let opens : opens_first c ci key ((a, entry) ∷ []) ≡ true =
            unfold opens_first decrypt_entry in ground (arith, back', size) in
          let same : some (record ks { keys = insert a entry ks.keys }) ≡ some ks' =
            unfold store_key in g in
          subst (IsOpen salt key) (some_injective same)
            (h.0, h.1, All-insert _ a entry ks.keys opens h.2)

  store_keys-IsOpen :
      (ivs : ℕ → Bytes) (now : ℕ) (salt key : Bytes) (old : Keystore) (l : List (Bytes × ℕ))
      (ks ks' : Keystore)
      → Copied old l
      → IsOpen salt key ks
      → store_keys c ci ivs now l ks ≡ some ks'
      → IsOpen salt key ks'
  unfolding store_keys
  store_keys-IsOpen ivs now salt key old [] ks ks' h open_ks e = rw (← some_injective e) open_ks
  store_keys-IsOpen ivs now salt key old ((a, d) ∷ l) ks ks' h open_ks e =
      elim (Option-cases (
        store_key c ci a (ivs (length l)) now
          (ci.gcm_encrypt ks.kek (ivs (length l)) (get_priv_key c d)) ks)) [
            | inl failed ↦ absurd (ground (arith, failed))
            | inr (k, stored) ↦
                let (_, size, _) = get_key-valid c ci laws a d old h.0 in
                let later : store_keys c ci ivs now l k ≡ some ks' = ground (arith, stored) in
                store_keys-IsOpen ivs now salt key old l k ks' h.1
                  (store_key-IsOpen a (ivs (length l)) salt key d now ks k size open_ks stored)
                  later
          ]

  opens-All :
      (key : Bytes) (keys : StdMap Bytes KeyEntry)
      → All (λ (p : Bytes × KeyEntry). opens_first c ci key (p ∷ []) ≡ true) keys
      → opens_first c ci key keys ≡ true
  unfolding opens_first
  opens-All key [] h = refl
  opens-All key ((a, e) ∷ keys) h = h.0

  find-among :
      (address : Bytes) (keys : StdMap Bytes KeyEntry) (e : KeyEntry)
      → find address keys ≡ some e
      → is_among address (map (λ (p : Bytes × KeyEntry). p.0) keys) ≡ true
  unfolding find is_among
  find-among address [] e q = absurd (cc)
  find-among address ((a, f) ∷ keys) e q =
      ground (arith, bytes_eq_iff address a, bytes_eq_iff a address, find-among address keys e)

  -- An address is listed, or it has no key before and after the map is emptied.
  listed :
      (salt key address : Bytes) (ks : Keystore)
      → ks.locked ≡ false
      → (get_key c ci address (record ks { kek = key; salt = salt; keys = [] })
          ≡ get_key c ci address ks)
        ⊎ (is_among address (get_addresses ks) ≡ true)
  unfolding get_key get_addresses
  listed salt key address ks opened = elim (Option-cases (find address ks.keys)) [
    | inl absent ↦ inl (unfold find in ground (arith, absent, opened))
    | inr (e, found) ↦ inr (find-among address ks.keys e found)
  ]

  -- The new password opens what it has closed.
  unlock-IsOpen :
      (random password salt key : Bytes) (ks : Keystore)
      → 0 < length salt
      → ci.pbkdf2 password salt ≡ some key
      → IsOpen salt key ks
      → (unlock c ci random password (lock ks)).1 ≡ true
  unfolding unlock lock unlock_with
  unlock-IsOpen random password salt key ks some_salt derived h = by_salt ks.salt refl
    where
      by_salt : (s : Bytes) → ks.salt ≡ s → (unlock c ci random password (lock ks)).1 ≡ true
      by_salt [] q = absurd (omega (arith, ap length (sym h.0 ∙ q)))
      by_salt (x ∷ s) q =
          let derived' : ci.pbkdf2 password (lock ks).salt ≡ some key = rw h.0 derived in
          rw (q, derived', opens-All key ks.keys h.2) refl

  change_unlocked-cases :
      (ivs : ℕ → Bytes) (now : ℕ) (new_salt new_password : Bytes) (ks ks' : Keystore)
      → change_unlocked c ci ivs now new_salt new_password ks ≡ some (ks', true)
      → (l : List (Bytes × ℕ)) × (key : Bytes) × (copy_keys c ci (get_addresses ks) ks ≡ some l)
        × (ci.pbkdf2 new_password new_salt ≡ some key)
        × (store_keys c ci ivs now l (record ks { kek = key; salt = new_salt; keys = [] })
            ≡ some ks')
  unfolding change_unlocked
  change_unlocked-cases ivs now new_salt new_password ks ks' e =
      elim (Option-cases (copy_keys c ci (get_addresses ks) ks)) [
        | inl closed ↦ absurd (ground (arith, closed))
        | inr (l, copied) ↦ elim (Option-cases (ci.pbkdf2 new_password new_salt)) [
          | inl failed ↦ absurd (ground (arith, copied, failed))
          | inr (key, derived) ↦ (l, key, copied, derived, ground (arith, copied, derived))
        ]
      ]

  -- If ChangePassword succeeds on an open keystore, every address has the private key that it had (or
  -- none, as before), and the new password opens the keystore once it is locked. The salt that
  -- RAND_bytes gave is not empty; whatever it would give later does not matter.
  pub change_password_lem :
      (ivs : ℕ → Bytes) (now : ℕ) (random new_salt old_password new_password : Bytes)
      (ks ks' : Keystore)
      → ks.locked ≡ false
      → 0 < length new_salt
      → change_password c ci ivs now random new_salt old_password new_password ks ≡ some (ks', true)
      → ((address : Bytes) → get_key c ci address ks' ≡ get_key c ci address ks)
        × ((later : Bytes) → (unlock c ci later new_password (lock ks')).1 ≡ true)
  unfolding change_password
  change_password_lem ivs now random new_salt old_password new_password ks ks' opened salted e =
      let e' : change_unlocked c ci ivs now new_salt new_password ks ≡ some (ks', true) =
        ground (arith, opened) in
      let (l, key, copied, derived, stored) =
        change_unlocked-cases ivs now new_salt new_password ks ks' e' in
      let (h, addrs) = copy_keys-Copied (get_addresses ks) ks l copied in
      (
        λ address.
            store_keys-same ivs now ks l _ ks' address h opened
              (rw addrs (listed new_salt key address ks opened)) stored,
        λ later.
            unlock-IsOpen later new_password new_salt key ks' salted derived
              (store_keys-IsOpen ivs now new_salt key ks l _ ks' h (refl, refl, tt) stored),
      )
