-- ===== src/Wallet/Keystore/Laws.antt =====
-- What the keystore keeps (src/wallet/keystore.cpp): AddKey, GetKey, Unlock and ChangePassword.
use mathlib.Core.Path.{subst}
use mathlib.Core.List.{reverse, reverse-reverse, reverse-cons}
use cdx.Base.{
  inl, inr, Option-cases, some_injective, ◌∙◌, length-append, ap, ◌++◌, arith, ◌<◌, refl, Option,
  if◌then◌else◌, false, length, ◌≡◌, ℕ, [], ◌∷◌, some, none,
}
use cdx.Wallet.Keystore.{
  decrypt_entry, KeyEntry, get_key, store_key, Keystore, IsCipher, Cipher, bytes_key,
}
use cdx.Crypto.Keys.{of_be, get_priv_key, set_priv_key, Curve}
use cdx.Bytes.{le_bytes-of_le, IsBytes, Bytes}
use cdx.Script.{bytes_eq}
use cdx.StdMap.{find, insert}
use cdx.StdMap.Laws.{find-insert}

length-reverse : (p : Bytes) → length (reverse p) ≡ length p
length-reverse [] = refl
length-reverse (x ∷ p) =
    rw (reverse-cons x p) (omega (arith, length-append (reverse p) (x ∷ []), length-reverse p))

snoc-IsBytes : (p : Bytes) (x : ℕ) → IsBytes p → x < 256 → IsBytes (p ++ (x ∷ []))
snoc-IsBytes [] x h lt = (lt, tt)
snoc-IsBytes (y ∷ p) x h lt = (h.0, snoc-IsBytes p x h.1 lt)

reverse-IsBytes : (p : Bytes) → IsBytes p → IsBytes (reverse p)
reverse-IsBytes [] h = h
reverse-IsBytes (x ∷ p) h =
    rw (reverse-cons x p) (snoc-IsBytes (reverse p) x (reverse-IsBytes p h.1) h.0)

-- A private key as its 32 bytes.
get_priv_key-set_priv_key :
    (c : Curve) (p : Bytes) (d : ℕ)
    → IsBytes p
    → length p ≡ 32
    → set_priv_key c p ≡ some d
    → get_priv_key c d ≡ p
unfolding set_priv_key get_priv_key
get_priv_key-set_priv_key c p d bytes size e =
    let same : of_be p ≡ d = ground (arith, e) in
    rw (← same) (
      ap reverse (le_bytes-of_le (reverse p) 32 (reverse-IsBytes p bytes) (length-reverse p ∙ size))
      ∙ reverse-reverse p)

module _ (c : Curve) (ci : Cipher) (laws : IsCipher ci) where
  -- An entry that was encrypted under the key of an open keystore.
  pub get_key-stored :
      (address other iv : Bytes) (d now : ℕ) (ks ks' : Keystore)
      → set_priv_key c (get_priv_key c d) ≡ some d
      → length (get_priv_key c d) ≡ 32
      → ks.locked ≡ false
      → store_key c ci address iv now (ci.gcm_encrypt ks.kek iv (get_priv_key c d)) ks ≡ some ks'
      → get_key c ci other ks' ≡ (if bytes_eq other address then some d else get_key c ci other ks)
  get_key-stored address other iv d now ks ks' valid size opened e =
      by_result (ci.gcm_encrypt ks.kek iv (get_priv_key c d)) refl e
    where
      by_result :
          (o : Option (Bytes × Bytes))
          → ci.gcm_encrypt ks.kek iv (get_priv_key c d) ≡ o
          → store_key c ci address iv now o ks ≡ some ks'
          → get_key c ci other ks'
            ≡ (if bytes_eq other address then some d else get_key c ci other ks)
      by_result none q h = unfold store_key in cc
      by_result (some (cipher, tag)) q h =
          let entry : KeyEntry = record {
            ciphertext = cipher;
            iv = iv;
            tag = tag;
            created = now;
          } in
          let same : some (record ks { keys = insert address entry ks.keys }) ≡ some ks' =
            unfold store_key in h in
          let back = laws.decrypt-encrypt ks.kek iv (get_priv_key c d) cipher tag q in
          subst
            (λ k.
              get_key c ci other k
              ≡ (if bytes_eq other address then some d else get_key c ci other ks))
            (some_injective same)
            (unfold get_key decrypt_entry in
              ground (arith, opened, back, size, valid, find-insert address other entry ks.keys))

  -- A private key that GetKey gives is one that SetPrivKey takes.
  pub get_key-valid :
      (address : Bytes) (d : ℕ) (ks : Keystore)
      → get_key c ci address ks ≡ some d
      → (set_priv_key c (get_priv_key c d) ≡ some d)
        × (length (get_priv_key c d) ≡ 32)
        × (ks.locked ≡ false)
  unfolding get_key decrypt_entry
  get_key-valid address d ks e = elim (Option-cases (find address ks.keys)) [
    | inl absent ↦ absurd (ground (arith, absent))
    | inr (entry, found) ↦
        elim (Option-cases (ci.gcm_decrypt ks.kek entry.iv entry.tag entry.ciphertext)) [
          | inl closed ↦ absurd (ground (arith, found, closed))
          | inr (plain, opened) ↦
              let size : length plain ≡ 32 = ground (arith, found, opened) in
              let set : set_priv_key c plain ≡ some d = ground (arith, found, opened) in
              let bytes =
                laws.decrypt-IsBytes ks.kek entry.iv entry.tag entry.ciphertext plain opened in
              let same = get_priv_key-set_priv_key c plain d bytes size set in
              (rw same set, rw same size, ground (arith, e))
        ]
  ]
