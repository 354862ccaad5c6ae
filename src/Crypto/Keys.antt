-- ===== src/Crypto/Keys.antt =====
-- Private keys and signatures (src/crypto/keys.cpp, class CKey). The curve is OpenSSL's: its group and
-- its arithmetic of big numbers modulo the order are the fields of `Curve`. A key that is not valid
-- is none.
use mathlib.Core.List.{reverse}
use cdx.Base.{
  true, false, ◌-◌, ◌/◌, ◌+◌, ◌&&◌, ◌||◌, ltb, ◌*◌, ◌%◌, not, length, ◌==◌, ◌++◌, leb, Option,
  if◌then◌else◌, List, ℕ, some, none, zero, suc, [], ◌∷◌,
}
use cdx.Bytes.{le_bytes, of_le, Bytes}

-- OpenSSL's secp256k1, big numbers and HMAC
pub record Curve : Type 0 where
  -- EC_GROUP_get0_order
  pub order : ℕ
  -- EC_POINT_mul of the generator, and the compressed form of the point
  pub compressed_point : ℕ → Option Bytes
  -- EC_POINT_mul of the generator, and EC_POINT_get_affine_coordinates: the first
  pub affine_x : ℕ → Option ℕ
  -- BN_mod_inverse modulo the order
  pub mod_inverse : ℕ → ℕ
  -- HMAC with EVP_sha256: key and message
  pub hmac_sha256 : Bytes → Bytes → Bytes

-- memset
unfoldable pub replicate : ℕ → ℕ → Bytes
replicate zero x = []
replicate (suc n) x = x ∷ replicate n x

-- BN_bin2bn and BN_bn2binpad
abbrev pub of_be : Bytes → ℕ
of_be p = of_le (reverse p)

abbrev pub be_bytes : ℕ → ℕ → Bytes
be_bytes k v = reverse (le_bytes k v)

-- The loop that trims the leading zeros of a big-endian number.
unfoldable pub trim_zeros : Bytes → Bytes
trim_zeros [] = []
trim_zeros (x ∷ []) = x ∷ []
trim_zeros (x ∷ y ∷ p) =
    let rest = trim_zeros (y ∷ p) in if x == 0 && ltb y 128 then rest else x ∷ y ∷ p

-- One of the two numbers in the encoding: the tag, the length and the bytes.
unfoldable pub der_number : Bytes → Bytes
der_number [] = 2 ∷ 0 ∷ []
der_number (x ∷ p) =
    if leb 128 x then 2 ∷ (length (x ∷ p) + 1) ∷ 0 ∷ x ∷ p else 2 ∷ length (x ∷ p) ∷ x ∷ p

-- The encoding of a signature; none when it is longer than SIGNATURE_DER_MAX_SIZE.
unfoldable pub der_signature : ℕ → ℕ → Option Bytes
der_signature r s =
    let numbers =
      der_number (trim_zeros (be_bytes 33 r)) ++ der_number (trim_zeros (be_bytes 33 s)) in
    if ltb 72 (2 + length numbers) then none else some (0x30 ∷ length numbers ∷ numbers)

module _ (c : Curve) where
  -- SetPrivKey
  unfoldable pub set_priv_key : Bytes → Option ℕ
  set_priv_key p =
      let d = of_be p in
      if not (length p == 32)
      then none
      else if d == 0 || leb c.order d
      then none
      else elim (c.compressed_point d) [ none ↦ none | some _ ↦ some d ]

  -- Generate, with what RAND_bytes gives: at most so many attempts
  unfoldable pub generate : List Bytes → Option ℕ
  generate [] = none
  generate (p ∷ random) =
      let rest = generate random in elim (set_priv_key p) [ none ↦ rest | some d ↦ some d ]

  -- GetPrivKey
  unfoldable pub get_priv_key : ℕ → Bytes
  get_priv_key d = be_bytes 32 d

  -- GetPubKeyCompressed
  unfoldable pub get_pub_key_compressed : ℕ → Option Bytes
  get_pub_key_compressed d = elim (c.compressed_point d) [
    | none ↦ none
    | some p ↦ if length p == 33 then some p else none
  ]

  -- The loop of RFC6979_GenerateK on K and V; none when the rounds run out.
  unfoldable pub generate_k_loop : ℕ → Bytes → Bytes → Option ℕ
  generate_k_loop zero key v = none
  generate_k_loop (suc fuel) key v =
      let v1 = c.hmac_sha256 key v in
      let key1 = c.hmac_sha256 key (0 ∷ v1) in
      let k = of_be v1 in
      elim (not (k == 0) && ltb k c.order) as (λ x. Option ℕ) [
        | true ↦ some k
        | false ↦ generate_k_loop fuel key1 (c.hmac_sha256 key1 v1)
      ]

  -- RFC6979_GenerateK
  unfoldable pub generate_k : ℕ → Bytes → Bytes → Option ℕ
  generate_k fuel priv32 hash32 =
      let v0 = replicate 32 1 in
      let k1 = c.hmac_sha256 (replicate 32 0) (0 ∷ (priv32 ++ hash32)) in
      let v1 = c.hmac_sha256 k1 v0 in
      let k2 = c.hmac_sha256 k1 (1 ∷ (priv32 ++ hash32)) in
      generate_k_loop fuel k2 (c.hmac_sha256 k2 v1)

  -- The two numbers of a signature for k: none where the code starts again with the same k, and so
  -- never ends.
  unfoldable pub sign_with : ℕ → Bytes → ℕ → Option (ℕ × ℕ)
  sign_with d hash32 k = elim (c.affine_x k) as (λ x. Option (ℕ × ℕ)) [
    | none ↦ none
    | some x ↦
        let r = x % c.order in
        let z = of_be hash32 % c.order in
        let s = (r * d % c.order + z) % c.order * c.mod_inverse k % c.order in
        let low = if ltb (c.order / 2) s then c.order - s else s in
        if r == 0 || s == 0 then none else some (r, low)
  ]

  -- Sign, with so many rounds for RFC6979_GenerateK
  unfoldable pub sign : ℕ → ℕ → Bytes → Option Bytes
  sign fuel d hash32 =
      if not (length hash32 == 32)
      then none
      else elim (generate_k fuel (get_priv_key d) hash32) as (λ x. Option Bytes) [
        | none ↦ none
        | some k ↦ elim (sign_with d hash32 k) as (λ x. Option Bytes) [
          | none ↦ none
          | some (r, s) ↦ der_signature r s
        ]
      ]
