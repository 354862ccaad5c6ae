-- ===== src/Crypto.antt =====
-- The hashes that the program builds from OpenSSL's SHA-256 and its own RIPEMD-160
-- (src/crypto/hash.cpp), and its signature check (src/crypto/keys.cpp). OpenSSL is not part of the
-- program: its digest, its parsers of points and signatures and its ECDSA check are the fields of
-- `Openssl`, a parsed value standing for itself in an encoding of OpenSSL's choice.
pub mod Keys
use cdx.Base.{some, none, false, ◌||◌, ◌==◌, not, if◌then◌else◌, Option, Bool, length, ◌≡◌}
use cdx.Bytes.{Bytes, IsBytes}
use cdx.Uint256.{IsWords, U256}
use cdx.Uint256.Bytes.{set_bytes_le-IsWords, set_bytes_le}
use cdx.Ripemd160.{ripemd160}

pub record Openssl : Type 0 where
  -- EVP_sha256 in one shot
  pub sha256_oneshot : Bytes → Bytes
  -- EC_POINT_oct2point on secp256k1, with EC_KEY_set_public_key
  pub ec_oct2point : Bytes → Option Bytes
  -- d2i_ECDSA_SIG
  pub d2i_ecdsa_sig : Bytes → Option Bytes
  -- ECDSA_do_verify: digest, signature, point
  pub ecdsa_do_verify : Bytes → Bytes → Bytes → Bool

-- What is documented of SHA-256: a digest is 32 bytes.
pub record IsOpenssl (ssl : Openssl) : Type 0 where
  pub length-sha256 : (m : Bytes) → length (ssl.sha256_oneshot m) ≡ 32
  pub sha256-IsBytes : (m : Bytes) → IsBytes (ssl.sha256_oneshot m)

module _ (ssl : Openssl) where
  -- SHA256d, the 32 bytes
  unfoldable pub sha256d_bytes : Bytes → Bytes
  sha256d_bytes m = ssl.sha256_oneshot (ssl.sha256_oneshot m)

  -- SHA256d, as an integer
  unfoldable pub sha256d : Bytes → U256
  sha256d m = set_bytes_le (sha256d_bytes m)

  -- HASH160
  unfoldable pub hash160 : Bytes → Bytes
  hash160 m = ripemd160 (ssl.sha256_oneshot m)

  unfoldable pub verify_parsed : Bytes → Option Bytes → Option Bytes → Bool
  verify_parsed hash32 (some sig) (some point) = ssl.ecdsa_do_verify hash32 sig point
  verify_parsed hash32 (some sig) none = false
  verify_parsed hash32 none point = false

  -- VerifySignature: digest, signature, public key
  unfoldable pub verify_signature : Bytes → Bytes → Bytes → Bool
  unfolding verify_parsed
  verify_signature hash32 sig pubkey =
      if not (length hash32 == 32) || length sig == 0 || length pubkey == 0
      then false
      else verify_parsed hash32 (ssl.d2i_ecdsa_sig sig) (ssl.ec_oct2point pubkey)

-- A double hash has 64-bit words.
pub sha256d-IsWords : (ssl : Openssl) → IsOpenssl ssl → (m : Bytes) → IsWords (sha256d ssl m)
unfolding sha256d sha256d_bytes
sha256d-IsWords ssl sha m =
    let first = ssl.sha256_oneshot m in
    set_bytes_le-IsWords (ssl.sha256_oneshot first) (sha.sha256-IsBytes first)
      (sha.length-sha256 first)
