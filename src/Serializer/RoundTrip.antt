-- ===== src/Serializer/RoundTrip.antt =====
-- What each Read function of CDeserializer makes of what the Write function wrote.
use cdx.Base.{
  ℕ, ◌^◌, ◌<◌, ◌≡◌, refl, some, List, [], ◌∷◌, ◌++◌, length, take-append, drop-append,
  length-append, arith, append_assoc, All,
}
use cdx.Bytes.{Bytes, le_bytes, length-le_bytes, of_le-le_bytes}
use cdx.Uint256.{U256, IsWords}
use cdx.Uint256.Bytes.{get_bytes_le, length-get_bytes_le, set_bytes_le-get_bytes_le}
use cdx.Serializer.{
  write_var_int, write_var_str, write_uint256, write_all, Reader, read_bytes, read_le, read_var_int,
  read_var_str, read_uint256, read_many,
}

pub read_bytes-append :
    (n : ℕ) (b rest : Bytes) → length b ≡ n → read_bytes n (b ++ rest) ≡ some (b, rest)
unfolding read_bytes
read_bytes-append n b rest e =
    rw (← e) (ground (arith, length-append b rest, take-append b rest, drop-append b rest))

pub read_le-le_bytes :
    (k v : ℕ) (rest : Bytes) → v < 256 ^ k → read_le k (le_bytes k v ++ rest) ≡ some (v, rest)
unfolding read_le
read_le-le_bytes k v rest h =
    ground
      (arith, read_bytes-append k (le_bytes k v) rest (length-le_bytes k v), of_le-le_bytes k v h)

-- ReadVarInt reads back every uint64 that WriteVarInt wrote, and leaves what follows it.
pub read_var_int-write_var_int :
    (v : ℕ) (rest : Bytes) → v < 2 ^ 64 → read_var_int (write_var_int v ++ rest) ≡ some (v, rest)
unfolding read_var_int write_var_int
read_var_int-write_var_int v rest h = ground (
  arith,
  read_le-le_bytes 1 v rest,
  read_le-le_bytes 1 0xfd (le_bytes 2 v ++ rest),
  read_le-le_bytes 1 0xfe (le_bytes 4 v ++ rest),
  read_le-le_bytes 1 0xff (le_bytes 8 v ++ rest),
  read_le-le_bytes 2 v rest,
  read_le-le_bytes 4 v rest,
  read_le-le_bytes 8 v rest,
  append_assoc (le_bytes 1 0xfd) (le_bytes 2 v) rest,
  append_assoc (le_bytes 1 0xfe) (le_bytes 4 v) rest,
  append_assoc (le_bytes 1 0xff) (le_bytes 8 v) rest,
)

-- ReadVarStr reads back every byte string that WriteVarStr wrote.
pub read_var_str-write_var_str :
    (v rest : Bytes) → length v < 2 ^ 64 → read_var_str (write_var_str v ++ rest) ≡ some (v, rest)
unfolding read_var_str write_var_str
read_var_str-write_var_str v rest h = ground (
  arith,
  append_assoc (write_var_int (length v)) v rest,
  read_var_int-write_var_int (length v) (v ++ rest) h,
  read_bytes-append (length v) v rest refl,
  length-append v rest,
)

-- ReadUint256 reads back every 256-bit integer that WriteUint256 wrote.
pub read_uint256-write_uint256 :
    (a : U256) (rest : Bytes) → IsWords a → read_uint256 (write_uint256 a ++ rest) ≡ some (a, rest)
unfolding read_uint256 write_uint256
read_uint256-write_uint256 a rest h = ground (
  arith,
  read_bytes-append 32 (get_bytes_le a) rest (length-get_bytes_le a),
  set_bytes_le-get_bytes_le a h,
)

module _ {A : Type 0} (P : A → Type 0) (write : A → Bytes) (read : Reader A)
    (back : (a : A) (rest : Bytes) → P a → read (write a ++ rest) ≡ some (a, rest)) where
  -- A loop of reads gives back what a loop of writes wrote.
  pub read_many-write_all :
      (xs : List A) (rest : Bytes)
      → All P xs
      → read_many read (length xs) (write_all write xs ++ rest) ≡ some (xs, rest)
  unfolding read_many write_all
  read_many-write_all [] rest h = refl
  read_many-write_all (x ∷ xs) rest h = ground (
    arith,
    append_assoc (write x) (write_all write xs) rest,
    back x (write_all write xs ++ rest) h.0,
    read_many-write_all xs rest h.1,
  )
