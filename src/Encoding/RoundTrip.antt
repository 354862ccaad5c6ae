-- ===== src/Encoding/RoundTrip.antt =====
-- What the encoders write is read back (src/crypto/encoding.cpp).
use native.Mathlib.Nat.{div-add-mod}
use cdx.Base.{
  length-append, take-append, take, ◌+◌, refl, ◌%◌, ◌/◌, length, arith, ◌++◌, ◌≡◌, ◌^◌, ◌<◌, ℕ, [],
  ◌∷◌, some,
}
use cdx.Encoding.{
  field_at, var_int_size, hex_digit, to_hex, put_var_int, nib, get_var_int, decode_hex,
}
use cdx.Bytes.{of_le-le_bytes, length-le_bytes, le_bytes, IsBytes, Bytes}
use cdx.Serializer.{write_var_int}

field_at-le_bytes :
    (n v : ℕ) (rest : Bytes) → v < 256 ^ n → field_at n (le_bytes n v ++ rest) ≡ some (v, n + 1)
unfolding field_at
field_at-le_bytes n v rest h =
    let taken : take n (le_bytes n v ++ rest) ≡ le_bytes n v =
      rw (length-le_bytes n v) at (take-append (le_bytes n v) rest) in
    ground
      (arith, taken, length-append (le_bytes n v) rest, length-le_bytes n v, of_le-le_bytes n v h)

small_byte : (b : ℕ) → b < 256 → le_bytes 1 b ≡ b ∷ []
unfolding le_bytes
small_byte b h = ground arith

-- ReadVarInt reads back every uint64 that WriteVarInt wrote, whatever follows it, and both use
-- VarIntSize bytes; the bytes are the ones that CSerializer::WriteVarInt writes.
pub get_var_int-put_var_int :
    (v : ℕ) (rest : Bytes)
    → v < 2 ^ 64
    → (get_var_int (put_var_int v ++ rest) ≡ some (v, var_int_size v))
      × (length (put_var_int v) ≡ var_int_size v)
      × (put_var_int v ≡ write_var_int v)
get_var_int-put_var_int v rest h = (read, size, same)
  where
    read : get_var_int (put_var_int v ++ rest) ≡ some (v, var_int_size v)
    read =
        unfold get_var_int put_var_int var_int_size in
        ground (
          arith,
          λ (p : v < 256 ^ 2). field_at-le_bytes 2 v rest p,
          λ (p : v < 256 ^ 4). field_at-le_bytes 4 v rest p,
          field_at-le_bytes 8 v rest h,
        )

    size : length (put_var_int v) ≡ var_int_size v
    size =
        unfold put_var_int var_int_size in
        ground (arith, length-le_bytes 2 v, length-le_bytes 4 v, length-le_bytes 8 v)

    same : put_var_int v ≡ write_var_int v
    same =
        unfold put_var_int write_var_int in
        ground (
          arith,
          small_byte v,
          small_byte 0xfd (omega arith),
          small_byte 0xfe (omega arith),
          small_byte 0xff (omega arith),
        )

nib-hex_digit : (n : ℕ) → n < 16 → nib (hex_digit n) ≡ some n
unfolding nib hex_digit
nib-hex_digit n h = ground arith

-- DecodeHex gives back every byte string that toHex wrote.
pub decode_hex-to_hex : (bs : Bytes) → IsBytes bs → decode_hex (to_hex bs) ≡ some bs
unfolding decode_hex to_hex
decode_hex-to_hex [] h = refl
decode_hex-to_hex (b ∷ bs) h = ground (
  arith,
  nib-hex_digit (b / 16) (omega arith),
  nib-hex_digit (b % 16) (omega arith),
  decode_hex-to_hex bs h.1,
  div-add-mod b 16,
)
