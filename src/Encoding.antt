-- ===== src/Encoding.antt =====
-- Text and number encodings (src/crypto/encoding.cpp): the second varint codec, on a buffer, and
-- hexadecimal text (DecodeHex, and toHex of src/crypto/hash.cpp). A character is its code.
pub mod Base58
pub mod RoundTrip
use cdx.Base.{
  take, ◌-◌, ◌&&◌, ◌==◌, length, ◌%◌, ltb, leb, ◌+◌, ◌*◌, if◌then◌else◌, ◌/◌, Option, ℕ, List, [],
  ◌∷◌, some, none, suc, zero,
}
use cdx.Bytes.{of_le, le_bytes, Bytes}

-- VarIntSize
unfoldable pub var_int_size : ℕ → ℕ
var_int_size v =
    if ltb v 0xfd then 1 else if leb v 0xffff then 3 else if leb v 0xffffffff then 5 else 9

-- WriteVarInt: the bytes that it writes; its result is their number.
unfoldable pub put_var_int : ℕ → Bytes
put_var_int v =
    if ltb v 0xfd
    then v ∷ []
    else if leb v 0xffff
    then 0xfd ∷ le_bytes 2 v
    else if leb v 0xffffffff
    then 0xfe ∷ le_bytes 4 v
    else 0xff ∷ le_bytes 8 v

-- The number in the n bytes behind the first one, with the bytes used.
unfoldable pub field_at : ℕ → Bytes → Option (ℕ × ℕ)
field_at n rest = if ltb (length rest) n then none else some (of_le (take n rest), n + 1)

-- ReadVarInt: the value and the number of bytes used, none for -1
unfoldable pub get_var_int : Bytes → Option (ℕ × ℕ)
get_var_int [] = none
get_var_int (first ∷ rest) =
    if ltb first 0xfd
    then some (first, 1)
    else if first == 0xfd
    then field_at 2 rest
    else if first == 0xfe
    then field_at 4 rest
    else field_at 8 rest

-- The digit that stands for a half byte.
unfoldable pub hex_digit : ℕ → ℕ
hex_digit n = if ltb n 10 then 48 + n else 87 + n

-- toHex
unfoldable pub to_hex : Bytes → List ℕ
to_hex [] = []
to_hex (b ∷ bs) = hex_digit (b / 16) ∷ hex_digit (b % 16) ∷ to_hex bs

-- nib, with none for -1
unfoldable pub nib : ℕ → Option ℕ
nib c =
    if leb 48 c && leb c 57
    then some (c - 48)
    else if leb 97 c && leb c 102
    then some (c - 97 + 10)
    else if leb 65 c && leb c 70
    then some (c - 65 + 10)
    else none

unfoldable join_byte : Option ℕ → Option ℕ → Option Bytes → Option Bytes
join_byte (some hi) (some lo) (some bs) = some ((hi * 16 + lo) % 256 ∷ bs)
join_byte (some hi) (some lo) none = none
join_byte (some hi) none bs = none
join_byte none lo bs = none

-- The loop of DecodeHex over two characters at a time; an odd number of characters fails.
unfoldable pub decode_hex : List ℕ → Option Bytes
unfolding join_byte
decode_hex [] = some []
decode_hex (c ∷ []) = none
decode_hex (c ∷ d ∷ hex) = join_byte (nib c) (nib d) (decode_hex hex)
