-- ===== src/Serializer.antt =====
-- CSerializer and CDeserializer (src/transaction/serializer.h). A Write function is the bytes that
-- it appends to `buf`, so a chain of calls is a concatenation. A Read function is an action on the
-- bytes from `pos` to `len`; `none` is its `return false`.
pub mod RoundTrip
use cdx.Base.{
  ℕ, zero, suc, ◌+◌, ◌-◌, ◌*◌, ◌^◌, ◌≤◌, ◌<◌, Option, none, some, List, [], ◌∷◌, ◌++◌, length, take,
  drop, ltb, leb, ◌==◌, if◌then◌else◌,
}
use cdx.Bytes.{Bytes, le_bytes, of_le}
use cdx.Uint256.{U256}
use cdx.Uint256.Bytes.{get_bytes_le, set_bytes_le}

abbrev pub write_u8 : ℕ → Bytes
write_u8 = le_bytes 1

abbrev pub write_u16 : ℕ → Bytes
write_u16 = le_bytes 2

abbrev pub write_u32 : ℕ → Bytes
write_u32 = le_bytes 4

abbrev pub write_u64 : ℕ → Bytes
write_u64 = le_bytes 8

-- WriteVarInt
unfoldable pub write_var_int : ℕ → Bytes
write_var_int v =
    if ltb v 0xfd
    then write_u8 v
    else if leb v 0xffff
    then write_u8 0xfd ++ write_u16 v
    else if leb v 0xffffffff
    then write_u8 0xfe ++ write_u32 v
    else write_u8 0xff ++ write_u64 v

-- WriteVarStr
unfoldable pub write_var_str : Bytes → Bytes
write_var_str v = write_var_int (length v) ++ v

-- WriteUint256
unfoldable pub write_uint256 : U256 → Bytes
write_uint256 h = get_bytes_le h

-- for (const auto& x : xs) write(x)
unfoldable pub write_all : {A : Type 0} → (A → Bytes) → List A → Bytes
write_all write [] = []
write_all write (x ∷ xs) = write x ++ write_all write xs

abbrev pub Reader : Type 0 → Type 0
Reader A = Bytes → Option (A × Bytes)

infixl 5 ◌>>=◌
abbrev pub ◌>>=◌ : {A B : Type 0} → Reader A → (A → Reader B) → Reader B
◌>>=◌ m f s = elim (m s) [ none ↦ none | some (a, s') ↦ f a s' ]

abbrev pub pure : {A : Type 0} → A → Reader A
pure a s = some (a, s)

-- ReadBytes
unfoldable pub read_bytes : ℕ → Reader Bytes
read_bytes n s = if leb n (length s) then some (take n s, drop n s) else none

-- ReadU8, ReadU16, ReadU32, ReadU64 for k = 1, 2, 4, 8
unfoldable pub read_le : ℕ → Reader ℕ
read_le k = do b ← read_bytes k; pure (of_le b)

abbrev pub read_u8 : Reader ℕ
read_u8 = read_le 1

abbrev pub read_u16 : Reader ℕ
read_u16 = read_le 2

abbrev pub read_u32 : Reader ℕ
read_u32 = read_le 4

abbrev pub read_u64 : Reader ℕ
read_u64 = read_le 8

read_var_int_tail : ℕ → Reader ℕ
read_var_int_tail first =
    if ltb first 0xfd
    then pure first
    else if first == 0xfd
    then read_u16
    else if first == 0xfe
    then read_u32
    else read_u64

-- ReadVarInt
unfoldable pub read_var_int : Reader ℕ
unfolding read_var_int_tail
read_var_int = do first ← read_u8; read_var_int_tail first

-- if (n > len - pos) return false; return ReadBytes(n)
read_exactly : ℕ → Reader Bytes
read_exactly n s = if ltb (length s) n then none else read_bytes n s

-- ReadVarStr
unfoldable pub read_var_str : Reader Bytes
unfolding read_exactly
read_var_str = do n ← read_var_int; read_exactly n

-- ReadUint256
unfoldable pub read_uint256 : Reader U256
read_uint256 = do b ← read_bytes 32; pure (set_bytes_le b)

-- for (i = 0; i < n; ++i) { if (!read(x)) return false; xs.push_back(x); }
unfoldable pub read_many : {A : Type 0} → Reader A → ℕ → Reader (List A)
read_many read zero = pure []
read_many read (suc n) = do x ← read; xs ← read_many read n; pure (x ∷ xs)
