-- ===== src/Encoding/Base58.antt =====
-- Base58 and Base58Check (src/crypto/encoding.cpp). A text is the list of its character codes, and an
-- exception is none.
use cdx.Base.{
  ltb, ◌-◌, ℕ, suc, zero, Option, some, none, [], ◌∷◌, ◌++◌, ◌+◌, ◌*◌, ◌/◌, ◌%◌, ◌==◌, length, take,
  drop, if◌then◌else◌,
}
use cdx.Bytes.{Bytes}
use cdx.Crypto.{sha256d_bytes, Openssl}
use cdx.Script.{bytes_eq}

-- BASE58_49 ∷ 50 ∷ 51 ∷ 52 ∷ 53 ∷ 54 ∷ 55 ∷ 56 ∷ 57 ∷ 65 ∷ 66 ∷ 67 ∷ 68 ∷ 69 ∷ 70 ∷ 71 ∷ 72 ∷ 74 ∷ 75 ∷ 76 ∷ 77 ∷ 78 ∷ 80 ∷ 81 ∷ 82 ∷ 83 ∷ 84 ∷ 85 ∷ 86 ∷ 87 ∷ 88 ∷ 89 ∷ 90 ∷ 97 ∷ 98 ∷ 99 ∷ 100 ∷ 101 ∷ 102 ∷ 103 ∷ 104 ∷ 105 ∷ 106 ∷ 107 ∷ 109 ∷ 110 ∷ 111 ∷ 112 ∷ 113 ∷ 114 ∷ 115 ∷ 116 ∷ 117 ∷ 118 ∷ 119 ∷ 120 ∷ 121 ∷ 122 ∷ []BET
abbrev pub base58_alphabet : Bytes
base58_alphabet =
    49 ∷ 50 ∷ 51 ∷ 52 ∷ 53 ∷ 54 ∷ 55 ∷ 56 ∷ 57 ∷ 65 ∷ 66 ∷ 67 ∷ 68 ∷ 69 ∷ 70 ∷ 71 ∷ 72 ∷ 74 ∷ 75
    ∷ 76 ∷ 77 ∷ 78 ∷ 80 ∷ 81 ∷ 82 ∷ 83 ∷ 84 ∷ 85 ∷ 86 ∷ 87 ∷ 88 ∷ 89 ∷ 90 ∷ 97 ∷ 98 ∷ 99 ∷ 100 ∷ 101
    ∷ 102 ∷ 103 ∷ 104 ∷ 105 ∷ 106 ∷ 107 ∷ 109 ∷ 110 ∷ 111 ∷ 112 ∷ 113 ∷ 114 ∷ 115 ∷ 116 ∷ 117 ∷ 118
    ∷ 119 ∷ 120 ∷ 121 ∷ 122 ∷ []

unfoldable pub index_of : ℕ → ℕ → Bytes → Option ℕ
index_of i c [] = none
index_of i c (x ∷ s) = let rest = index_of (i + 1) c s in if c == x then some i else rest

-- base58Index; strchr also finds the zero behind the text.
unfoldable pub base58_index : ℕ → Option ℕ
base58_index c = index_of 0 c (base58_alphabet ++ (0 ∷ []))

unfoldable pub char_at : Bytes → ℕ → ℕ
char_at [] i = 0
char_at (x ∷ s) zero = x
char_at (x ∷ s) (suc i) = char_at s i

-- The number of leading elements that are c.
unfoldable pub count_leading : ℕ → Bytes → ℕ
count_leading c [] = 0
count_leading c (x ∷ s) = let rest = count_leading c s in if x == c then suc rest else 0

unfoldable pub repeat : ℕ → ℕ → Bytes
repeat zero c = []
repeat (suc n) c = c ∷ repeat n c

-- One pass of the division by 58: the quotients and the remainder.
unfoldable pub div_pass : ℕ → Bytes → Bytes × ℕ
div_pass rem [] = ([], rem)
div_pass rem (b ∷ buf) =
    let acc = rem * 256 + b in
    let (qs, rem') = div_pass (acc % 58) buf in ((acc / 58) % 256 ∷ qs, rem')

-- The digits, least significant first; a pass leaves at most as many bytes, and every two passes
-- leave one less.
unfoldable pub encode_loop : ℕ → Bytes → Bytes
encode_loop zero buf = []
encode_loop (suc fuel) [] = []
encode_loop (suc fuel) (b ∷ buf) =
    let (qs, rem) = div_pass 0 (b ∷ buf) in rem ∷ encode_loop fuel (drop (count_leading 0 qs) qs)

unfoldable pub map_chars : Bytes → Bytes
map_chars [] = []
map_chars (d ∷ ds) = map_chars ds ++ (char_at base58_alphabet d ∷ [])

unfoldable pub or_one : Bytes → Bytes
or_one [] = char_at base58_alphabet 0 ∷ []
or_one (x ∷ s) = x ∷ s

-- EncodeBase58
unfoldable pub encode_base58 : Bytes → Bytes
encode_base58 bytes =
    let zeros = count_leading 0 bytes in
    let digits = encode_loop (2 * length bytes) (drop zeros bytes) in
    or_one (repeat zeros (char_at base58_alphabet 0) ++ map_chars digits)

-- The loop over b256, which multiplies it by 58: the bytes and the carry.
unfoldable pub mul_pass : ℕ → Bytes → Bytes × ℕ
mul_pass carry [] = ([], carry)
mul_pass carry (b ∷ b256) =
    let acc = b * 58 + carry in
    let (bs, carry') = mul_pass (acc / 256) b256 in (acc % 256 ∷ bs, carry')

-- while (carry > 0); the carry is an int, of four bytes.
unfoldable pub push_carry : ℕ → ℕ → Bytes
push_carry zero carry = []
push_carry (suc fuel) carry =
    let rest = push_carry fuel (carry / 256) in if carry == 0 then [] else carry % 256 ∷ rest

unfoldable pub decode_loop : Bytes → Bytes → Option Bytes
decode_loop [] b256 = some b256
decode_loop (c ∷ s) b256 = elim (base58_index c) [
  | none ↦ none
  | some idx ↦ let (bs, carry) = mul_pass idx b256 in decode_loop s (bs ++ push_carry 4 carry)
]

unfoldable pub reversed : Bytes → Bytes
reversed [] = []
reversed (x ∷ s) = reversed s ++ (x ∷ [])

-- DecodeBase58
unfoldable pub decode_base58 : Bytes → Option Bytes
decode_base58 s = elim (decode_loop s []) [
  | none ↦ none
  | some b256 ↦ some (repeat (count_leading (char_at base58_alphabet 0) s) 0 ++ reversed b256)
]

module _ (ssl : Openssl) where
  -- EncodeBase58Check
  unfoldable pub encode_base58_check : Bytes → Bytes
  encode_base58_check bytes = encode_base58 (bytes ++ take 4 (sha256d_bytes ssl bytes))

  unfoldable pub check_payload : Bytes → Option Bytes
  check_payload full =
      let payload = take (length full - 4) full in
      if ltb (length full) 4
      then none
      else if bytes_eq (take 4 (sha256d_bytes ssl payload)) (drop (length full - 4) full)
      then some payload
      else none

  -- DecodeBase58Check
  unfoldable pub decode_base58_check : Bytes → Option Bytes
  decode_base58_check s = elim (decode_base58 s) [ none ↦ none | some full ↦ check_payload full ]
