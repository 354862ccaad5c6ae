-- ===== src/Ripemd160.antt =====
-- RIPEMD-160 (src/crypto/ripemd160.cpp). A uint32_t is a number that every operation cuts to 32
-- bits; `buf` holds the bytes that wait for a full block, so `buflen` is its length.
use cdx.Base.{
  refl, ◌≡◌, ℕ, zero, suc, ◌+◌, ◌-◌, ◌*◌, ◌/◌, ◌%◌, ◌^◌, List, [], ◌∷◌, ◌++◌, length, take, drop,
  ltb, ◌==◌, if◌then◌else◌, bit_and, bit_or, bit_xor,
}
use cdx.Bytes.{Bytes, le_bytes, of_le}

abbrev u32 : ℕ → ℕ
u32 x = x % 2 ^ 32

abbrev flip : ℕ → ℕ
flip x = 2 ^ 32 - 1 - x

nth : List ℕ → ℕ → ℕ
nth [] i = 0
nth (x ∷ xs) zero = x
nth (x ∷ xs) (suc i) = nth xs i

-- rol
unfoldable pub rol : ℕ → ℕ → ℕ
rol x n = bit_or (u32 (x * 2 ^ n)) (x / 2 ^ (32 - n))

abbrev f1 : ℕ → ℕ → ℕ → ℕ
f1 x y z = bit_xor (bit_xor x y) z

abbrev f2 : ℕ → ℕ → ℕ → ℕ
f2 x y z = bit_or (bit_and x y) (bit_and (flip x) z)

abbrev f3 : ℕ → ℕ → ℕ → ℕ
f3 x y z = bit_xor (bit_or x (flip y)) z

abbrev f4 : ℕ → ℕ → ℕ → ℕ
f4 x y z = bit_or (bit_and x z) (bit_and y (flip z))

abbrev f5 : ℕ → ℕ → ℕ → ℕ
f5 x y z = bit_xor x (bit_or y (flip z))

abbrev r_r : List ℕ
r_r =
    0 ∷ 1 ∷ 2 ∷ 3 ∷ 4 ∷ 5 ∷ 6 ∷ 7 ∷ 8 ∷ 9 ∷ 10 ∷ 11 ∷ 12 ∷ 13 ∷ 14 ∷ 15 ∷ 7 ∷ 4 ∷ 13 ∷ 1 ∷ 10 ∷ 6
    ∷ 15 ∷ 3 ∷ 12 ∷ 0 ∷ 9 ∷ 5 ∷ 2 ∷ 14 ∷ 11 ∷ 8 ∷ 3 ∷ 10 ∷ 14 ∷ 4 ∷ 9 ∷ 15 ∷ 8 ∷ 1 ∷ 2 ∷ 7 ∷ 0 ∷ 6
    ∷ 13 ∷ 11 ∷ 5 ∷ 12 ∷ 1 ∷ 9 ∷ 11 ∷ 10 ∷ 0 ∷ 8 ∷ 12 ∷ 4 ∷ 13 ∷ 3 ∷ 7 ∷ 15 ∷ 14 ∷ 5 ∷ 6 ∷ 2 ∷ 4 ∷ 0
    ∷ 5 ∷ 9 ∷ 7 ∷ 12 ∷ 2 ∷ 10 ∷ 14 ∷ 1 ∷ 3 ∷ 8 ∷ 11 ∷ 6 ∷ 15 ∷ 13 ∷ []

abbrev l_r : List ℕ
l_r =
    5 ∷ 14 ∷ 7 ∷ 0 ∷ 9 ∷ 2 ∷ 11 ∷ 4 ∷ 13 ∷ 6 ∷ 15 ∷ 8 ∷ 1 ∷ 10 ∷ 3 ∷ 12 ∷ 6 ∷ 11 ∷ 3 ∷ 7 ∷ 0 ∷ 13
    ∷ 5 ∷ 10 ∷ 14 ∷ 15 ∷ 8 ∷ 12 ∷ 4 ∷ 9 ∷ 1 ∷ 2 ∷ 15 ∷ 5 ∷ 1 ∷ 3 ∷ 7 ∷ 14 ∷ 6 ∷ 9 ∷ 11 ∷ 8 ∷ 12 ∷ 2
    ∷ 10 ∷ 0 ∷ 4 ∷ 13 ∷ 8 ∷ 6 ∷ 4 ∷ 1 ∷ 3 ∷ 11 ∷ 15 ∷ 0 ∷ 5 ∷ 12 ∷ 2 ∷ 13 ∷ 9 ∷ 7 ∷ 10 ∷ 14 ∷ 12
    ∷ 15 ∷ 10 ∷ 4 ∷ 1 ∷ 5 ∷ 8 ∷ 7 ∷ 6 ∷ 2 ∷ 13 ∷ 14 ∷ 0 ∷ 3 ∷ 9 ∷ 11 ∷ []

abbrev r_s : List ℕ
r_s =
    11 ∷ 14 ∷ 15 ∷ 12 ∷ 5 ∷ 8 ∷ 7 ∷ 9 ∷ 11 ∷ 13 ∷ 14 ∷ 15 ∷ 6 ∷ 7 ∷ 9 ∷ 8 ∷ 7 ∷ 6 ∷ 8 ∷ 13 ∷ 11 ∷ 9
    ∷ 7 ∷ 15 ∷ 7 ∷ 12 ∷ 15 ∷ 9 ∷ 11 ∷ 7 ∷ 13 ∷ 12 ∷ 11 ∷ 13 ∷ 6 ∷ 7 ∷ 14 ∷ 9 ∷ 13 ∷ 15 ∷ 14 ∷ 8 ∷ 13
    ∷ 6 ∷ 5 ∷ 12 ∷ 7 ∷ 5 ∷ 11 ∷ 12 ∷ 14 ∷ 15 ∷ 14 ∷ 15 ∷ 9 ∷ 8 ∷ 9 ∷ 14 ∷ 5 ∷ 6 ∷ 8 ∷ 6 ∷ 5 ∷ 12 ∷ 9
    ∷ 15 ∷ 5 ∷ 11 ∷ 6 ∷ 8 ∷ 13 ∷ 12 ∷ 5 ∷ 12 ∷ 13 ∷ 14 ∷ 11 ∷ 8 ∷ 5 ∷ 6 ∷ []

abbrev l_s : List ℕ
l_s =
    8 ∷ 9 ∷ 9 ∷ 11 ∷ 13 ∷ 15 ∷ 15 ∷ 5 ∷ 7 ∷ 7 ∷ 8 ∷ 11 ∷ 14 ∷ 14 ∷ 12 ∷ 6 ∷ 9 ∷ 13 ∷ 15 ∷ 7 ∷ 12 ∷ 8
    ∷ 9 ∷ 11 ∷ 7 ∷ 7 ∷ 12 ∷ 7 ∷ 6 ∷ 15 ∷ 13 ∷ 11 ∷ 9 ∷ 7 ∷ 15 ∷ 11 ∷ 8 ∷ 6 ∷ 6 ∷ 14 ∷ 12 ∷ 13 ∷ 5
    ∷ 14 ∷ 13 ∷ 13 ∷ 7 ∷ 5 ∷ 15 ∷ 5 ∷ 8 ∷ 11 ∷ 14 ∷ 14 ∷ 6 ∷ 14 ∷ 6 ∷ 9 ∷ 12 ∷ 9 ∷ 12 ∷ 5 ∷ 15 ∷ 8
    ∷ 8 ∷ 5 ∷ 12 ∷ 9 ∷ 12 ∷ 5 ∷ 14 ∷ 6 ∷ 8 ∷ 13 ∷ 6 ∷ 5 ∷ 15 ∷ 13 ∷ 11 ∷ 11 ∷ []

abbrev r_add : List ℕ
r_add = 0x00000000 ∷ 0x5A827999 ∷ 0x6ED9EBA1 ∷ 0x8F1BBCDC ∷ 0xA953FD4E ∷ []

abbrev l_add : List ℕ
l_add = 0x50A28BE6 ∷ 0x5C4DD124 ∷ 0x6D703EF3 ∷ 0x7A6D76E9 ∷ 0x00000000 ∷ []

-- f1of
unfoldable pub f1of : ℕ → ℕ → ℕ → ℕ → ℕ
f1of round x y z =
    if round == 0
    then f1 x y z
    else if round == 1
    then f2 x y z
    else if round == 2
    then f3 x y z
    else if round == 3
    then f4 x y z
    else f5 x y z

-- The five words of a line of rounds, and of the chaining state.
pub record Five : Type 0 where
  pub a : ℕ
  pub b : ℕ
  pub c : ℕ
  pub d : ℕ
  pub e : ℕ

-- One step of a line: the rotation of the five words around the new one.
unfoldable pub line_step : ℕ → ℕ → ℕ → ℕ → Five → Five
unfolding f1of rol
line_step fround x k s v =
    let t = u32 (rol (u32 (v.a + f1of fround v.b v.c v.d + x + k)) s + v.e) in
    record { a = v.e; b = t; c = v.b; d = rol v.c 10; e = v.d }

-- The 80 rounds of both lines, with `left` rounds left from round j on.
unfoldable pub rounds : ℕ → ℕ → List ℕ → Five → Five → Five × Five
unfolding line_step nth
rounds zero j x l r = (l, r)
rounds (suc left) j x l r =
    let round = j / 16 in
    let l' = line_step round (nth x (nth r_r j)) (nth r_add round) (nth r_s j) l in
    let r' = line_step (4 - round) (nth x (nth l_r j)) (nth l_add round) (nth l_s j) r in
    rounds left (j + 1) x l' r'

-- The sixteen little-endian words of a block.
unfoldable pub words : ℕ → Bytes → List ℕ
words zero block = []
words (suc n) block = of_le (take 4 block) ∷ words n (drop 4 block)

-- rmd160_transform
unfoldable pub rmd160_transform : Five → Bytes → Five
unfolding rounds words of_le
rmd160_transform st block =
    let (l, r) = rounds 80 0 (words 16 block) st st in
    record {
      a = u32 (st.b + l.c + r.d);
      b = u32 (st.c + l.d + r.e);
      c = u32 (st.d + l.e + r.a);
      d = u32 (st.e + l.a + r.b);
      e = u32 (st.a + l.b + r.c);
    }

-- RIPEMD160_CTX
pub record Ctx : Type 0 where
  pub h : Five
  pub total : ℕ
  pub buf : Bytes

-- rmd160_init
abbrev pub rmd160_init : Ctx
rmd160_init = record {
  h = record { a = 0x67452301; b = 0xEFCDAB89; c = 0x98BADCFE; d = 0x10325476; e = 0xC3D2E1F0 };
  total = 0;
  buf = [];
}

-- The loop of rmd160_update: a round copies min(64 - buflen, len) bytes and transforms a full
-- buffer. It takes at least one byte, so one round for each byte is enough.
unfoldable pub update_loop : ℕ → Bytes → Ctx → Ctx
update_loop zero input ctx = ctx
update_loop (suc fuel) [] ctx = ctx
update_loop (suc fuel) (x ∷ xs) ctx =
    let n = 64 - length ctx.buf in
    let buf = ctx.buf ++ take n (x ∷ xs) in
    update_loop fuel (drop n (x ∷ xs)) (
      if length buf == 64
      then record ctx { h = rmd160_transform ctx.h buf; buf = [] }
      else record ctx { buf = buf })

-- rmd160_update; `total` is a uint64_t.
unfoldable pub rmd160_update : Bytes → Ctx → Ctx
unfolding update_loop
rmd160_update input ctx =
    update_loop (length input) input (record ctx { total = (ctx.total + length input) % 2 ^ 64 })

unfoldable pub zeros : ℕ → Bytes
zeros zero = []
zeros (suc n) = 0 ∷ zeros n

-- rmd160_final
unfoldable pub rmd160_final : Ctx → Bytes
unfolding rmd160_update zeros
rmd160_final ctx =
    let bitlen = ctx.total * 8 % 2 ^ 64 in
    let buflen = length ctx.buf in
    let padlen = if ltb buflen 56 then 56 - buflen else 120 - buflen in
    let padded = rmd160_update (0x80 ∷ zeros (padlen - 1)) ctx in
    let h = (rmd160_update (le_bytes 8 bitlen) padded).h in
    le_bytes 4 h.a ++ (le_bytes 4 h.b ++ (le_bytes 4 h.c ++ (le_bytes 4 h.d ++ le_bytes 4 h.e)))

-- ripemd160
unfoldable pub ripemd160 : Bytes → Bytes
unfolding rmd160_final
ripemd160 input = rmd160_final (rmd160_update input rmd160_init)

-- The published values for "" and "abc".
ripemd160_empty :
    ripemd160 []
    ≡ 0x9c ∷ 0x11 ∷ 0x85 ∷ 0xa5 ∷ 0xc5 ∷ 0xe9 ∷ 0xfc ∷ 0x54 ∷ 0x61 ∷ 0x28 ∷ 0x08 ∷ 0x97 ∷ 0x7e
      ∷ 0xe8 ∷ 0xf5 ∷ 0x48 ∷ 0xb2 ∷ 0x25 ∷ 0x8d ∷ 0x31 ∷ []
unfolding ripemd160 rmd160_transform le_bytes
ripemd160_empty = refl

ripemd160_abc :
    ripemd160 (0x61 ∷ 0x62 ∷ 0x63 ∷ [])
    ≡ 0x8e ∷ 0xb2 ∷ 0x08 ∷ 0xf7 ∷ 0xe0 ∷ 0x5d ∷ 0x98 ∷ 0x7a ∷ 0x9b ∷ 0x04 ∷ 0x4a ∷ 0x8e ∷ 0x98
      ∷ 0xc6 ∷ 0xb0 ∷ 0x87 ∷ 0xf1 ∷ 0x5a ∷ 0x0b ∷ 0xfc ∷ []
unfolding ripemd160 rmd160_transform le_bytes
ripemd160_abc = refl
