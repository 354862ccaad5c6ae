-- ===== src/Storage/State/RoundTrip.antt =====
-- What LoadChainState makes of what SaveChainState wrote (src/storage/blocks.cpp).
use cdx.Base.{
  length-take, ltb, length-drop, length-append, append_assoc, ◌==◌, if◌then◌else◌, All, take,
  drop-append, append-nil, ◌≤◌, ◌∙◌, not, take-append, refl, ap, drop, ◌^◌, length, ◌<◌, ℕ, suc,
  zero, Bool, true, false, some, List, [], ◌∷◌, ◌++◌, ◌≡◌, arith,
}
use cdx.Base.Int.{negsuc, ℤ, pos}
use cdx.Utxo.{uint256_key, outpoint_key, Coin, CoinsView}
use cdx.Storage.State.{save_chain_state, load_chain_state}
use cdx.Uint256.{IsWords, U256}
use cdx.Storage.State.{
  state_magic, load_body, load_coins, write_coin, zero_bytes, load_hashes, load_coin, fill,
}
use cdx.Bytes.{
  length-le_bytes, of_bits-to_bits64, of_le-le_bytes, of_bits, le_bytes, to_bits, IsInt, of_le,
  Bytes,
}
use cdx.Transaction.{IsOutPoint, OutPoint}
use cdx.Serializer.{write_u32, write_u8, write_uint256, write_u64, write_all}
use cdx.Uint256.Bytes.{set_bytes_le, set_bytes_le-get_bytes_le, length-get_bytes_le, get_bytes_le}
use cdx.StdMap.Order.{insert_all-IsOrdered, IsOrdered, insert_all}
use cdx.StdMap.{insert}
use cdx.Script.{bytes_eq}

fill-some :
    (buf b rest : Bytes) (n : ℕ) → length b ≡ n → fill buf n (b ++ rest) ≡ (b ++ drop n buf, rest)
unfolding fill
fill-some buf b rest n e = rw (← e, take-append b rest, drop-append b rest) refl

drop_all : (xs : Bytes) → drop (length xs) xs ≡ []
drop_all [] = refl
drop_all (x ∷ xs) = drop_all xs

-- A read that fills the whole buffer.
pub fill-all :
    (buf b rest : Bytes) (n : ℕ)
    → length b ≡ n
    → length buf ≡ n
    → fill buf n (b ++ rest) ≡ (b, rest)
fill-all buf b rest n e f =
    let empty : drop n buf ≡ [] = rw (← f) (drop_all buf) in
    fill-some buf b rest n e ∙ rw (empty, append-nil) refl

load_hashes-write_all :
    (hashes : List U256) (buf rest : Bytes)
    → All IsWords hashes
    → length buf ≡ 32
    → load_hashes (length hashes) buf (write_all write_uint256 hashes ++ rest) ≡ (hashes, rest)
unfolding load_hashes write_all write_uint256
load_hashes-write_all [] buf rest h e = refl
load_hashes-write_all (x ∷ hashes) buf rest h e =
    let tail = write_all write_uint256 hashes in
    rw
      (
        append_assoc (get_bytes_le x) tail rest,
        fill-all buf (get_bytes_le x) (tail ++ rest) 32 (length-get_bytes_le x) e,
        load_hashes-write_all hashes (get_bytes_le x) rest h.1 (length-get_bytes_le x),
        set_bytes_le-get_bytes_le x h.0,
      )
      refl

length-zero_bytes : (n : ℕ) → length (zero_bytes n) ≡ n
length-zero_bytes zero = refl
length-zero_bytes (suc n) = ap suc (length-zero_bytes n)

-- A coin of the file has the ranges of its C++ types, and a script that the loader takes.
abbrev pub IsStorable : OutPoint × Coin → Type 0
IsStorable (out, c) =
    IsOutPoint out
    × IsInt (2 ^ 63) c.value
    × IsInt (2 ^ 63) c.height
    × (length c.script_pub_key ≤ 100000)

of_le_u64 : (v : ℕ) → v < 2 ^ 64 → of_le (write_u64 v) ≡ v
of_le_u64 v h = of_le-le_bytes 8 v h

to_bits64-lt : (z : ℤ) → to_bits 64 z < 2 ^ 64
to_bits64-lt (pos n) = omega arith
to_bits64-lt (negsuc n) = omega arith

int_back : (z : ℤ) → IsInt (2 ^ 63) z → of_bits 64 (2 ^ 63) (of_le (write_u64 (to_bits 64 z))) ≡ z
int_back z h =
    ap (of_bits 64 (2 ^ 63)) (of_le_u64 (to_bits 64 z) (to_bits64-lt z)) ∙ of_bits-to_bits64 z h

flag_back : (b : Bool) → not (of_le (write_u8 (if b then 1 else 0)) == 0) ≡ b
unfolding of_le le_bytes
flag_back true = refl
flag_back false = refl

load_coin-write_coin :
    (junk meta rest : Bytes) (out : OutPoint) (c : Coin)
    → length (take 32 junk) ≡ 32
    → length (take 1 junk) ≡ 1
    → length meta ≡ 8
    → IsStorable (out, c)
    → load_coin junk meta (write_coin (out, c) ++ rest)
      ≡ some ((out, c), write_u64 (length c.script_pub_key), rest)
unfolding load_coin write_coin write_uint256
load_coin-write_coin junk meta rest out c j32 j1 m8 h =
    let script = c.script_pub_key in
    let size = length script in
    let s6 = script ++ rest in
    let s5 = write_u64 size ++ s6 in
    let s4 = write_u8 (if c.is_coinbase then 1 else 0) ++ s5 in
    let s3 = write_u64 (to_bits 64 c.height) ++ s4 in
    let s2 = write_u64 (to_bits 64 c.value) ++ s3 in
    let s1 = write_u32 out.n ++ s2 in
    let meta1 = write_u32 out.n ++ drop 4 meta in
    let meta1_8 : length meta1 ≡ 8 = omega (
      arith,
      length-append (write_u32 out.n) (drop 4 meta),
      length-le_bytes 4 out.n,
      length-drop 4 meta,
    ) in
    let n_back : of_le (take 4 meta1) ≡ out.n =
      rw (rw (length-le_bytes 4 out.n) at (take-append (write_u32 out.n) (drop 4 meta)))
        (of_le-le_bytes 4 out.n (omega arith)) in
    let size_back : of_le (write_u64 size) ≡ size = of_le_u64 size (omega arith) in
    let few : ltb 100000 size ≡ false = ground arith in
    let whole : write_coin (out, c) ++ rest ≡ get_bytes_le out.hash ++ s1 =
      simp append_assoc refl in
    rw
      (
        whole,
        fill-all (take 32 junk) (get_bytes_le out.hash) s1 32 (length-get_bytes_le out.hash) j32,
        fill-some meta (write_u32 out.n) s2 4 (length-le_bytes 4 out.n),
        fill-all meta1 (write_u64 (to_bits 64 c.value)) s3 8
            (length-le_bytes 8 (to_bits 64 c.value)) meta1_8,
        fill-all (write_u64 (to_bits 64 c.value)) (write_u64 (to_bits 64 c.height)) s4 8
            (length-le_bytes 8 (to_bits 64 c.height)) (length-le_bytes 8 (to_bits 64 c.value)),
        fill-all (take 1 junk) (write_u8 (if c.is_coinbase then 1 else 0)) s5 1
            (length-le_bytes 1 (if c.is_coinbase then 1 else 0)) j1,
        fill-all (write_u64 (to_bits 64 c.height)) (write_u64 size) s6 8 (length-le_bytes 8 size)
            (length-le_bytes 8 (to_bits 64 c.height)),
        size_back,
        few,
        fill-all (zero_bytes size) script rest size refl (length-zero_bytes size),
        n_back,
        int_back c.value h.1,
        int_back c.height h.2,
        flag_back c.is_coinbase,
        set_bytes_le-get_bytes_le out.hash h.0.0,
      )
      refl

load_coins-next :
    (junk meta stream : Bytes) (n : ℕ) (view : CoinsView) (out : OutPoint) (c : Coin)
    (meta' rest : Bytes)
    → load_coin junk meta stream ≡ some ((out, c), meta', rest)
    → load_coins junk (suc n) meta stream view ≡ load_coins junk n meta' rest (insert out c view)
unfolding load_coins
load_coins-next junk meta stream n view out c meta' rest e = rw (load_coins, e) refl

load_coins-write_all :
    (junk : Bytes) (coins : CoinsView) (meta rest : Bytes) (view : CoinsView)
    → length (take 32 junk) ≡ 32
    → length (take 1 junk) ≡ 1
    → length meta ≡ 8
    → All IsStorable coins
    → load_coins junk (length coins) meta (write_all write_coin coins ++ rest) view
      ≡ some (insert_all coins view)
unfolding load_coins write_all insert_all
load_coins-write_all junk [] meta rest view j32 j1 m8 h = refl
load_coins-write_all junk ((out, c) ∷ coins) meta rest view j32 j1 m8 h =
    let tail = write_all write_coin coins in
    let size = length c.script_pub_key in
    let first = load_coin-write_coin junk meta (tail ++ rest) out c j32 j1 m8 h.0 in
    rw (append_assoc (write_coin (out, c)) tail rest) (
      load_coins-next junk meta _ (length coins) view out c (write_u64 size) (tail ++ rest) first
      ∙ load_coins-write_all junk coins (write_u64 size) rest (insert out c view) j32 j1
          (length-le_bytes 8 size) h.1)

-- LoadChainState gives back the coins, the height, the tip and the vector of hashes that
-- SaveChainState wrote, whatever its local buffers held before, if the values have the ranges of
-- their C++ types, the coins stand in the order of their outpoints, no script has more than
-- 100000 bytes, and there are at most 100000000 hashes and 1000000000 coins.
pub load_chain_state-save_chain_state :
    (junk : Bytes) (view : CoinsView) (height : ℤ) (tip_hash : U256) (by_height : List U256)
    → length junk ≡ 33
    → IsOrdered view
    → All IsStorable view
    → IsInt (2 ^ 63) height
    → IsWords tip_hash
    → All IsWords by_height
    → length by_height ≤ 100000000
    → length view ≤ 1000000000
    → load_chain_state junk (save_chain_state view height tip_hash by_height)
      ≡ some (view, height, tip_hash, by_height)
unfolding load_chain_state load_body save_chain_state
load_chain_state-save_chain_state junk view height tip_hash by_height j ordered coins in_range tip
      hashes few_hashes few_coins =
    let j32 : length (take 32 junk) ≡ 32 = omega (arith, length-take 32 junk) in
    let j1 : length (take 1 junk) ≡ 1 = omega (arith, length-take 1 junk) in
    let j8 : length (take 8 junk) ≡ 8 = omega (arith, length-take 8 junk) in
    let j4 : length (take 4 junk) ≡ 4 = omega (arith, length-take 4 junk) in
    let h8 = length-le_bytes 8 (to_bits 64 height) in
    let n = length by_height in
    let k = length view in
    let n8 = length-le_bytes 8 n in
    let k8 = length-le_bytes 8 k in
    let n_back : of_le (write_u64 n) ≡ n = of_le_u64 n (omega arith) in
    let k_back : of_le (write_u64 k) ≡ k = of_le_u64 k (omega arith) in
    let n_few : ltb 100000000 n ≡ false = ground arith in
    let k_few : ltb 1000000000 k ≡ false = ground arith in
    let known : bytes_eq state_magic state_magic ≡ true = unfold bytes_eq in refl in
    let s5 = write_all write_coin view in
    let s4 = write_u64 k ++ s5 in
    let s3 = write_all write_uint256 by_height ++ s4 in
    let s2 = write_u64 n ++ s3 in
    let s1 = write_uint256 tip_hash ++ s2 in
    let read_coins = load_coins-write_all junk view (write_u64 k) [] [] j32 j1 k8 coins in
    let read_coins' = rw append-nil at read_coins in
    let tip32 : length (write_uint256 tip_hash) ≡ 32 =
      unfold write_uint256 in length-get_bytes_le tip_hash in
    let tip_back : set_bytes_le (write_uint256 tip_hash) ≡ tip_hash =
      unfold write_uint256 in set_bytes_le-get_bytes_le tip_hash tip in
    let f1 = fill-all (take 4 junk) state_magic (write_u64 (to_bits 64 height) ++ s1) 4 refl j4 in
    let f2 = fill-all (take 8 junk) (write_u64 (to_bits 64 height)) s1 8 h8 j8 in
    let f3 = fill-all (take 32 junk) (write_uint256 tip_hash) s2 32 tip32 j32 in
    let f4 = fill-all (write_u64 (to_bits 64 height)) (write_u64 n) s3 8 n8 h8 in
    let read_hashes = load_hashes-write_all by_height (write_uint256 tip_hash) s4 hashes tip32 in
    rw
      (
        f1,
        known,
        f2,
        f3,
        f4,
        n_back,
        n_few,
        read_hashes,
        fill-all (write_u64 n) (write_u64 k) s5 8 k8 n8,
        k_back,
        k_few,
        read_coins',
        insert_all-IsOrdered view ordered,
      )
      (rw (f1, f2, f3, f4, n_back, read_hashes, int_back height in_range, tip_back) refl)
