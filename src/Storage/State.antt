-- ===== src/Storage/State.antt =====
-- The file chainstate.dat (src/storage/blocks.cpp, SaveChainState and LoadChainState). A read behind
-- the end of the file leaves the rest of its buffer as it was, and the loader does not look at that.
pub mod RoundTrip
use cdx.Base.{
  ◌==◌, not, ◌^◌, ltb, length, drop, if◌then◌else◌, take, ℕ, suc, zero, Bool, true, false, some,
  none, Option, List, [], ◌∷◌, ◌++◌,
}
use cdx.Base.Int.{ℤ, pos}
use cdx.Utxo.{uint256_key, outpoint_key, Coin, CoinsView}
use cdx.Uint256.{U256}
use cdx.Bytes.{of_bits, of_le, to_bits, Bytes}
use cdx.Transaction.{OutPoint}
use cdx.Serializer.{write_all, write_u8, write_u32, write_u64, write_uint256}
use cdx.Uint256.Bytes.{set_bytes_le}
use cdx.StdMap.{insert}
use cdx.Script.{bytes_eq}

-- "CDXS"
abbrev pub state_magic : Bytes
state_magic = 67 ∷ 68 ∷ 88 ∷ 83 ∷ []

-- One coin of the file.
unfoldable pub write_coin : OutPoint × Coin → Bytes
write_coin (out, c) =
    write_uint256 out.hash
    ++ (write_u32 out.n
        ++ (write_u64 (to_bits 64 c.value)
            ++ (write_u64 (to_bits 64 c.height)
                ++ (write_u8 (if c.is_coinbase then 1 else 0)
                    ++ (write_u64 (length c.script_pub_key) ++ c.script_pub_key)))))

-- SaveChainState
unfoldable pub save_chain_state : CoinsView → ℤ → U256 → List U256 → Bytes
save_chain_state view height tip_hash by_height =
    state_magic
    ++ (write_u64 (to_bits 64 height)
        ++ (write_uint256 tip_hash
            ++ (write_u64 (length by_height)
                ++ (write_all write_uint256 by_height
                    ++ (write_u64 (length view) ++ write_all write_coin view)))))

-- in.read(buf, n): the buffer after it, and the bytes that are left.
unfoldable pub fill : Bytes → ℕ → Bytes → Bytes × Bytes
fill buf n stream = (take n stream ++ drop (length (take n stream)) buf, drop n stream)

-- The loop over the hashes of the active chain.
unfoldable pub load_hashes : ℕ → Bytes → Bytes → List U256 × Bytes
load_hashes zero buf stream = ([], stream)
load_hashes (suc n) buf stream =
    let (buf', rest) = fill buf 32 stream in
    let (hashes, rest') = load_hashes n buf' rest in (set_bytes_le buf' ∷ hashes, rest')

abbrev zero_bytes : ℕ → Bytes
zero_bytes zero = []
zero_bytes (suc n) = 0 ∷ zero_bytes n

-- One coin: none for a script of more than 100000 bytes; `junk` is what the local arrays hold.
unfoldable pub load_coin : Bytes → Bytes → Bytes → Option ((OutPoint × Coin) × Bytes × Bytes)
load_coin junk meta stream =
    let (hash, s1) = fill (take 32 junk) 32 stream in
    let (meta1, s2) = fill meta 4 s1 in
    let n = of_le (take 4 meta1) in
    let (meta2, s3) = fill meta1 8 s2 in
    let value = of_bits 64 (2 ^ 63) (of_le meta2) in
    let (meta3, s4) = fill meta2 8 s3 in
    let height = of_bits 64 (2 ^ 63) (of_le meta3) in
    let (flags, s5) = fill (take 1 junk) 1 s4 in
    let (meta4, s6) = fill meta3 8 s5 in
    if ltb 100000 (of_le meta4)
    then none
    else some (
      (
        record { hash = set_bytes_le hash; n = n },
        record {
          value = value;
          script_pub_key = (fill (zero_bytes (of_le meta4)) (of_le meta4) s6).0;
          height = height;
          is_coinbase = not (of_le flags == 0);
        },
      ),
      meta4,
      (fill (zero_bytes (of_le meta4)) (of_le meta4) s6).1,
    )

-- The loop over the coins.
unfoldable pub load_coins : Bytes → ℕ → Bytes → Bytes → CoinsView → Option CoinsView
load_coins junk zero meta stream view = some view
load_coins junk (suc n) meta stream view = elim (load_coin junk meta stream) [
  | none ↦ none
  | some ((out, c), meta', rest) ↦ load_coins junk n meta' rest (insert out c view)
]

-- LoadChainState behind the magic.
unfoldable pub load_body : Bytes → Bytes → Option (CoinsView × ℤ × U256 × List U256)
load_body junk stream =
    let (meta1, s1) = fill (take 8 junk) 8 stream in
    let (tip, s2) = fill (take 32 junk) 32 s1 in
    let (meta2, s3) = fill meta1 8 s2 in
    if ltb 100000000 (of_le meta2)
    then none
    else let (by_height, s4) = load_hashes (of_le meta2) tip s3 in
      let (meta3, s5) = fill meta2 8 s4 in
      if ltb 1000000000 (of_le meta3)
      then none
      else elim (load_coins junk (of_le meta3) meta3 s5 []) [
        | none ↦ none
        | some view ↦ some (view, of_bits 64 (2 ^ 63) (of_le meta1), set_bytes_le tip, by_height)
      ]

-- LoadChainState of the contents of the file
unfoldable pub load_chain_state : Bytes → Bytes → Option (CoinsView × ℤ × U256 × List U256)
load_chain_state junk stream =
    let (magic, s1) = fill (take 4 junk) 4 stream in
    if bytes_eq magic state_magic then load_body junk s1 else none
