-- ===== src/Storage/Blocks.antt =====
-- The block files of CBlockStorage (src/storage/blocks.h, blocks.cpp) and the index of where the
-- blocks stand in them. A file that is missing has no bytes, and writing succeeds.
pub mod Laws
pub mod Index
use cdx.Base.{
  ◌^◌, suc, zero, drop, ◌&&◌, take, leb, ltb, ◌==◌, if◌then◌else◌, length, ℕ, Bool, true, false,
  some, none, Option, List, [], ◌∷◌, ◌++◌, ◌+◌, ◌-◌, ◌*◌,
}
use cdx.Base.Int.{ℤ, pos}
use cdx.Utxo.{uint256_key}
use cdx.Uint256.{u256_eq, U256}
use cdx.Block.{deserialize_block, serialize_block, Block}
use cdx.Serializer.{pure, read_u32, read_uint256, ◌>>=◌}
use cdx.Crypto.{Openssl}
use cdx.StdMap.{contains, StdMap, insert, find}
use cdx.Bytes.{of_bits, to_bits, Bytes}
use cdx.Serializer.{write_u32, write_all, read_u64, write_u64, write_uint256, Reader}
use cdx.Consensus.Header.{get_hash}

-- An entry of the index: height, file, offset and size.
pub record Place : Type 0 where
  pub height : ℤ
  pub file_num : ℕ
  pub offset : ℕ
  pub size : ℕ

-- The members of CBlockStorage, and the files blk*.dat and index.dat.
pub record BlockStorage : Type 0 where
  pub files : ℕ → Bytes
  pub index : StdMap U256 Place
  pub index_file : Option Bytes
  pub loaded : Bool

-- MAX_FILE
abbrev pub max_file : ℕ
max_file = 128 * 1024 * 1024

-- The largest number of a file in the index.
unfoldable pub last_file : ℕ → StdMap U256 Place → ℕ
last_file f [] = f
last_file f ((_, p) ∷ index) = last_file (if ltb f p.file_num then p.file_num else f) index

-- The file that AppendToFile writes to.
unfoldable pub choose_file : BlockStorage → ℕ → ℕ
choose_file s data_size =
    let f = last_file 0 s.index in
    let size = length (s.files f) in
    if ltb 0 size && ltb max_file (size + data_size) then f + 1 else f

-- AppendToFile
unfoldable pub append_to_file : Bytes → ℕ → (ℕ → Bytes) → ℕ → Bytes
append_to_file ser f files g = if g == f then files f ++ ser else files g

-- One entry of index.dat.
unfoldable pub write_place : U256 × Place → Bytes
write_place (hash, p) =
    write_uint256 hash
    ++ (write_u64 (to_bits 64 p.height)
        ++ (write_u32 p.file_num ++ (write_u64 p.offset ++ write_u64 p.size)))

-- SaveIndex
unfoldable pub save_index : StdMap U256 Place → Bytes
save_index index = write_u64 (length index) ++ write_all write_place index

-- One entry of index.dat as LoadIndex reads it.
unfoldable pub read_place : Reader (U256 × Place)
read_place = do
  hash ← read_uint256
  height ← read_u64
  file_num ← read_u32
  offset ← read_u64
  size ← read_u64
  pure (
    hash,
    record {
      height = of_bits 64 (2 ^ 63) height;
      file_num = file_num;
      offset = offset;
      size = size;
    },
  )

-- The loop of LoadIndex, which ends with the first entry that the file does not hold in full.
unfoldable pub load_places : ℕ → Bytes → StdMap U256 Place → StdMap U256 Place
load_places zero stream index = index
load_places (suc n) stream index = elim (read_place stream) [
  | none ↦ index
  | some ((hash, p), rest) ↦ load_places n rest (insert hash p index)
]

-- What LoadIndex adds to the index.
unfoldable pub merge_index : Bytes → StdMap U256 Place → StdMap U256 Place
merge_index stream index = elim (read_u64 stream) [
  | none ↦ index
  | some (n, rest) ↦ if ltb 100000000 n then index else load_places n rest index
]

-- LoadIndex
unfoldable pub load_index : BlockStorage → BlockStorage
load_index s = if s.loaded then s else elim s.index_file as (λ x. BlockStorage) [
  | none ↦ record s { loaded = true }
  | some stream ↦ record s { loaded = true; index = merge_index stream s.index }
]

-- ReadFromFile
unfoldable pub read_from_file : Bytes → ℕ → ℕ → Option Bytes
read_from_file file offset size =
    if leb (offset + size) (length file) then some (take size (drop offset file)) else none

-- Where the bytes that were appended to file f stand.
unfoldable pub place_of : Bytes → ℤ → ℕ → (ℕ → Bytes) → Place
place_of ser height f files = record {
  height = height;
  file_num = f;
  offset = length (files f) - length ser;
  size = length ser;
}

module _ (ssl : Openssl) where
  -- WriteBlock
  unfoldable pub write_block : Block → ℤ → BlockStorage → BlockStorage
  write_block blk height s =
      let ser = serialize_block blk in
      let f = choose_file s (length ser) in
      let files = append_to_file ser f s.files in
      let index = insert (get_hash ssl blk.header) (place_of ser height f files) s.index in
      record s { files = files; index = index; index_file = some (save_index index) }

  -- The block at a place, if it has the hash.
  unfoldable pub read_place_block : (ℕ → Bytes) → U256 → Place → Option Block
  read_place_block files hash p = elim (read_from_file (files p.file_num) p.offset p.size) [
    | none ↦ none
    | some ser ↦ elim (deserialize_block ser) [
      | none ↦ none
      | some blk ↦ if u256_eq (get_hash ssl blk.header) hash then some blk else none
    ]
  ]

  unfoldable pub block_at : (ℕ → Bytes) → U256 → Option Place → Option Block
  block_at files hash none = none
  block_at files hash (some p) = read_place_block files hash p

  unfoldable pub find_block : U256 → BlockStorage → Option Block
  find_block hash s = block_at s.files hash (find hash s.index)

  -- ReadBlock
  unfoldable pub read_block : U256 → BlockStorage → BlockStorage × Option Block
  read_block hash s = let s' = load_index s in (s', find_block hash s')

  -- HasBlock
  unfoldable pub has_block : U256 → BlockStorage → BlockStorage × Bool
  has_block hash s = let s' = load_index s in (s', contains hash s'.index)

-- BlockCount
unfoldable pub block_count : BlockStorage → BlockStorage × ℕ
block_count s = let s' = load_index s in (s', length s'.index)
