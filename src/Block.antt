-- ===== src/Block.antt =====
-- Block headers and blocks (src/blockchain/block.h) and their serialization
-- (src/transaction/serializer.cpp).
pub mod RoundTrip
use cdx.Base.{
  ℕ, zero, suc, ◌+◌, ◌^◌, ◌<◌, Option, none, some, List, [], ◌∷◌, ◌++◌, length, ltb, if◌then◌else◌,
  drop,
}
use cdx.Base.Int.{ℤ}
use cdx.Bytes.{Bytes, to_bits, of_bits, IsInt}
use cdx.Uint256.{U256, IsWords}
use cdx.Transaction.{Tx}
use cdx.Transaction.Codec.{serialize_tx, deserialize_tx}
use cdx.Serializer.{
  Reader, ◌>>=◌, pure, write_u32, write_var_int, write_uint256, write_all, read_u32, read_var_int,
  read_uint256,
}

-- CBlockHeader
pub record BlockHeader : Type 0 where
  pub version : ℤ
  pub prev_block_hash : U256
  pub merkle_root : U256
  pub timestamp : ℕ
  pub bits : ℕ
  pub nonce : ℕ

-- CBlock
pub record Block : Type 0 where
  pub header : BlockHeader
  pub vtx : List Tx

-- The fields have the ranges of their C++ types.
abbrev pub IsHeader : BlockHeader → Type 0
IsHeader h =
    IsInt (2 ^ 31) h.version
    × IsWords h.prev_block_hash
    × IsWords h.merkle_root
    × (h.timestamp < 2 ^ 32)
    × (h.bits < 2 ^ 32)
    × (h.nonce < 2 ^ 32)

-- SerializeBlockHeader
unfoldable pub serialize_header : BlockHeader → Bytes
serialize_header h =
    write_u32 (to_bits 32 h.version)
    ++ (write_uint256 h.prev_block_hash
        ++ (write_uint256 h.merkle_root
            ++ (write_u32 h.timestamp ++ (write_u32 h.bits ++ write_u32 h.nonce))))

-- DeserializeBlockHeader, as an action.
unfoldable pub read_header : Reader BlockHeader
read_header = do
  version ← read_u32
  prev ← read_uint256
  root ← read_uint256
  timestamp ← read_u32
  bits ← read_u32
  nonce ← read_u32
  pure (record {
    version = of_bits 32 (2 ^ 31) version;
    prev_block_hash = prev;
    merkle_root = root;
    timestamp = timestamp;
    bits = bits;
    nonce = nonce;
  })

-- DeserializeBlockHeader; bytes behind the header are ignored.
unfoldable pub deserialize_header : Bytes → Option BlockHeader
deserialize_header payload = elim (read_header payload) [ none ↦ none | some (h, _) ↦ some h ]

-- SerializeBlock
unfoldable pub serialize_block : Block → Bytes
serialize_block b =
    serialize_header b.header ++ (write_var_int (length b.vtx) ++ write_all serialize_tx b.vtx)

-- One transaction of a block: after DeserializeTransaction the position moves by the length that
-- the transaction has when it is serialized again.
unfoldable pub read_block_tx : Reader Tx
read_block_tx s = elim (deserialize_tx s) [
  | none ↦ none
  | some tx ↦ some (tx, drop (length (serialize_tx tx)) s)
]

unfoldable pub read_block_txs : ℕ → Reader (List Tx)
read_block_txs zero = pure []
read_block_txs (suc n) = do tx ← read_block_tx; txs ← read_block_txs n; pure (tx ∷ txs)

unfoldable pub read_block_body : BlockHeader → Reader Block
read_block_body header = do
  ntx ← read_var_int
  vtx ← λ s. if ltb 100000 ntx then none else read_block_txs ntx s
  pure (record { header = header; vtx = vtx })

-- DeserializeBlock; the body is read from byte 80 on.
unfoldable pub deserialize_block : Bytes → Option Block
deserialize_block payload = elim (deserialize_header payload) [
  | none ↦ none
  | some h ↦ elim (read_block_body h (drop 80 payload)) [ none ↦ none | some (b, _) ↦ some b ]
]
