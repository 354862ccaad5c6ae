-- ===== src/Block/RoundTrip.antt =====
-- What DeserializeBlockHeader and DeserializeBlock make of what was serialized.
use cdx.Base.{
  ◌≤◌, ◌≡◌, refl, some, List, [], ◌∷◌, ◌++◌, length, All, arith, append_assoc, append-nil, drop,
  drop-append,
}
use cdx.Bytes.{Bytes, to_bits, le_bytes, of_bits-to_bits32}
use cdx.Uint256.Bytes.{get_bytes_le}
use cdx.Transaction.{Tx}
use cdx.Transaction.Codec.{serialize_tx, deserialize_tx}
use cdx.Transaction.Codec.RoundTrip.{IsSerializable, read_tx-serialize_tx, to_bits-lt32}
use cdx.Block.{
  BlockHeader, Block, IsHeader, serialize_header, read_header, deserialize_header, serialize_block,
  read_block_tx, read_block_txs, read_block_body, deserialize_block,
}
use cdx.Serializer.{write_u32, write_var_int, write_uint256, write_all}
use cdx.Serializer.RoundTrip.{
  read_le-le_bytes, read_var_int-write_var_int, read_uint256-write_uint256,
}

-- A header has 80 bytes.
pub length-serialize_header : (h : BlockHeader) → length (serialize_header h) ≡ 80
unfolding serialize_header write_uint256 get_bytes_le le_bytes
length-serialize_header h = refl

-- Reading a header takes exactly the bytes that SerializeBlockHeader wrote, whatever follows them,
-- and gives the header back.
pub read_header-serialize_header :
    (h : BlockHeader) (rest : Bytes)
    → IsHeader h
    → read_header (serialize_header h ++ rest) ≡ some (h, rest)
unfolding read_header serialize_header
read_header-serialize_header h rest ok =
    let s5 : Bytes = write_u32 h.nonce in
    let s4 : Bytes = write_u32 h.bits ++ s5 in
    let s3 : Bytes = write_u32 h.timestamp ++ s4 in
    let s2 : Bytes = write_uint256 h.merkle_root ++ s3 in
    let s1 : Bytes = write_uint256 h.prev_block_hash ++ s2 in
    ground (
      arith,
      append_assoc (write_u32 (to_bits 32 h.version)) s1 rest,
      append_assoc (write_uint256 h.prev_block_hash) s2 rest,
      append_assoc (write_uint256 h.merkle_root) s3 rest,
      append_assoc (write_u32 h.timestamp) s4 rest,
      append_assoc (write_u32 h.bits) s5 rest,
      read_le-le_bytes 4 (to_bits 32 h.version) (s1 ++ rest) (to_bits-lt32 h.version),
      of_bits-to_bits32 h.version ok.0,
      read_uint256-write_uint256 h.prev_block_hash (s2 ++ rest) ok.1,
      read_uint256-write_uint256 h.merkle_root (s3 ++ rest) ok.2,
      read_le-le_bytes 4 h.timestamp (s4 ++ rest) ok.3,
      read_le-le_bytes 4 h.bits (s5 ++ rest) ok.4,
      read_le-le_bytes 4 h.nonce rest ok.5,
    )

read_block_tx-serialize_tx :
    (tx : Tx) (rest : Bytes)
    → IsSerializable tx
    → read_block_tx (serialize_tx tx ++ rest) ≡ some (tx, rest)
unfolding read_block_tx deserialize_tx
read_block_tx-serialize_tx tx rest h =
    ground (arith, read_tx-serialize_tx tx rest h, drop-append (serialize_tx tx) rest)

read_block_txs-write_all :
    (txs : List Tx) (rest : Bytes)
    → All IsSerializable txs
    → read_block_txs (length txs) (write_all serialize_tx txs ++ rest) ≡ some (txs, rest)
unfolding read_block_txs write_all
read_block_txs-write_all [] rest h = refl
read_block_txs-write_all (tx ∷ txs) rest h = ground (
  arith,
  append_assoc (serialize_tx tx) (write_all serialize_tx txs) rest,
  read_block_tx-serialize_tx tx (write_all serialize_tx txs ++ rest) h.0,
  read_block_txs-write_all txs rest h.1,
)

-- DeserializeBlock gives back every block that SerializeBlock wrote, with the ranges of the C++
-- types and at most 100000 transactions, inputs and outputs.
pub deserialize_block-serialize_block :
    (b : Block)
    → IsHeader b.header
    → All IsSerializable b.vtx
    → length b.vtx ≤ 100000
    → deserialize_block (serialize_block b) ≡ some b
unfolding deserialize_block deserialize_header serialize_block read_block_body
deserialize_block-serialize_block b hh ht hn =
    let body : Bytes = write_var_int (length b.vtx) ++ write_all serialize_tx b.vtx in
    ground (
      arith,
      read_header-serialize_header b.header body hh,
      skipped body,
      read_var_int-write_var_int (length b.vtx) (write_all serialize_tx b.vtx) (omega arith),
      append-nil (write_all serialize_tx b.vtx),
      read_block_txs-write_all b.vtx [] ht,
    )
  where
    skipped : (body : Bytes) → drop 80 (serialize_header b.header ++ body) ≡ body
    skipped body =
        rw (length-serialize_header b.header) at (drop-append (serialize_header b.header) body)
