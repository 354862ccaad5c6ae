-- ===== src/P2p/Sync.antt =====
-- Synchronisation payloads (src/p2p/sync.cpp): getheaders and headers messages, and the locator.
pub mod RoundTrip
use cdx.Base.{
  ◌==◌, get_elem?, ◌-◌, ◌*◌, ◌+◌, ltb, if◌then◌else◌, suc, zero, drop, ◌++◌, length, Option, ℕ,
  List, [], ◌∷◌, some, none,
}
use cdx.Serializer.{
  pure, write_uint256, read_uint256, write_all, write_u8, read_u8, read_var_int, write_var_int,
  Reader, ◌>>=◌,
}
use cdx.Uint256.{U256}
use cdx.Bytes.{Bytes}
use cdx.Block.{deserialize_block, Block, deserialize_header, serialize_header, BlockHeader}
use cdx.Transaction.Codec.{deserialize_tx, read_at_most}
use cdx.Transaction.{Tx}

-- BuildGetHeadersPayload, and BuildGetBlocksPayload, which calls it
unfoldable pub build_get_headers_payload : List U256 → U256 → Bytes
build_get_headers_payload locator hash_stop =
    write_var_int (length locator) ++ (write_all write_uint256 locator ++ write_uint256 hash_stop)

unfoldable pub read_get_headers : Reader (List U256 × U256)
read_get_headers = do
  n ← read_var_int
  locator ← read_at_most 1000 read_uint256 n
  hash_stop ← read_uint256
  pure (locator, hash_stop)

-- ParseGetHeadersPayload, which ignores what follows
unfoldable pub parse_get_headers_payload : Bytes → Option (List U256 × U256)
parse_get_headers_payload payload = elim (read_get_headers payload) [
  | none ↦ none
  | some (r, _) ↦ some r
]

unfoldable pub write_header_entry : BlockHeader → Bytes
write_header_entry h = serialize_header h ++ write_u8 0

-- BuildHeadersPayload
unfoldable pub build_headers_payload : List BlockHeader → Bytes
build_headers_payload headers =
    write_var_int (length headers) ++ write_all write_header_entry headers

-- A header, which takes 80 bytes, and its transaction count of one byte.
unfoldable pub read_header_entry : Reader BlockHeader
read_header_entry s = elim (deserialize_header s) [
  | none ↦ none
  | some h ↦ elim (read_u8 (drop 80 s)) [ none ↦ none | some (_, rest) ↦ some (h, rest) ]
]

unfoldable pub read_headers : Reader (List BlockHeader)
read_headers = do n ← read_var_int; read_at_most 2000 read_header_entry n

-- ParseHeadersPayload
unfoldable pub parse_headers_payload : Bytes → Option (List BlockHeader)
parse_headers_payload payload = elim (read_headers payload) [ none ↦ none | some (r, _) ↦ some r ]

-- ParseBlockPayload
abbrev pub parse_block_payload : Bytes → Option Block
parse_block_payload payload = deserialize_block payload

-- ParseTxPayload
abbrev pub parse_tx_payload : Bytes → Option Tx
parse_tx_payload payload = deserialize_tx payload

-- The loop of BuildLocator at height h, with k entries pushed before: none when an index is out of
-- the range of chainHashes, where the program reads past the vector.
unfoldable pub locator_loop : ℕ → List U256 → ℕ → ℕ → ℕ → Option (List U256)
locator_loop zero chain_hashes k step h = some []
locator_loop (suc fuel) chain_hashes k step h =
    let step' = if ltb 10 (k + 1) then step * 2 else step in
    let rest = locator_loop fuel chain_hashes (k + 1) step' (h - step) in
    elim (get_elem? chain_hashes h) [
      | none ↦ none
      | some hash ↦
          if h == 0
          then some (hash ∷ [])
          else if ltb h step
          then some (hash ∷ [])
          else elim rest [ none ↦ none | some hashes ↦ some (hash ∷ hashes) ]
    ]

-- BuildLocator for a tip height of at least 0; it stops at 32 entries.
unfoldable pub build_locator : List U256 → ℕ → Option (List U256)
build_locator [] tip_height = some []
build_locator (h ∷ hashes) tip_height = locator_loop 32 (h ∷ hashes) 0 1 tip_height
