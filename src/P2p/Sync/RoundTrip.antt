-- ===== src/P2p/Sync/RoundTrip.antt =====
-- Synchronisation payloads (src/p2p/sync.cpp): what is built is parsed back, and what a locator holds.
use cdx.Base.{
  refl, inl, inr, ◌||◌, ◌==◌, Bool-cases, ◌-◌, ◌*◌, ltb, if◌then◌else◌, get_elem?, drop-append, ◌+◌,
  suc, zero, append-nil, append_assoc, ◌++◌, arith, ◌≡◌, ◌≤◌, All, length, ◌<◌, ℕ, [], ◌∷◌, List,
  some,
}
use cdx.Uint256.{IsWords, U256}
use cdx.P2p.Sync.{
  build_locator, read_headers, read_get_headers, build_get_headers_payload, build_headers_payload,
  write_header_entry, parse_get_headers_payload, read_header_entry, parse_headers_payload,
  locator_loop,
}
use cdx.Bytes.{Bytes}
use cdx.Block.{serialize_header, IsHeader, BlockHeader, deserialize_header}
use cdx.Serializer.{write_u8, write_all, write_uint256, read_uint256}
use cdx.Serializer.RoundTrip.{
  read_le-le_bytes, read_var_int-write_var_int, read_uint256-write_uint256,
}
use cdx.Transaction.Codec.RoundTrip.{read_at_most-write_all}
use cdx.Block.RoundTrip.{length-serialize_header, read_header-serialize_header}

read_hash :
    (a : U256) (rest : Bytes) → IsWords a → read_uint256 (write_uint256 a ++ rest) ≡ some (a, rest)
read_hash a rest h = read_uint256-write_uint256 a rest h

-- ParseGetHeadersPayload gives back every locator of at most 1000 hashes and the stop hash that
-- BuildGetHeadersPayload wrote.
pub parse_get_headers_payload-build :
    (locator : List U256) (hash_stop : U256)
    → All IsWords locator
    → IsWords hash_stop
    → length locator ≤ 1000
    → parse_get_headers_payload (build_get_headers_payload locator hash_stop)
      ≡ some (locator, hash_stop)
unfolding parse_get_headers_payload build_get_headers_payload read_get_headers
parse_get_headers_payload-build locator hash_stop hl hs hn = ground (
  arith,
  read_var_int-write_var_int (length locator)
      (write_all write_uint256 locator ++ write_uint256 hash_stop) (omega arith),
  read_at_most-write_all IsWords write_uint256 read_uint256 read_hash 1000 locator
      (write_uint256 hash_stop) hl hn,
  rw (append-nil (write_uint256 hash_stop)) at (read_hash hash_stop [] hs),
)

read_header_entry-write_header_entry :
    (h : BlockHeader) (rest : Bytes)
    → IsHeader h
    → read_header_entry (write_header_entry h ++ rest) ≡ some (h, rest)
unfolding read_header_entry write_header_entry deserialize_header
read_header_entry-write_header_entry h rest ok = ground (
  arith,
  append_assoc (serialize_header h) (write_u8 0) rest,
  read_header-serialize_header h (write_u8 0 ++ rest) ok,
  drop-append (serialize_header h) (write_u8 0 ++ rest),
  length-serialize_header h,
  read_le-le_bytes 1 0 rest (omega arith),
)

-- ParseHeadersPayload gives back every list of at most 2000 headers that BuildHeadersPayload wrote.
pub parse_headers_payload-build :
    (headers : List BlockHeader)
    → All IsHeader headers
    → length headers ≤ 2000
    → parse_headers_payload (build_headers_payload headers) ≡ some headers
unfolding parse_headers_payload build_headers_payload read_headers
parse_headers_payload-build headers hh hn = ground (
  arith,
  read_var_int-write_var_int (length headers) (write_all write_header_entry headers) (omega arith),
  append-nil (write_all write_header_entry headers),
  read_at_most-write_all IsHeader write_header_entry read_header_entry
      read_header_entry-write_header_entry 2000 headers [] hh hn,
)

get_elem?-some : (xs : List U256) (i : ℕ) → i < length xs → (x : U256) × (get_elem? xs i ≡ some x)
get_elem?-some [] i lt = ground arith
get_elem?-some (x ∷ xs) zero lt = (x, refl)
get_elem?-some (x ∷ xs) (suc i) lt = get_elem?-some xs i (omega arith)

locator_loop-some :
    (fuel : ℕ) (chain : List U256) (k step h : ℕ)
    → h < length chain
    → (hashes : List U256) × (locator_loop fuel chain k step h ≡ some hashes)
      × (length hashes ≤ fuel)
unfolding locator_loop
locator_loop-some zero chain k step h lt = ([], refl, omega arith)
locator_loop-some (suc fuel) chain k step h lt =
    let (x, found) = get_elem?-some chain h lt in
    let (hashes, run, short) =
      locator_loop-some fuel chain (k + 1) (if ltb 10 (k + 1) then step * 2 else step) (h - step)
        (omega arith) in
    elim (Bool-cases (h == 0 || ltb h step)) [
      | inl last ↦ (x ∷ [], ground (arith, found, last), omega arith)
      | inr more ↦ (x ∷ hashes, ground (arith, found, run, more), omega arith)
    ]

-- BuildLocator for a tip inside the chain reads no index out of range, and gives at most 32 hashes.
pub build_locator-some :
    (chain : List U256) (tip_height : ℕ)
    → tip_height < length chain
    → (hashes : List U256) × (build_locator chain tip_height ≡ some hashes) × (length hashes ≤ 32)
unfolding build_locator
build_locator-some [] tip_height lt = ground arith
build_locator-some (x ∷ chain) tip_height lt = locator_loop-some 32 (x ∷ chain) 0 1 tip_height lt
