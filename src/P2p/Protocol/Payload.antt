-- ===== src/P2p/Protocol/Payload.antt =====
-- Payloads (src/p2p/protocol.cpp): what is serialized is read back.
use cdx.Base.{
  if◌then◌else◌, append_assoc, ℕ, arith, ◌≤◌, ◌≡◌, length, All, ◌++◌, ◌^◌, ◌<◌, List, some,
}
use cdx.P2p.Protocol.{
  max_inv_per_message, IsVersionMessage, VersionMessage, read_invs, read_version, write_inv,
  serialize_version, serialize_inv, deserialize_version, deserialize_inv, read_inv, Inv,
}
use cdx.Bytes.{of_bits-to_bits64, of_bits-to_bits32, to_bits, Bytes}
use cdx.Uint256.{IsWords}
use cdx.Serializer.{
  write_u64, write_var_str, write_all, write_uint256, write_u8, write_var_int, write_u32,
}
use cdx.Serializer.RoundTrip.{
  read_var_str-write_var_str, read_bytes-append, read_uint256-write_uint256,
  read_var_int-write_var_int, read_le-le_bytes,
}
use cdx.Transaction.Codec.RoundTrip.{to_bits-lt32, to_bits-lt64, read_at_most-write_all}

-- The ranges of the C++ types.
abbrev pub IsInv : Inv → Type 0
IsInv i = (i.type < 2 ^ 32) × IsWords i.hash

read_inv-write_inv :
    (i : Inv) (rest : Bytes) → IsInv i → read_inv (write_inv i ++ rest) ≡ some (i, rest)
unfolding read_inv write_inv
read_inv-write_inv i rest h = ground (
  arith,
  append_assoc (write_u32 i.type) (write_uint256 i.hash) rest,
  read_le-le_bytes 4 i.type (write_uint256 i.hash ++ rest) h.0,
  read_uint256-write_uint256 i.hash rest h.1,
)

-- DeserializeInv gives back every list of at most MAX_INV_PER_MESSAGE entries that SerializeInv wrote,
-- whatever follows it.
pub deserialize_inv-serialize_inv :
    (inv : List Inv) (rest : Bytes)
    → All IsInv inv
    → length inv ≤ max_inv_per_message
    → deserialize_inv (serialize_inv inv ++ rest) ≡ some inv
unfolding deserialize_inv serialize_inv read_invs
deserialize_inv-serialize_inv inv rest h hn = ground (
  arith,
  append_assoc (write_var_int (length inv)) (write_all write_inv inv) rest,
  read_var_int-write_var_int (length inv) (write_all write_inv inv ++ rest) (omega arith),
  read_at_most-write_all IsInv write_inv read_inv read_inv-write_inv max_inv_per_message inv rest h
      hn,
)

-- DeserializeVersion gives back every version message that SerializeVersion wrote, whatever follows it.
pub deserialize_version-serialize_version :
    (v : VersionMessage) (rest : Bytes)
    → IsVersionMessage v
    → deserialize_version (serialize_version v ++ rest) ≡ some v
unfolding deserialize_version serialize_version read_version
deserialize_version-serialize_version v rest (h1, h2, h3, h4, h5, h6, h7, h8) =
    let relay : ℕ = if v.relay then 1 else 0 in
    let s8 : Bytes = write_u8 relay in
    let s7 : Bytes = write_u32 (to_bits 32 v.start_height) ++ s8 in
    let s6 : Bytes = write_var_str v.user_agent ++ s7 in
    let s5 : Bytes = write_u64 v.nonce ++ s6 in
    let s4 : Bytes = v.addr_me ++ s5 in
    let s3 : Bytes = v.addr_you ++ s4 in
    let s2 : Bytes = write_u64 (to_bits 64 v.timestamp) ++ s3 in
    let s1 : Bytes = write_u64 (to_bits 64 v.services) ++ s2 in
    ground (
      arith,
      append_assoc (write_u32 (to_bits 32 v.version)) s1 rest,
      append_assoc (write_u64 (to_bits 64 v.services)) s2 rest,
      append_assoc (write_u64 (to_bits 64 v.timestamp)) s3 rest,
      append_assoc v.addr_you s4 rest,
      append_assoc v.addr_me s5 rest,
      append_assoc (write_u64 v.nonce) s6 rest,
      append_assoc (write_var_str v.user_agent) s7 rest,
      append_assoc (write_u32 (to_bits 32 v.start_height)) s8 rest,
      read_le-le_bytes 4 (to_bits 32 v.version) (s1 ++ rest) (to_bits-lt32 v.version),
      of_bits-to_bits32 v.version h1,
      read_le-le_bytes 8 (to_bits 64 v.services) (s2 ++ rest) (to_bits-lt64 v.services),
      of_bits-to_bits64 v.services h2,
      read_le-le_bytes 8 (to_bits 64 v.timestamp) (s3 ++ rest) (to_bits-lt64 v.timestamp),
      of_bits-to_bits64 v.timestamp h3,
      read_bytes-append 26 v.addr_you (s4 ++ rest) h5,
      read_bytes-append 26 v.addr_me (s5 ++ rest) h4,
      read_le-le_bytes 8 v.nonce (s6 ++ rest) h6,
      read_var_str-write_var_str v.user_agent (s7 ++ rest) h7,
      read_le-le_bytes 4 (to_bits 32 v.start_height) (s8 ++ rest) (to_bits-lt32 v.start_height),
      of_bits-to_bits32 v.start_height h8,
      read_le-le_bytes 1 relay rest (grind arith),
    )
