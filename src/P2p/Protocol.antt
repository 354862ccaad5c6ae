-- ===== src/P2p/Protocol.antt =====
-- Messages (src/p2p/protocol.h and protocol.cpp): the frame of a message, the version message and
-- lists of inventory. A command is the list of its character codes.
pub mod Frame
pub mod Payload
use cdx.Base.{
  ◌-◌, ◌+◌, ◌<◌, not, ◌≡◌, ◌||◌, drop, length, ◌++◌, false, ◌==◌, ltb, take, if◌then◌else◌, Bool,
  ◌^◌, Option, ℕ, List, [], ◌∷◌, some, none,
}
use cdx.Serializer.{
  read_u8, write_u8, write_var_str, read_var_str, write_u64, read_bytes, write_uint256, pure,
  write_all, read_u64, read_uint256, read_var_int, write_u32, read_u32, write_var_int, Reader,
  ◌>>=◌,
}
use cdx.Bytes.{of_bits, of_le, to_bits, Bytes, IsInt}
use cdx.Crypto.{sha256d_bytes, Openssl}
use cdx.Base.Int.{ℤ}
use cdx.Uint256.{U256}
use cdx.Transaction.Codec.{read_at_most}
use cdx.Script.{bytes_eq}
use cdx.Ripemd160.{zeros}

-- MAX_MESSAGE_SIZE
abbrev pub max_message_size : ℕ
max_message_size = 4194304

-- MAX_INV_PER_MESSAGE
abbrev pub max_inv_per_message : ℕ
max_inv_per_message = 50000

-- The names that IsKnownCommand knows: version, verack, addr, getaddr, inv, getdata, tx, block,
-- getblocks, getheaders, headers, ping, pong.
abbrev pub known_commands : List Bytes
known_commands =
    (118 ∷ 101 ∷ 114 ∷ 115 ∷ 105 ∷ 111 ∷ 110 ∷ [])
    ∷ (118 ∷ 101 ∷ 114 ∷ 97 ∷ 99 ∷ 107 ∷ [])
    ∷ (97 ∷ 100 ∷ 100 ∷ 114 ∷ [])
    ∷ (103 ∷ 101 ∷ 116 ∷ 97 ∷ 100 ∷ 100 ∷ 114 ∷ [])
    ∷ (105 ∷ 110 ∷ 118 ∷ [])
    ∷ (103 ∷ 101 ∷ 116 ∷ 100 ∷ 97 ∷ 116 ∷ 97 ∷ [])
    ∷ (116 ∷ 120 ∷ [])
    ∷ (98 ∷ 108 ∷ 111 ∷ 99 ∷ 107 ∷ [])
    ∷ (103 ∷ 101 ∷ 116 ∷ 98 ∷ 108 ∷ 111 ∷ 99 ∷ 107 ∷ 115 ∷ [])
    ∷ (103 ∷ 101 ∷ 116 ∷ 104 ∷ 101 ∷ 97 ∷ 100 ∷ 101 ∷ 114 ∷ 115 ∷ [])
    ∷ (104 ∷ 101 ∷ 97 ∷ 100 ∷ 101 ∷ 114 ∷ 115 ∷ [])
    ∷ (112 ∷ 105 ∷ 110 ∷ 103 ∷ [])
    ∷ (112 ∷ 111 ∷ 110 ∷ 103 ∷ [])
    ∷ []

unfoldable pub is_among : Bytes → List Bytes → Bool
is_among cmd [] = false
is_among cmd (k ∷ known) = bytes_eq k cmd || is_among cmd known

-- IsKnownCommand
abbrev pub is_known_command : Bytes → Bool
is_known_command cmd = is_among cmd known_commands

-- CNetMessage
pub record NetMessage : Type 0 where
  pub command : Bytes
  pub payload : Bytes

-- The command up to its first null character.
unfoldable pub strip_nulls : Bytes → Bytes
strip_nulls [] = []
strip_nulls (c ∷ cs) = if c == 0 then [] else c ∷ strip_nulls cs

-- The results of ParseMessage: -1, 0, and 1 with the message and the bytes behind it.
pub data Parsed : Type 0 where
  incomplete malformed : Parsed
  message : NetMessage → Bytes → Parsed

module _ (ssl : Openssl) where
  -- BuildMessage
  unfoldable pub build_message : ℕ → Bytes → Bytes → Option Bytes
  build_message magic command payload =
      if ltb 12 (length command) || ltb max_message_size (length payload)
      then none
      else some (
          write_u32 magic
          ++ ((command ++ zeros (12 - length command))
              ++ (write_u32 (length payload) ++ (take 4 (sha256d_bytes ssl payload) ++ payload))))

  -- ParseMessage on the bytes from `stream` on
  unfoldable pub parse_message : ℕ → Bytes → Parsed
  parse_message magic stream =
      let command = strip_nulls (take 12 (drop 4 stream)) in
      let payload_len = of_le (take 4 (drop 16 stream)) in
      let payload = take payload_len (drop 24 stream) in
      if ltb (length stream) 24
      then incomplete
      else if not (of_le (take 4 stream) == magic)
      then malformed
      else if not (is_known_command command)
      then malformed
      else if ltb max_message_size payload_len
      then malformed
      else if ltb (length stream) (24 + payload_len)
      then incomplete
      else if not (bytes_eq (take 4 (sha256d_bytes ssl payload)) (take 4 (drop 20 stream)))
      then malformed
      else message (record { command = command; payload = payload })
          (drop (24 + payload_len) stream)

-- InvType and CInv: the type is the number that the enumeration gives it.
pub record Inv : Type 0 where
  pub type : ℕ
  pub hash : U256

unfoldable pub write_inv : Inv → Bytes
write_inv i = write_u32 i.type ++ write_uint256 i.hash

-- SerializeInv
unfoldable pub serialize_inv : List Inv → Bytes
serialize_inv inv = write_var_int (length inv) ++ write_all write_inv inv

unfoldable pub read_inv : Reader Inv
read_inv = do type ← read_u32; hash ← read_uint256; pure (record { type = type; hash = hash })

unfoldable pub read_invs : Reader (List Inv)
read_invs = do n ← read_var_int; read_at_most max_inv_per_message read_inv n

-- DeserializeInv, which ignores what follows the list
unfoldable pub deserialize_inv : Bytes → Option (List Inv)
deserialize_inv payload = elim (read_invs payload) [ none ↦ none | some (inv, _) ↦ some inv ]

-- CVersionMessage, its addresses in their 26 bytes
pub record VersionMessage : Type 0 where
  pub version : ℤ
  pub services : ℤ
  pub timestamp : ℤ
  pub addr_me : Bytes
  pub addr_you : Bytes
  pub nonce : ℕ
  pub user_agent : Bytes
  pub start_height : ℤ
  pub relay : Bool

-- The ranges of the C++ types.
abbrev pub IsVersionMessage : VersionMessage → Type 0
IsVersionMessage v =
    IsInt (2 ^ 31) v.version
    × IsInt (2 ^ 63) v.services
    × IsInt (2 ^ 63) v.timestamp
    × (length v.addr_me ≡ 26)
    × (length v.addr_you ≡ 26)
    × (v.nonce < 2 ^ 64)
    × (length v.user_agent < 2 ^ 64)
    × IsInt (2 ^ 31) v.start_height

-- SerializeVersion
unfoldable pub serialize_version : VersionMessage → Bytes
serialize_version v =
    write_u32 (to_bits 32 v.version)
    ++ (write_u64 (to_bits 64 v.services)
        ++ (write_u64 (to_bits 64 v.timestamp)
            ++ (v.addr_you
                ++ (v.addr_me
                    ++ (write_u64 v.nonce
                        ++ (write_var_str v.user_agent
                            ++ (write_u32 (to_bits 32 v.start_height)
                                ++ write_u8 (if v.relay then 1 else 0))))))))

unfoldable pub read_version : Reader VersionMessage
read_version = do
  version ← read_u32
  services ← read_u64
  timestamp ← read_u64
  addr_you ← read_bytes 26
  addr_me ← read_bytes 26
  nonce ← read_u64
  user_agent ← read_var_str
  start_height ← read_u32
  relay ← read_u8
  pure (record {
    version = of_bits 32 (2 ^ 31) version;
    services = of_bits 64 (2 ^ 63) services;
    timestamp = of_bits 64 (2 ^ 63) timestamp;
    addr_me = addr_me;
    addr_you = addr_you;
    nonce = nonce;
    user_agent = user_agent;
    start_height = of_bits 32 (2 ^ 31) start_height;
    relay = not (relay == 0);
  })

-- DeserializeVersion, which ignores what follows the message
unfoldable pub deserialize_version : Bytes → Option VersionMessage
deserialize_version payload = elim (read_version payload) [ none ↦ none | some (v, _) ↦ some v ]
