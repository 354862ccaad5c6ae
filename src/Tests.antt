-- ===== src/Tests.antt =====
-- Concrete runs of the components, and the theorems applied to them.
pub mod Script
pub mod Node
pub mod Files
pub mod Chain
pub mod Peers
pub mod Purse
pub mod Mature
use cdx.Base.{
  suc, zero, refl, ltb, ◌/◌, if◌then◌else◌, length, List, ℕ, ◌%◌, ◌+◌, ◌<◌, ◌*◌, some, ◌-◌, ◌++◌,
  ◌≤◌, true, ◌^◌, [], ◌∷◌, ◌≡◌, ◌↔◌, arith,
}
use cdx.Utxo.{outpoint_key}
use cdx.Crypto.{verify_signature, hash160, IsOpenssl, Openssl}
use cdx.Uint256.{to_nat, u256_zero, sub, div64, mul64, add, less, U256, IsWords}
use cdx.Uint256.Bytes.{set_bytes_le-get_bytes_le, get_bytes_le, set_bytes_le}
use cdx.Serializer.{write_var_str, read_var_str, write_var_int, read_var_int}
use cdx.Bytes.{IsBytes, Bytes}
use cdx.Transaction.{Tx, OutPoint}
use cdx.Transaction.Codec.RoundTrip.{
  deserialize_tx-serialize_tx, read_tx-serialize_tx, IsSerializable,
}
use cdx.Transaction.Codec.{serialize_tx, read_tx, deserialize_tx}
use cdx.Block.{
  serialize_header, serialize_block, BlockHeader, Block, deserialize_block, IsHeader, read_header,
}
use cdx.Consensus.Rewards.{get_cumulative_supply_at}
use cdx.Ripemd160.{zeros}
use cdx.Base.Int.{◌-ℤ◌, pos, negsuc}
use cdx.Params.{testnet, max_supply_base}
use cdx.Serializer.RoundTrip.{read_var_str-write_var_str, read_var_int-write_var_int}
use cdx.Block.RoundTrip.{deserialize_block-serialize_block, read_header-serialize_header}
use cdx.Consensus.Rewards.Supply.{
  get_cumulative_supply_at-subsidies, subsidies, get_cumulative_supply_at-le,
}
use cdx.Uint256.Arith.{sub_lem, add_lem, mul64_lem, div64_lem}
use cdx.Uint256.Order.{less-lt}
use cdx.Consensus.Difficulty.{
  expected_time, target_from_bits, actual_time, new_target, check_proof_of_work,
}
use cdx.P2p.Sync.{
  build_get_headers_payload, build_locator, build_headers_payload, parse_get_headers_payload,
  parse_headers_payload,
}
use cdx.P2p.Protocol.{
  is_known_command, message, serialize_inv, parse_message, serialize_version, VersionMessage,
  deserialize_version, IsVersionMessage, build_message, deserialize_inv, is_among,
}
use cdx.Script.{
  equalverify_failed, false_stack_top, bytes_eq, build_p2pkh_script, verify_script,
  extract_p2pkh_hash,
}
use cdx.Script.P2pkh.{verify_script-p2pkh, extract_p2pkh_hash-build, sig_script}
use cdx.Consensus.Difficulty.Target.{new_target_lem, actual_time_lem, check_proof_of_work_lem}
use cdx.P2p.Sync.RoundTrip.{
  parse_headers_payload-build, parse_get_headers_payload-build, build_locator-some,
}
use cdx.P2p.Protocol.Payload.{deserialize_inv-serialize_inv, deserialize_version-serialize_version}
use cdx.P2p.Protocol.Frame.{parse_message-build_message}
use cdx.Result.{err, ok}
use cdx.Encoding.{var_int_size, put_var_int, to_hex, decode_hex, get_var_int}
use cdx.Encoding.RoundTrip.{get_var_int-put_var_int, decode_hex-to_hex}
use cdx.Amount.{print_nat, parse_value}
use cdx.Amount.Parse.{parse_value-print_nat}

-- A stand-in for OpenSSL: every digest is 32 zeros, every key and signature
-- is well formed and good.
abbrev pub zero_ssl : Openssl
zero_ssl = record {
  sha256_oneshot = λ m. zeros 32;
  ec_oct2point = λ b. some b;
  d2i_ecdsa_sig = λ b. some b;
  ecdsa_do_verify = λ hash32 sig point. true;
}

abbrev pub big : U256
big = record { w0 = 2 ^ 64 - 1; w1 = 2 ^ 64 - 1; w2 = 7; w3 = 1 }

abbrev pub small : U256
small = record { w0 = 2; w1 = 0; w2 = 0; w3 = 0 }

-- A scriptSig and scriptPubKey that push one true byte.
abbrev pub true_script : Bytes
true_script = 1 ∷ 1 ∷ []

abbrev pub coinbase_tx : Tx
coinbase_tx = record {
  version = pos 1;
  vin =
      record {
        prevout = record { hash = u256_zero; n = 0xffffffff };
        script_sig = true_script;
        sequence = 0xffffffff;
      }
      ∷ [];
  vout = record { value = pos 5000000900; script_pub_key = true_script } ∷ [];
  lock_time = 0;
}

abbrev pub spent : OutPoint
spent = record { hash = small; n = 0 }

abbrev pub spending_tx : Tx
spending_tx = record {
  version = negsuc 0;
  vin = record { prevout = spent; script_sig = []; sequence = 0xffffffff } ∷ [];
  vout = record { value = pos 4000; script_pub_key = true_script } ∷ [];
  lock_time = 9;
}

pub spending_tx-IsSerializable : IsSerializable spending_tx
spending_tx-IsSerializable = ground arith

pub coinbase_tx-IsSerializable : IsSerializable coinbase_tx
coinbase_tx-IsSerializable = ground arith

deserialize_tx-serialize_tx_example : deserialize_tx (serialize_tx spending_tx) ≡ some spending_tx
deserialize_tx-serialize_tx_example =
    deserialize_tx-serialize_tx spending_tx spending_tx-IsSerializable

abbrev pub header : BlockHeader
header = record {
  version = pos 1;
  prev_block_hash = big;
  merkle_root = u256_zero;
  timestamp = 1700000000;
  bits = 0x1d00ffff;
  nonce = 77;
}

abbrev pub block : Block
block = record { header = header; vtx = coinbase_tx ∷ spending_tx ∷ [] }

pub header-IsHeader : IsHeader header
header-IsHeader = ground arith

deserialize_block-serialize_block_example : deserialize_block (serialize_block block) ≡ some block
deserialize_block-serialize_block_example =
    deserialize_block-serialize_block block header-IsHeader
      (coinbase_tx-IsSerializable, (spending_tx-IsSerializable, tt)) (omega arith)

get_cumulative_supply_at-le_example : get_cumulative_supply_at 420001 ≤ max_supply_base
get_cumulative_supply_at-le_example = get_cumulative_supply_at-le 420001

check_proof_of_work_lem_example : (check_proof_of_work small 0x1d00ffff ≡ true) ↔ (
    (0 < to_nat (target_from_bits 0x1d00ffff))
    × (to_nat small ≤ to_nat (target_from_bits 0x1d00ffff)))
check_proof_of_work_lem_example =
    check_proof_of_work_lem small 0x1d00ffff (omega arith) (omega arith)

new_target_lem_example : to_nat (new_target 2419200 0x1c00ffff testnet) ≡ (
    let scaled = to_nat (target_from_bits 0x1c00ffff) * 2419200 % 2 ^ 256 / expected_time testnet in
    let largest = to_nat (target_from_bits 0x1d00ffff) in
    if ltb largest scaled then largest else scaled)
new_target_lem_example = new_target_lem 2419200 0x1c00ffff testnet (omega arith) (omega arith)

actual_time_lem_example :
    (n : ℕ) × (actual_time (pos 1700000000) (pos 1699000000) testnet ≡ pos n)
    × (150 ≤ n)
    × (n ≤ expected_time testnet * 4)
    × ((t : ℕ)
        → pos 1700000000 -ℤ pos 1699000000 ≡ pos t
        → 150 ≤ t
        → t ≤ expected_time testnet * 4
        → n ≡ t)
actual_time_lem_example = actual_time_lem (pos 1700000000) (pos 1699000000) testnet (omega arith)

parse_headers_payload-build_example :
    parse_headers_payload (build_headers_payload (header ∷ header ∷ []))
    ≡ some (header ∷ header ∷ [])
parse_headers_payload-build_example =
    parse_headers_payload-build (header ∷ header ∷ []) (header-IsHeader, (header-IsHeader, tt))
      (omega arith)

build_locator-some_example :
    (hashes : List U256) × (build_locator (big ∷ small ∷ u256_zero ∷ []) 2 ≡ some hashes)
    × (length hashes ≤ 32)
build_locator-some_example = build_locator-some (big ∷ small ∷ u256_zero ∷ []) 2 (omega arith)

deserialize_inv-serialize_inv_example :
    deserialize_inv (serialize_inv (record { type = 2; hash = big } ∷ []) ++ (9 ∷ []))
    ≡ some (record { type = 2; hash = big } ∷ [])
deserialize_inv-serialize_inv_example =
    deserialize_inv-serialize_inv (record { type = 2; hash = big } ∷ []) (9 ∷ []) (omega arith, tt)
      (omega arith)

abbrev pub version_message : VersionMessage
version_message = record {
  version = pos 10001;
  services = pos 1;
  timestamp = pos 1700000000;
  addr_me = zeros 26;
  addr_you = zeros 26;
  nonce = 77;
  user_agent = 47 ∷ 47 ∷ [];
  start_height = negsuc 0;
  relay = true;
}

version_message-IsVersionMessage : IsVersionMessage version_message
unfolding zeros
version_message-IsVersionMessage = ground arith

deserialize_version-serialize_version_example :
    deserialize_version (serialize_version version_message ++ []) ≡ some version_message
deserialize_version-serialize_version_example =
    deserialize_version-serialize_version version_message [] version_message-IsVersionMessage

pub length-zeros : (n : ℕ) → length (zeros n) ≡ n
unfolding zeros
length-zeros zero = refl
length-zeros (suc n) = ground (arith, length-zeros n)

pub zeros-IsBytes : (n : ℕ) → IsBytes (zeros n)
unfolding zeros
zeros-IsBytes zero = tt
zeros-IsBytes (suc n) = (omega arith, zeros-IsBytes n)

pub zero_ssl-IsOpenssl : IsOpenssl zero_ssl
zero_ssl-IsOpenssl = record {
  length-sha256 = λ m. length-zeros 32;
  sha256-IsBytes = λ m. zeros-IsBytes 32;
}

-- ping
abbrev pub ping : Bytes
ping = 112 ∷ 105 ∷ 110 ∷ 103 ∷ []

ping-known : is_known_command ping ≡ true
unfolding is_among bytes_eq
ping-known = refl

parse_message-build_message_example :
    (m : Bytes) × (build_message zero_ssl 0xCDA1CDFF ping true_script ≡ some m)
    × ((rest : Bytes)
        → parse_message zero_ssl 0xCDA1CDFF (m ++ rest)
          ≡ message (record { command = ping; payload = true_script }) rest)
parse_message-build_message_example =
    parse_message-build_message zero_ssl zero_ssl-IsOpenssl 0xCDA1CDFF ping true_script
      (omega arith) ping-known (omega arith)

get_cumulative_supply_at-subsidies_example : get_cumulative_supply_at 420001 ≡ subsidies 0 420001
get_cumulative_supply_at-subsidies_example = get_cumulative_supply_at-subsidies 420001

parse_value-print_nat_example : parse_value (print_nat 184467440738) ≡ ok (pos 90448384)
parse_value-print_nat_example = parse_value-print_nat 184467440738 (omega arith) (omega arith)
