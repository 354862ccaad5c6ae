-- ===== src/Tests/Files.antt =====
-- The theorems on the files of the node, on two blocks and a chain state of two coins.
use cdx.Base.{◌≢◌, length, true, refl, false, ◌≡◌, arith, [], ◌∷◌, some, none}
use cdx.Base.Int.{pos}
use cdx.Utxo.{outpoint_less, uint256_key, outpoint_key, CoinsView}
use cdx.Storage.Blocks.{Place, save_index, load_index, BlockStorage, write_block, read_block}
use cdx.Storage.State.{save_chain_state, load_chain_state}
use cdx.Crypto.{sha256d_bytes, sha256d}
use cdx.Block.{serialize_header, serialize_block, deserialize_block, Block}
use cdx.Tests.Node.{sum_of, sum_ssl}
use cdx.Consensus.Header.{get_hash}
use cdx.StdMap.{StdMap}
use cdx.Tests.{
  spending_tx-IsSerializable, coinbase_tx-IsSerializable, header-IsHeader, header, block, big,
  small,
}
use cdx.Bytes.{of_le, le_bytes, Bytes}
use cdx.Ripemd160.{zeros}
use cdx.Uint256.{u256_eq, less, U256}
use cdx.Block.RoundTrip.{deserialize_block-serialize_block}
use cdx.Storage.Blocks.Laws.{read_block-get_hash, read_block-write_block, find_block-write_block}
use cdx.Storage.Blocks.Index.{load_index-save_index}
use cdx.StdMap.Order.{IsOrdered}
use cdx.Storage.State.RoundTrip.{load_chain_state-save_chain_state}
use cdx.Serializer.{write_uint256}
use cdx.Uint256.Order.{u256_eq_iff}
use cdx.Uint256.Bytes.{set_bytes_le, get_bytes_le}

-- The same header with another nonce.
abbrev other_block : Block
other_block = record block { header = record header { nonce = 78 } }

abbrev no_blocks : BlockStorage
no_blocks = record { files = λ n. []; index = []; index_file = none; loaded = true }

abbrev one_block : BlockStorage
one_block = write_block sum_ssl block (pos 5) no_blocks

block_back : deserialize_block (serialize_block block) ≡ some block
block_back =
    deserialize_block-serialize_block block header-IsHeader
      (coinbase_tx-IsSerializable, (spending_tx-IsSerializable, tt)) (omega arith)

one_loaded : one_block.loaded ≡ true
unfolding write_block
one_loaded = refl

block_found : (read_block sum_ssl (get_hash sum_ssl block.header) one_block).1 ≡ some block
unfolding read_block load_index write_block
block_found = find_block-write_block sum_ssl block (pos 5) no_blocks block_back

read_block-get_hash_example : get_hash sum_ssl block.header ≡ get_hash sum_ssl block.header
read_block-get_hash_example =
    read_block-get_hash sum_ssl (get_hash sum_ssl block.header) block one_block block_found

hashes_differ :
    u256_eq (get_hash sum_ssl block.header) (get_hash sum_ssl other_block.header) ≡ false
unfolding get_hash sha256d sha256d_bytes sum_of serialize_header write_uint256 get_bytes_le le_bytes
    set_bytes_le of_le zeros
hashes_differ = refl

read_block-write_block_example :
    ((read_block sum_ssl
        (get_hash sum_ssl other_block.header)
        (write_block sum_ssl other_block (pos 6) one_block)).1
      ≡ some other_block)
    × ((hash : U256) (old : Block)
        → hash ≢ get_hash sum_ssl other_block.header
        → (read_block sum_ssl hash one_block).1 ≡ some old
        → (read_block sum_ssl hash (write_block sum_ssl other_block (pos 6) one_block)).1
          ≡ some old)
read_block-write_block_example =
    read_block-write_block sum_ssl other_block (pos 6) one_block (ground arith)
      (coinbase_tx-IsSerializable, (spending_tx-IsSerializable, tt)) (omega arith) one_loaded

-- The block that was there before stays.
block_stays :
    (read_block sum_ssl
      (get_hash sum_ssl block.header)
      (write_block sum_ssl other_block (pos 6) one_block)).1
    ≡ some block
block_stays =
    (read_block-write_block sum_ssl other_block (pos 6) one_block (ground arith)
        (coinbase_tx-IsSerializable, (spending_tx-IsSerializable, tt)) (omega arith) one_loaded).1
      (get_hash sum_ssl block.header) block
      (ground (
        arith,
        hashes_differ,
        u256_eq_iff (get_hash sum_ssl block.header) (get_hash sum_ssl other_block.header),
      ))
      block_found

-- An index of one entry.
abbrev one_place : StdMap U256 Place
one_place = (small, record { height = pos 5; file_num = 0; offset = 10; size = 300 }) ∷ []

load_index-save_index_example :
    load_index (record {
      files = λ n. [];
      index = [];
      index_file = some (save_index one_place);
      loaded = false;
    })
    ≡ record {
      files = λ n. [];
      index = one_place;
      index_file = some (save_index one_place);
      loaded = true;
    }
load_index-save_index_example =
    load_index-save_index (λ n. []) one_place (tt, tt) (ground arith, tt) (omega arith)

-- Two coins of one transaction.
abbrev two_coins : CoinsView
two_coins =
    (
      record { hash = small; n = 0 },
      record { value = pos 700; script_pub_key = 0x51 ∷ []; height = pos 3; is_coinbase = true },
    )
    ∷ (
      record { hash = small; n = 1 },
      record { value = pos 30; script_pub_key = []; height = pos 4; is_coinbase = false },
    )
    ∷ []

two_coins-IsOrdered : IsOrdered two_coins
unfolding outpoint_less less
two_coins-IsOrdered = (((refl, refl), tt), (tt, tt))

junk : Bytes
junk = zeros 33

length-junk : length junk ≡ 33
unfolding junk zeros
length-junk = refl

load_chain_state-save_chain_state_example :
    load_chain_state junk (save_chain_state two_coins (pos 4) small (big ∷ small ∷ []))
    ≡ some (two_coins, pos 4, small, big ∷ small ∷ [])
load_chain_state-save_chain_state_example =
    load_chain_state-save_chain_state junk two_coins (pos 4) small (big ∷ small ∷ []) length-junk
      two_coins-IsOrdered (ground arith) (omega arith) (ground arith) (ground arith) (omega arith)
      (omega arith)
