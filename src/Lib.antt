-- ===== src/Lib.antt =====
-- The cdx node: a chain of blocks with transactions over unspent outputs, as in Bitcoin. This library
-- models the parts that decide what the chain is and what travels between nodes.
--
-- Base holds the shared names: the native numbers, lists, tests into Bool, signed integers (Base.Int)
-- and bounds of operations on binary digits (Base.Bits). Result is the result of a call that returns
-- false with an error text. StdMap is std::map, an association list whose keys have an order and a
-- decided equality. Bytes holds byte strings, little-endian numbers and the casts between signed and
-- unsigned integers.
--
-- Uint256 (src/crypto/uint256.h, uint256.cpp) is class uint256: four 64-bit words, with add, sub, mul64,
-- div64, comparison, shl and shr for operator<< and operator>>, set_compact and get_compact, and the
-- 32 bytes. Ripemd160 (src/crypto/ripemd160.cpp) is the whole digest. Crypto (src/crypto/hash.cpp,
-- keys.cpp) builds SHA256d, HASH160 and VerifySignature on the record Openssl, which stands for the
-- calls of OpenSSL: SHA-256, the parsers of points and signatures, and the ECDSA check. What is used
-- of it is in IsOpenssl: a digest has 32 bytes.
--
-- Params (src/config/networks.h) holds the constants. Transaction (src/transaction/transaction.h), Block
-- (src/blockchain/block.h), Serializer and Transaction.Codec (src/transaction/serializer.h, serializer.cpp)
-- are the data and their codecs; a reader takes a byte string to a value and the bytes behind it, and none
-- is the code's return false. Merkle (src/blockchain/merkle.cpp) computes the merkle root; its loop
-- has the number of hashes as fuel, and each pass makes a list of two or more shorter (Merkle.Levels).
--
-- Script (src/script/interpreter.cpp) is the script interpreter: the stack is a list with its top
-- first, and the loop of EvalScript ends by the code's own bound of 201 operations. Utxo
-- (src/utxo/utxo-set.h) is class CCoinsView, and Balance (src/utxo/utxo-set.cpp) its
-- GetAddressBalance; CoinSelection (src/utxo/coin-selection.cpp) is SelectCoinsGreedy, in which
-- std::sort is a parameter, and Consensus.Policy (src/consensus/policy.cpp, rules.cpp) the fees.
-- Consensus.Rewards, Consensus.Difficulty, Consensus.Header and Consensus.Validation
-- (src/consensus/rewards.cpp, difficulty.cpp, validation.cpp) are the rules of the chain:
-- subsidies, proof of work and retargeting, CheckBlockHeader, CheckTransaction, CheckTxInputs and
-- CheckBlock, which calls them in this order and passes the coin set from transaction to
-- transaction. Mempool (src/mempool/mempool.cpp) is class CTxMemPool. Storage
-- (src/storage/interface.h) is the interface IStorage, over any state, with what the chain relies
-- on in IsStorage: a block that is read has the hash it was asked for under. Storage.Blocks,
-- Storage.State and Storage.Peers (src/storage/blocks.cpp) are class CBlockStorage over the bytes
-- of its files: the block files with their index, the chain state and the peers. StdMap.Order is
-- the loop that reads a map back in the order of its keys. Chain (src/blockchain/blockchain.h,
-- blockchain.cpp) is class CBlockchain over such a storage; Chain.Genesis
-- (src/blockchain/genesis.cpp) is the first block and ApplyGenesis, Chain.Load is LoadFromStorage,
-- Chain.Accept is AcceptBlock and Chain.Reorg (src/blockchain/reorg.cpp) is TryAcceptBlock, which
-- extends the tip or replaces the chain. Chain.Heights, Chain.Fork, Chain.Steps and Chain.Invariant
-- carry the lemmas for Chain.Runs, which is about every state that calls of TryAcceptBlock reach
-- from the genesis block, and Chain.Errors is about failing calls. Mining (src/mining/pow.cpp) is
-- the search for a nonce and Mining.Candidate (src/mining/miner.cpp) the block it works on.
-- Uint256.Division is the division of 256-bit integers and the work of a target. Amount
-- (src/transaction/transaction.cpp) is FormatValue and ParseValue on lists of character codes.
-- Encoding (src/crypto/encoding.cpp) is the varint codec on a buffer and hexadecimal text,
-- Encoding.Base58 its Base58 and Base58Check, and Address (src/wallet/address.cpp) the addresses.
-- Params.Networks (src/config/networks.cpp) holds the three networks. P2p.Protocol and P2p.Sync
-- (src/p2p/protocol.cpp, sync.cpp) are the messages between nodes.
--
-- P2p.Server (src/p2p/peer.h, server.cpp) is a connection and what the server does with received
-- bytes: ReadLoop appends them to the buffer and ProcessBuffer takes frame after frame from it and
-- calls a handler, which is a parameter. A handler gives the new state, the peer, and the list of
-- what is to be sent; SendTo and BroadcastMessage are functions on the list of peers, with what the
-- socket answers as an argument. Node and its children (bin/cdxd.cpp, class CNodeHandler) are that
-- handler: on_message calls the handlers of version (Node), inv, getdata and tx (Node.Relay), block
-- (Node.Blocks), getheaders and headers (Node.Headers), over the chain, the mempool and the wallet's
-- records (Node.State); Node.Miner is a round of RunMinerLoop. Node.Runs has the states that a node
-- reaches from its genesis block and an empty mempool by received bytes, mined blocks, its own
-- transactions and changes of its connections, in any order; Node.Served is about the headers that a
-- node serves.
-- Mempool.Spendable and Node.Invariant carry the lemmas for them.
--
-- Crypto.Keys (src/crypto/keys.cpp) is class CKey: valid private keys, the nonce, the signature and
-- its DER text, over the record Curve, which stands for the group and the big numbers of OpenSSL.
-- Wallet.Keystore (src/wallet/keystore.h, keystore.cpp) is class CKeystore with its file, over the
-- record Cipher, which stands for PBKDF2 and AES-256-GCM; IsCipher says that decryption undoes
-- encryption under the same key, and gives bytes. Wallet.Account (src/wallet/wallet.h, wallet.cpp,
-- keypair.cpp) has the key pairs, the imports and the balance, Wallet.Signer (src/wallet/signer.cpp)
-- the signatures of inputs, and Wallet.Send SelectCoins and CreateTransaction, which calls the
-- keystore, the signer and ValidateTransaction; std::sort, random bytes and the clock are arguments.
-- Wallet.Backup is Backup and Restore, with one clock for a whole call, and Wallet.Recovery
-- (src/wallet/recovery.cpp) WalletRescan.
-- Wallet.Keystore.Laws, Wallet.Payment and Wallet.Created carry their proofs.
-- Tests, Tests.Peers, Tests.Purse and their siblings hold concrete runs.
--
-- Money and heights of coins are integers (Base.Int); the sums of values that the code keeps in int64_t are
-- bounded by its own checks against MAX_MONEY, and the model leaves out the wrap-around of a sum that
-- these checks have bounded. The sums of CheckTxInputs, which has no such check for the outputs, wrap
-- around (as_int64). Where the code has no defined behaviour, the model says so: AcceptBlock's read
-- behind the end of byHeight is index_out_of_range, which is no error of the code, and a
-- RemoveConflicts that reads an identifier that it has erased is none. Heights of blocks are natural numbers in
-- the consensus rules, and integers, at least -1, in the chain. Fuel: the loop of
-- GetCumulativeSupplyAt has 65 rounds; the code leaves it when the subsidy is 0, after 33 of them.
-- FindForkHeight has as much fuel as there are index entries, MineBlockHeader the 2 ^ 32 nonces that the
-- code tries, and the search of ApplyGenesis its 2 ^ 32 - 1. ProcessBuffer has one round more than the
-- buffer has bytes, and a frame has at least 24; a locator has a round for each height. The miner's
-- search has the number of hashes before it is stopped as an argument, CreateTransaction the 8
-- attempts of the code, and the search for a nonce of a signature a number of rounds that its caller
-- gives, since in the code it is not bounded; a search that runs out is a signature that failed.
--
-- Not modelled: errors of files, sockets, threads and the reconnection to targets, the MongoDB client,
-- RPC, the command line and the start of the daemon from a stored chain; the files of the wallet and
-- of its backup; the lock around the chain, and the coins that a failed LoadChainState leaves in the
-- view, which ApplyGenesis replaces. An exception that OpenSSL's failures throw in the wallet is none,
-- or counts as a key that GetKey refuses.
pub mod Base
pub mod Bytes
pub mod Uint256
pub mod Params
pub mod Ripemd160
pub mod Crypto
pub mod Script
pub mod Result
pub mod StdMap
pub mod Transaction
pub mod Utxo
pub mod Block
pub mod Merkle
pub mod Mining
pub mod Consensus
pub mod Serializer
pub mod Tests
pub mod Mempool
pub mod P2p
pub mod Encoding
pub mod Balance
pub mod Address
pub mod Amount
pub mod CoinSelection
pub mod Storage
pub mod Chain
pub mod Node
pub mod Wallet
