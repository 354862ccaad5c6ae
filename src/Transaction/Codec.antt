-- ===== src/Transaction/Codec.antt =====
-- SerializeTransaction and DeserializeTransaction (src/transaction/serializer.cpp).
pub mod RoundTrip
use cdx.Base.{
  ℕ, zero, suc, ◌+◌, ◌^◌, Option, none, some, List, [], ◌∷◌, ◌++◌, length, ltb, if◌then◌else◌,
}
use cdx.Bytes.{Bytes, to_bits, of_bits}
use cdx.Transaction.{OutPoint, TxIn, TxOut, Tx}
use cdx.Serializer.{
  Reader, ◌>>=◌, pure, write_u32, write_u64, write_var_int, write_var_str, write_uint256, write_all,
  read_u32, read_u64, read_var_int, read_var_str, read_uint256, read_many,
}

unfoldable pub write_tx_in : TxIn → Bytes
write_tx_in i =
    write_uint256 i.prevout.hash
    ++ (write_u32 i.prevout.n ++ (write_var_str i.script_sig ++ write_u32 i.sequence))

unfoldable pub write_tx_out : TxOut → Bytes
write_tx_out o = write_u64 (to_bits 64 o.value) ++ write_var_str o.script_pub_key

-- SerializeTransaction
unfoldable pub serialize_tx : Tx → Bytes
serialize_tx tx =
    write_u32 (to_bits 32 tx.version)
    ++ (write_var_int (length tx.vin)
        ++ (write_all write_tx_in tx.vin
            ++ (write_var_int (length tx.vout)
                ++ (write_all write_tx_out tx.vout ++ write_u32 tx.lock_time))))

unfoldable pub read_tx_in : Reader TxIn
read_tx_in = do
  hash ← read_uint256
  n ← read_u32
  script ← read_var_str
  sequence ← read_u32
  pure
      (record { prevout = record { hash = hash; n = n }; script_sig = script; sequence = sequence })

unfoldable pub read_tx_out : Reader TxOut
read_tx_out = do
  v ← read_u64
  script ← read_var_str
  pure (record { value = of_bits 64 (2 ^ 63) v; script_pub_key = script })

-- if (n > limit) return false, and the loop that reads n items
unfoldable pub read_at_most : {A : Type 0} → ℕ → Reader A → ℕ → Reader (List A)
read_at_most limit read n s = if ltb limit n then none else read_many read n s

-- DeserializeTransaction, as an action: the bytes that it does not read are its rest.
unfoldable pub read_tx : Reader Tx
read_tx = do
  version ← read_u32
  nvin ← read_var_int
  vin ← read_at_most 100000 read_tx_in nvin
  nvout ← read_var_int
  vout ← read_at_most 100000 read_tx_out nvout
  lock_time ← read_u32
  pure (record {
    version = of_bits 32 (2 ^ 31) version;
    vin = vin;
    vout = vout;
    lock_time = lock_time;
  })

-- DeserializeTransaction; bytes behind the transaction are ignored.
unfoldable pub deserialize_tx : Bytes → Option Tx
deserialize_tx payload = elim (read_tx payload) [ none ↦ none | some (tx, _) ↦ some tx ]
