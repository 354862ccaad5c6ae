-- ===== src/Transaction/Codec/RoundTrip.antt =====
-- What DeserializeTransaction makes of what SerializeTransaction wrote.
use cdx.Base.{
  ◌≤◌, All, List, ℕ, [], length, ◌^◌, ◌<◌, ◌≡◌, some, ◌++◌, arith, append_assoc, append-nil,
}
use cdx.Bytes.{of_bits-to_bits32, Bytes, to_bits, of_bits-to_bits64}
use cdx.Base.Int.{ℤ, pos, negsuc}
use cdx.Transaction.{IsTx, Tx, TxIn, TxOut, IsTxIn, IsTxOut}
use cdx.Transaction.Codec.{
  serialize_tx, deserialize_tx, read_at_most, read_tx, write_tx_in, write_tx_out, read_tx_in,
  read_tx_out,
}
use cdx.Serializer.{
  write_var_int, write_all, Reader, write_u32, write_u64, write_var_str, write_uint256,
}
use cdx.Serializer.RoundTrip.{
  read_var_int-write_var_int, read_many-write_all, read_le-le_bytes, read_var_str-write_var_str,
  read_uint256-write_uint256,
}

pub to_bits-lt32 : (z : ℤ) → to_bits 32 z < 2 ^ 32
to_bits-lt32 (pos n) = omega arith
to_bits-lt32 (negsuc n) = omega arith

pub to_bits-lt64 : (z : ℤ) → to_bits 64 z < 2 ^ 64
to_bits-lt64 (pos n) = omega arith
to_bits-lt64 (negsuc n) = omega arith

pub read_tx_in-write_tx_in :
    (i : TxIn) (rest : Bytes) → IsTxIn i → read_tx_in (write_tx_in i ++ rest) ≡ some (i, rest)
unfolding read_tx_in write_tx_in
read_tx_in-write_tx_in i rest h =
    let s3 : Bytes = write_u32 i.sequence in
    let s2 : Bytes = write_var_str i.script_sig ++ s3 in
    let s1 : Bytes = write_u32 i.prevout.n ++ s2 in
    ground (
      arith,
      append_assoc (write_uint256 i.prevout.hash) s1 rest,
      append_assoc (write_u32 i.prevout.n) s2 rest,
      append_assoc (write_var_str i.script_sig) s3 rest,
      read_uint256-write_uint256 i.prevout.hash (s1 ++ rest) h.0.0,
      read_le-le_bytes 4 i.prevout.n (s2 ++ rest) h.0.1,
      read_var_str-write_var_str i.script_sig (s3 ++ rest) h.1,
      read_le-le_bytes 4 i.sequence rest h.2,
    )

pub read_tx_out-write_tx_out :
    (o : TxOut) (rest : Bytes) → IsTxOut o → read_tx_out (write_tx_out o ++ rest) ≡ some (o, rest)
unfolding read_tx_out write_tx_out
read_tx_out-write_tx_out o rest h = ground (
  arith,
  append_assoc (write_u64 (to_bits 64 o.value)) (write_var_str o.script_pub_key) rest,
  read_le-le_bytes 8 (to_bits 64 o.value) (write_var_str o.script_pub_key ++ rest)
      (to_bits-lt64 o.value),
  read_var_str-write_var_str o.script_pub_key rest h.1,
  of_bits-to_bits64 o.value h.0,
)

-- The counts that DeserializeTransaction accepts, and the ranges of the fields.
abbrev pub IsSerializable : Tx → Type 0
IsSerializable tx = IsTx tx × (length tx.vin ≤ 100000) × (length tx.vout ≤ 100000)

pub read_at_most-write_all :
    {A : Type 0} (P : A → Type 0) (write : A → Bytes) (read : Reader A)
    → ((a : A) (rest : Bytes) → P a → read (write a ++ rest) ≡ some (a, rest))
    → (limit : ℕ) (xs : List A) (rest : Bytes) → All P xs
    → length xs ≤ limit
    → read_at_most limit read (length xs) (write_all write xs ++ rest) ≡ some (xs, rest)
unfolding read_at_most
read_at_most-write_all P write read back limit xs rest h fits =
    ground (arith, read_many-write_all P write read back xs rest h)

-- Reading a transaction stops right behind its last byte, whatever follows, and gives the
-- transaction that was written.
pub read_tx-serialize_tx :
    (tx : Tx) (rest : Bytes)
    → IsSerializable tx
    → read_tx (serialize_tx tx ++ rest) ≡ some (tx, rest)
unfolding read_tx serialize_tx
read_tx-serialize_tx tx rest h =
    let s5 : Bytes = write_u32 tx.lock_time in
    let s4 : Bytes = write_all write_tx_out tx.vout ++ s5 in
    let s3 : Bytes = write_var_int (length tx.vout) ++ s4 in
    let s2 : Bytes = write_all write_tx_in tx.vin ++ s3 in
    let s1 : Bytes = write_var_int (length tx.vin) ++ s2 in
    ground (
      arith,
      append_assoc (write_u32 (to_bits 32 tx.version)) s1 rest,
      append_assoc (write_var_int (length tx.vin)) s2 rest,
      append_assoc (write_all write_tx_in tx.vin) s3 rest,
      append_assoc (write_var_int (length tx.vout)) s4 rest,
      append_assoc (write_all write_tx_out tx.vout) s5 rest,
      read_le-le_bytes 4 (to_bits 32 tx.version) (s1 ++ rest) (to_bits-lt32 tx.version),
      of_bits-to_bits32 tx.version h.0.0,
      read_var_int-write_var_int (length tx.vin) (s2 ++ rest) (omega arith),
      read_at_most-write_all IsTxIn write_tx_in read_tx_in read_tx_in-write_tx_in 100000 tx.vin
          (s3 ++ rest) h.0.1 h.1,
      read_var_int-write_var_int (length tx.vout) (s4 ++ rest) (omega arith),
      read_at_most-write_all IsTxOut write_tx_out read_tx_out read_tx_out-write_tx_out 100000
          tx.vout (s5 ++ rest) h.0.2 h.2,
      read_le-le_bytes 4 tx.lock_time rest h.0.3,
    )

-- DeserializeTransaction gives back the transaction that SerializeTransaction wrote, if it has at most
-- 100000 inputs and at most 100000 outputs and its fields are in the ranges of their C++ types.
pub deserialize_tx-serialize_tx :
    (tx : Tx) → IsSerializable tx → deserialize_tx (serialize_tx tx) ≡ some tx
unfolding deserialize_tx
deserialize_tx-serialize_tx tx h =
    ground (arith, read_tx-serialize_tx tx [] h, append-nil (serialize_tx tx))
