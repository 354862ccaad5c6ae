-- ===== src/Wallet/Keystore/RoundTrip.antt =====
-- The file of the keystore (src/wallet/keystore.cpp): Deserialize on what Serialize wrote.
use cdx.Base.{
  append-nil, refl, true, arith, ◌≤◌, append_assoc, All, ◌^◌, ◌≡◌, ◌<◌, length, ◌++◌, [], some,
}
use cdx.Wallet.Keystore.{
  Keystore, lock, KeyEntry, write_entry, serialize_keystore, read_entry, deserialize_keystore,
  read_keystore, bytes_key,
}
use cdx.Bytes.{Bytes}
use cdx.StdMap.{StdMap}
use cdx.Script.{bytes_eq}
use cdx.Serializer.{write_all, write_var_int, write_var_str, write_u64}
use cdx.StdMap.Order.{insert_all, insert_all-IsOrdered, IsOrdered}
use cdx.Serializer.RoundTrip.{
  read_var_int-write_var_int, read_le-le_bytes, read_var_str-write_var_str,
}
use cdx.Transaction.Codec.RoundTrip.{read_at_most-write_all}

-- The fields of an entry fit their lengths.
abbrev pub IsKeyEntry : Bytes × KeyEntry → Type 0
IsKeyEntry (address, e) =
    (length address < 2 ^ 64)
    × (length e.ciphertext < 2 ^ 64)
    × (length e.iv < 2 ^ 64)
    × (length e.tag < 2 ^ 64)
    × (e.created < 2 ^ 64)

read_entry-write_entry :
    (p : Bytes × KeyEntry) (rest : Bytes)
    → IsKeyEntry p
    → read_entry (write_entry p ++ rest) ≡ some (p, rest)
unfolding read_entry write_entry
read_entry-write_entry (address, e) rest h =
    let s4 = write_u64 e.created ++ rest in
    let s3 = write_var_str e.tag ++ s4 in
    let s2 = write_var_str e.iv ++ s3 in
    let s1 = write_var_str e.ciphertext ++ s2 in
    let whole : write_entry (address, e) ++ rest ≡ write_var_str address ++ s1 =
      simp append_assoc refl in
    rw whole (
      ground (
        arith,
        read_var_str-write_var_str address s1 h.0,
        read_var_str-write_var_str e.ciphertext s2 h.1,
        read_var_str-write_var_str e.iv s3 h.2,
        read_var_str-write_var_str e.tag s4 h.3,
        read_le-le_bytes 8 e.created rest h.4,
      ))

read_keystore-entries :
    (salt : Bytes) (keys : StdMap Bytes KeyEntry)
    → length salt < 2 ^ 64
    → All IsKeyEntry keys
    → length keys ≤ 1000000
    → read_keystore
        (write_var_str salt ++ (write_var_int (length keys) ++ write_all write_entry keys))
      ≡ some (record { locked = true; salt = salt; kek = []; keys = insert_all keys [] }, [])
unfolding read_keystore
read_keystore-entries salt keys hs hk hn =
    let body = write_all write_entry keys in
    ground (
      arith,
      read_var_str-write_var_str salt (write_var_int (length keys) ++ body) hs,
      read_var_int-write_var_int (length keys) body (omega arith),
      append-nil body,
      read_at_most-write_all IsKeyEntry write_entry read_entry read_entry-write_entry 1000000 keys
          [] hk hn,
    )

-- Deserialize reads back from the file of a keystore its salt and its entries, in the same order, and
-- the keystore that it gives is locked, if the fields fit their lengths, there are at most 1000000
-- entries, and they stand in the order of their addresses.
pub deserialize_keystore-serialize_keystore :
    (ks : Keystore)
    → length ks.salt < 2 ^ 64
    → All IsKeyEntry ks.keys
    → length ks.keys ≤ 1000000
    → IsOrdered ks.keys
    → deserialize_keystore (serialize_keystore ks) ≡ some (lock ks)
unfolding deserialize_keystore serialize_keystore lock bytes_eq
deserialize_keystore-serialize_keystore ks hs hk hn ho =
    rw (read_keystore-entries ks.salt ks.keys hs hk hn, insert_all-IsOrdered ks.keys ho) refl
