-- ===== src/Storage/Blocks/Laws.antt =====
-- What ReadBlock gives of what WriteBlock wrote (src/storage/blocks.cpp).
use cdx.Base.{
  if◌then◌else◌, ◌≢◌, All, Option-cases, take-append, ap, drop, refl, drop-append, append-nil, ◌==◌,
  take, length, length-append, Bool-cases, ◌≤◌, ℕ, Bool, true, false, some, none, Option, [], ◌∷◌,
  ◌++◌, ◌+◌, ◌-◌, ◌≡◌, inl, inr, suc, zero, arith,
}
use cdx.Base.Int.{ℤ}
use cdx.Utxo.{uint256_key}
use cdx.Uint256.{u256_eq, U256}
use cdx.Block.{IsHeader, serialize_block, deserialize_block, Block}
use cdx.Storage.Blocks.{place_of, block_at, load_index, Place, choose_file, write_block, read_block}
use cdx.Crypto.{Openssl}
use cdx.Bytes.{Bytes}
use cdx.Storage.Blocks.{BlockStorage, read_place_block, find_block, append_to_file, read_from_file}
use cdx.Consensus.Header.{get_hash}
use cdx.Uint256.Order.{u256_eq_iff}
use cdx.StdMap.{find}
use cdx.StdMap.Laws.{key_eq_ne, find-insert}
use cdx.Transaction.Codec.RoundTrip.{IsSerializable}
use cdx.Block.RoundTrip.{deserialize_block-serialize_block}

take-append_le : (n : ℕ) (xs ys : Bytes) → n ≤ length xs → take n (xs ++ ys) ≡ take n xs
take-append_le zero xs ys h = refl
take-append_le (suc n) [] ys h = absurd (omega arith)
take-append_le (suc n) (x ∷ xs) ys h = ap (λ l. x ∷ l) (take-append_le n xs ys (omega arith))

take-drop-append :
    (o n : ℕ) (xs ys : Bytes) → o + n ≤ length xs → take n (drop o (xs ++ ys)) ≡ take n (drop o xs)
take-drop-append zero n xs ys h = take-append_le n xs ys (omega arith)
take-drop-append (suc o) n [] ys h = absurd (omega arith)
take-drop-append (suc o) n (x ∷ xs) ys h = take-drop-append o n xs ys (omega arith)

-- What stands in a file stays where it is when bytes are appended.
read_from_file-append :
    (file ser : Bytes) (offset size : ℕ) {out : Bytes}
    → read_from_file file offset size ≡ some out
    → read_from_file (file ++ ser) offset size ≡ some out
unfolding read_from_file
read_from_file-append file ser offset size e =
    ground (arith, take-drop-append offset size file ser, length-append file ser)

take_all : (xs : Bytes) → take (length xs) xs ≡ xs
take_all xs = rw append-nil at (take-append xs [])

-- The bytes that were appended last.
read_from_file-last :
    (file ser : Bytes)
    → read_from_file (file ++ ser) (length (file ++ ser) - length ser) (length ser) ≡ some ser
unfolding read_from_file
read_from_file-last file ser =
    let at_end : length (file ++ ser) - length ser ≡ length file =
      omega (arith, length-append file ser) in
    rw at_end (ground (arith, drop-append file ser, take_all ser, length-append file ser))

-- Every file after WriteBlock holds what it held before.
append_to_file-read :
    (ser : Bytes) (f : ℕ) (files : ℕ → Bytes) (g offset size : ℕ) {out : Bytes}
    → read_from_file (files g) offset size ≡ some out
    → read_from_file (append_to_file ser f files g) offset size ≡ some out
unfolding append_to_file
append_to_file-read ser f files g offset size e = elim (Bool-cases (g == f)) [
  | inl same ↦
      let is_f : g ≡ f = ground arith in
      rw (same, ← is_f) (read_from_file-append (files g) ser offset size e)
  | inr other ↦ rw other e
]

append_to_file-last :
    (ser : Bytes) (f : ℕ) (files : ℕ → Bytes) → append_to_file ser f files f ≡ files f ++ ser
unfolding append_to_file
append_to_file-last ser f files = let same : (f == f) ≡ true = ground arith in rw same refl

if_true : {A : Type 0} (b : Bool) (x y : A) → b ≡ true → (if b then x else y) ≡ x
if_true true x y e = refl
if_true false x y e = cc

load_index-loaded : (s : BlockStorage) → s.loaded ≡ true → load_index s ≡ s
unfolding load_index
load_index-loaded s e = if_true s.loaded s _ e

module _ (ssl : Openssl) where
  read_place_block-get_hash :
      (files : ℕ → Bytes) (hash : U256) (blk : Block) (p : Place)
      → read_place_block ssl files hash p ≡ some blk
      → get_hash ssl blk.header ≡ hash
  unfolding read_place_block
  read_place_block-get_hash files hash blk p e =
      elim (Option-cases (read_from_file (files p.file_num) p.offset p.size)) [
        | inl gone ↦ let e' = rw (read_place_block, gone) at e in cc
        | inr (ser, q) ↦ elim (Option-cases (deserialize_block ser)) [
          | inl bad ↦ let e' = rw (read_place_block, q, bad) at e in cc
          | inr (b, r) ↦
              let e' = rw (read_place_block, q, r) at e in
              ground (arith, e', u256_eq_iff (get_hash ssl b.header) hash)
        ]
      ]

  -- A block that ReadBlock finds has the hash that it was asked for, whatever the files hold.
  pub read_block-get_hash :
      (hash : U256) (blk : Block) (s : BlockStorage)
      → (read_block ssl hash s).1 ≡ some blk
      → get_hash ssl blk.header ≡ hash
  unfolding read_block find_block
  read_block-get_hash hash blk s e = by_place (find hash (load_index s).index) e
    where
      by_place :
          (o : Option Place)
          → block_at ssl (load_index s).files hash o ≡ some blk
          → get_hash ssl blk.header ≡ hash
      by_place none q = unfold block_at in cc
      by_place (some p) q =
          read_place_block-get_hash (load_index s).files hash blk p (unfold block_at in q)

  -- The new block at its place.
  read_place_block-place_of :
      (blk : Block) (height : ℤ) (f : ℕ) (files : ℕ → Bytes)
      → deserialize_block (serialize_block blk) ≡ some blk
      → let files' = append_to_file (serialize_block blk) f files in
        read_place_block ssl files'
          (get_hash ssl blk.header)
          (place_of (serialize_block blk) height f files')
        ≡ some blk
  unfolding read_place_block place_of
  read_place_block-place_of blk height f files back =
      let hash = get_hash ssl blk.header in
      let same : u256_eq hash hash ≡ true = (u256_eq_iff hash hash).1 refl in
      rw
        (
          read_place_block,
          append_to_file-last (serialize_block blk) f files,
          read_from_file-last (files f) (serialize_block blk),
          back,
          same,
        )
        refl

  -- An old block at its place.
  read_place_block-append :
      (ser : Bytes) (f : ℕ) (files : ℕ → Bytes) (hash : U256) (p : Place) (old : Block)
      → read_place_block ssl files hash p ≡ some old
      → read_place_block ssl (append_to_file ser f files) hash p ≡ some old
  unfolding read_place_block
  read_place_block-append ser f files hash p old e =
      elim (Option-cases (read_from_file (files p.file_num) p.offset p.size)) [
        | inl gone ↦ let e' = rw (read_place_block, gone) at e in cc
        | inr (bytes, q) ↦
            let q' = append_to_file-read ser f files p.file_num p.offset p.size q in
            let e' = rw (read_place_block, q) at e in rw (read_place_block, q') e'
      ]

  pub find_block-write_block :
      (blk : Block) (height : ℤ) (s : BlockStorage)
      → deserialize_block (serialize_block blk) ≡ some blk
      → find_block ssl (get_hash ssl blk.header) (write_block ssl blk height s) ≡ some blk
  unfolding find_block write_block block_at
  find_block-write_block blk height s back =
      let hash = get_hash ssl blk.header in
      let f = choose_file s (length (serialize_block blk)) in
      let same : u256_eq hash hash ≡ true = (u256_eq_iff hash hash).1 refl in
      rw (find-insert hash hash _ s.index, same)
        (read_place_block-place_of blk height f s.files back)

  find_block-write_block_other :
      (blk old : Block) (height : ℤ) (hash : U256) (s : BlockStorage)
      → u256_eq hash (get_hash ssl blk.header) ≡ false
      → find_block ssl hash s ≡ some old
      → find_block ssl hash (write_block ssl blk height s) ≡ some old
  unfolding find_block write_block
  find_block-write_block_other blk old height hash s other e =
      let f = choose_file s (length (serialize_block blk)) in
      rw (find-insert (get_hash ssl blk.header) hash _ s.index, other)
        (by_place f (find hash s.index) e)
    where
      by_place :
          (f : ℕ) (o : Option Place)
          → block_at ssl s.files hash o ≡ some old
          → block_at ssl (append_to_file (serialize_block blk) f s.files) hash o ≡ some old
      by_place f none q = unfold block_at in cc
      by_place f (some p) q =
          unfold block_at in read_place_block-append (serialize_block blk) f s.files hash p old q

  -- With the index loaded, ReadBlock gives back the block that WriteBlock wrote last, if the block
  -- is one that its serialization keeps, whatever was stored before; and it still gives every block of
  -- another hash that it gave before, in the same file or in an older one.
  pub read_block-write_block :
      (blk : Block) (height : ℤ) (s : BlockStorage)
      → IsHeader blk.header
      → All IsSerializable blk.vtx
      → length blk.vtx ≤ 100000
      → s.loaded ≡ true
      → ((read_block ssl (get_hash ssl blk.header) (write_block ssl blk height s)).1 ≡ some blk)
        × ((hash : U256) (old : Block)
            → hash ≢ get_hash ssl blk.header
            → (read_block ssl hash s).1 ≡ some old
            → (read_block ssl hash (write_block ssl blk height s)).1 ≡ some old)
  unfolding read_block
  read_block-write_block blk height s head txs few loaded =
      let back = deserialize_block-serialize_block blk head txs few in
      let still : (write_block ssl blk height s).loaded ≡ true = unfold write_block in loaded in
      rw (load_index-loaded (write_block ssl blk height s) still) (
        find_block-write_block blk height s back,
        λ hash old ne e.
            find_block-write_block_other blk old height hash s
              (key_eq_ne hash (get_hash ssl blk.header) ne) (rw (load_index-loaded s loaded) at e),
      )
