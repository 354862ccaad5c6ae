-- ===== src/Storage/Blocks/Index.antt =====
-- The index of the blocks after a restart (src/storage/blocks.cpp, SaveIndex and LoadIndex).
use cdx.Base.{
  ltb, append-nil, ◌∙◌, ◌≤◌, append_assoc, length, refl, All, ◌^◌, ◌<◌, ℕ, suc, true, false, some,
  [], ◌∷◌, ◌++◌, ◌≡◌, arith,
}
use cdx.Base.Int.{negsuc, ℤ, pos}
use cdx.Utxo.{uint256_key}
use cdx.Uint256.{IsWords, U256}
use cdx.Storage.Blocks.{
  save_index, merge_index, write_place, read_place, load_index, load_places, Place,
}
use cdx.Bytes.{of_bits-to_bits64, Bytes, IsInt, to_bits}
use cdx.Serializer.{write_uint256, write_u32, write_u64, write_all}
use cdx.StdMap.{insert, StdMap}
use cdx.StdMap.Order.{insert_all-IsOrdered, IsOrdered, insert_all}
use cdx.Serializer.RoundTrip.{read_le-le_bytes, read_uint256-write_uint256}

-- The fields have the ranges of their C++ types.
abbrev pub IsPlace : U256 × Place → Type 0
IsPlace (hash, p) =
    IsWords hash
    × IsInt (2 ^ 63) p.height
    × (p.file_num < 2 ^ 32)
    × (p.offset < 2 ^ 64)
    × (p.size < 2 ^ 64)

to_bits-lt : (z : ℤ) → to_bits 64 z < 256 ^ 8
to_bits-lt (pos n) = omega arith
to_bits-lt (negsuc n) = omega arith

read_place-write_place :
    (hash : U256) (p : Place) (rest : Bytes)
    → IsPlace (hash, p)
    → read_place (write_place (hash, p) ++ rest) ≡ some ((hash, p), rest)
unfolding read_place write_place
read_place-write_place hash p rest h =
    let s4 = write_u64 p.size ++ rest in
    let s3 = write_u64 p.offset ++ s4 in
    let s2 = write_u32 p.file_num ++ s3 in
    let s1 = write_u64 (to_bits 64 p.height) ++ s2 in
    let whole : write_place (hash, p) ++ rest ≡ write_uint256 hash ++ s1 = simp append_assoc refl in
    rw whole (
      ground (
        arith,
        read_uint256-write_uint256 hash s1 h.0,
        read_le-le_bytes 8 (to_bits 64 p.height) s2 (to_bits-lt p.height),
        read_le-le_bytes 4 p.file_num s3 h.2,
        read_le-le_bytes 8 p.offset s4 h.3,
        read_le-le_bytes 8 p.size rest h.4,
        of_bits-to_bits64 p.height h.1,
      ))

load_places-next :
    (n : ℕ) (stream rest : Bytes) (hash : U256) (p : Place) (index : StdMap U256 Place)
    → read_place stream ≡ some ((hash, p), rest)
    → load_places (suc n) stream index ≡ load_places n rest (insert hash p index)
unfolding load_places
load_places-next n stream rest hash p index e = rw (load_places, e) refl

load_places-write_all :
    (places : StdMap U256 Place) (rest : Bytes) (index : StdMap U256 Place)
    → All IsPlace places
    → load_places (length places) (write_all write_place places ++ rest) index
      ≡ insert_all places index
unfolding load_places write_all insert_all
load_places-write_all [] rest index h = refl
load_places-write_all ((hash, p) ∷ places) rest index h =
    let tail = write_all write_place places in
    let first = read_place-write_place hash p (tail ++ rest) h.0 in
    rw (append_assoc (write_place (hash, p)) tail rest) (
      load_places-next (length places) _ (tail ++ rest) hash p index first
      ∙ load_places-write_all places rest (insert hash p index) h.1)

-- After a restart LoadIndex rebuilds the index that SaveIndex wrote, if its fields have the ranges of
-- their C++ types, it has at most 100000000 entries, and they stand in the order of their hashes.
pub load_index-save_index :
    (files : ℕ → Bytes) (index : StdMap U256 Place)
    → IsOrdered index
    → All IsPlace index
    → length index ≤ 100000000
    → load_index
        (record { files = files; index = []; index_file = some (save_index index); loaded = false })
      ≡ record { files = files; index = index; index_file = some (save_index index); loaded = true }
unfolding load_index merge_index
load_index-save_index files index ordered places few =
    let n = length index in
    let body = write_all write_place index in
    let head = read_le-le_bytes 8 n body (omega arith) in
    let rebuilt = load_places-write_all index [] [] places in
    let rebuilt' = rw append-nil at rebuilt in
    let n_few : ltb 100000000 n ≡ false = ground arith in
    let whole : save_index index ≡ write_u64 n ++ body = unfold save_index in refl in
    let merged : merge_index (save_index index) [] ≡ index =
      rw (whole, merge_index, head, n_few, rebuilt') (insert_all-IsOrdered index ordered) in
    rw merged refl
