-- ===== src/Storage/Peers.antt =====
-- The file peers.dat (src/storage/blocks.cpp, SavePeers and LoadPeers).
use cdx.Base.{
  refl, drop-append, take-append, length-append, append_assoc, take, ◌≤◌, leb, drop, All, ltb,
  length, if◌then◌else◌, ℕ, suc, zero, true, false, List, [], ◌∷◌, ◌++◌, ◌≡◌, arith, ◌&&◌,
}
use cdx.Storage.State.{fill}
use cdx.Bytes.{of_le-le_bytes, length-le_bytes, of_le, Bytes}
use cdx.Serializer.{write_u64, write_all}
use cdx.Storage.State.RoundTrip.{fill-all}

unfoldable pub write_peer : Bytes → Bytes
write_peer a = write_u64 (length a) ++ a

-- SavePeers
unfoldable pub save_peers : List Bytes → Bytes
save_peers addresses = write_u64 (length addresses) ++ write_all write_peer addresses

-- The loop of LoadPeers, which ends at a length above 512 and skips what was not read in full.
unfoldable pub load_peer_loop : ℕ → Bytes → Bytes → List Bytes
load_peer_loop zero meta stream = []
load_peer_loop (suc n) meta stream =
    let (meta', rest) = fill meta 8 stream in
    let len = of_le meta' in
    let others = load_peer_loop n meta' (drop len rest) in
    if ltb 512 len
    then []
    else if leb 8 (length stream) && leb len (length rest)
    then take len rest ∷ others
    else others

-- LoadPeers of the contents of the file; `junk` is what the buffer holds.
unfoldable pub load_peers : Bytes → Bytes → List Bytes
load_peers junk stream =
    let (meta, rest) = fill junk 8 stream in
    if ltb 1000000 (of_le meta) then [] else load_peer_loop (of_le meta) meta rest

load_peer_loop-write_all :
    (addresses : List Bytes) (meta : Bytes)
    → length meta ≡ 8
    → All (λ a. length a ≤ 512) addresses
    → load_peer_loop (length addresses) meta (write_all write_peer addresses) ≡ addresses
unfolding load_peer_loop write_all write_peer
load_peer_loop-write_all [] meta m8 h = refl
load_peer_loop-write_all (a ∷ addresses) meta m8 h =
    let rest = write_all write_peer addresses in
    let len = length a in
    let whole = append_assoc (write_u64 len) a rest in
    let first = fill-all meta (write_u64 len) (a ++ rest) 8 (length-le_bytes 8 len) m8 in
    let back : of_le (write_u64 len) ≡ len = of_le-le_bytes 8 len (omega arith) in
    let short : ltb 512 len ≡ false = ground arith in
    let long : leb 8 (length (write_u64 len ++ (a ++ rest))) ≡ true =
      ground (arith, length-append (write_u64 len) (a ++ rest), length-le_bytes 8 len) in
    let full : leb len (length (a ++ rest)) ≡ true = ground (arith, length-append a rest) in
    let others = load_peer_loop-write_all addresses (write_u64 len) (length-le_bytes 8 len) h.1 in
    rw
      (
        whole,
        load_peer_loop,
        first,
        back,
        short,
        long,
        full,
        take-append a rest,
        drop-append a rest,
        others,
      )
      refl

-- LoadPeers gives back the addresses that SavePeers wrote, if there are at most 1000000 of them and
-- each has at most 512 bytes.
pub load_peers-save_peers :
    (junk : Bytes) (addresses : List Bytes)
    → length junk ≡ 8
    → All (λ a. length a ≤ 512) addresses
    → length addresses ≤ 1000000
    → load_peers junk (save_peers addresses) ≡ addresses
unfolding load_peers save_peers
load_peers-save_peers junk addresses j8 short few =
    let n = length addresses in
    let n8 = length-le_bytes 8 n in
    let first = fill-all junk (write_u64 n) (write_all write_peer addresses) 8 n8 j8 in
    let back : of_le (write_u64 n) ≡ n = of_le-le_bytes 8 n (omega arith) in
    let in_bounds : ltb 1000000 n ≡ false = ground arith in
    rw (first, back, in_bounds) (load_peer_loop-write_all addresses (write_u64 n) n8 short)
