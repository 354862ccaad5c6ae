-- ===== src/P2p/Protocol/Frame.antt =====
-- Framing (src/p2p/protocol.cpp): ParseMessage on what BuildMessage wrote.
use cdx.Base.{
  sym, append_assoc, drop-append, length-append, ◌^◌, ◌<◌, length-take, take-append, ap, ◌∙◌, take,
  inl, inr, suc, zero, refl, ◌-◌, arith, ◌+◌, ◌++◌, Bool-cases, true, drop, ◌≤◌, ◌≡◌, length, ℕ,
  All, [], ◌∷◌, List, some,
}
use cdx.Script.{bytes_eq}
use cdx.Bytes.{of_le-le_bytes, of_le, length-le_bytes, Bytes}
use cdx.P2p.Protocol.{
  message, max_message_size, is_known_command, parse_message, build_message, known_commands,
  is_among, strip_nulls,
}
use cdx.Ripemd160.{zeros}
use cdx.Crypto.{sha256d_bytes, IsOpenssl, Openssl}
use cdx.Serializer.{write_u32}

bytes_eq-eq : (a b : Bytes) → bytes_eq a b ≡ true → a ≡ b
unfolding bytes_eq
bytes_eq-eq [] [] h = refl
bytes_eq-eq [] (y ∷ b) h = cc
bytes_eq-eq (x ∷ a) [] h = cc
bytes_eq-eq (x ∷ a) (y ∷ b) h = ground (arith, bytes_eq-eq a b)

bytes_eq_refl : (a : Bytes) → bytes_eq a a ≡ true
unfolding bytes_eq
bytes_eq_refl [] = refl
bytes_eq_refl (x ∷ a) = ground (arith, bytes_eq_refl a)

-- A command that its 12 bytes hold, and that has no null character.
abbrev IsCommand : Bytes → Type 0
IsCommand cmd = (length cmd ≤ 12) × (strip_nulls (cmd ++ zeros (12 - length cmd)) ≡ cmd)

among-All :
    (cmd : Bytes) (known : List Bytes)
    → All IsCommand known
    → is_among cmd known ≡ true
    → IsCommand cmd
unfolding is_among
among-All cmd [] a h = cc
among-All cmd (k ∷ known) a h = elim (Bool-cases (bytes_eq k cmd)) [
  | inl same ↦ rw (← bytes_eq-eq k cmd same) a.0
  | inr other ↦ among-All cmd known a.1 (ground (arith, other, h))
]

known-IsCommand : All IsCommand known_commands
unfolding strip_nulls zeros
known-IsCommand = ground arith

length-zeros : (n : ℕ) → length (zeros n) ≡ n
unfolding zeros
length-zeros zero = refl
length-zeros (suc n) = ground (arith, length-zeros n)

-- What lies behind a field.
drop-length : (a s : Bytes) (i : ℕ) → drop (length a + i) (a ++ s) ≡ drop i s
drop-length [] s i = let e : 0 + i ≡ i = omega arith in rw e
drop-length (x ∷ a) s i =
    let e : length (x ∷ a) + i ≡ suc (length a + i) = omega arith in rw e (drop-length a s i)

drop-field : (a s : Bytes) (n i : ℕ) → length a ≡ n → drop (n + i) (a ++ s) ≡ drop i s
drop-field a s n i e = rw (← e) (drop-length a s i)

drop-nil : (n : ℕ) → [] ≡ drop {A = ℕ} n []
drop-nil zero = refl
drop-nil (suc n) = refl

drop-add : (m n : ℕ) (s : Bytes) → drop (m + n) s ≡ drop n (drop m s)
drop-add zero n s = let e : 0 + n ≡ n = omega arith in rw e
drop-add (suc m) n [] = sym (drop-nil (suc m + n)) ∙ drop-nil n
drop-add (suc m) n (x ∷ s) = let e : suc m + n ≡ suc (m + n) = omega arith in rw e (drop-add m n s)

take-field : (a s : Bytes) (n : ℕ) → length a ≡ n → take n (a ++ s) ≡ a
take-field a s n e = rw (← e) (take-append a s)

-- The fields of a frame, wherever they lie.
record Fields (a c l k p rest : Bytes) (m : Bytes) : Type 0 where
  magic : take 4 m ≡ a
  command : take 12 (drop 4 m) ≡ c
  len : take 4 (drop 16 m) ≡ l
  checksum : take 4 (drop 20 m) ≡ k
  payload : drop 24 m ≡ p ++ rest

fields :
    (a c l k p rest : Bytes)
    → length a ≡ 4
    → length c ≡ 12
    → length l ≡ 4
    → length k ≡ 4
    → Fields a c l k p rest (a ++ (c ++ (l ++ (k ++ (p ++ rest)))))
fields a c l k p rest ea ec el ek = record {
  magic = take-field a (c ++ s3) 4 ea;
  command = ap (take 12) (drop-field a (c ++ s3) 4 0 ea) ∙ take-field c s3 12 ec;
  len = ap (take 4) at_len ∙ take-field l s2 4 el;
  checksum = ap (take 4) at_checksum ∙ take-field k s1 4 ek;
  payload =
      drop-field a (c ++ s3) 4 20 ea
      ∙ drop-field c s3 12 8 ec
      ∙ drop-field l s2 4 4 el
      ∙ drop-field k s1 4 0 ek;
}
  where
    s1 : Bytes
    s1 = p ++ rest

    s2 : Bytes
    s2 = k ++ s1

    s3 : Bytes
    s3 = l ++ s2

    at_len : drop 16 (a ++ (c ++ s3)) ≡ s3
    at_len = drop-field a (c ++ s3) 4 12 ea ∙ drop-field c s3 12 0 ec

    at_checksum : drop 20 (a ++ (c ++ s3)) ≡ s2
    at_checksum = drop-field a (c ++ s3) 4 16 ea ∙ drop-field c s3 12 4 ec ∙ drop-field l s2 4 0 el

module _ (ssl : Openssl) (sha : IsOpenssl ssl) where
  length-checksum : (p : Bytes) → length (take 4 (sha256d_bytes ssl p)) ≡ 4
  unfolding sha256d_bytes
  length-checksum p =
      omega (arith, length-take 4 (sha256d_bytes ssl p), sha.length-sha256 (ssl.sha256_oneshot p))

  -- ParseMessage on a stream with the fields of a frame.
  parse-Fields :
      (magic : ℕ) (command payload rest stream : Bytes)
      → magic < 2 ^ 32
      → is_known_command command ≡ true
      → length payload ≤ max_message_size
      → length stream ≡ 24 + (length payload + length rest)
      → Fields
          (write_u32 magic)
          (command ++ zeros (12 - length command))
          (write_u32 (length payload))
          (take 4 (sha256d_bytes ssl payload))
          payload
          rest
          stream
      → parse_message ssl magic stream
        ≡ message (record { command = command; payload = payload }) rest
  unfolding parse_message
  parse-Fields magic command payload rest stream hm hc hp size f =
      let (_, stripped) = among-All command known_commands known-IsCommand hc in
      let n = length payload in
      let read_magic : of_le (take 4 stream) ≡ magic = rw f.magic (of_le-le_bytes 4 magic hm) in
      let read_command : strip_nulls (take 12 (drop 4 stream)) ≡ command = rw f.command stripped in
      let read_len : of_le (take 4 (drop 16 stream)) ≡ n =
        rw f.len (of_le-le_bytes 4 n (omega arith)) in
      let read_payload : take n (drop 24 stream) ≡ payload =
        rw f.payload (take-field payload rest n refl) in
      let left : drop (24 + n) stream ≡ rest =
        drop-add 24 n stream ∙ ap (drop n) f.payload ∙ drop-append payload rest in
      ground (
        arith,
        read_magic,
        read_command,
        read_len,
        read_payload,
        left,
        f.checksum,
        bytes_eq_refl (take 4 (sha256d_bytes ssl payload)),
      )

  -- BuildMessage makes a frame of every known command and payload of at most MAX_MESSAGE_SIZE bytes,
  -- and ParseMessage finds in a stream that starts with the frame the command and the payload, and
  -- leaves exactly what follows the frame.
  pub parse_message-build_message :
      (magic : ℕ) (command payload : Bytes)
      → magic < 2 ^ 32
      → is_known_command command ≡ true
      → length payload ≤ max_message_size
      → (m : Bytes) × (build_message ssl magic command payload ≡ some m)
        × ((rest : Bytes)
            → parse_message ssl magic (m ++ rest)
              ≡ message (record { command = command; payload = payload }) rest)
  unfolding build_message
  parse_message-build_message magic command payload hm hc hp =
      let (small, _) = among-All command known_commands known-IsCommand hc in
      let a = write_u32 magic in
      let c = command ++ zeros (12 - length command) in
      let l = write_u32 (length payload) in
      let k = take 4 (sha256d_bytes ssl payload) in
      let padded : length c ≡ 12 = omega (
        arith,
        length-append command (zeros (12 - length command)),
        length-zeros (12 - length command),
      ) in
      (
        a ++ (c ++ (l ++ (k ++ payload))),
        ground arith,
        λ rest.
            let same : (a ++ (c ++ (l ++ (k ++ payload)))) ++ rest
                ≡ a ++ (c ++ (l ++ (k ++ (payload ++ rest)))) =
              rw
                (
                  append_assoc a (c ++ (l ++ (k ++ payload))) rest,
                  append_assoc c (l ++ (k ++ payload)) rest,
                  append_assoc l (k ++ payload) rest,
                  append_assoc k payload rest,
                )
                refl in
            rw same (
              parse-Fields magic command payload rest _ hm hc hp
                (omega (
                  arith,
                  length-append a (c ++ (l ++ (k ++ (payload ++ rest)))),
                  length-append c (l ++ (k ++ (payload ++ rest))),
                  length-append l (k ++ (payload ++ rest)),
                  length-append k (payload ++ rest),
                  length-append payload rest,
                  padded,
                  length-le_bytes 4 magic,
                  length-le_bytes 4 (length payload),
                  length-checksum payload,
                ))
                (fields a c l k payload rest (length-le_bytes 4 magic) padded
                  (length-le_bytes 4 (length payload)) (length-checksum payload))),
      )
