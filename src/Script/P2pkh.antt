-- ===== src/Script/P2pkh.antt =====
-- Pay-to-public-key-hash scripts (src/script/interpreter.cpp): which scripts are of this form, and
-- what VerifyScript answers on them.
use cdx.Base.{
  append-nil, arith, ℕ, suc, zero, ◌+◌, ◌≡◌, refl, ap, sym, ◌∙◌, [], ◌∷◌, ◌++◌, length, take, drop,
  get_elem?, none, some, if◌then◌else◌, ◌≤◌, take-append, drop-append, length-append,
}
use cdx.Script.{
  is_false, ok, err, equalverify_failed, false_stack_top, Result, build_p2pkh_script,
  is_p2pkh_script, extract_p2pkh_hash, parse_push, eval_loop, eval_script, verify_script, exec_op,
  Stack, bytes_eq,
}
use cdx.Crypto.{verify_signature, Openssl, hash160}
use cdx.Bytes.{Bytes}

get_elem?-drop : (n i : ℕ) (xs : Bytes) → get_elem? (drop n xs) i ≡ get_elem? xs (n + i)
get_elem?-drop zero i xs = let e : 0 + i ≡ i = omega arith in rw e
get_elem?-drop (suc n) i [] = refl
get_elem?-drop (suc n) i (x ∷ xs) =
    let e : suc n + i ≡ suc (n + i) = omega arith in rw e (get_elem?-drop n i xs)

-- The two opcodes behind a hash of 20 bytes.
from_end : (h t : Bytes) (i : ℕ) → length h ≡ 20 → get_elem? (h ++ t) (20 + i) ≡ get_elem? t i
from_end h t i e =
    let d : drop 20 (h ++ t) ≡ t = rw e at (drop-append h t) in
    sym (get_elem?-drop 20 i (h ++ t)) ∙ ap (λ l. get_elem? l i) d

-- ExtractP2PKHHash finds in the script that BuildP2PKHScript makes of a hash of 20 bytes that hash.
pub extract_p2pkh_hash-build :
    (h : Bytes) → length h ≡ 20 → extract_p2pkh_hash (build_p2pkh_script h) ≡ some h
unfolding extract_p2pkh_hash is_p2pkh_script build_p2pkh_script
extract_p2pkh_hash-build h e =
    let t : Bytes = 0x88 ∷ 0xac ∷ [] in
    let taken : take 20 (h ++ t) ≡ h = rw e at (take-append h t) in
    ground (arith, length-append h t, from_end h t 0 e, from_end h t 1 e, taken)

-- A push of 1 to 75 bytes is parsed to these bytes.
pub parse_push_small :
    (d rest : Bytes)
    → 1 ≤ length d
    → length d ≤ 75
    → parse_push (length d ∷ (d ++ rest)) ≡ some (d, rest)
unfolding parse_push
parse_push_small d rest lo hi =
    ground (arith, length-append d rest, take-append d rest, drop-append d rest)

-- A byte string that one opcode can push.
abbrev pub IsSmall : Bytes → Type 0
IsSmall d = (1 ≤ length d) × (length d ≤ 75)

-- scriptSig: <sig> <pubkey>
unfoldable pub sig_script : Bytes → Bytes → Bytes
sig_script sig pubkey = length sig ∷ (sig ++ (length pubkey ∷ pubkey))

module _ (ssl : Openssl) where
  eval_push :
      (left : ℕ) (d rest hash32 : Bytes) (st : Stack)
      → IsSmall d
      → eval_loop ssl (suc left) (length d ∷ (d ++ rest)) hash32 st
        ≡ eval_loop ssl left rest hash32 (d ∷ st)
  unfolding eval_loop
  eval_push left d rest hash32 st h = ground (arith, parse_push_small d rest)

  eval_op :
      (left op : ℕ) (s hash32 : Bytes) (st st' : Stack)
      → parse_push (op ∷ s) ≡ none
      → exec_op ssl op hash32 st ≡ ok st'
      → eval_loop ssl (suc left) (op ∷ s) hash32 st ≡ eval_loop ssl left s hash32 st'
  unfolding eval_loop
  eval_op left op s hash32 st st' h e = ground arith

  eval_end : (left : ℕ) (hash32 : Bytes) (st : Stack) → eval_loop ssl left [] hash32 st ≡ ok st
  unfolding eval_loop
  eval_end zero hash32 st = refl
  eval_end (suc left) hash32 st = refl

  eval_script_small :
      (s hash32 : Bytes) (st : Stack)
      → length s ≤ 10000
      → eval_script ssl s hash32 st ≡ eval_loop ssl 201 s hash32 st
  unfolding eval_script
  eval_script_small s hash32 st h = ground arith

  eval_sig_script :
      (sig pubkey hash32 : Bytes)
      → IsSmall sig
      → IsSmall pubkey
      → eval_script ssl (sig_script sig pubkey) hash32 [] ≡ ok (pubkey ∷ sig ∷ [])
  unfolding sig_script
  eval_sig_script sig pubkey hash32 hs hp =
      eval_script_small (length sig ∷ (sig ++ (length pubkey ∷ pubkey))) hash32 []
        (omega (arith, length-append {0} sig (length pubkey ∷ pubkey)))
      ∙ eval_push 200 sig (length pubkey ∷ pubkey) hash32 [] hs
      ∙ rw (append-nil pubkey) at (eval_push 199 pubkey [] hash32 (sig ∷ []) hp)
      ∙ eval_end 199 hash32 (pubkey ∷ sig ∷ [])

  answer : Bytes → Bytes → Bytes → Bytes → Result Stack
  answer h sig pubkey hash32 =
      if bytes_eq h (hash160 ssl pubkey)
      then ok ((if verify_signature ssl hash32 sig pubkey then 1 ∷ [] else []) ∷ [])
      else err equalverify_failed

  -- OP_EQUALVERIFY OP_CHECKSIG
  eval_tail :
      (h sig pubkey hash32 : Bytes)
      → eval_loop ssl 198 (0x88 ∷ 0xac ∷ []) hash32 (h ∷ hash160 ssl pubkey ∷ pubkey ∷ sig ∷ [])
        ≡ answer h sig pubkey hash32
  unfolding eval_loop parse_push exec_op answer
  eval_tail h sig pubkey hash32 = ground arith

  eval_build :
      (h sig pubkey hash32 : Bytes)
      → length h ≡ 20
      → eval_loop ssl 201 (build_p2pkh_script h) hash32 (pubkey ∷ sig ∷ [])
        ≡ answer h sig pubkey hash32
  unfolding build_p2pkh_script
  eval_build h sig pubkey hash32 e =
      let t : Bytes = 0x88 ∷ 0xac ∷ [] in
      let st : Stack = pubkey ∷ sig ∷ [] in
      eval_op 200 0x76 (0xa9 ∷ 0x14 ∷ (h ++ t)) hash32 st (pubkey ∷ st) (no_push _) (dup (sig ∷ []))
      ∙ eval_op 199 0xa9 (0x14 ∷ (h ++ t)) hash32 (pubkey ∷ st) (hash160 ssl pubkey ∷ st)
          (no_push' _) (hash (pubkey ∷ sig ∷ []))
      ∙ (rw e at (eval_push 198 h t hash32 (hash160 ssl pubkey ∷ st) (omega arith)))
      ∙ eval_tail h sig pubkey hash32
    where
      no_push : (s : Bytes) → parse_push (0x76 ∷ s) ≡ none
      no_push s = unfold parse_push in refl

      no_push' : (s : Bytes) → parse_push (0xa9 ∷ s) ≡ none
      no_push' s = unfold parse_push in refl

      dup : (st : Stack) → exec_op ssl 0x76 hash32 (pubkey ∷ st) ≡ ok (pubkey ∷ pubkey ∷ st)
      dup st = unfold exec_op in refl

      hash : (st : Stack) → exec_op ssl 0xa9 hash32 (pubkey ∷ st) ≡ ok (hash160 ssl pubkey ∷ st)
      hash st = unfold exec_op in refl

  length-build : (h : Bytes) → length h ≡ 20 → length (build_p2pkh_script h) ≤ 10000
  unfolding build_p2pkh_script
  length-build h e = omega (arith, length-append {0} h (0x88 ∷ 0xac ∷ []))

  -- On a P2PKH script with a 20-byte hash, and a scriptSig that pushes a signature and a public key
  -- of 1 to 75 bytes, VerifyScript succeeds exactly when the key has that hash and OpenSSL accepts
  -- the signature of the digest; otherwise it fails with the error of the check that is first to fail.
  pub verify_script-p2pkh :
      (h sig pubkey hash32 : Bytes)
      → length h ≡ 20
      → IsSmall sig
      → IsSmall pubkey
      → verify_script ssl (sig_script sig pubkey) (build_p2pkh_script h) hash32 ≡ (
          if bytes_eq h (hash160 ssl pubkey)
          then (if verify_signature ssl hash32 sig pubkey then ok tt else err false_stack_top)
          else err equalverify_failed)
  unfolding verify_script answer is_false
  verify_script-p2pkh h sig pubkey hash32 e hs hp = ground (
    arith,
    eval_sig_script sig pubkey hash32 hs hp,
    eval_script_small (build_p2pkh_script h) hash32 (pubkey ∷ sig ∷ []) (length-build h e),
    eval_build h sig pubkey hash32 e,
  )
