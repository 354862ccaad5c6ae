-- ===== src/Script.antt =====
-- The script interpreter (src/script/interpreter.cpp and opcodes.h). A script is its bytes, the
-- stack is a list with the top first, and the result of a run is the stack or the error text.
pub mod P2pkh
use cdx.Base.{
  ℕ, zero, suc, ◌+◌, ◌-◌, ◌*◌, ◌<◌, Bool, true, false, not, ◌&&◌, ◌||◌, Option, none, some, List,
  [], ◌∷◌, ◌++◌, length, take, drop, ltb, leb, ◌==◌, if◌then◌else◌, get_elem?,
}
use cdx.Bytes.{Bytes, of_le}
use cdx.Crypto.{verify_signature, Openssl, hash160}

pub data ScriptError : Type 0 where
  script_too_large too_many_operations push_too_large : ScriptError
  dup_empty_stack equal_underflow equalverify_failed : ScriptError
  verify_empty_stack verify_failed hash160_empty_stack : ScriptError
  checksig_underflow checksigverify_failed op_return unsupported_opcode : ScriptError
  empty_stack_after_script false_stack_top : ScriptError

pub data Result (A : Type 0) : Type 0 where
  ok : A → Result A
  err : ScriptError → Result A

abbrev pub Stack : Type 0
Stack = List Bytes

infixl 5 ◌>>=◌
-- The next step runs on the value of the step before.
abbrev pub ◌>>=◌ : {A B : Type 0} → Result A → (A → Result B) → Result B
err failure >>= next = err failure
ok value >>= next = next value

-- std::vector<uint8_t>::operator==
unfoldable pub bytes_eq : Bytes → Bytes → Bool
bytes_eq [] [] = true
bytes_eq [] (y ∷ ys) = false
bytes_eq (x ∷ xs) [] = false
bytes_eq (x ∷ xs) (y ∷ ys) = x == y && bytes_eq xs ys

-- BuildP2PKHScript
unfoldable pub build_p2pkh_script : Bytes → Bytes
build_p2pkh_script h = 0x76 ∷ 0xa9 ∷ 0x14 ∷ (h ++ (0x88 ∷ 0xac ∷ []))

byte_is : Bytes → ℕ → ℕ → Bool
byte_is s i b = elim (get_elem? s i) [ none ↦ false | some x ↦ x == b ]

-- IsP2PKHScript
unfoldable pub is_p2pkh_script : Bytes → Bool
unfolding byte_is
is_p2pkh_script s =
    length s == 25
    && (byte_is s 0 0x76
        && (byte_is s 1 0xa9 && (byte_is s 2 0x14 && (byte_is s 23 0x88 && byte_is s 24 0xac))))

-- ExtractP2PKHHash
unfoldable pub extract_p2pkh_hash : Bytes → Option Bytes
extract_p2pkh_hash s = if is_p2pkh_script s then some (take 20 (drop 3 s)) else none

-- The end of ParsePush: n bytes of data behind the opcode and its length field.
push_data : ℕ → Bytes → Option (Bytes × Bytes)
push_data n s = if ltb (length s) n then none else some (take n s, drop n s)

-- A length field of k bytes, and then the data.
push_sized : ℕ → Bytes → Option (Bytes × Bytes)
unfolding push_data
push_sized k s = if ltb (length s) k then none else push_data (of_le (take k s)) (drop k s)

-- ParsePush at the bytes of a script: the data, and the bytes behind what was consumed.
unfoldable pub parse_push : Bytes → Option (Bytes × Bytes)
unfolding push_data push_sized
parse_push [] = none
parse_push (op ∷ s) =
    if leb 1 op && leb op 75
    then push_data op s
    else if op == 0x4c
    then push_sized 1 s
    else if op == 0x4d
    then push_sized 2 s
    else if op == 0x4e
    then push_sized 4 s
    else none

-- The loop of GetScriptSigPubKey; a round consumes at least one byte.
unfoldable pub last_push : ℕ → Bytes → Bytes → Bytes
last_push zero s last = last
last_push (suc fuel) s last = elim (parse_push s) [ none ↦ last | some (d, r) ↦ last_push fuel r d ]

-- GetScriptSigPubKey
unfoldable pub get_script_sig_pub_key : Bytes → Bytes
get_script_sig_pub_key s = last_push (length s) s []

-- top.empty() || (top.size() == 1 && top[0] == 0)
unfoldable pub is_false : Bytes → Bool
is_false [] = true
is_false (x ∷ []) = x == 0
is_false (x ∷ y ∷ s) = false

abbrev of_bool : Bool → Bytes
of_bool true = 1 ∷ []
of_bool false = []

op_dup : Stack → Result Stack
op_dup [] = err dup_empty_stack
op_dup (a ∷ st) = ok (a ∷ a ∷ st)

op_equal : Bool → Stack → Result Stack
op_equal verify (a ∷ b ∷ st) =
    if verify
    then (if bytes_eq a b then ok st else err equalverify_failed)
    else ok (of_bool (bytes_eq a b) ∷ st)
op_equal verify st = err equal_underflow

op_verify : Stack → Result Stack
op_verify [] = err verify_empty_stack
op_verify (v ∷ st) = if is_false v then err verify_failed else ok st

-- OP_0, OP_1 to OP_16, OP_1NEGATE
op_number : ℕ → Stack → Result Stack
op_number op st =
    if op == 0x00
    then ok ([] ∷ st)
    else if leb 0x51 op && leb op 0x60
    then ok (((op - 0x51 + 1) ∷ []) ∷ st)
    else if op == 0x4f
    then ok ((0x81 ∷ []) ∷ st)
    else err unsupported_opcode

module _ (ssl : Openssl) where
  op_hash160 : Stack → Result Stack
  op_hash160 [] = err hash160_empty_stack
  op_hash160 (v ∷ st) = ok (hash160 ssl v ∷ st)

  op_checksig : Bool → Bytes → Stack → Result Stack
  op_checksig verify hash32 (pubkey ∷ sig ∷ st) =
      let good = verify_signature ssl hash32 sig pubkey in
      if verify then (if good then ok st else err checksigverify_failed) else ok (of_bool good ∷ st)
  op_checksig verify hash32 st = err checksig_underflow

  -- The switch of EvalScript.
  unfoldable pub exec_op : ℕ → Bytes → Stack → Result Stack
  unfolding op_dup op_equal op_verify op_number op_hash160 op_checksig
  exec_op op hash32 st =
      if op == 0x76
      then op_dup st
      else if op == 0x87
      then op_equal false st
      else if op == 0x88
      then op_equal true st
      else if op == 0x69
      then op_verify st
      else if op == 0xa9
      then op_hash160 st
      else if op == 0xac
      then op_checksig false hash32 st
      else if op == 0xad
      then op_checksig true hash32 st
      else if op == 0x6a
      then err op_return
      else op_number op st

  push_checked : Bytes → Stack → Result Stack
  push_checked d st = if ltb 520 (length d) then err push_too_large else ok (d ∷ st)

  -- The loop of EvalScript at the rest of the script. `left` is what opCount leaves of 201.
  unfoldable pub eval_loop : ℕ → Bytes → Bytes → Stack → Result Stack
  unfolding push_checked
  eval_loop left [] hash32 st = ok st
  eval_loop zero (op ∷ s) hash32 st = err too_many_operations
  eval_loop (suc left) (op ∷ s) hash32 st = elim (parse_push (op ∷ s)) [
    | some (d, r) ↦ push_checked d st >>= eval_loop left r hash32
    | none ↦ exec_op op hash32 st >>= eval_loop left s hash32
  ]

  -- EvalScript, with a digest given
  unfoldable pub eval_script : Bytes → Bytes → Stack → Result Stack
  eval_script script hash32 st =
      if ltb 10000 (length script) then err script_too_large else eval_loop 201 script hash32 st

  check_top : Stack → Result (Unit {0})
  check_top [] = err empty_stack_after_script
  check_top (top ∷ st) = if is_false top then err false_stack_top else ok tt

  -- VerifyScript
  unfoldable pub verify_script : Bytes → Bytes → Bytes → Result (Unit {0})
  unfolding check_top
  verify_script script_sig script_pub_key hash32 =
      eval_script script_sig hash32 [] >>= λ st. eval_script script_pub_key hash32 st >>= check_top
