-- ===== src/Tests/Script.antt =====
-- The theorems on scripts, on concrete scripts.
use cdx.Base.{arith, if◌then◌else◌, ◌≡◌, [], ◌∷◌}
use cdx.Script.{
  bytes_eq, build_p2pkh_script, verify_script, ok, err, false_stack_top, equalverify_failed,
}
use cdx.Tests.{length-zeros, zero_ssl}
use cdx.Ripemd160.{zeros}
use cdx.Script.P2pkh.{verify_script-p2pkh, sig_script}
use cdx.Crypto.{verify_signature, hash160}

verify_script-p2pkh_example :
    verify_script zero_ssl
      (sig_script (3 ∷ []) (4 ∷ 5 ∷ []))
      (build_p2pkh_script (zeros 20))
      (zeros 32)
    ≡ (if bytes_eq (zeros 20) (hash160 zero_ssl (4 ∷ 5 ∷ []))
        then (if verify_signature zero_ssl (zeros 32) (3 ∷ []) (4 ∷ 5 ∷ [])
            then ok tt
            else err false_stack_top)
        else err equalverify_failed)
verify_script-p2pkh_example =
    verify_script-p2pkh zero_ssl (zeros 20) (3 ∷ []) (4 ∷ 5 ∷ []) (zeros 32) (length-zeros 20)
      (omega arith, omega arith) (omega arith, omega arith)
