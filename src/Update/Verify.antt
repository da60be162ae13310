-- ===== src/Update/Verify.antt =====
-- internal/update/release.go: which downloaded binary is accepted.
use oikos.Common.{
  ℕ, String, Bool, not, ◌||◌, Option, none, some, List, [], ◌∷◌, ◌=?◌, if◌then◌else◌,
}
use oikos.Common.Exec.{Result, ok, err, wrap}
use oikos.Update.{
  Setup, Release, UpdateError, invalid_version, url_required, invalid_digest, checksum_mismatch,
  verifier_required, signature_required, signature_error,
}

module _ (u : Setup) where
  unfoldable pub bad_version : String → Bool
  bad_version v =
      v =? ""
      || v =? "."
      || v =? ".."
      || v =? "current"
      || v =? "previous"
      || v =? "state.json"
      || not (u.base v =? v)
      || u.is_abs v

  unfoldable pub validate_version : String → Result UpdateError Unit
  unfolding bad_version
  validate_version v = if bad_version v then err invalid_version else ok tt

  signed :
      (Release → u.Bytes → Result String Unit)
      → Release
      → u.Bytes
      → List ℕ
      → Result UpdateError Unit
  signed verify r body [] = err signature_required
  signed verify r body (b ∷ bs) = wrap signature_error (verify r body)

  -- The verifier, if there is one, is given a release with a signature.
  check_signature :
      Option (Release → u.Bytes → Result String Unit) → Release → u.Bytes → Result UpdateError Unit
  unfolding signed
  check_signature none r body = err verifier_required
  check_signature (some verify) r body = signed verify r body r.signature

  unfoldable pub verify_release : Release → u.Bytes → Result UpdateError Unit
  unfolding bad_version check_signature
  verify_release r body =
      if bad_version r.version
      then err invalid_version
      else if r.binary_url =? ""
      then err url_required
      else if not (u.is_digest r.sha256)
      then err invalid_digest
      else if not (u.sha256_hex body =? r.sha256)
      then err checksum_mismatch
      else check_signature u.verify r body
