-- ===== src/FileReader/Verify.antt =====
-- src/reader.rs: `verify_signature` and `verify_with_policy` of `ClfReader`.
pub mod Verdict
use mathlib.Core.Logic.{dite}
use mathlib.Core.WellFounded.{Acc}
use native.Mathlib.Decide.{dec_lt}
use clf.Prelude.{
  ℕ, ◌-◌, ◌<◌, min, Bool, true, false, take, drop, ltb, if◌then◌else◌, ok, Action, pure, raise,
  ◌>>=◌, ◌>>◌,
}
use clf.Prelude.{arith, List}
use clf.Prelude.Order.{lt_wf}
use clf.Digest.{Sha256}
use clf.Stream.{Stream}
use clf.Format.{text_eq, sig_magic, sig_block_len}
use clf.Reader.{ClfError, signature_invalid, authenticity_verification_unsupported, guard, read}
use clf.Reader.{VerificationPolicy, integrity_only, require_authenticity}
use clf.FileReader.{ClfReader, on_reader, seek_to, seek_back}

abbrev pub block : ℕ
block = 4096

pub shrinks : (to_read : ℕ) → 0 < to_read → to_read - min to_read block < to_read
shrinks to_read h = omega arith

abbrev pub set_verified : Action ClfReader ClfError (Unit {0})
set_verified r = (ok tt, record r { signature_verified = true })

abbrev pub seek_to_blob_store : Action ClfReader ClfError ℕ
seek_to_blob_store r = on_reader (seek_to r.blob_store_offset) r

module _ (sha : Sha256) where
  unfoldable pub hash_exact :
      (to_read : ℕ) → Acc ◌<◌ to_read → sha.Hasher → Action Stream ClfError sha.Hasher
  hash_exact to_read (Acc.intro _ smaller) h =
      dite (dec_lt 0 to_read)
        (λ more. do
          buf ← read (min to_read block)
          hash_exact (to_read - min to_read block) (smaller _ (shrinks to_read more))
              (sha.update h buf))
        (λ _. pure h)

  -- The comparison of the hashes, for a signature block that was found.
  unfoldable pub check_hash : ℕ → List ℕ → Action ClfReader ClfError Bool
  check_hash file_len stored_hash = do
    let data_len = file_len - sig_block_len
    on_reader (seek_to 0)
    hasher ← on_reader (hash_exact data_len (lt_wf.apply data_len) sha.new)
    guard (text_eq (sha.finalize hasher) stored_hash) signature_invalid
    set_verified
    seek_to_blob_store
    pure true

  unfoldable pub read_signature : ℕ → Action ClfReader ClfError Bool
  read_signature file_len = do
    on_reader (seek_back sig_block_len)
    sig_block ← on_reader (read sig_block_len)
    (if text_eq (take 4 sig_block) sig_magic
        then check_hash file_len (drop 4 sig_block)
        else pure false)

  unfoldable pub verify_signature : Action ClfReader ClfError Bool
  verify_signature = do
    file_len ← on_reader (seek_back 0)
    if ltb file_len sig_block_len then pure false else read_signature file_len

  unfoldable pub verify_with_policy : VerificationPolicy → Action ClfReader ClfError Bool
  verify_with_policy integrity_only = verify_signature
  verify_with_policy require_authenticity = raise authenticity_verification_unsupported
