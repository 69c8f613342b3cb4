-- ===== src/Cli/Verify.antt =====
-- src/bin/coelanox-packer.rs: `verify_file`.
use clf.Prelude.{Bool, true, false, Result, ok, err, map_err, lift, raise, ◌>>=◌, if◌then◌else◌}
use clf.Utf8.{Text}
use clf.Digest.{Sha256}
use clf.Reader.{ClfError, VerificationPolicy}
use clf.FileReader.{ClfReader, open_file}
use clf.FileReader.Verify.{verify_with_policy}
use clf.Cli.{Command, files, print, verify_ok_line}
use clf.Cli.{clf_error, no_signature_block, invalid_signature_block, verify_failed}

-- `ClfReader::open`
abbrev pub open_reader : Text → Command ClfReader
open_reader path = do disk ← files; lift (map_err clf_error (open_file disk path))

abbrev pub verified : Text → Result ClfError Bool → Command (Unit {0})
verified path (ok true) = print (verify_ok_line path)
verified path (ok false) = raise invalid_signature_block
verified path (err e) = raise (verify_failed e)

unfoldable pub verify_file : Sha256 → Text → VerificationPolicy → Command (Unit {0})
verify_file sha path policy = do
  reader ← open_reader path
  (if reader.signature_block_present
      then verified path (verify_with_policy sha policy reader).0
      else raise no_signature_block)
