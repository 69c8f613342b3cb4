-- ===== src/Cli/Inspect.antt =====
-- src/bin/coelanox-packer.rs: `inspect_file` and `inspect_json`.
use clf.Prelude.{Bool, true, false, List, [], ◌∷◌, length, none, some, Option}
use clf.Prelude.{Result, ok, err, map_err, lift, raise, ◌>>=◌, ◌>>◌, if◌then◌else◌}
use clf.Utf8.{Text}
use clf.Digest.{Sha256}
use clf.Format.{ManifestEntry, display, extension}
use clf.Packer.{is_empty}
use clf.Reader.{ClfError, VerificationPolicy}
use clf.FileReader.{ClfReader}
use clf.FileReader.Verify.{verify_with_policy}
use clf.FileReader.Section.{manifest_entries}
use clf.Cli.{Command, InspectJson, print, nothing}
use clf.Cli.{
  file_line, version_line, kind_line, vendor_line, target_line, alignment_line, blob_store_line,
  signature_line, manifest_line, columns_line, entry_line, json_line,
}
use clf.Cli.{json_failed, signature_missing, signature_failed}
use clf.Cli.Verify.{open_reader}

abbrev pub accepted : Result ClfError Bool → Command (Unit {0})
accepted (ok true) = nothing
accepted (ok false) = raise signature_missing
accepted (err e) = raise (signature_failed e)

-- The reader after the verification, when there is one.
unfoldable pub check_reader : Sha256 → Bool → VerificationPolicy → ClfReader → Command ClfReader
check_reader sha verify policy reader =
    if verify
    then (let (answer, reader') = verify_with_policy sha policy reader in
        accepted answer >> lift (ok reader'))
    else lift (ok reader)

-- What `serde_json` is given.
unfoldable pub inspect_document : Text → ClfReader → InspectJson
inspect_document path reader = record {
  file = path;
  format_version = reader.header.version;
  kind = display reader.header.kind;
  kind_extension = extension reader.header.kind;
  vendor = reader.header.vendor;
  target = reader.header.target;
  blob_alignment = reader.header.blob_alignment;
  blob_store_offset = reader.blob_store_offset;
  blob_store_len = reader.blob_store_len;
  signature_block_present = reader.signature_block_present;
  manifest = manifest_entries reader;
}

unfoldable pub inspect_json :
    (to_json : InspectJson → Result Text Text) → Text → ClfReader → Command (Unit {0})
inspect_json to_json path reader = do
  json ← lift (map_err json_failed (to_json (inspect_document path reader)))
  print (json_line json)

-- A text, or `(empty)`.
abbrev pub shown : Text → Option Text
shown s = if is_empty s then none else some s

unfoldable pub print_entries : List ManifestEntry → Command (Unit {0})
print_entries [] = nothing
print_entries (e ∷ es) = print (entry_line e) >> print_entries es

unfoldable pub print_reader : Text → ClfReader → Command (Unit {0})
print_reader path reader = do
  let h = reader.header
  print (file_line path)
  print (version_line h.version)
  print (kind_line (display h.kind) (extension h.kind))
  print (vendor_line (shown h.vendor))
  print (target_line (shown h.target))
  print (alignment_line h.blob_alignment)
  print (blob_store_line reader.blob_store_offset reader.blob_store_len)
  print (signature_line reader.signature_block_present)
  let entries = manifest_entries reader
  print (manifest_line (length entries))
  print columns_line
  print_entries entries

unfoldable pub inspect_file :
    (sha : Sha256) (to_json : InspectJson → Result Text Text) (path : Text) (verify json : Bool)
    → VerificationPolicy
    → Command (Unit {0})
inspect_file sha to_json path verify json policy = do
  opened ← open_reader path
  reader ← check_reader sha verify policy opened
  if json then inspect_json to_json path reader else print_reader path reader
