-- ===== src/Cli/Pack.antt =====
-- src/bin/coelanox-packer.rs: the steps of `run` that pack an archive.
use clf.Prelude.{
  ℕ, ◌+◌, ◌/◌, ◌%◌, Bool, true, false, List, [], ◌∷◌, ◌++◌, length, Option, none, some,
}
use clf.Prelude.{ltb, ◌==◌, Result, ok, err, and_then, map_err, Action}
use clf.Prelude.{pure, ◌>>=◌, ◌>>◌, if◌then◌else◌}
use clf.Utf8.{Text, text}
use clf.Digest.{Sha256, digest}
use clf.Format.{compute, clf_version}
use clf.Packer.{PackError, PackOptions, Blob, pack_clf}
use clf.Packer.Argument.{parse_op_blob_arg}
use clf.Packer.Signature.{ShortReads, append_signature}
use clf.FileReader.{Disk, add_u64}
use clf.Manifest.{TomlRoot, PackManifestBlob, PackManifestResolved, load_pack_manifest, unwrap_or}
use clf.Sidecar.{SidecarBlob, SidecarDocument, new_document, put_file, write_sidecar_json}
use clf.Stream.{Stream}
use clf.Cli.{Cli, CliError, Command, print, nothing}
use clf.Cli.{wrote_sidecar_line, dry_run_line, dry_run_manifest_line}
use clf.Cli.{pack, argument, manifest_file, json_failed, no_input, open_blob, missing_blob}

unfoldable pub parse_entry : Text → Result CliError PackManifestBlob
parse_entry arg =
    and_then (map_err argument (parse_op_blob_arg arg))
      (λ (op_id, path). ok (record { op_id = op_id; path = path; symbol = none; notes = none }))

-- `iter().map(...).collect::<Result<Vec<_>, _>>()`
unfoldable pub collect :
    {A B : Type 0} → (A → Result CliError B) → List A → Result CliError (List B)
collect f [] = ok []
collect f (a ∷ as') = and_then (f a) (λ b. and_then (collect f as') (λ bs. ok (b ∷ bs)))

-- The manifest of a command line, which has no other settings than its flags.
unfoldable pub from_entries : List Text → Result CliError PackManifestResolved
unfolding collect parse_entry
from_entries [] = err no_input
from_entries (arg ∷ args) = and_then (collect parse_entry (arg ∷ args)) (λ blobs.
    ok
      (record { vendor = []; target = []; kind = compute; align = 0; sign = false; blobs = blobs }))

-- The manifest, and whether it is that of `--from-manifest`.
unfoldable pub resolve_input :
    (toml : Text → Option TomlRoot) → Cli → Disk → Result CliError (PackManifestResolved × Bool)
resolve_input toml cli disk = elim cli.from_manifest [
  | some path ↦
      and_then (map_err manifest_file (load_pack_manifest toml disk path)) (λ m. ok (m, true))
  | none ↦ and_then (from_entries cli.entries) (λ m. ok (m, false))
]

unfoldable pub load_blob : Disk → PackManifestBlob → Result CliError Blob
load_blob disk b = elim (disk b.path) [
  | none ↦ err (open_blob b.path)
  | some bytes ↦ ok (b.op_id, bytes)
]

unfoldable pub options_of : Cli → PackManifestResolved → PackOptions
options_of cli resolved = record {
  vendor = unwrap_or cli.vendor resolved.vendor;
  target = unwrap_or cli.target resolved.target;
  blob_alignment = unwrap_or cli.align resolved.align;
  kind = unwrap_or cli.kind resolved.kind;
  version = clf_version;
  sign = if cli.sign then true else resolved.sign;
}

abbrev pub raw_bytes : List Blob → ℕ
raw_bytes [] = 0
raw_bytes ((op_id, blob) ∷ rest) = add_u64 (length blob) (raw_bytes rest)

abbrev pub hex_digit : ℕ → ℕ
hex_digit d = if ltb d 10 then 48 + d else 87 + d

abbrev pub hex : List ℕ → Text
hex [] = []
hex (b ∷ bs) = hex_digit (b / 16) ∷ (hex_digit (b % 16) ∷ hex bs)

unfoldable pub sha256_hex : Sha256 → List ℕ → Text
sha256_hex sha blob = hex (digest sha blob)

abbrev pub sidecar_path : Text → Text
sidecar_path output = output ++ text ".meta.json"

-- `get` in the `HashMap` collected from the blobs: the last of an id.
unfoldable pub blob_of_id : ℕ → List Blob → Option (List ℕ)
blob_of_id op_id [] = none
blob_of_id op_id ((id, blob) ∷ rest) = elim (blob_of_id op_id rest) [
  | some later ↦ some later
  | none ↦ if id == op_id then some blob else none
]

unfoldable pub sidecar_blob : Sha256 → List Blob → PackManifestBlob → Result CliError SidecarBlob
unfolding blob_of_id sha256_hex
sidecar_blob sha blobs b = elim (blob_of_id b.op_id blobs) [
  | none ↦ err missing_blob
  | some blob ↦ ok (record {
    op_id = b.op_id;
    path = b.path;
    sha256_hex = sha256_hex sha blob;
    symbol = b.symbol;
    notes = b.notes;
  })
]

-- The rows of the sidecar, if one is asked for.
unfoldable pub sidecar_rows :
    Sha256 → Bool → List Blob → List PackManifestBlob → Result CliError (List SidecarBlob)
sidecar_rows sha write_sidecar blobs rows =
    if write_sidecar then collect (sidecar_blob sha blobs) rows else ok []

-- What is done to the open output.
unfoldable pub write_archive :
    Sha256 → ShortReads → List Blob → PackOptions → Action Stream PackError ℕ
write_archive sha short blobs options = do
  data_len ← pack_clf blobs options
  if options.sign then append_signature sha short data_len else pure tt
  pure data_len

-- The output is created empty, or emptied; it keeps what is written to it before an error.
unfoldable pub on_output : {A : Type 0} → Text → Action Stream PackError A → Command A
on_output path m w =
    let (r, s) = m (record { bytes = []; pos = 0 }) in
    (map_err pack r, record w { disk = put_file w.disk path s.bytes })

unfoldable pub save_sidecar :
    (to_json : SidecarDocument → Result Text Text) (version output_path : Text)
    → List SidecarBlob
    → Command (Unit {0})
save_sidecar to_json version output_path rows = do
  let side = sidecar_path output_path
  (λ w.
      let (r, disk) =
        write_sidecar_json to_json side (new_document version output_path rows) w.disk in
      (map_err json_failed r, record w { disk = disk }))
  print (wrote_sidecar_line side)

-- `--dry-run`: the summary
unfoldable pub print_dry_run :
    Text
    → List Blob
    → PackOptions
    → (from_manifest : Bool) → List PackManifestBlob
    → Command (Unit {0})
print_dry_run output_path blobs options from_manifest rows = do
  print (
      dry_run_line output_path (length blobs) (raw_bytes blobs) options.blob_alignment options.sign)
  if from_manifest then print (dry_run_manifest_line (length rows)) else nothing
