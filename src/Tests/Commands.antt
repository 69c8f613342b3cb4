-- ===== src/Tests/Commands.antt =====
-- The command line at concrete inputs.
use clf.Prelude.{◌≡◌, refl, true, false, [], ◌∷◌, Option, none, some, Result, ok, arith}
use clf.Utf8.{Text, text}
use clf.Packer.Argument.{parse_op_blob_arg}
use clf.Packer.Argument.Spelling.{parse_op_blob_arg-decimal}
use clf.Manifest.{TomlRoot}
use clf.Sidecar.{SidecarDocument}
use clf.Cli.{Cli, World, InspectJson}
use clf.Cli.Run.{run}
use clf.Cli.Run.ReadOnly.{run-disk}
use clf.Utf8.{is_utf8}
use clf.Packer.{contains, check_duplicates}
use clf.Reader.{integrity_only}
use clf.Manifest.{
  PackManifestResolved, load_pack_manifest, read_to_string, resolve, resolve_blobs, resolve_kind,
}
use clf.Manifest.Distinct.{load_pack_manifest-check_duplicates}
use clf.Format.{compute}
use clf.Cli.Pack.{on_output, write_archive, collect, load_blob}
use clf.Cli.Verify.{verify_file}
use clf.Cli.Signed.{write_archive-verify_file}
use clf.Tests.Samples.{checksum, single, sample, options, sample-IsPackable}

parse_op_blob_arg-decimal_example : parse_op_blob_arg (text "50:c:/b") ≡ ok (50, text "c:/b")
parse_op_blob_arg-decimal_example =
    parse_op_blob_arg-decimal 53 (48 ∷ []) 99 (text ":/b") (omega arith)

abbrev toml : Text → Option TomlRoot
toml s = none

abbrev inspect_to_json : InspectJson → Result Text Text
inspect_to_json d = ok []

abbrev sidecar_to_json : SidecarDocument → Result Text Text
sidecar_to_json d = ok []

abbrev command : Cli
command = record {
  inspect = none;
  verify = none;
  verify_policy = none;
  verify_signature = false;
  json = false;
  output = some (text "o");
  from_manifest = none;
  dry_run = true;
  write_sidecar = true;
  vendor = none;
  target = none;
  kind = none;
  align = some 16;
  sign = true;
  entries = text "1:a" ∷ (text "1:a" ∷ []);
}

abbrev world : World
world = record { disk = λ path. some (1 ∷ (2 ∷ [])); printed = [] }

run-disk_example :
    (run checksum single toml inspect_to_json sidecar_to_json (text "1") command world).1.disk
    ≡ world.disk
run-disk_example =
    run-disk checksum single toml inspect_to_json sidecar_to_json (text "1") command world refl

write_archive-verify_file_example :
    (verify_file checksum
      (text "o")
      integrity_only
      (on_output (text "o") (write_archive checksum single sample options) world).1).0
    ≡ ok tt
write_archive-verify_file_example =
    write_archive-verify_file checksum single sample options (text "o") world sample-IsPackable refl

abbrev two_rows : Text → Option TomlRoot
two_rows s = some (record {
  vendor = none;
  target = none;
  kind = none;
  align = some 16;
  sign = none;
  blobs =
      record { op_id = 7; path = text "a"; symbol = none; notes = none }
      ∷ (record { op_id = 5; path = text "b"; symbol = none; notes = none } ∷ []);
})

abbrev two_blobs : PackManifestResolved
two_blobs = record {
  vendor = [];
  target = [];
  kind = compute;
  align = 16;
  sign = false;
  blobs =
      record { op_id = 7; path = text "a"; symbol = none; notes = none }
      ∷ (record { op_id = 5; path = text "b"; symbol = none; notes = none } ∷ []);
}

two_rows-two_blobs : load_pack_manifest two_rows world.disk (text "m") ≡ ok two_blobs
unfolding load_pack_manifest read_to_string resolve resolve_blobs resolve_kind contains is_utf8
two_rows-two_blobs = refl

two_blobs-collect :
    collect (load_blob world.disk) two_blobs.blobs
    ≡ ok ((7, 1 ∷ (2 ∷ [])) ∷ ((5, 1 ∷ (2 ∷ [])) ∷ []))
unfolding collect load_blob
two_blobs-collect = refl

load_pack_manifest-check_duplicates_example :
    check_duplicates [] ((7, 1 ∷ (2 ∷ [])) ∷ ((5, 1 ∷ (2 ∷ [])) ∷ [])) ≡ ok tt
load_pack_manifest-check_duplicates_example =
    load_pack_manifest-check_duplicates two_rows world.disk world.disk (text "m") two_blobs
      ((7, 1 ∷ (2 ∷ [])) ∷ ((5, 1 ∷ (2 ∷ [])) ∷ [])) two_rows-two_blobs two_blobs-collect
