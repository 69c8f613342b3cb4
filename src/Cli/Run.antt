-- ===== src/Cli/Run.antt =====
-- src/bin/coelanox-packer.rs: `run`, on the flags that `clap` parsed.
pub mod ReadOnly
use clf.Prelude.{◌+◌, Bool, true, false, ◌&&◌, not, List, Option, none, some, Result, ok, err}
use clf.Prelude.{lift, raise, ◌>>=◌, ◌>>◌, if◌then◌else◌}
use clf.Utf8.{Text}
use clf.Digest.{Sha256}
use clf.Format.{sig_block_len}
use clf.Packer.{Blob, PackOptions}
use clf.Packer.Signature.{ShortReads}
use clf.Reader.{VerificationPolicy, integrity_only}
use clf.FileReader.{add_u64}
use clf.Manifest.{TomlRoot, PackManifestBlob}
use clf.Sidecar.{SidecarDocument}
use clf.Cli.{World, Cli, VerifyPolicyArg, policy_of, InspectJson, CliError, Command, files, print}
use clf.Cli.{nothing, ok_or_raise, wrote_line, policy_without_verification, no_output}
use clf.Cli.Verify.{verify_file}
use clf.Cli.Inspect.{inspect_file}
use clf.Cli.Pack.{
  resolve_input, options_of, collect, load_blob, sidecar_rows, on_output, write_archive,
  save_sidecar, print_dry_run,
}

abbrev pub is_some : {A : Type 0} → Option A → Bool
is_some none = false
is_some (some a) = true

unfoldable pub chosen_policy : Option VerifyPolicyArg → VerificationPolicy
unfolding policy_of
chosen_policy none = integrity_only
chosen_policy (some arg) = policy_of arg

module _ (sha : Sha256) (short : ShortReads) (toml : Text → Option TomlRoot)
    (inspect_to_json : InspectJson → Result Text Text)
    (sidecar_to_json : SidecarDocument → Result Text Text) (version : Text) where
  -- From the opening of the output on.
  unfoldable pub write_output :
      Cli → Text → List Blob → PackOptions → List PackManifestBlob → Command (Unit {0})
  write_output cli output_path blobs options rows = do
    sidecar_blobs ← lift (sidecar_rows sha cli.write_sidecar blobs rows)
    data_len ← on_output output_path (write_archive sha short blobs options)
    print (wrote_line output_path (add_u64 data_len (if options.sign then sig_block_len else 0)))
    (if cli.write_sidecar
        then save_sidecar sidecar_to_json version output_path sidecar_blobs
        else nothing)

  unfoldable pub run_pack : Cli → Command (Unit {0})
  run_pack cli = do
    output_path ← ok_or_raise no_output cli.output
    disk ← files
    (resolved, from_manifest) ← lift (resolve_input toml cli disk)
    blobs ← lift (collect (load_blob disk) resolved.blobs)
    let options = options_of cli resolved
    (if cli.dry_run
        then print_dry_run output_path blobs options from_manifest resolved.blobs
        else write_output cli output_path blobs options resolved.blobs)

  unfoldable pub run_inspect : Cli → Text → Command (Unit {0})
  run_inspect cli path =
      if is_some cli.verify_policy && not cli.verify_signature
      then raise policy_without_verification
      else inspect_file sha inspect_to_json path cli.verify_signature cli.json
          (chosen_policy cli.verify_policy)

  unfoldable pub run : Cli → Command (Unit {0})
  run cli = elim cli.verify [
    | some path ↦ verify_file sha path (chosen_policy cli.verify_policy)
    | none ↦ elim cli.inspect [
      | some path ↦ run_inspect cli path
      | none ↦ if is_some cli.verify_policy then raise policy_without_verification else run_pack cli
    ]
  ]
