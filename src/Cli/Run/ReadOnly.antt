-- ===== src/Cli/Run/ReadOnly.antt =====
-- Which commands leave the files alone.
use clf.Prelude.{
  ◌≡◌, refl, arith, inl, inr, Option-cases, ◌∙◌, Bool, true, false, ◌||◌, List, [], ◌∷◌, Option,
  none, some, Result, ok, err,
}
use clf.Prelude.{continue, if◌then◌else◌}
use clf.Utf8.{Text}
use clf.Digest.{Sha256}
use clf.Format.{ManifestEntry}
use clf.Packer.{Blob, PackOptions}
use clf.Packer.Signature.{ShortReads}
use clf.Reader.{VerificationPolicy}
use clf.FileReader.{ClfReader}
use clf.Manifest.{TomlRoot, PackManifestBlob}
use clf.Sidecar.{SidecarDocument}
use clf.Cli.{World, Cli, InspectJson, CliError, Command, ok_or_raise, no_output}
use clf.Cli.Verify.{open_reader, verify_file}
use clf.Cli.Inspect.{check_reader, inspect_json, print_entries, print_reader, inspect_file}
use clf.Cli.Pack.{print_dry_run, resolve_input, load_blob, collect, options_of}
use clf.Cli.Run.{is_some, run_pack, run_inspect, run, chosen_policy}

verify_file-keeps :
    (sha : Sha256) (path : Text) (p : VerificationPolicy) (w : World)
    → (verify_file sha path p w).1.disk ≡ w.disk
unfolding verify_file
verify_file-keeps sha path p w = ground arith

check_reader-keeps :
    (sha : Sha256) (verify : Bool) (p : VerificationPolicy) (r : ClfReader) (w : World)
    → (check_reader sha verify p r w).1.disk ≡ w.disk
unfolding check_reader
check_reader-keeps sha verify p r w = ground arith

inspect_json-keeps :
    (to_json : InspectJson → Result Text Text) (path : Text) (r : ClfReader) (w : World)
    → (inspect_json to_json path r w).1.disk ≡ w.disk
unfolding inspect_json
inspect_json-keeps to_json path r w = ground arith

print_entries-keeps : (es : List ManifestEntry) (w : World) → (print_entries es w).1.disk ≡ w.disk
unfolding print_entries
print_entries-keeps [] w = refl
print_entries-keeps (e ∷ es) w = print_entries-keeps es _

print_reader-keeps :
    (path : Text) (r : ClfReader) (w : World) → (print_reader path r w).1.disk ≡ w.disk
unfolding print_reader
print_reader-keeps path r w = print_entries-keeps _ _

print_dry_run-keeps :
    (path : Text) (blobs : List Blob) (o : PackOptions) (from : Bool) (rows : List PackManifestBlob)
    (w : World)
    → (print_dry_run path blobs o from rows w).1.disk ≡ w.disk
unfolding print_dry_run
print_dry_run-keeps path blobs o from rows w = ground arith

-- What follows a result keeps the files, if it does so for every value.
ok_or_raise-keeps :
    {A : Type 0} (e : CliError) (o : Option A) (w : World) → (ok_or_raise e o w).1.disk ≡ w.disk
ok_or_raise-keeps e none w = refl
ok_or_raise-keeps e (some a) w = refl

continue-keeps :
    {A B : Type 0} (r : Result CliError A) (f : A → Command B) (w : World)
    → ((a : A) (v : World) → (f a v).1.disk ≡ v.disk)
    → (continue r f w).1.disk ≡ w.disk
continue-keeps (ok a) f w h = h a w
continue-keeps (err e) f w h = refl

show_reader-keeps :
    (to_json : InspectJson → Result Text Text) (path : Text) (json : Bool) (r : ClfReader)
    (w : World)
    → ((if json then inspect_json to_json path r else print_reader path r) w).1.disk ≡ w.disk
show_reader-keeps to_json path true r w = inspect_json-keeps to_json path r w
show_reader-keeps to_json path false r w = print_reader-keeps path r w

inspect_file-keeps :
    (sha : Sha256) (to_json : InspectJson → Result Text Text) (path : Text) (verify json : Bool)
    (p : VerificationPolicy) (w : World)
    → (inspect_file sha to_json path verify json p w).1.disk ≡ w.disk
unfolding inspect_file
inspect_file-keeps sha to_json path verify json p w =
    continue-keeps (open_reader path w).0 _ w (λ opened v.
      continue-keeps (check_reader sha verify p opened v).0 _ _
        (show_reader-keeps to_json path json)
      ∙ check_reader-keeps sha verify p opened v)

module _ (sha : Sha256) (short : ShortReads) (toml : Text → Option TomlRoot)
    (inspect_to_json : InspectJson → Result Text Text)
    (sidecar_to_json : SidecarDocument → Result Text Text) (version : Text) where
  run_pack-keeps :
      (cli : Cli) (w : World)
      → cli.dry_run ≡ true
      → (run_pack sha short toml inspect_to_json sidecar_to_json version cli w).1.disk ≡ w.disk
  unfolding run_pack options_of load_blob collect resolve_input
  run_pack-keeps cli w dry = rw dry (
      continue-keeps (ok_or_raise no_output cli.output w).0 _ _ (λ path v.
        continue-keeps (resolve_input toml cli v.disk) _ _ (λ (m, from) v'.
          continue-keeps (collect (load_blob v.disk) m.blobs) _ _
            (λ blobs. print_dry_run-keeps path blobs (options_of cli m) from m.blobs)))
      ∙ ok_or_raise-keeps no_output cli.output w)

  run_inspect-keeps :
      (cli : Cli) (path : Text) (w : World)
      → (run_inspect sha short toml inspect_to_json sidecar_to_json version cli path w).1.disk
        ≡ w.disk
  unfolding run_inspect
  run_inspect-keeps cli path w =
      let shown =
        inspect_file-keeps sha inspect_to_json path cli.verify_signature cli.json
          (chosen_policy cli.verify_policy) w in
      ground (arith, shown)

  -- With `--verify`, `--inspect` or `--dry-run`, whatever the other flags are and whether it succeeds
  -- or fails, the program leaves every file as it was.
  pub run-disk :
      (cli : Cli) (w : World)
      → (is_some cli.verify || (is_some cli.inspect || cli.dry_run)) ≡ true
      → (run sha short toml inspect_to_json sidecar_to_json version cli w).1.disk ≡ w.disk
  unfolding run run_inspect
  run-disk cli w h = elim (Option-cases cli.verify) [
    | inr (path, e) ↦ rw e (verify_file-keeps sha path _ w)
    | inl no_verify ↦ elim (Option-cases cli.inspect) [
      | inr (path, e) ↦ rw (no_verify, e) (run_inspect-keeps cli path w)
      | inl no_inspect ↦
          let packed = run_pack-keeps cli w (ground (arith, h, no_verify, no_inspect)) in
          rw (no_verify, no_inspect) (ground (arith, packed))
    ]
  ]
