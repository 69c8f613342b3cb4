-- ===== src/Cli.antt =====
-- src/bin/coelanox-packer.rs: the command line. Its flags are parsed by the crate `clap`, whose rules
-- on which flags go together are not assumed; TOML and JSON are those of `toml` and `serde_json`.
pub mod Verify
pub mod Inspect
pub mod Pack
pub mod Run
pub mod Signed
use clf.Prelude.{ℕ, Bool, List, ◌∷◌, Option, none, some, ok, Action, pure, raise}
use clf.Utf8.{Text}
use clf.Format.{ClfKind, ManifestEntry}
use clf.Packer.{PackError}
use clf.Packer.Argument.{ArgumentError}
use clf.Reader.{ClfError, VerificationPolicy, integrity_only, require_authenticity}
use clf.FileReader.{Disk}
use clf.Manifest.{ManifestError}

pub data VerifyPolicyArg : Type 0 where
  integrity_only_arg require_authenticity_arg : VerifyPolicyArg

-- `From<VerifyPolicyArg>`
unfoldable pub policy_of : VerifyPolicyArg → VerificationPolicy
policy_of integrity_only_arg = integrity_only
policy_of require_authenticity_arg = require_authenticity

pub record Cli : Type 0 where
  pub inspect : Option Text
  pub verify : Option Text
  pub verify_policy : Option VerifyPolicyArg
  pub verify_signature : Bool
  pub json : Bool
  pub output : Option Text
  pub from_manifest : Option Text
  pub dry_run : Bool
  pub write_sidecar : Bool
  pub vendor : Option Text
  pub target : Option Text
  pub kind : Option ClfKind
  pub align : Option ℕ
  pub sign : Bool
  pub entries : List Text

pub record InspectJson : Type 0 where
  pub file : Text
  pub format_version : ℕ
  pub kind : Text
  pub kind_extension : Text
  pub vendor : Text
  pub target : Text
  pub blob_alignment : ℕ
  pub blob_store_offset : ℕ
  pub blob_store_len : ℕ
  pub signature_block_present : Bool
  pub manifest : List ManifestEntry

-- What a `println!` or `eprintln!` prints, by its arguments.
pub data Line : Type 0 where
  verify_ok_line wrote_sidecar_line file_line : Text → Line
  dry_run_line : (path : Text) (blobs raw_bytes align : ℕ) (sign : Bool) → Line
  dry_run_manifest_line : ℕ → Line
  wrote_line : Text → ℕ → Line
  version_line alignment_line manifest_line : ℕ → Line
  kind_line : (name extension : Text) → Line
  vendor_line target_line : Option Text → Line
  blob_store_line : (offset len : ℕ) → Line
  signature_line : Bool → Line
  columns_line : Line
  entry_line : ManifestEntry → Line
  json_line : Text → Line

pub data CliError : Type 0 where
  clf_error : ClfError → CliError
  pack : PackError → CliError
  argument : ArgumentError → CliError
  manifest_file : ManifestError → CliError
  json_failed : Text → CliError
  policy_without_verification no_output no_input : CliError
  open_blob : Text → CliError
  missing_blob : CliError
  no_signature_block invalid_signature_block : CliError
  verify_failed : ClfError → CliError
  signature_missing : CliError
  signature_failed : ClfError → CliError

-- The files, and what was printed, the last line first.
pub record World : Type 0 where
  pub disk : Disk
  pub printed : List Line

abbrev pub Command : Type 0 → Type 0
Command A = Action World CliError A

abbrev pub files : Command Disk
files w = (ok w.disk, w)

abbrev pub print : Line → Command (Unit {0})
print line w = (ok tt, record w { printed = line ∷ w.printed })

abbrev pub nothing : Command (Unit {0})
nothing = pure tt

abbrev pub ok_or_raise : {A : Type 0} → CliError → Option A → Command A
ok_or_raise e none = raise e
ok_or_raise e (some a) = pure a
