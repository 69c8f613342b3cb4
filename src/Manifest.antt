-- ===== src/Manifest.antt =====
-- src/manifest_file.rs: `load_pack_manifest`. The parser of TOML is that of the crate `toml`.
pub mod Distinct
use clf.Prelude.{ℕ, Bool, true, false, List, [], ◌∷◌, Option, none, some, Result, ok, err}
use clf.Prelude.{and_then, map_err, if◌then◌else◌}
use clf.Utf8.{Text, is_utf8}
use clf.Format.{ClfKind, compute, from_str}
use clf.Packer.{contains}
use clf.FileReader.{Disk}

pub record TomlBlob : Type 0 where
  pub op_id : ℕ
  pub path : Text
  pub symbol : Option Text
  pub notes : Option Text

pub record TomlRoot : Type 0 where
  pub vendor : Option Text
  pub target : Option Text
  pub kind : Option Text
  pub align : Option ℕ
  pub sign : Option Bool
  pub blobs : List TomlBlob

pub record PackManifestBlob : Type 0 where
  pub op_id : ℕ
  pub path : Text
  pub symbol : Option Text
  pub notes : Option Text

pub record PackManifestResolved : Type 0 where
  pub vendor : Text
  pub target : Text
  pub kind : ClfKind
  pub align : ℕ
  pub sign : Bool
  pub blobs : List PackManifestBlob

-- The messages, with what they quote.
pub data ManifestError : Type 0 where
  unreadable : Text → ManifestError
  toml_parse no_blobs : ManifestError
  duplicate_in_manifest : ℕ → ManifestError
  unknown_kind : Text → ManifestError

-- `fs::read_to_string`
unfoldable pub read_to_string : Disk → Text → Result ManifestError Text
read_to_string disk path = elim (disk path) [
  | none ↦ err (unreadable path)
  | some bytes ↦ if is_utf8 bytes then ok bytes else err (unreadable path)
]

abbrev pub parse_toml : Option TomlRoot → Result ManifestError TomlRoot
parse_toml none = err toml_parse
parse_toml (some root) = ok root

abbrev pub resolve_blob : TomlBlob → PackManifestBlob
resolve_blob b = record { op_id = b.op_id; path = b.path; symbol = b.symbol; notes = b.notes }

-- The loop over the entries, with the set `seen`.
unfoldable pub resolve_blobs : List ℕ → List TomlBlob → Result ManifestError (List PackManifestBlob)
resolve_blobs seen [] = ok []
resolve_blobs seen (b ∷ rest) =
    if contains b.op_id seen
    then err (duplicate_in_manifest b.op_id)
    else and_then (resolve_blobs (b.op_id ∷ seen) rest) (λ blobs. ok (resolve_blob b ∷ blobs))

unfoldable pub resolve_kind : Option Text → Result ManifestError ClfKind
resolve_kind none = ok compute
resolve_kind (some s) = map_err unknown_kind (from_str s)

abbrev pub unwrap_or {ℓ} : {A : Type ℓ} → Option A → A → A
unwrap_or none a = a
unwrap_or (some x) a = x

abbrev pub no_entries : List TomlBlob → Bool
no_entries [] = true
no_entries (b ∷ bs) = false

-- What is checked and filled in, once the text is parsed.
unfoldable pub resolve : TomlRoot → Result ManifestError PackManifestResolved
unfolding resolve_blobs resolve_kind
resolve root =
    if no_entries root.blobs
    then err no_blobs
    else and_then (resolve_blobs [] root.blobs) (λ blobs. and_then (resolve_kind root.kind) (λ kind.
      ok (record {
        vendor = unwrap_or root.vendor [];
        target = unwrap_or root.target [];
        kind = kind;
        align = unwrap_or root.align 0;
        sign = unwrap_or root.sign false;
        blobs = blobs;
      })))

unfoldable pub load_pack_manifest :
    (toml : Text → Option TomlRoot) → Disk → Text → Result ManifestError PackManifestResolved
unfolding read_to_string resolve
load_pack_manifest toml disk path =
    and_then (read_to_string disk path) (λ s. and_then (parse_toml (toml s)) resolve)
