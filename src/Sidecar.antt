-- ===== src/Sidecar.antt =====
-- src/sidecar.rs: the document beside an archive. Its JSON is printed by the crate `serde_json`.
use clf.Prelude.{ℕ, List, Option, Action, ok, err, if◌then◌else◌, some, Result}
use clf.Utf8.{Text, text}
use clf.Format.{text_eq}
use clf.FileReader.{Disk}

pub record SidecarBlob : Type 0 where
  pub op_id : ℕ
  pub path : Text
  pub sha256_hex : Text
  pub symbol : Option Text
  pub notes : Option Text

pub record SidecarDocument : Type 0 where
  pub schema : Text
  pub clf_crate_version : Text
  pub output : Text
  pub blobs : List SidecarBlob

-- `SidecarDocument::new`, for the crate's version
unfoldable pub new_document : (version output_display : Text) → List SidecarBlob → SidecarDocument
new_document version output_display blobs = record {
  schema = text "clf.sidecar.v1";
  clf_crate_version = version;
  output = output_display;
  blobs = blobs;
}

-- A file is created or replaced.
unfoldable pub put_file : Disk → Text → List ℕ → Disk
put_file disk path bytes p = if text_eq p path then some bytes else disk p

-- `write_sidecar_json`, for `serde_json::to_string_pretty`
unfoldable pub write_sidecar_json :
    {E : Type 0} (to_json : SidecarDocument → Result E Text)
    → Text
    → SidecarDocument
    → Action Disk E (Unit {0})
unfolding put_file
write_sidecar_json to_json path doc disk = elim (to_json doc) [
  | ok json ↦ (ok tt, put_file disk path json)
  | err e ↦ (err e, disk)
]
