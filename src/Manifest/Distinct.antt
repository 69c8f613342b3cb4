-- ===== src/Manifest/Distinct.antt =====
-- The operation ids of a manifest that loads.
use clf.Prelude.{
  ℕ, false, ◌≡◌, refl, Bool-cases, inl, inr, List, [], ◌∷◌, Option, none, some, Result, ok, err,
  and_then,
}
use mathlib.Core.Path.{subst}
use clf.Utf8.{Text}
use clf.Packer.{Blob, contains, check_duplicates}
use clf.FileReader.{Disk}
use clf.Manifest.{
  TomlRoot, TomlBlob, PackManifestBlob, PackManifestResolved, resolve_blob, resolve_blobs,
  resolve_kind, no_entries, parse_toml, read_to_string, resolve, load_pack_manifest,
}
use clf.Cli.{open_blob}
use clf.Cli.Pack.{collect, load_blob}

-- `P` of the value, where there is one.
abbrev IfOk : {E A : Type 0} → (P : A → Type 0) → Result E A → Type 0
IfOk P (ok a) = P a
IfOk P (err e) = Unit

module _ {E A B : Type 0} where
  IfOk-and_then :
      (P : A → Type 0) (Q : B → Type 0) (r : Result E A) (f : A → Result E B)
      → IfOk P r
      → ((a : A) → P a → IfOk Q (f a))
      → IfOk Q (and_then r f)
  IfOk-and_then P Q (ok a) f h k = k a h
  IfOk-and_then P Q (err e) f h k = tt

module _ {E A : Type 0} where
  IfOk-any : (r : Result E A) → IfOk (λ _. Unit) r
  IfOk-any (ok a) = tt
  IfOk-any (err e) = tt

  IfOk-ok : (P : A → Type 0) (r : Result E A) (a : A) → IfOk P r → r ≡ ok a → P a
  IfOk-ok P r a h e = subst (IfOk P) e h

-- The operation ids of a manifest's rows are distinct, and none of them is in `seen`.
abbrev Fresh : List ℕ → List PackManifestBlob → Type 0
Fresh seen [] = Unit
Fresh seen (b ∷ bs) = (contains b.op_id seen ≡ false) × Fresh (b.op_id ∷ seen) bs

resolve_blobs-Fresh :
    (rows : List TomlBlob) (seen : List ℕ) → IfOk (Fresh seen) (resolve_blobs seen rows)
unfolding resolve_blobs
resolve_blobs-Fresh [] seen = tt
resolve_blobs-Fresh (b ∷ rest) seen = elim (Bool-cases (contains b.op_id seen)) [
  | inl twice ↦ rw twice tt
  | inr new ↦ rw new (
      IfOk-and_then (Fresh (b.op_id ∷ seen)) (Fresh seen) (resolve_blobs (b.op_id ∷ seen) rest)
        (λ blobs. ok (resolve_blob b ∷ blobs)) (resolve_blobs-Fresh rest (b.op_id ∷ seen))
        (λ blobs h. (new, h)))
]

resolve-Fresh : (root : TomlRoot) → IfOk (λ m. Fresh [] m.blobs) (resolve root)
unfolding resolve
resolve-Fresh root = elim (Bool-cases (no_entries root.blobs)) [
  | inl empty ↦ rw empty tt
  | inr some_rows ↦ rw some_rows (
      IfOk-and_then (Fresh []) (λ m. Fresh [] m.blobs) (resolve_blobs [] root.blobs) _
        (resolve_blobs-Fresh root.blobs [])
        (λ blobs h.
          IfOk-and_then (λ _. Unit) (λ m. Fresh [] m.blobs) (resolve_kind root.kind) _
            (IfOk-any (resolve_kind root.kind)) (λ kind _. h)))
]

load_pack_manifest-Fresh :
    (toml : Text → Option TomlRoot) (disk : Disk) (path : Text)
    → IfOk (λ m. Fresh [] m.blobs) (load_pack_manifest toml disk path)
unfolding load_pack_manifest
load_pack_manifest-Fresh toml disk path =
    IfOk-and_then (λ _. Unit) _ (read_to_string disk path) _ (IfOk-any (read_to_string disk path))
      (λ s _.
        IfOk-and_then (λ _. Unit) _ (parse_toml (toml s)) resolve (IfOk-any (parse_toml (toml s)))
          (λ root _. resolve-Fresh root))

load_blob-op_id :
    (disk : Disk) (b : PackManifestBlob) → IfOk (λ x. x.0 ≡ b.op_id) (load_blob disk b)
unfolding load_blob
load_blob-op_id disk b =
    elim (disk b.path)
      as (λ o.
        IfOk {A = Blob} (λ x. x.0 ≡ b.op_id)
          (elim o [ none ↦ err (open_blob b.path) | some bytes ↦ ok (b.op_id, bytes) ])) [
            | none ↦ tt
            | some bytes ↦ refl
          ]

Fresh-collect :
    (disk : Disk) (rows : List PackManifestBlob) (seen : List ℕ)
    → Fresh seen rows
    → IfOk (λ blobs. check_duplicates seen blobs ≡ ok tt) (collect (load_blob disk) rows)
unfolding collect load_blob check_duplicates
Fresh-collect disk [] seen f = refl
Fresh-collect disk (b ∷ rest) seen (new, f) =
    IfOk-and_then (λ x. x.0 ≡ b.op_id) _ (load_blob disk b) _ (load_blob-op_id disk b)
      (λ (op_id, blob) same.
        IfOk-and_then (λ blobs. check_duplicates (b.op_id ∷ seen) blobs ≡ ok tt) _
          (collect (load_blob disk) rest) _ (Fresh-collect disk rest (b.op_id ∷ seen) f)
          (λ blobs h. rw (same, new) h))

-- When `load_pack_manifest` accepts a manifest, the blobs read for its rows, from the same files or
-- later ones, pass the duplicate check of `pack_clf`.
pub load_pack_manifest-check_duplicates :
    (toml : Text → Option TomlRoot) (disk later : Disk) (path : Text) (m : PackManifestResolved)
    (blobs : List Blob)
    → load_pack_manifest toml disk path ≡ ok m
    → collect (load_blob later) m.blobs ≡ ok blobs
    → check_duplicates [] blobs ≡ ok tt
load_pack_manifest-check_duplicates toml disk later path m blobs loaded collected =
    IfOk-ok _ (collect (load_blob later) m.blobs) blobs
      (Fresh-collect later m.blobs [] (
        IfOk-ok (λ r. Fresh [] r.blobs) (load_pack_manifest toml disk path) m
          (load_pack_manifest-Fresh toml disk path) loaded))
      collected
