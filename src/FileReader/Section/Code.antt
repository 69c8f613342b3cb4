-- ===== src/FileReader/Section/Code.antt =====
-- The code section that is built from a packed file.
use mathlib.Core.Option
use clf.Prelude.{
  ℕ, ◌≡◌, refl, sym, ap, ◌∙◌, List, [], ◌∷◌, ◌++◌, append_assoc, append-nil, Option, none, some, ok,
  err, All,
}
use clf.Prelude.{Option-cases, inl, inr}
use clf.Packer.{Blob}
use clf.Packer.Layout.{stored}
use clf.Reader.{fail, skip, missing_op_id, MissingOpIdPolicy}
use clf.Reader.Table.{blob_of}
use clf.FileReader.{ClfReader, get_blob}
use clf.FileReader.Serving.{Holds, get_blob-Holds}
use clf.FileReader.Section.{append_blob, build_loop, build_code_section}

-- The stored blobs of the ids that were packed, in the order of the ids.
abbrev pub or_nothing : Option (List ℕ) → List ℕ
or_nothing none = []
or_nothing (some blob) = blob

unfoldable pub code_of : ℕ → List Blob → List ℕ → List ℕ
code_of a entries [] = []
code_of a entries (k ∷ ks) =
    or_nothing (Option.map (stored a) (blob_of k entries)) ++ code_of a entries ks

-- The blobs have the id.
abbrev pub IsPacked : List Blob → ℕ → Type 0
IsPacked entries k = (blob : List ℕ) × (blob_of k entries ≡ some blob)

-- One round of the loop, on a packed id, and on another.
module _ {a : ℕ} {entries : List Blob} {r : ClfReader} (h : Holds a entries r) where
  round_packed :
      (policy : MissingOpIdPolicy) (out : List ℕ) (k : ℕ) (ks : List ℕ) (blob : List ℕ)
      → blob_of k entries ≡ some blob
      → build_loop policy out (k ∷ ks) r
        ≡ build_loop policy (out ++ stored a blob) ks (get_blob k r).1
  unfolding build_loop append_blob
  round_packed policy out k ks blob found = rw ((get_blob-Holds h k).0, found)

  round_skip :
      (out : List ℕ) (k : ℕ) (ks : List ℕ)
      → blob_of k entries ≡ none
      → build_loop skip out (k ∷ ks) r ≡ build_loop skip out ks (get_blob k r).1
  unfolding build_loop append_blob
  round_skip out k ks missing = rw ((get_blob-Holds h k).0, missing)

  round_fail :
      (out : List ℕ) (k : ℕ) (ks : List ℕ)
      → blob_of k entries ≡ none
      → (build_loop fail out (k ∷ ks) r).0 ≡ err (missing_op_id k)
  unfolding build_loop append_blob
  round_fail out k ks missing = rw ((get_blob-Holds h k).0, missing)

build_skip :
    {a : ℕ} {entries : List Blob} {r : ClfReader} (out ks : List ℕ)
    → Holds a entries r
    → (build_loop skip out ks r).0 ≡ ok (out ++ code_of a entries ks)
unfolding code_of
build_skip out [] h = unfold build_loop in ap ok (sym (append-nil out))
build_skip {a} {entries} {r} out (k ∷ ks) h = elim (Option-cases (blob_of k entries)) [
  | inl missing ↦
      ap (λ t. t.0) (round_skip h out k ks missing)
      ∙ build_skip {r = (get_blob k r).1} out ks (get_blob-Holds h k).1
      ∙ rw missing
  | inr (blob, found) ↦
      ap (λ t. t.0) (round_packed h skip out k ks blob found)
      ∙ build_skip {r = (get_blob k r).1} (out ++ stored a blob) ks (get_blob-Holds h k).1
      ∙ rw found (ap ok (append_assoc out (stored a blob) (code_of a entries ks)))
]

-- With every id packed, the loop goes over all of them, and on to the ids behind them.
build_fail_packed :
    {a : ℕ} {entries : List Blob} {r : ClfReader} (out ks more : List ℕ)
    → Holds a entries r
    → All (IsPacked entries) ks
    → (r' : ClfReader) × Holds a entries r'
      × (build_loop fail out (ks ++ more) r ≡ build_loop fail (out ++ code_of a entries ks) more r')
unfolding code_of
build_fail_packed {r = r} out [] more h packed =
    (r, h, ap (λ o. build_loop fail o more r) (sym (append-nil out)))
build_fail_packed {a} {entries} {r} out (k ∷ ks) more h ((blob, found), rest) =
    let (r', h', e) =
      build_fail_packed {r = (get_blob k r).1} (out ++ stored a blob) ks more (get_blob-Holds h k).1
        rest in
    (
      r',
      h',
      round_packed h fail out k (ks ++ more) blob found
          ∙ e
          ∙ rw found (
              ap (λ o. build_loop fail o more r')
                (append_assoc out (stored a blob) (code_of a entries ks))),
    )

-- Over a packed file, `build_code_section` with `Skip` returns the stored blobs of the ids that the
-- file has, in the order asked for and as often as asked for, and passes over the other ids.
pub build_code_section-skip :
    (a : ℕ) (entries : List Blob) (r : ClfReader) (op_ids : List ℕ)
    → Holds a entries r
    → (build_code_section op_ids skip r).0 ≡ ok (code_of a entries op_ids)
unfolding build_code_section
build_code_section-skip a entries r op_ids h = build_skip [] op_ids h

-- Over a packed file, `build_code_section` with `Fail` returns the same if the file has every id, and
-- otherwise the error that names the first id that it does not have.
pub build_code_section-fail :
    (a : ℕ) (entries : List Blob) (r : ClfReader) (op_ids : List ℕ)
    → Holds a entries r
    → All (IsPacked entries) op_ids
    → ((build_code_section op_ids fail r).0 ≡ ok (code_of a entries op_ids))
      × ((missing : ℕ) (more : List ℕ)
          → blob_of missing entries ≡ none
          → (build_code_section (op_ids ++ missing ∷ more) fail r).0 ≡ err (missing_op_id missing))
unfolding build_code_section
build_code_section-fail a entries r op_ids h packed = (
  let (r', h', e) = build_fail_packed [] op_ids [] h packed in
      ap (λ ks. (build_loop fail [] ks r).0) (sym (append-nil op_ids))
      ∙ ap (λ t. t.0) e
      ∙ finish r',
  λ missing more none_there.
      let (r', h', e) = build_fail_packed [] op_ids (missing ∷ more) h packed in
      ap (λ t. t.0) e ∙ round_fail h' (code_of a entries op_ids) missing more none_there,
)
  where
    finish :
        (s : ClfReader)
        → (build_loop fail (code_of a entries op_ids) [] s).0 ≡ ok (code_of a entries op_ids)
    finish s = unfold build_loop in refl
