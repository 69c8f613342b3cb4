-- ===== src/Reader/Table.antt =====
-- What the rows of a packed file say of each blob.
use clf.Prelude.{
  ℕ, ◌+◌, ◌<◌, ◌≡◌, refl, sym, ap, ◌∙◌, true, false, List, [], ◌∷◌, ◌++◌, append_assoc, arith,
}
use clf.Prelude.{
  length, length-append, ◌==◌, if◌then◌else◌, Option, none, some, ==_refl, Bool-cases, inl, inr,
  All, ==_iff, ok,
}
use clf.Bytes.{u32_mod}
use mathlib.Core.Path.{subst, subst₂}
use clf.Prelude.{suc, ◌*◌}
use clf.Bytes.{to_le_bytes}
use clf.Packer.Layout.{rows_bytes}
use clf.Format.{ManifestEntry}
use clf.Packer.{Blob, contains, check_duplicates}
use clf.Packer.Layout.{stored, store, rows}
use clf.Reader.{Table, insert, get}
use clf.Reader.Fields.{IsRow, insert_all}

pub get-insert :
    (k j : ℕ) (e : ManifestEntry) (m : Table)
    → get j (insert k e m) ≡ (if k == j then some e else get j m)
unfolding get insert
get-insert k j e [] = refl
get-insert k j e ((i, f) ∷ m) = ground (arith, get-insert k j e m)

-- The row of a blob that is stored at an offset.
abbrev pub row : ℕ → ℕ → ℕ → List ℕ → ManifestEntry
row a offset k blob = record { op_id = k; offset = offset; size = length (stored a blob) }

-- The blob that a list of blobs has under an id.
unfoldable pub blob_of : ℕ → List Blob → Option (List ℕ)
blob_of k [] = none
blob_of k ((j, blob) ∷ rest) = if j == k then some blob else blob_of k rest

unfoldable pub ids : List Blob → List ℕ
ids [] = []
ids ((j, blob) ∷ rest) = j ∷ ids rest

-- Past the check, an id that has been seen does not come again.
not_again :
    (seen : List ℕ) (entries : List Blob) (k : ℕ)
    → check_duplicates seen entries ≡ ok tt
    → contains k seen ≡ true
    → contains k (ids entries) ≡ false
unfolding check_duplicates ids
not_again seen [] k h c = refl
not_again seen ((j, blob) ∷ rest) k h c = ground (arith, not_again (j ∷ seen) rest k)

get_absent :
    (a offset k : ℕ) (entries : List Blob) (m : Table)
    → contains k (ids entries) ≡ false
    → get k (insert_all (rows a offset entries) m) ≡ get k m
unfolding rows insert_all ids contains
get_absent a offset k [] m h = refl
get_absent a offset k ((j, blob) ∷ rest) m h =
    let e = row a offset j blob in
    ground (
      arith,
      get_absent a (offset + length (stored a blob)) k rest (insert j e m),
      get-insert j k e m,
    )

-- Where the blob of an id lies in the blob store, and that the table says so.
pub record Located (a offset k : ℕ) (entries : List Blob) (blob : List ℕ) (m : Table) : Type 0 where
  pub before : List ℕ
  pub after : List ℕ
  pub split : store a entries ≡ before ++ (stored a blob ++ after)
  pub row_eq :
      get k (insert_all (rows a offset entries) m) ≡ some (row a (offset + length before) k blob)

located_head :
    (a offset k : ℕ) (blob : List ℕ) (rest : List Blob) (m : Table)
    → contains k (ids rest) ≡ false
    → Located a offset k ((k, blob) ∷ rest) blob m
unfolding store rows insert_all
located_head a offset k blob rest m h = record {
  before = [];
  after = store a rest;
  split = refl;
  row_eq =
      get_absent a _ k rest _ h
      ∙ get-insert k k (row a offset k blob) m
      ∙ rw (==_refl k) (ap (λ n. some (row a n k blob)) (omega arith));
}

located_tail :
    (a offset k j : ℕ) (other blob : List ℕ) (rest : List Blob) (m : Table)
    → Located a (offset + length (stored a other)) k rest blob (insert j (row a offset j other) m)
    → Located a offset k ((j, other) ∷ rest) blob m
unfolding store rows insert_all
located_tail a offset k j other blob rest m l = record {
  before = stored a other ++ l.before;
  after = l.after;
  split = rw (l.split) (sym (append_assoc (stored a other) l.before _));
  row_eq =
      l.row_eq
      ∙ ap (λ n. some (row a n k blob)) (omega (arith, length-append (stored a other) l.before));
}

pub distinct_rest :
    (seen : List ℕ) (j : ℕ) (other : List ℕ) (rest : List Blob)
    → check_duplicates seen ((j, other) ∷ rest) ≡ ok tt
    → check_duplicates (j ∷ seen) rest ≡ ok tt
unfolding check_duplicates
distinct_rest seen j other rest d = ground arith

pub fresh_head :
    (seen : List ℕ) (j : ℕ) (other : List ℕ) (rest : List Blob)
    → check_duplicates seen ((j, other) ∷ rest) ≡ ok tt
    → contains j (ids rest) ≡ false
fresh_head seen j other rest d =
    not_again (j ∷ seen) rest j (distinct_rest seen j other rest d)
      (unfold contains in rw (==_refl j))

-- With distinct ids, every blob is in the store at the place that the table gives.
pub locate :
    (a offset k : ℕ) (seen : List ℕ) (entries : List Blob) (blob : List ℕ) (m : Table)
    → check_duplicates seen entries ≡ ok tt
    → blob_of k entries ≡ some blob
    → Located a offset k entries blob m
unfolding blob_of
locate a offset k seen [] blob m d h = cc
locate a offset k seen ((j, other) ∷ rest) blob m d h = elim (Bool-cases (j == k)) [
  | inl same ↦
      subst₂ (λ x b. Located a offset k ((x, b) ∷ rest) blob m) (sym ((==_iff j k).0 same))
        (ground arith)
        (located_head a offset k blob rest m (
          subst (λ x. contains x (ids rest) ≡ false) ((==_iff j k).0 same)
            (fresh_head seen j other rest d)))
  | inr different ↦ located_tail a offset k j other blob rest m (
      locate a (offset + length (stored a other)) k (j ∷ seen) rest blob _
        (distinct_rest seen j other rest d) (ground arith))
]

-- An id that the blobs do not have is not in the table.
absent_id :
    (k : ℕ) (entries : List Blob) → blob_of k entries ≡ none → contains k (ids entries) ≡ false
unfolding blob_of ids contains
absent_id k [] h = refl
absent_id k ((j, blob) ∷ rest) h = ground (arith, absent_id k rest)

pub get-none :
    (a offset k : ℕ) (entries : List Blob)
    → blob_of k entries ≡ none
    → get k (insert_all (rows a offset entries) []) ≡ none
get-none a offset k entries h = get_absent a offset k entries [] (absent_id k entries h) ∙ empty
  where
    empty : get k [] ≡ none
    empty = unfold get in refl

-- Ids are `u32`s.
abbrev pub IsId : Blob → Type 0
IsId b = b.0 < u32_mod

pub rows-IsRow :
    (a offset : ℕ) (entries : List Blob)
    → All IsId entries
    → offset + length (store a entries) < u32_mod
    → All IsRow (rows a offset entries)
unfolding rows store
rows-IsRow a offset [] h fits = tt
rows-IsRow a offset ((j, blob) ∷ rest) h fits =
    let room = length-append (stored a blob) (store a rest) in
    (
      record { op_id = h.0; offset = omega (arith, room); size = omega (arith, room) },
      rows-IsRow a (offset + length (stored a blob)) rest h.1 (omega (arith, room)),
    )

pub length-rows :
    (a offset : ℕ) (entries : List Blob) → length (rows a offset entries) ≡ length entries
unfolding rows
length-rows a offset [] = refl
length-rows a offset ((j, blob) ∷ rest) =
    ap suc (length-rows a (offset + length (stored a blob)) rest)

pub length-rows_bytes : (es : List ManifestEntry) → length (rows_bytes es) ≡ 12 * length es
unfolding rows_bytes to_le_bytes
length-rows_bytes [] = omega arith
length-rows_bytes (e ∷ es) = omega (arith, length-rows_bytes es)
