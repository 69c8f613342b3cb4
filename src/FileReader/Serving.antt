-- ===== src/FileReader/Serving.antt =====
-- A reader that stands over a packed blob store, and what `get_blob` returns from it.
use mathlib.Core.Option
use clf.Prelude.{
  ap₂, ℕ, ◌+◌, ◌≤◌, ◌<◌, ◌≡◌, refl, ap, ◌∙◌, List, [], ◌++◌, length, length-append, append_assoc,
}
use clf.Prelude.{drop, drop-append, ok, some, none, Option-cases, inl, inr, arith, le→ltb}
use clf.Bytes.{u64_mod}
use clf.Stream.{seek_start}
use clf.Stream.Reads.{at_pos, Reads-read_exact}
use clf.Packer.{Blob, check_duplicates}
use clf.Packer.Layout.{stored, store, rows}
use clf.Reader.{get}
use clf.Reader.Fields.{insert_all}
use clf.Reader.Table.{blob_of, Located, locate, get-none, row}
use clf.FileReader.{ClfReader, read_blob, get_blob, add_u64}

pub record Holds (a : ℕ) (entries : List Blob) (r : ClfReader) : Type 0 where
  pub pre : List ℕ
  pub tail : List ℕ
  pub bytes_eq : r.reader.bytes ≡ pre ++ (store a entries ++ tail)
  pub offset_eq : r.blob_store_offset ≡ length pre
  pub len_eq : r.blob_store_len ≡ length (store a entries)
  pub manifest_eq : r.manifest ≡ insert_all (rows a 0 entries) []
  pub room : length pre + length (store a entries) < u64_mod
  pub distinct : check_duplicates [] entries ≡ ok tt

-- Moving the position of the file is no matter.
abbrev moved : ClfReader → ℕ → ClfReader
moved r p = record r { reader = at_pos r.reader.bytes p }

module _ {a : ℕ} {entries : List Blob} {r : ClfReader} (h : Holds a entries r) where
  moved-Holds : (p : ℕ) → Holds a entries (moved r p)
  moved-Holds p = record {
    pre = h.pre;
    tail = h.tail;
    bytes_eq = h.bytes_eq;
    offset_eq = h.offset_eq;
    len_eq = h.len_eq;
    manifest_eq = h.manifest_eq;
    room = h.room;
    distinct = h.distinct;
  }

  -- The blob stands in the file where its row says.
  at_row :
      {k : ℕ} {blob : List ℕ} (l : Located a 0 k entries blob [])
      → drop (r.blob_store_offset + length l.before) r.reader.bytes
        ≡ stored a blob ++ (l.after ++ h.tail)
  at_row {k} {blob} l =
      ap₂ drop place layout ∙ drop-append (h.pre ++ l.before) (stored a blob ++ (l.after ++ h.tail))
    where
      layout : r.reader.bytes ≡ (h.pre ++ l.before) ++ (stored a blob ++ (l.after ++ h.tail))
      layout = h.bytes_eq ∙ rw (l.split) (simp append_assoc)

      place : r.blob_store_offset + length l.before ≡ length (h.pre ++ l.before)
      place = omega (arith, h.offset_eq, length-append h.pre l.before)

  -- It ends within the blob store, and no sum of the computation wraps.
  row_room :
      {k : ℕ} {blob : List ℕ} (l : Located a 0 k entries blob [])
      → length l.before + length (stored a blob) ≤ length (store a entries)
  row_room {k} {blob} l = omega (
    arith,
    ap length (l.split),
    length-append l.before (stored a blob ++ l.after),
    length-append (stored a blob) l.after,
  )

  read_blob_lem :
      {k : ℕ} {blob : List ℕ} (l : Located a 0 k entries blob [])
      → read_blob (row a (length l.before) k blob) r ≡ (
        ok (some (stored a blob)),
        moved r (r.blob_store_offset + length l.before + length (stored a blob)),
      )
  unfolding read_blob seek_start
  read_blob_lem {k} {blob} l =
      let start = r.blob_store_offset + length l.before in
      let end = start + length (stored a blob) in
      let no_wrap : add_u64 r.blob_store_offset (length l.before) ≡ start =
        omega (arith, row_room l, h.offset_eq, h.room) in
      let no_wrap_end : add_u64 start (length (stored a blob)) ≡ end =
        omega (arith, row_room l, h.offset_eq, h.room) in
      let limit : add_u64 r.blob_store_offset r.blob_store_len
          ≡ r.blob_store_offset + r.blob_store_len =
        omega (arith, h.offset_eq, h.len_eq, h.room) in
      rw (
        no_wrap,
        no_wrap_end,
        limit,
        le→ltb (r.blob_store_offset + r.blob_store_len) end
            (omega (arith, row_room l, h.offset_eq, h.len_eq)),
        (Reads-read_exact start (stored a blob)).at r.reader.bytes _ (at_row l),
      )

  absent : (k : ℕ) → blob_of k entries ≡ none → get_blob k r ≡ (ok none, r)
  unfolding get_blob
  absent k missing = rw (ap (get k) h.manifest_eq ∙ get-none a 0 k entries missing, get_blob)

  present :
      (k : ℕ) (blob : List ℕ) (found : blob_of k entries ≡ some blob)
      → let l = locate a 0 k [] entries blob [] h.distinct found in
        get_blob k r ≡ (
          ok (some (stored a blob)),
          moved r (r.blob_store_offset + length l.before + length (stored a blob)),
        )
  unfolding get_blob
  present k blob found =
      let l = locate a 0 k [] entries blob [] h.distinct found in
      let at_zero : 0 + length l.before ≡ length l.before = omega arith in
      let found_row =
        ap (get k) h.manifest_eq ∙ l.row_eq ∙ ap (λ n. some (row a n k blob)) at_zero in
      rw (found_row, get_blob) (read_blob_lem l)

  -- `get_blob` returns the stored form of the blob that was packed under an id and nothing for any
  -- other id, and the reader can be used again.
  pub get_blob-Holds :
      (k : ℕ)
      → ((get_blob k r).0 ≡ ok (Option.map (stored a) (blob_of k entries)))
        × Holds a entries (get_blob k r).1
  get_blob-Holds k = elim (Option-cases (blob_of k entries)) [
    | inl missing ↦ rw (absent k missing, missing) (refl, h)
    | inr (blob, found) ↦ rw (present k blob found, found) (refl, moved-Holds _)
  ]
