-- ===== src/FileReader/RoundTrip.antt =====
-- A file that `pack_clf` has written, read back.
use mathlib.Core.Option
use clf.Prelude.{ℕ, ◌+◌, ◌*◌, ◌-◌, ◌≤◌, ◌≡◌, refl, sym, ap, ◌∙◌, true, false, List, [], ◌∷◌, ◌++◌}
use clf.Prelude.{
  length, length-append, append_assoc, append-nil, ok, some, Option, arith, All, if◌then◌else◌,
}
use clf.Packer.Layout.{field, kind_field}
use clf.Prelude.{Bool-cases, inl, inr, leb, le→leb, drop-append}
use clf.Bytes.{to_le_bytes, length-to_le_bytes}
use clf.Stream.Reads.{at_pos}
use clf.Format.{ClfKind, compute, ManifestEntry, text_eq, sig_magic, sig_hash_len, sig_block_len}
use clf.Packer.{Blob, PackOptions, check_duplicates}
use clf.Packer.Layout.{header_bytes, file_bytes, rows, rows_bytes, store, Fits}
use clf.Reader.Fields.{IsReadable, header_read, kind_read, insert_all, Reads-header, Reads-entries}
use clf.Reader.Table.{IsId, rows-IsRow, length-rows, length-rows_bytes}
use mathlib.Core.Path.{subst}
use clf.Stream.Reads.{Reads}
use clf.Reader.{read_entries}
use clf.Utf8.{Text}
use clf.Stream.Appends.{at_end}
use clf.Packer.{pack_clf}
use clf.Packer.Layout.{pack_clf-file_bytes, stored}
use clf.Reader.Table.{blob_of}
use clf.FileReader.{ClfReader, open_stream, store_len, Disk, open_with_expected_kind, get_blob}
use clf.FileReader.Serving.{get_blob-Holds}
use clf.FileReader.Opening.{open_on_disk}
use clf.FileReader.Opening.{ends_signed, Accepts, open_stream_lem}
use clf.FileReader.Serving.{Holds}

-- Where the blob store of a packed file begins.
abbrev pub store_start : List Blob → PackOptions → ℕ
store_start entries o = length (header_bytes o) + 4 + 12 * length entries

-- What a reader has after opening a packed file with some bytes behind it.
abbrev pub opened : List Blob → PackOptions → List ℕ → ClfReader
opened entries o bytes = record {
  header = header_read o;
  manifest = insert_all (rows o.blob_alignment 0 entries) [];
  reader = at_pos bytes (store_start entries o);
  blob_store_offset = store_start entries o;
  blob_store_len = store_len (ends_signed bytes) (length bytes) (store_start entries o);
  signature_block_present = ends_signed bytes;
  signature_verified = false;
}

-- A packing job that the reader can read back.
pub record IsPackable (entries : List Blob) (o : PackOptions) : Type 0 where
  pub fits : Fits entries o
  pub readable : IsReadable o
  pub entry_ids : All IsId entries
  pub distinct : check_duplicates [] entries ≡ ok tt

pub open-file_bytes :
    (expected : Option ClfKind) (entries : List Blob) (o : PackOptions) (tail : List ℕ)
    → IsPackable entries o
    → Accepts expected (kind_read o)
    → (open_stream expected (at_pos (file_bytes entries o ++ tail) 0)).0
      ≡ ok (opened entries o (file_bytes entries o ++ tail))
unfolding file_bytes
open-file_bytes expected entries o tail h a =
    open_stream_lem expected (file_bytes entries o ++ tail) (header_bytes o) (rows_bytes table)
      (store o.blob_alignment entries ++ tail) (header_read o) (length entries)
      (insert_all table []) (simp append_assoc) h.fits.count
      (length-rows_bytes table ∙ ap (λ n. 12 * n) (length-rows o.blob_alignment 0 entries)) a
      (Reads-header o h.readable)
      (λ p.
        subst (λ n. Reads (read_entries n []) p (rows_bytes table) (insert_all table []))
          (length-rows o.blob_alignment 0 entries)
          (Reads-entries table [] p
            (rows-IsRow o.blob_alignment 0 entries h.entry_ids (omega (arith, h.fits.size)))))
  where
    table : List ManifestEntry
    table = rows o.blob_alignment 0 entries

length-file_bytes :
    (entries : List Blob) (o : PackOptions)
    → length (file_bytes entries o)
      ≡ store_start entries o + length (store o.blob_alignment entries)
unfolding file_bytes
length-file_bytes entries o =
    let table = rows o.blob_alignment 0 entries in
    let body = store o.blob_alignment entries in
    length-append (header_bytes o) _
    ∙ omega (
      arith,
      length-append (to_le_bytes (length entries)) (rows_bytes table ++ body),
      length-append (rows_bytes table) body,
      length-to_le_bytes (length entries),
      length-rows_bytes table,
      length-rows o.blob_alignment 0 entries,
    )

-- What stands behind the blob store: nothing, where the file does not look signed, or a signature.
pub data Ending (body : List ℕ) : List ℕ → Type 0 where
  unsigned : ends_signed body ≡ false → Ending body []
  signed : (hash : List ℕ) → length hash ≡ sig_hash_len → Ending body (sig_magic ++ hash)

pub signature_found :
    (body hash : List ℕ)
    → length hash ≡ sig_hash_len
    → ends_signed (body ++ (sig_magic ++ hash)) ≡ true
unfolding ends_signed text_eq
signature_found body hash h =
    let total : length (body ++ (sig_magic ++ hash)) ≡ length body + 36 =
      length-append body (sig_magic ++ hash) ∙ omega (arith, h) in
    let back : length body + 36 - sig_block_len ≡ length body = omega arith in
    rw (
      total,
      le→leb sig_block_len (length body + 36) (omega arith),
      back,
      drop-append body (sig_magic ++ hash),
    )

store_len_lem :
    (entries : List Blob) (o : PackOptions) (tail : List ℕ)
    → Ending (file_bytes entries o) tail
    → let bytes = file_bytes entries o ++ tail in
      store_len (ends_signed bytes) (length bytes) (store_start entries o)
      ≡ length (store o.blob_alignment entries)
store_len_lem entries o [] (unsigned plain) =
    rw (append-nil (file_bytes entries o), plain) (omega (arith, length-file_bytes entries o))
store_len_lem entries o tail (signed hash n) = rw (signature_found (file_bytes entries o) hash n) (
    omega (
      arith,
      length-append (file_bytes entries o) (sig_magic ++ hash),
      length-file_bytes entries o,
      n,
    ))

-- The size of the header by the table of SPEC.md section 3.1.
pub header_len :
    (o : PackOptions)
    → length (header_bytes o)
      ≡ 4 + 1 + 4 + length o.vendor + 4 + length o.target + 1 + (if leb 2 o.version then 1 else 0)
header_len o =
    let ending = (o.blob_alignment ∷ []) ++ kind_field o in
    omega (
      arith,
      length-append (field o.vendor) (field o.target ++ ending),
      length-append (field o.target) ending,
      length-append (to_le_bytes (length o.vendor)) o.vendor,
      length-append (to_le_bytes (length o.target)) o.target,
      length-to_le_bytes (length o.vendor),
      length-to_le_bytes (length o.target),
      kind_len,
    )
  where
    kind_len : length (kind_field o) ≡ (if leb 2 o.version then 1 else 0)
    kind_len = ground arith

header_le : (o : PackOptions) → length (header_bytes o) ≤ 16 + length o.vendor + length o.target
header_le o = elim (Bool-cases (leb 2 o.version)) [
  | inl two ↦ omega (arith, header_len o, ap {B = ℕ} (λ b. if b then 1 else 0) two)
  | inr one ↦ omega (arith, header_len o, ap {B = ℕ} (λ b. if b then 1 else 0) one)
]

pub opened-Holds :
    (entries : List Blob) (o : PackOptions) (tail : List ℕ)
    → IsPackable entries o
    → Ending (file_bytes entries o) tail
    → Holds o.blob_alignment entries (opened entries o (file_bytes entries o ++ tail))
opened-Holds entries o tail h ending = record {
  pre =
      header_bytes o
      ++ (to_le_bytes (length entries) ++ rows_bytes (rows o.blob_alignment 0 entries));
  tail = tail;
  bytes_eq = unfold file_bytes in simp append_assoc;
  offset_eq = pre_len;
  len_eq = store_len_lem entries o tail ending;
  manifest_eq = refl;
  room = omega (arith, pre_len, header_le o, h.fits, h.readable);
  distinct = h.distinct;
}
  where
    manifest : List ℕ
    manifest = to_le_bytes (length entries) ++ rows_bytes (rows o.blob_alignment 0 entries)

    pre_len : store_start entries o ≡ length (header_bytes o ++ manifest)
    pre_len = sym (
        length-append (header_bytes o) manifest
        ∙ omega (
          arith,
          length-append (to_le_bytes (length entries))
              (rows_bytes (rows o.blob_alignment 0 entries)),
          length-to_le_bytes (length entries),
          length-rows_bytes (rows o.blob_alignment 0 entries),
          length-rows o.blob_alignment 0 entries,
        ))

-- A file that holds what `pack_clf` wrote, and nothing more or a signature, opens where no kind is
-- expected or the one that it has: the packed kind for version 2, and `Compute` for version 0 or 1,
-- which have no kind byte, whatever kind was packed. The header has that kind, and the version, the
-- texts and the alignment that were packed; the blob store begins where the format says and has the
-- stored blobs for its length, and `get_blob` returns the stored form of every packed blob, and
-- nothing under any other id. It is required that the version is at most 2, that the sizes fit their
-- fields, that ids are distinct `u32`s, that the texts are UTF-8 of at most 64 KiB, and that an
-- unsigned file does not have the signature's magic 36 bytes before its end.
pub pack-open-get_blob :
    (disk : Disk) (path : Text) (expected : Option ClfKind) (entries : List Blob) (o : PackOptions)
    (tail : List ℕ)
    → IsPackable entries o
    → Accepts expected (kind_read o)
    → Ending (pack_clf entries o (at_end [])).1.bytes tail
    → disk path ≡ some ((pack_clf entries o (at_end [])).1.bytes ++ tail)
    → (r : ClfReader) × (open_with_expected_kind disk path expected ≡ ok r)
      × (r.header ≡ record {
        version = o.version;
        vendor = o.vendor;
        target = o.target;
        blob_alignment = o.blob_alignment;
        kind = if leb 2 o.version then o.kind else compute;
        header_end = length (header_bytes o);
      })
      × (r.blob_store_offset ≡ length (header_bytes o) + 4 + 12 * length entries)
      × (r.blob_store_len ≡ length (store o.blob_alignment entries))
      × ((k : ℕ) → (get_blob k r).0 ≡ ok (Option.map (stored o.blob_alignment) (blob_of k entries)))
pack-open-get_blob disk path expected entries o tail h a ending on_disk = (
  opened entries o (file_bytes entries o ++ tail),
  opening,
  refl,
  refl,
  store_len_lem entries o tail ending',
  λ k. (get_blob-Holds (opened-Holds entries o tail h ending') k).0,
)
  where
    packed : (pack_clf entries o (at_end [])).1.bytes ≡ file_bytes entries o
    packed = ap (λ p. p.1.bytes) (pack_clf-file_bytes entries o h.fits h.distinct)

    ending' : Ending (file_bytes entries o) tail
    ending' = subst (λ b. Ending b tail) packed ending

    opening :
        open_with_expected_kind disk path expected
        ≡ ok (opened entries o (file_bytes entries o ++ tail))
    opening =
        open_on_disk disk path expected _ (on_disk ∙ ap (λ b. some (b ++ tail)) packed)
        ∙ open-file_bytes expected entries o tail h a
