-- ===== src/Reader/Fields.antt =====
-- What the reader makes of the header and rows that the packer lays out.
use clf.Prelude.{
  ℕ, ◌+◌, ◌≤◌, ◌<◌, ◌≡◌, refl, true, List, [], ◌∷◌, ◌++◌, arith, length, length-append, leb, ltb,
}
use clf.Prelude.{Action, pure, le→leb, lt→ltb, Bool-cases, inl, inr, if◌then◌else◌}
use mathlib.Core.Path.{subst}
use clf.Bytes.{u32_mod, to_le_bytes, from_le_bytes-to_le_bytes, length-to_le_bytes}
use clf.Utf8.{Text, is_utf8}
use clf.Stream.{Stream, Field}
use clf.Stream.Reads.{
  Reads, Reads-read_exact, Reads-pure, Reads-convert, Reads-bind, Reads-ending,
  Reads-stream_position,
}
use clf.Format.{ClfKind, compute, ClfHeader, clf_magic, text_eq, kind_byte}
use clf.Format.Kinds.{try_from_byte_iff}
use clf.Packer.{PackOptions}
use clf.Packer.Layout.{field, kind_field, header_bytes}
use clf.Prelude.{Bool, ◌>>◌}
use clf.Format.{ManifestEntry, entry_size}
use clf.Packer.Layout.{row_bytes, rows_bytes}
use clf.Prelude.{All, sym}
use clf.Reader.{
  Table, insert, decode_entry, read_entries, ClfError, guard, io, read, position,
  max_header_text_len, read_len_prefixed_utf8, read_kind, read_header,
}

pub Reads-read : (n p : ℕ) (xs : List ℕ) → length xs ≡ n → Reads (read n) p xs xs
Reads-read n p xs e =
    subst (λ k. Reads (read k) p xs xs) e (Reads-convert io (Reads-read_exact p xs))

-- Any number of bytes, none included.
Reads-bytes :
    (p : ℕ) (s : Text) → Reads (if ltb 0 (length s) then read (length s) else pure []) p s s
Reads-bytes p [] = Reads-pure [] p
Reads-bytes p (c ∷ s) = rw (lt→ltb 0 (length (c ∷ s)) (omega arith)) (Reads-read _ p (c ∷ s) refl)

pub Reads-field :
    (name : Field) (p : ℕ) (s : Text)
    → length s ≤ max_header_text_len
    → is_utf8 s ≡ true
    → Reads (read_len_prefixed_utf8 name) p (field s) s
unfolding read_len_prefixed_utf8
Reads-field name p s small valid =
    Reads-bind _ _ p (to_le_bytes (length s)) s (to_le_bytes (length s)) s
      (Reads-read 4 p _ (length-to_le_bytes (length s)))
      (rw
        (
          from_le_bytes-to_le_bytes (length s) (omega arith),
          le→leb (length s) max_header_text_len small,
        )
        (Reads-ending _ _ _ s s s (Reads-bytes _ s) (rw valid (Reads-pure s _))))

-- The kind that a reader sees: files before version 2 do not hold it.
abbrev pub kind_read : PackOptions → ClfKind
kind_read o = if leb 2 o.version then o.kind else compute

Reads-kind : (o : PackOptions) (p : ℕ) → Reads (read_kind o.version) p (kind_field o) (kind_read o)
unfolding read_kind
Reads-kind o p = elim (Bool-cases (leb 2 o.version)) [
  | inr one ↦ rw one (Reads-pure compute p)
  | inl two ↦ rw two (
      Reads-ending _ _ p (kind_byte o.kind ∷ []) (kind_byte o.kind ∷ []) o.kind
        (Reads-read 1 p _ refl)
        (rw ((try_from_byte_iff (kind_byte o.kind) o.kind).1 refl) (Reads-pure o.kind _)))
]

row_len : (e : ManifestEntry) → length (row_bytes e) ≡ entry_size
unfolding to_le_bytes
row_len e = omega arith

-- What `pack_clf` takes that the reader can read back: `String`s, texts within the reader's cap, and
-- a version that it knows.
pub record IsReadable (o : PackOptions) : Type 0 where
  pub vendor_len : length o.vendor ≤ max_header_text_len
  pub target_len : length o.target ≤ max_header_text_len
  pub vendor_utf8 : is_utf8 o.vendor ≡ true
  pub target_utf8 : is_utf8 o.target ≡ true
  pub version : o.version ≤ 2

abbrev pub header_read : PackOptions → ClfHeader
header_read o = record {
  version = o.version;
  vendor = o.vendor;
  target = o.target;
  blob_alignment = o.blob_alignment;
  kind = kind_read o;
  header_end = length (header_bytes o);
}

pub Reads-guard :
    {A : Type 0} (b : Bool) (e : ClfError) (n : Action Stream ClfError A) (p : ℕ) (ys : List ℕ)
    (a : A)
    → b ≡ true
    → Reads n p ys a
    → Reads (guard b e >> n) p ys a
Reads-guard b e n p ys a h r = rw h r

pub Reads-position : (p n : ℕ) → p ≡ n → Reads position p [] n
Reads-position p n e =
    subst (λ k. Reads position p [] k) e (Reads-convert io (Reads-stream_position p))

magic_eq : text_eq clf_magic clf_magic ≡ true
unfolding text_eq
magic_eq = refl

pub Reads-header :
    (o : PackOptions) → IsReadable o → Reads read_header 0 (header_bytes o) (header_read o)
unfolding read_header
Reads-header o h =
    let ending = (o.blob_alignment ∷ []) ++ kind_field o in
    let texts = field o.vendor ++ (field o.target ++ ending) in
    Reads-bind _ _ 0 clf_magic ((o.version ∷ []) ++ texts) clf_magic (header_read o)
      (Reads-read 4 0 clf_magic refl)
      (Reads-guard _ _ _ _ _ _ magic_eq (
        Reads-bind _ _ (0 + 4) (o.version ∷ []) texts (o.version ∷ []) (header_read o)
          (Reads-read 1 _ _ refl)
          (Reads-guard _ _ _ _ _ _ (le→leb o.version 2 h.version) (
            Reads-bind _ _ _ (field o.vendor) (field o.target ++ ending) o.vendor (header_read o)
              (Reads-field _ _ o.vendor h.vendor_len h.vendor_utf8)
              (Reads-bind _ _ _ (field o.target) ending o.target (header_read o)
                (Reads-field _ _ o.target h.target_len h.target_utf8)
                (Reads-bind _ _ _ (o.blob_alignment ∷ []) (kind_field o) (o.blob_alignment ∷ [])
                  (header_read o) (Reads-read 1 _ _ refl)
                  (Reads-ending _ _ _ (kind_field o) (kind_read o) (header_read o) (Reads-kind o _)
                    (Reads-ending _ _ _ [] (length (header_bytes o)) (header_read o)
                      (Reads-position _ _ (
                        omega (
                          arith,
                          length-append (field o.vendor) (field o.target ++ ending),
                          length-append (field o.target) ending,
                        )))
                      (Reads-pure (header_read o) _)))))))))

-- A row whose fields are `u32`s.
pub record IsRow (e : ManifestEntry) : Type 0 where
  pub op_id : e.op_id < u32_mod
  pub offset : e.offset < u32_mod
  pub size : e.size < u32_mod

decode-row : (e : ManifestEntry) → IsRow e → decode_entry (row_bytes e) ≡ e
unfolding to_le_bytes
decode-row e h = λ i. record {
  op_id = from_le_bytes-to_le_bytes e.op_id h.op_id i;
  offset = from_le_bytes-to_le_bytes e.offset h.offset i;
  size = from_le_bytes-to_le_bytes e.size h.size i;
}

-- The table after the rows have been inserted in turn.
unfoldable pub insert_all : List ManifestEntry → Table → Table
insert_all [] m = m
insert_all (e ∷ es) m = insert_all es (insert e.op_id e m)

pub Reads-entries :
    (es : List ManifestEntry) (m : Table) (p : ℕ)
    → All IsRow es
    → Reads (read_entries (length es) m) p (rows_bytes es) (insert_all es m)
unfolding read_entries rows_bytes insert_all
Reads-entries [] m p h = Reads-pure m p
Reads-entries (e ∷ es) m p h =
    Reads-bind _ _ p (row_bytes e) (rows_bytes es) (row_bytes e) _
      (Reads-read entry_size p (row_bytes e) (row_len e))
      (subst
        (λ d.
          Reads (read_entries (length es) (insert d.op_id d m)) (p + length (row_bytes e))
            (rows_bytes es) (insert_all es (insert e.op_id e m)))
        (sym (decode-row e h.0)) (Reads-entries es (insert e.op_id e m) _ h.1))
