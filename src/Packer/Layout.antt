-- ===== src/Packer/Layout.antt =====
-- The file format of SPEC.md section 3 as plain concatenation, and `pack_clf` against it.
use clf.Prelude.{ℕ, ◌+◌, ◌-◌, ◌%◌, ◌<◌, ◌≡◌, List, [], ◌∷◌, ◌++◌}
use clf.Prelude.{length, replicate, ltb, leb, ◌==◌, if◌then◌else◌, ok, Action, ◌>>◌}
use clf.Bytes.{as_u32, u32_mod, to_le_bytes}
use clf.Utf8.{Text}
use clf.Prelude.{le→ltb}
use clf.Stream.{Stream, stream_position}
use clf.Stream.Appends.{
  Appends, at_end, Appends-write_all, Appends-pure, Appends-convert, Appends-bind,
}
use clf.Format.{kind_byte, clf_magic, ManifestEntry}
use mathlib.Core.Path.{subst}
use clf.Prelude.{
  Bool-cases, inl, inr, sym, ap, ◌∙◌, append_assoc, length-append, length-replicate, arith,
}
use clf.Packer.{
  write_clf, pack_clf, check_duplicates, u32_max, is_empty, write_manifest, next_multiple_of,
  saturating_add, PackError, io, PackOptions, Blob, write, done, write_header, write_padding,
  write_blobs,
}

-- A length-prefixed text.
abbrev pub field : Text → List ℕ
field s = to_le_bytes (length s) ++ s

abbrev pub kind_field : PackOptions → List ℕ
kind_field o = if leb 2 o.version then kind_byte o.kind ∷ [] else []

abbrev pub header_bytes : PackOptions → List ℕ
header_bytes o =
    clf_magic
    ++ ((o.version ∷ [])
        ++ (field o.vendor ++ (field o.target ++ ((o.blob_alignment ∷ []) ++ kind_field o))))

-- How many zeros follow a blob of `n` bytes.
unfoldable pub padding : ℕ → ℕ → ℕ
padding a n = if ltb 1 a then (if n % a == 0 then 0 else a - n % a) else 0

unfoldable pub stored : ℕ → List ℕ → List ℕ
stored a blob = blob ++ replicate (padding a (length blob)) 0

unfoldable pub store : ℕ → List Blob → List ℕ
store a [] = []
store a ((op_id, blob) ∷ rest) = stored a blob ++ store a rest

-- The rows of the manifest, from an offset on.
unfoldable pub rows : ℕ → ℕ → List Blob → List ManifestEntry
rows a offset [] = []
rows a offset ((op_id, blob) ∷ rest) =
    record { op_id = op_id; offset = offset; size = length (stored a blob) }
    ∷ rows a (offset + length (stored a blob)) rest

abbrev pub row_bytes : ManifestEntry → List ℕ
row_bytes e = to_le_bytes e.op_id ++ (to_le_bytes e.offset ++ to_le_bytes e.size)

unfoldable pub rows_bytes : List ManifestEntry → List ℕ
rows_bytes [] = []
rows_bytes (e ∷ es) = row_bytes e ++ rows_bytes es

unfoldable pub file_bytes : List Blob → PackOptions → List ℕ
file_bytes entries o =
    header_bytes o
    ++ (to_le_bytes (length entries)
        ++ (rows_bytes (rows o.blob_alignment 0 entries) ++ store o.blob_alignment entries))

pub Appends-write : (xs : List ℕ) → Appends (write xs) xs tt
Appends-write xs = Appends-convert io (Appends-write_all xs)

pub Appends-then :
    {m n : Action Stream PackError (Unit {0})} {xs ys : List ℕ}
    → Appends m xs tt
    → Appends n ys tt
    → Appends (m >> n) (xs ++ ys) tt
Appends-then {m} {n} {xs} {ys} r k = Appends-bind m (λ _. n) xs ys tt tt r k

Appends-eq :
    {m : Action Stream PackError (Unit {0})} {xs ys : List ℕ}
    → xs ≡ ys
    → Appends m xs tt
    → Appends m ys tt
Appends-eq {m} e r = subst (λ zs. Appends m zs tt) e r

Appends-padding :
    (a : ℕ) (blob : List ℕ)
    → Appends (write_padding a blob) (replicate (padding a (length blob)) 0) tt
unfolding write_padding padding
Appends-padding a blob = elim (Bool-cases (ltb 1 a)) [
  | inr small ↦ rw small (Appends-pure tt)
  | inl large ↦ elim (Bool-cases (length blob % a == 0)) [
    | inl whole ↦ rw (large, whole) (Appends-pure tt)
    | inr part ↦ rw (large, part) (Appends-write _)
  ]
]

Appends-blobs : (a : ℕ) (entries : List Blob) → Appends (write_blobs a entries) (store a entries) tt
unfolding write_blobs store stored
Appends-blobs a [] = Appends-pure tt
Appends-blobs a ((op_id, blob) ∷ rest) = Appends-eq (sym (append_assoc blob _ (store a rest))) (
    Appends-then (Appends-write blob)
      (Appends-then (Appends-padding a blob) (Appends-blobs a rest)))

Appends-kind :
    (o : PackOptions)
    → Appends (if leb 2 o.version then write (kind_byte o.kind ∷ []) else done) (kind_field o) tt
Appends-kind o = elim (Bool-cases (leb 2 o.version)) [
  | inl two ↦ rw two (Appends-write _)
  | inr one ↦ rw one (Appends-pure tt)
]

-- An empty text is not written.
Appends-text : (s : Text) → Appends (if is_empty s then done else write s) s tt
Appends-text [] = Appends-pure tt
Appends-text (c ∷ s) = Appends-write (c ∷ s)

as_u32-eq_of_lt : (n : ℕ) → n < u32_mod → as_u32 n ≡ n
as_u32-eq_of_lt n h = omega arith

Appends-header :
    (o : PackOptions)
    → length o.vendor < u32_mod
    → length o.target < u32_mod
    → Appends (write_header o) (header_bytes o) tt
unfolding write_header
Appends-header o v t =
    rw (as_u32-eq_of_lt (length o.vendor) v, as_u32-eq_of_lt (length o.target) t)
      (Appends-eq (simp append_assoc) (
        Appends-then (Appends-write clf_magic) (
          Appends-then (Appends-write (o.version ∷ [])) (
            Appends-then (Appends-write (to_le_bytes (length o.vendor))) (
              Appends-then (Appends-write o.vendor) (
                Appends-then (Appends-write (to_le_bytes (length o.target))) (
                  Appends-then (Appends-text o.target)
                    (Appends-then (Appends-write (o.blob_alignment ∷ [])) (Appends-kind o)))))))))

length-stored :
    (a : ℕ) (blob : List ℕ) → length (stored a blob) ≡ length blob + padding a (length blob)
unfolding stored
length-stored a blob = length-append blob _ ∙ ap (λ n. length blob + n) (length-replicate _ 0)

-- The alignment that `pack_clf` computes with.
abbrev pub effective : ℕ → ℕ
effective a = if ltb 1 a then a else 1

-- Where the padded size fits, `next_multiple_of` gives it.
next_multiple-eq :
    (a n : ℕ)
    → n + padding a n < u32_mod
    → next_multiple_of (as_u32 n) (effective a) ≡ n + padding a n
unfolding next_multiple_of padding
next_multiple-eq a n h = rw (as_u32-eq_of_lt n (omega arith)) (elim (Bool-cases (ltb 1 a)) [
  | inr small ↦ rw small (ground arith)
  | inl large ↦ rw large (ground arith)
])

row_size :
    (a : ℕ) (blob : List ℕ)
    → length (stored a blob) < u32_mod
    → next_multiple_of (as_u32 (length blob)) (effective a) ≡ length (stored a blob)
row_size a blob h =
    next_multiple-eq a (length blob) (omega (arith, length-stored a blob))
    ∙ sym (length-stored a blob)

saturating_add-eq : (m n : ℕ) → m + n < u32_mod → saturating_add m n ≡ m + n
unfolding saturating_add
saturating_add-eq m n h = omega arith

length-store_cons :
    (a op_id : ℕ) (blob : List ℕ) (rest : List Blob)
    → length (store a ((op_id, blob) ∷ rest)) ≡ length (stored a blob) + length (store a rest)
unfolding store
length-store_cons a op_id blob rest = length-append (stored a blob) (store a rest)

Appends-manifest :
    (a offset : ℕ) (entries : List Blob)
    → offset + length (store a entries) < u32_mod
    → Appends (write_manifest (effective a) offset entries) (rows_bytes (rows a offset entries)) tt
unfolding write_manifest rows_bytes rows
Appends-manifest a offset [] h = Appends-pure tt
Appends-manifest a offset ((op_id, blob) ∷ rest) h =
    let room = length-store_cons a op_id blob rest in
    rw
      (
        row_size a blob (omega (arith, room)),
        saturating_add-eq offset (length (stored a blob)) (omega (arith, room)),
      )
      (Appends-eq (simp append_assoc) (
        Appends-then (Appends-write _) (
          Appends-then (Appends-write _) (
            Appends-then (Appends-write _)
              (Appends-manifest a (offset + length (stored a blob)) rest (omega (arith, room)))))))

-- Texts and counts that fit their length fields, and a blob store that 32-bit offsets reach.
pub record Fits (entries : List Blob) (o : PackOptions) : Type 0 where
  pub vendor : length o.vendor < u32_mod
  pub target : length o.target < u32_mod
  pub count : length entries < u32_mod
  pub size : length (store o.blob_alignment entries) < u32_mod

Appends-clf :
    (entries : List Blob) (o : PackOptions)
    → Fits entries o
    → Appends (write_clf entries o) (file_bytes entries o) tt
unfolding write_clf file_bytes
Appends-clf entries o h = rw (as_u32-eq_of_lt (length entries) h.count) (
    Appends-then (Appends-header o h.vendor h.target) (
      Appends-then (Appends-write _) (
        Appends-then (Appends-manifest o.blob_alignment 0 entries (omega (arith, h.size)))
          (Appends-blobs o.blob_alignment entries))))

-- On an empty stream, `pack_clf` of blobs with distinct ids writes exactly the format's header,
-- manifest and padded blobs, and returns how many bytes that is, where the sizes fit 32 bits.
pub pack_clf-file_bytes :
    (entries : List Blob) (o : PackOptions)
    → Fits entries o
    → check_duplicates [] entries ≡ ok tt
    → pack_clf entries o (at_end [])
      ≡ (ok (length (file_bytes entries o)), at_end (file_bytes entries o))
unfolding pack_clf stream_position
pack_clf-file_bytes entries o h distinct = rw (
  le→ltb u32_max (length o.vendor) (omega (arith, h.vendor)),
  le→ltb u32_max (length o.target) (omega (arith, h.target)),
  distinct,
  (Appends-clf entries o h).at [],
)
