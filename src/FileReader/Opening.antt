-- ===== src/FileReader/Opening.antt =====
-- The parts of `open_with_expected_kind`, each as one equation.
use clf.Prelude.{
  ℕ, ◌+◌, ◌*◌, ◌-◌, ◌≤◌, ◌<◌, ◌≡◌, refl, sym, ap, ◌∙◌, Bool, true, false, ◌&&◌, List, [], ◌++◌,
}
use clf.Prelude.{
  length, take, drop, leb, if◌then◌else◌, leb→le, le→leb, arith, ok, Bool-cases, inl, inr,
  length-append, drop-append,
}
use clf.Bytes.{u32_mod, to_le_bytes, from_le_bytes-to_le_bytes, length-to_le_bytes}
use clf.Stream.{read_exact, seek_start, stream_position}
use clf.Stream.Reads.{Reads, at_pos, read_exact_lem, seek_end_lem, Reads-read_exact, drop-rest}
use clf.Format.{text_eq, sig_magic, sig_block_len, entry_size}
use clf.Prelude.{Option, none, some}
use clf.Format.{ClfKind, ClfHeader}
use clf.Format.Kinds.{kind_eq_iff}
use clf.Stream.{Stream}
use clf.Reader.{check_kind, Table, read_header, read_entries}
use clf.Utf8.{Text}
use clf.FileReader.{
  Disk, open_bytes, open_with_expected_kind, open_stream, store_len, read_count, find_signature,
  mul_u64,
}

-- The test on the last 36 bytes.
unfoldable pub ends_signed : List ℕ → Bool
ends_signed bytes =
    leb sig_block_len (length bytes)
    && text_eq (take 4 (drop (length bytes - sig_block_len) bytes)) sig_magic

pub ends_signed_short : (bytes : List ℕ) → length bytes < sig_block_len → ends_signed bytes ≡ false
unfolding ends_signed
ends_signed_short bytes h = ground arith

pub ends_signed_parts :
    (bytes : List ℕ)
    → ends_signed bytes ≡ true
    → (leb sig_block_len (length bytes) ≡ true)
      × (text_eq (take 4 (drop (length bytes - sig_block_len) bytes)) sig_magic ≡ true)
unfolding ends_signed
ends_signed_parts bytes h = ground arith

-- Where the stream stands after the test.
abbrev pub after_test : List ℕ → ℕ → ℕ
after_test bytes pos =
    if leb sig_block_len (length bytes) then length bytes - sig_block_len + 4 else pos

pub find_signature_lem :
    (bytes : List ℕ) (pos : ℕ)
    → find_signature (length bytes) (at_pos bytes pos)
      ≡ (ok (ends_signed bytes), at_pos bytes (after_test bytes pos))
unfolding find_signature ends_signed
find_signature_lem bytes pos = elim (Bool-cases (leb sig_block_len (length bytes))) [
  | inr short ↦ rw short
  | inl long ↦ rw (
    long,
    seek_end_lem sig_block_len pos bytes (leb→le _ _ long),
    read_exact_lem 4 (length bytes - sig_block_len) bytes (omega (arith, leb→le _ _ long)),
  )
]

count_bytes :
    (bytes rest : List ℕ) (pos n : ℕ)
    → drop pos bytes ≡ to_le_bytes n ++ rest
    → read_exact 4 (at_pos bytes pos) ≡ (ok (to_le_bytes n), at_pos bytes (pos + 4))
unfolding to_le_bytes
count_bytes bytes rest pos n h = (Reads-read_exact pos (to_le_bytes n)).at bytes rest h

pub read_count_lem :
    (bytes rest : List ℕ) (pos n : ℕ)
    → drop pos bytes ≡ to_le_bytes n ++ rest
    → n < u32_mod
    → pos + 4 + 12 * n ≤ length bytes
    → read_count (at_pos bytes pos) ≡ (ok (n, length bytes), at_pos bytes (pos + 4))
unfolding read_count stream_position seek_start
read_count_lem bytes rest pos n h small fits =
    rw
      (
        count_bytes bytes rest pos n h,
        from_le_bytes-to_le_bytes n small,
        seek_end_lem 0 (pos + 4) bytes (omega arith),
        le→leb (mul_u64 n entry_size) (length bytes - 0 - (pos + 4)) (omega arith),
      )
      (ap (λ k. (ok (n, k), at_pos bytes (pos + 4))) (omega arith))

-- A kind that `expected_kind` lets pass.
abbrev pub Accepts : Option ClfKind → ClfKind → Type 0
Accepts none k = Unit
Accepts (some expected) k = k ≡ expected

check_kind_lem :
    (expected : Option ClfKind) (h : ClfHeader) (s : Stream)
    → Accepts expected h.kind
    → check_kind expected h s ≡ (ok tt, s)
unfolding check_kind
check_kind_lem none h s a = refl
check_kind_lem (some k) h s a = rw ((kind_eq_iff h.kind k).1 a)

-- On a header, a count and rows that the parts read back, the open succeeds.
pub open_stream_lem :
    (expected : Option ClfKind) (bytes xs ys rest : List ℕ) (h : ClfHeader) (n : ℕ) (m : Table)
    → bytes ≡ xs ++ (to_le_bytes n ++ (ys ++ rest))
    → n < u32_mod
    → length ys ≡ 12 * n
    → Accepts expected h.kind
    → Reads read_header 0 xs h
    → ((p : ℕ) → Reads (read_entries n []) p ys m)
    → let start = length xs + 4 + 12 * n in
      (open_stream expected (at_pos bytes 0)).0
      ≡ ok (record {
        header = h;
        manifest = m;
        reader = at_pos bytes start;
        blob_store_offset = start;
        blob_store_len = store_len (ends_signed bytes) (length bytes) start;
        signature_block_present = ends_signed bytes;
        signature_verified = false;
      })
unfolding open_stream stream_position seek_start
open_stream_lem expected bytes xs ys rest h n m e small len a rh re = rw (
  header,
  check_kind_lem expected h (at_pos bytes (length xs)) a,
  read_count_lem bytes (ys ++ rest) (length xs) n at_count small (omega (arith, total)),
  entries,
  find_signature_lem bytes (length xs + 4 + 12 * n),
)
  where
    header : read_header (at_pos bytes 0) ≡ (ok h, at_pos bytes (length xs))
    header =
        rh.at bytes (to_le_bytes n ++ (ys ++ rest)) e
        ∙ ap (λ k. (ok h, at_pos bytes k)) (omega arith)

    at_count : drop (length xs) bytes ≡ to_le_bytes n ++ (ys ++ rest)
    at_count = ap (drop (length xs)) e ∙ drop-append xs _

    at_rows : drop (length xs + 4) bytes ≡ ys ++ rest
    at_rows =
        ap (λ k. drop (length xs + k) bytes) (sym (length-to_le_bytes n))
        ∙ drop-rest (length xs) bytes (to_le_bytes n) (ys ++ rest) at_count

    entries :
        read_entries n [] (at_pos bytes (length xs + 4))
        ≡ (ok m, at_pos bytes (length xs + 4 + 12 * n))
    entries =
        (re (length xs + 4)).at bytes rest at_rows
        ∙ ap (λ k. (ok m, at_pos bytes (length xs + 4 + k))) len

    total : length xs + (4 + (12 * n + length rest)) ≡ length bytes
    total = sym (
        ap length e
        ∙ length-append xs _
        ∙ omega (
          arith,
          length-append (to_le_bytes n) (ys ++ rest),
          length-append ys rest,
          length-to_le_bytes n,
          len,
        ))

pub open_on_disk :
    (disk : Disk) (path : Text) (expected : Option ClfKind) (bytes : List ℕ)
    → disk path ≡ some bytes
    → open_with_expected_kind disk path expected ≡ (open_stream expected (at_pos bytes 0)).0
unfolding open_with_expected_kind
open_on_disk disk path expected bytes h = rw (h, open_bytes)
