-- ===== src/Reader.antt =====
-- src/reader.rs, what both readers share: policies, errors, text fields, the header and the table.
pub mod Table
pub mod Fields
pub mod Sorting
pub mod Filed
use clf.Prelude.{ℕ, zero, suc, Bool, true, false, List, [], ◌∷◌, length, Option, none, some}
use clf.Prelude.{take, drop, ltb, leb, ◌==◌, if◌then◌else◌, not, Result, ok, err, Action}
use clf.Prelude.{pure, raise, convert, ◌>>=◌, ◌>>◌, ◌+◌, ◌*◌}
use clf.Bytes.{from_le_bytes}
use clf.Utf8.{Text, is_utf8}
use clf.Stream.{
  Stream, IoError, Field, vendor, target, invalid_data, field_too_large, read_exact,
  stream_position,
}
use clf.Format.{
  ClfKind, ClfHeader, ManifestEntry, clf_magic, clf_version, text_eq, kind_eq, try_from_byte,
}
use clf.Format.{default_for_v1, entry_size}

abbrev pub max_header_text_len : ℕ
max_header_text_len = 64 * 1024

pub data MissingOpIdPolicy : Type 0 where
  fail skip : MissingOpIdPolicy

pub data VerificationPolicy : Type 0 where
  integrity_only require_authenticity : VerificationPolicy

pub data ClfError : Type 0 where
  io : IoError → ClfError
  invalid_magic : ClfError
  unsupported_version : ℕ → ℕ → ClfError
  invalid_vendor_utf8 invalid_target_utf8 : ClfError
  invalid_kind_byte : ℕ → ClfError
  authenticity_verification_unsupported signature_invalid : ClfError
  missing_op_id : ℕ → ClfError
  kind_mismatch : ClfKind → ClfKind → ClfError

-- `if !test { return Err(e) }`
abbrev pub guard : {S : Type 0} → Bool → ClfError → Action S ClfError (Unit {0})
guard true e = pure tt
guard false e = raise e

-- `ok_or(e)?`
abbrev pub ok_or : {S A : Type 0} → Option A → ClfError → Action S ClfError A
ok_or none e = raise e
ok_or (some a) e = pure a

-- `read_exact` with its `?`
abbrev pub read : ℕ → Action Stream ClfError (List ℕ)
read n = convert io (read_exact n)

abbrev pub position : Action Stream ClfError ℕ
position = convert io stream_position

abbrev pub utf8_error : Field → ClfError
utf8_error vendor = invalid_vendor_utf8
utf8_error target = invalid_target_utf8

unfoldable pub read_len_prefixed_utf8 : Field → Action Stream ClfError Text
read_len_prefixed_utf8 name = do
  len_buf ← read 4
  let len = from_le_bytes len_buf
  guard (leb len max_header_text_len) (io (invalid_data (field_too_large name len)))
  bytes ← if ltb 0 len then read len else pure []
  guard (is_utf8 bytes) (utf8_error name)
  pure bytes

-- The only byte of a buffer of length one.
abbrev pub byte : List ℕ → ℕ
byte [] = 0
byte (b ∷ bs) = b

unfoldable pub read_kind : ℕ → Action Stream ClfError ClfKind
read_kind version =
    if leb 2 version
    then (do b ← read 1; ok_or (try_from_byte (byte b)) (invalid_kind_byte (byte b)))
    else pure default_for_v1

-- From the magic to the construction of `ClfHeader`, the same text in both readers.
unfoldable pub read_header : Action Stream ClfError ClfHeader
unfolding read_len_prefixed_utf8 read_kind
read_header = do
  magic ← read 4
  guard (text_eq magic clf_magic) invalid_magic
  version_byte ← read 1
  let version = byte version_byte
  guard (leb version clf_version) (unsupported_version version clf_version)
  v ← read_len_prefixed_utf8 vendor
  t ← read_len_prefixed_utf8 target
  blob_align_byte ← read 1
  k ← read_kind version
  header_end ← position
  pure (record {
    version = version;
    vendor = v;
    target = t;
    blob_alignment = byte blob_align_byte;
    kind = k;
    header_end = header_end;
  })

unfoldable pub check_kind : {S : Type 0} → Option ClfKind → ClfHeader → Action S ClfError (Unit {0})
check_kind none header = pure tt
check_kind (some expected) header =
    guard (kind_eq header.kind expected) (kind_mismatch expected header.kind)

-- `HashMap<u32, ManifestEntry>`; nothing depends on the order of the entries.
abbrev pub Table : Type 0
Table = List (ℕ × ManifestEntry)

-- `insert` replaces the entry of a key that is there.
unfoldable pub insert : ℕ → ManifestEntry → Table → Table
insert k e [] = (k, e) ∷ []
insert k e ((j, f) ∷ m) = if j == k then (k, e) ∷ m else (j, f) ∷ insert k e m

unfoldable pub get : ℕ → Table → Option ManifestEntry
get k [] = none
get k ((j, f) ∷ m) = if j == k then some f else get k m

abbrev pub decode_entry : List ℕ → ManifestEntry
decode_entry buf = record {
  op_id = from_le_bytes (take 4 buf);
  offset = from_le_bytes (take 4 (drop 4 buf));
  size = from_le_bytes (take 4 (drop 8 buf));
}

-- The loop over the rows of the manifest.
unfoldable pub read_entries : ℕ → Table → Action Stream ClfError Table
unfolding insert
read_entries zero m = pure m
read_entries (suc n) m = do
  entry_buf ← read entry_size
  read_entries n (insert (decode_entry entry_buf).op_id (decode_entry entry_buf) m)
