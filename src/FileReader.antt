-- ===== src/FileReader.antt =====
-- src/reader.rs: `ClfReader`, which reads a file.
pub mod Opening
pub mod RoundTrip
pub mod Serving
pub mod Verify
pub mod Section
use clf.Prelude.{ℕ, Bool, false, List, [], Option, none, some}
use clf.Prelude.{ltb, leb, if◌then◌else◌, Result, ok, err, Action}
use clf.Prelude.{pure, convert, ◌>>=◌, ◌>>◌, ◌+◌, ◌*◌, ◌-◌, ◌%◌}
use clf.Bytes.{from_le_bytes, u64_mod}
use clf.Utf8.{Text}
use clf.Stream.{Stream, IoError, not_found, invalid_data, read_exact, seek_start, seek_end}
use clf.Stream.{count_exceeds_file, entry_past_blob_store}
use clf.Format.{ClfKind, ClfHeader, ManifestEntry, text_eq, entry_size, sig_magic, sig_block_len}
use clf.Reader.{ClfError, io}
use clf.Reader.{guard, read, position, read_header, check_kind, Table, get, read_entries}

pub record ClfReader : Type 0 where
  pub header : ClfHeader
  pub manifest : Table
  pub reader : Stream
  pub blob_store_offset : ℕ
  pub blob_store_len : ℕ
  pub signature_block_present : Bool
  pub signature_verified : Bool

-- `u64` addition and multiplication
abbrev pub add_u64 : ℕ → ℕ → ℕ
add_u64 a b = (a + b) % u64_mod

abbrev pub mul_u64 : ℕ → ℕ → ℕ
mul_u64 a b = a * b % u64_mod

abbrev pub seek_to : ℕ → Action Stream ClfError ℕ
seek_to n = convert io (seek_start n)

abbrev pub seek_back : ℕ → Action Stream ClfError ℕ
seek_back k = convert io (seek_end k)

-- The number of rows, if the file is long enough for them, and the length of the file.
unfoldable pub read_count : Action Stream ClfError (ℕ × ℕ)
read_count = do
  num_entries_buf ← read 4
  let num_entries = from_le_bytes num_entries_buf
  manifest_start ← position
  file_len ← seek_back 0
  guard (leb (mul_u64 num_entries entry_size) (file_len - manifest_start))
      (io (invalid_data count_exceeds_file))
  seek_to manifest_start
  pure (num_entries, file_len)

-- A result as a value, in place of an early return.
abbrev pub attempt :
    Action Stream IoError (List ℕ) → Action Stream ClfError (Result IoError (List ℕ))
attempt m s = let (r, s') = m s in (ok r, s')

abbrev pub is_sig_magic : Result IoError (List ℕ) → Bool
is_sig_magic (ok bytes) = text_eq bytes sig_magic
is_sig_magic (err e) = false

unfoldable pub find_signature : ℕ → Action Stream ClfError Bool
find_signature file_len =
    if leb sig_block_len file_len
    then (do seek_back sig_block_len; magic ← attempt (read_exact 4); pure (is_sig_magic magic))
    else pure false

abbrev pub store_len : Bool → ℕ → ℕ → ℕ
store_len has_sig file_len blob_store_offset =
    if has_sig then file_len - sig_block_len - blob_store_offset else file_len - blob_store_offset

abbrev pub this : Action Stream ClfError Stream
this s = (ok s, s)

unfoldable pub open_stream : Option ClfKind → Action Stream ClfError ClfReader
open_stream expected_kind = do
  header ← read_header
  check_kind expected_kind header
  (num_entries, file_len) ← read_count
  manifest ← read_entries num_entries []
  blob_store_offset ← position
  has_sig ← find_signature file_len
  seek_to blob_store_offset
  reader ← this
  pure (record {
    header = header;
    manifest = manifest;
    reader = reader;
    blob_store_offset = blob_store_offset;
    blob_store_len = store_len has_sig file_len blob_store_offset;
    signature_block_present = has_sig;
    signature_verified = false;
  })

-- The files by their paths.
abbrev pub Disk : Type 0
Disk = Text → Option (List ℕ)

open_bytes : Option (List ℕ) → Option ClfKind → Result ClfError ClfReader
open_bytes none expected_kind = err (io not_found)
open_bytes (some bytes) expected_kind =
    (open_stream expected_kind (record { bytes = bytes; pos = 0 })).0

unfoldable pub open_with_expected_kind : Disk → Text → Option ClfKind → Result ClfError ClfReader
unfolding open_bytes
open_with_expected_kind disk path expected_kind = open_bytes (disk path) expected_kind

unfoldable pub open_file : Disk → Text → Result ClfError ClfReader
unfolding open_with_expected_kind
open_file disk path = open_with_expected_kind disk path none

-- A step on the field `reader`.
abbrev pub on_reader : {A : Type 0} → Action Stream ClfError A → Action ClfReader ClfError A
on_reader m r = let (x, s) = m r.reader in (x, record r { reader = s })

unfoldable pub read_blob : ManifestEntry → Action ClfReader ClfError (Option (List ℕ))
read_blob e r =
    let start = add_u64 r.blob_store_offset e.offset in
    let end = add_u64 start e.size in
    if ltb (add_u64 r.blob_store_offset r.blob_store_len) end
    then (err (io (invalid_data entry_past_blob_store)), r)
    else on_reader (do seek_to start; blob ← read e.size; pure (some blob)) r

unfoldable pub get_blob : ℕ → Action ClfReader ClfError (Option (List ℕ))
get_blob op_id r = elim (get op_id r.manifest) [ none ↦ (ok none, r) | some e ↦ read_blob e r ]
