-- ===== src/BytesReader.antt =====
-- src/reader.rs: `ClfReaderFromBytes`, which reads from memory.
pub mod Agrees
use clf.Prelude.{
  ℕ, ◌-◌, Bool, ◌&&◌, ◌||◌, List, [], ◌∷◌, length, take, drop, map, Option, none, some,
}
use clf.Prelude.{ltb, leb, if◌then◌else◌, Result, ok, err, Action, pure, ◌>>=◌, ◌>>◌}
use clf.Bytes.{from_le_bytes}
use clf.Stream.{Stream, invalid_data, count_exceeds_bytes, entry_past_blob_store}
use clf.Format.{
  ClfKind, ClfHeader, ManifestEntry, text_eq, entry_size, sig_magic, sig_block_len, sig_hash_len,
}
use clf.Reader.{
  ClfError, io, guard, read, position, read_header, check_kind, Table, get, read_entries,
}
use clf.Reader.Sorting.{sort_by_key}
use clf.FileReader.{add_u64, mul_u64, store_len}
use clf.FileReader.Section.{Item, item_of}

pub record ClfReaderFromBytes : Type 0 where
  pub header : ClfHeader
  pub manifest : Table
  pub contents : List ℕ
  pub blob_store_offset : ℕ
  pub blob_store_len : ℕ
  pub signature_block_present : Bool

-- The number of rows, if there are bytes enough for them.
unfoldable pub read_count : ℕ → Action Stream ClfError ℕ
read_count data_len = do
  num_entries_buf ← read 4
  let num_entries = from_le_bytes num_entries_buf
  manifest_start ← position
  guard (leb (mul_u64 num_entries entry_size) (data_len - manifest_start))
      (io (invalid_data count_exceeds_bytes))
  pure num_entries

-- `data[from..to]`
abbrev pub slice : List ℕ → ℕ → ℕ → List ℕ
slice xs from to = take (to - from) (drop from xs)

unfoldable pub has_signature : List ℕ → Bool
has_signature bytes =
    let n = length bytes in
    leb sig_block_len n && text_eq (slice bytes (n - sig_block_len) (n - sig_hash_len)) sig_magic

unfoldable pub open_cursor : List ℕ → Option ClfKind → Action Stream ClfError ClfReaderFromBytes
open_cursor bytes expected_kind = do
  header ← read_header
  check_kind expected_kind header
  num_entries ← read_count (length bytes)
  manifest ← read_entries num_entries []
  blob_store_offset ← position
  pure (record {
    header = header;
    manifest = manifest;
    contents = bytes;
    blob_store_offset = blob_store_offset;
    blob_store_len = store_len (has_signature bytes) (length bytes) blob_store_offset;
    signature_block_present = has_signature bytes;
  })

-- `ClfReaderFromBytes::open`
unfoldable pub open_bytes : List ℕ → Option ClfKind → Result ClfError ClfReaderFromBytes
open_bytes bytes expected_kind =
    (open_cursor bytes expected_kind (record { bytes = bytes; pos = 0 })).0

unfoldable pub slice_blob : ClfReaderFromBytes → ManifestEntry → Result ClfError (Option (List ℕ))
slice_blob r e =
    let start = add_u64 r.blob_store_offset e.offset in
    let end = add_u64 start e.size in
    let blob_store_end = add_u64 r.blob_store_offset r.blob_store_len in
    if ltb blob_store_end end || ltb (length r.contents) end
    then err (io (invalid_data entry_past_blob_store))
    else ok (some (slice r.contents start end))

unfoldable pub get_blob : ClfReaderFromBytes → ℕ → Result ClfError (Option (List ℕ))
get_blob r op_id = elim (get op_id r.manifest) [ none ↦ ok none | some e ↦ slice_blob r e ]

unfoldable pub manifest_entries : ClfReaderFromBytes → List ManifestEntry
manifest_entries r = sort_by_key (λ e. e.op_id) (map (λ p. p.1) r.manifest)

pub record BlobIterFromBytes : Type 0 where
  pub reader : ClfReaderFromBytes
  pub entries : List ManifestEntry

unfoldable pub blobs_iter : ClfReaderFromBytes → BlobIterFromBytes
unfolding manifest_entries
blobs_iter r = record { reader = r; entries = manifest_entries r }

next_of : List ManifestEntry → ClfReaderFromBytes → Option Item × BlobIterFromBytes
next_of [] r = (none, record { reader = r; entries = [] })
next_of (e ∷ rest) r =
    (some (item_of e.op_id (get_blob r e.op_id)), record { reader = r; entries = rest })

-- `Iterator::next`
unfoldable pub next : BlobIterFromBytes → Option Item × BlobIterFromBytes
unfolding next_of item_of
next it = next_of it.entries it.reader
