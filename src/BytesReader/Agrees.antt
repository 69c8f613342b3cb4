-- ===== src/BytesReader/Agrees.antt =====
-- The two readers over the same bytes and manifest.
use clf.Prelude.{
  ℕ, ◌+◌, ◌*◌, ◌-◌, ◌≤◌, ◌<◌, ◌≡◌, refl, length, Option, none, some, Bool-cases, inl, inr, arith,
  ltb, ltb→le, le→ltb,
}
use clf.BytesReader
use clf.FileReader
use clf.Bytes.{u32_mod, u64_mod}
use clf.Format.{ManifestEntry}
use clf.Reader.{get}
use clf.Stream.{seek_start}
use clf.Stream.Reads.{read_exact_lem}
use clf.FileReader.{ClfReader, read_blob, add_u64}
use clf.BytesReader.{ClfReaderFromBytes, slice_blob}

-- A reader from memory with what the file reader has.
abbrev pub in_memory : ClfReader → ClfReaderFromBytes
in_memory r = record {
  header = r.header;
  manifest = r.manifest;
  contents = r.reader.bytes;
  blob_store_offset = r.blob_store_offset;
  blob_store_len = r.blob_store_len;
  signature_block_present = r.signature_block_present;
}

slice_blob-read_blob :
    (r : ClfReader) (e : ManifestEntry)
    → r.blob_store_offset + r.blob_store_len ≤ length r.reader.bytes
    → length r.reader.bytes + 2 * u32_mod ≤ u64_mod
    → e.offset < u32_mod
    → e.size < u32_mod
    → slice_blob (in_memory r) e ≡ (read_blob e r).0
unfolding slice_blob read_blob seek_start
slice_blob-read_blob r e store small offset size =
    let start = r.blob_store_offset + e.offset in
    let end = start + e.size in
    let limit = r.blob_store_offset + r.blob_store_len in
    let start_eq : add_u64 r.blob_store_offset e.offset ≡ start =
      omega (arith, store, small, offset) in
    let end_eq : add_u64 start e.size ≡ end = omega (arith, store, small, offset, size) in
    let limit_eq : add_u64 r.blob_store_offset r.blob_store_len ≡ limit =
      omega (arith, store, small) in
    elim (Bool-cases (ltb limit end)) [
      | inl past ↦ rw (start_eq, end_eq, limit_eq, past) refl
      | inr within ↦
          let fits : end ≤ length r.reader.bytes = omega (arith, ltb→le _ _ within, store) in
          let exact : end - start ≡ e.size = omega arith in
          rw
            (
              start_eq,
              end_eq,
              limit_eq,
              within,
              le→ltb (length r.reader.bytes) end fits,
              exact,
              read_exact_lem e.size start r.reader.bytes fits,
            )
            refl
    ]

-- A row that was found has fields of 32 bits.
abbrev pub IsU32Row : Option ManifestEntry → Type 0
IsU32Row none = Unit
IsU32Row (some e) = (e.offset < u32_mod) × (e.size < u32_mod)

get_blob_case :
    (r : ClfReader) (op_id : ℕ) (found : Option ManifestEntry)
    → get op_id r.manifest ≡ found
    → IsU32Row found
    → r.blob_store_offset + r.blob_store_len ≤ length r.reader.bytes
    → length r.reader.bytes + 2 * u32_mod ≤ u64_mod
    → BytesReader.get_blob (in_memory r) op_id ≡ (FileReader.get_blob op_id r).0
unfolding BytesReader.get_blob FileReader.get_blob
get_blob_case r op_id none e h store small = rw (e, BytesReader.get_blob, FileReader.get_blob) refl
get_blob_case r op_id (some row) e (offset, size) store small =
    rw (e, BytesReader.get_blob, FileReader.get_blob)
      (slice_blob-read_blob r row store small offset size)

-- Over the same bytes and manifest, `get_blob` from memory returns what `get_blob` from the file
-- returns, be it a blob, none or an error, where the blob store lies within the bytes, these are
-- short enough for no sum to wrap around, and a row that is found has fields of 32 bits.
pub get_blob-get_blob :
    (r : ClfReader) (op_id : ℕ)
    → IsU32Row (get op_id r.manifest)
    → r.blob_store_offset + r.blob_store_len ≤ length r.reader.bytes
    → length r.reader.bytes + 2 * u32_mod ≤ u64_mod
    → BytesReader.get_blob (in_memory r) op_id ≡ (FileReader.get_blob op_id r).0
get_blob-get_blob r op_id = get_blob_case r op_id (get op_id r.manifest) refl
