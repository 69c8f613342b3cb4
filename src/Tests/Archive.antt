-- ===== src/Tests/Archive.antt =====
-- The packer and the reader at the sample.
use mathlib.Core.Option
use clf.Prelude.{
  ℕ, ◌+◌, ◌*◌, ◌≡◌, ◌↔◌, refl, true, ok, err, some, none, List, [], ◌∷◌, ◌++◌, length, replicate,
  ◌&&◌, ◌||◌,
}
use clf.Utf8.{text}
use clf.Digest.{digest}
use clf.Stream.Reads.{at_pos}
use clf.Stream.Appends.{at_end}
use clf.Format.{memory_movement, sig_magic}
use clf.Packer.{pack_clf}
use clf.Packer.Layout.{file_bytes, header_bytes, store, stored, padding, pack_clf-file_bytes}
use clf.Packer.Signature.{append_signature}
use clf.Packer.Signature.Appended.{append_signature_lem}
use clf.Reader.{fail, skip, missing_op_id}
use clf.Reader.Fields.{header_read}
use clf.Reader.Table.{blob_of}
use clf.FileReader.{ClfReader, Disk, open_with_expected_kind, get_blob}
use clf.FileReader.RoundTrip.{signed, opened, opened-Holds, pack-open-get_blob, open-file_bytes}
use mathlib.Core.List.{Permᴰ}
use clf.FileReader.Section.{manifest_entries, op_ids}
use clf.FileReader.Section.Iteration.{drain, drain-blobs_iter}
use clf.FileReader.Section.{blobs_iter}
use clf.Reader.Sorting.{sort_by_key}
use clf.FileReader.Section.Listings.{open_stream-op_ids}
use clf.Reader.Sorting.Ascending.{IsAscending}
use clf.Packer.{contains}
use clf.Reader.{get, insert}
use clf.Reader.Fields.{insert_all}
use clf.Packer.Layout.{rows}
use clf.Reader.Sorting.{place}
use clf.Prelude.{arith}
use clf.Prelude.{map, false}
use clf.FileReader.Section.{build_code_section}
use clf.FileReader.Section.Code.{code_of, build_code_section-skip, build_code_section-fail}
use clf.FileReader.Verify.{verify_signature}
use clf.FileReader.Verify.Verdict.{
  verdict, marked, hash_matches, left_at, verify_signature_lem, verify-ok_iff,
}
use clf.FileReader.Opening.{ends_signed}
use clf.Tests.Samples.{sample, options, sample-IsPackable, total, checksum, single}

pack_clf-file_bytes_example :
    pack_clf sample options (at_end [])
    ≡ (ok (length (file_bytes sample options)), at_end (file_bytes sample options))
pack_clf-file_bytes_example =
    pack_clf-file_bytes sample options sample-IsPackable.fits sample-IsPackable.distinct

abbrev tail : List ℕ
tail = sig_magic ++ replicate 32 7

abbrev disk : Disk
disk path = some ((pack_clf sample options (at_end [])).1.bytes ++ tail)

pack-open-get_blob_example :
    (r : ClfReader) × (open_with_expected_kind disk (text "a.clfmm") (some memory_movement) ≡ ok r)
    × (r.header ≡ header_read options)
    × (r.blob_store_offset ≡ length (header_bytes options) + 4 + 12 * length sample)
    × (r.blob_store_len ≡ length (store 4 sample))
    × ((k : ℕ) → (get_blob k r).0 ≡ ok (Option.map (stored 4) (blob_of k sample)))
pack-open-get_blob_example =
    pack-open-get_blob disk (text "a.clfmm") (some memory_movement) sample options tail
      sample-IsPackable refl (signed (replicate 32 7) refl) refl

append_signature_lem_example :
    append_signature checksum single 3 (at_pos (5 ∷ 6 ∷ 7 ∷ []) 3)
    ≡ (ok tt, at_end (5 ∷ 6 ∷ 7 ∷ (sig_magic ++ replicate 32 18)))
unfolding total
append_signature_lem_example = append_signature_lem checksum single (5 ∷ 6 ∷ 7 ∷ []) 3

abbrev reader : ClfReader
reader = opened sample options (file_bytes sample options ++ tail)

abbrev body : List ℕ
body = file_bytes sample options

verify_signature_lem_example : verify_signature checksum reader ≡ (
  verdict checksum reader.reader.bytes,
  marked checksum reader
      ((ends_signed reader.reader.bytes && hash_matches checksum reader.reader.bytes)
        || reader.signature_verified)
      (left_at checksum reader),
)
verify_signature_lem_example = verify_signature_lem checksum reader

verify-ok_iff_example :
    ((verify_signature checksum reader).0 ≡ ok true)
    ↔ ((part : List ℕ) × (reader.reader.bytes ≡ part ++ (sig_magic ++ digest checksum part)))
verify-ok_iff_example = verify-ok_iff checksum reader

build_code_section-skip_example :
    (build_code_section (1 ∷ 7 ∷ 50 ∷ []) skip reader).0 ≡ ok (code_of 4 sample (1 ∷ 7 ∷ 50 ∷ []))
build_code_section-skip_example =
    build_code_section-skip 4 sample reader (1 ∷ 7 ∷ 50 ∷ [])
      (opened-Holds sample options tail sample-IsPackable (signed (replicate 32 7) refl))

build_code_section-fail_example :
    ((build_code_section (1 ∷ 50 ∷ []) fail reader).0 ≡ ok (code_of 4 sample (1 ∷ 50 ∷ [])))
    × ((missing : ℕ) (more : List ℕ)
        → blob_of missing sample ≡ none
        → (build_code_section ((1 ∷ 50 ∷ []) ++ missing ∷ more) fail reader).0
          ≡ err (missing_op_id missing))
unfolding blob_of
build_code_section-fail_example =
    build_code_section-fail 4 sample reader (1 ∷ 50 ∷ [])
      (opened-Holds sample options tail sample-IsPackable (signed (replicate 32 7) refl))
      ((4 ∷ [], refl), ((9 ∷ 8 ∷ 7 ∷ 6 ∷ 5 ∷ [], refl), tt))

code_of-sample :
    code_of 4 sample (1 ∷ 7 ∷ 50 ∷ []) ≡ 4 ∷ 0 ∷ 0 ∷ 0 ∷ 9 ∷ 8 ∷ 7 ∷ 6 ∷ 5 ∷ 0 ∷ 0 ∷ 0 ∷ []
unfolding code_of blob_of stored padding
code_of-sample = refl

open_stream-op_ids_example :
    IsAscending (op_ids reader)
    × (map (λ e. e.op_id) (manifest_entries reader) ≡ op_ids reader)
    × Permᴰ (manifest_entries reader) (map (λ p. p.1) reader.manifest)
    × ((k : ℕ)
        → contains k (op_ids reader)
          ≡ elim (get k reader.manifest) [ none ↦ false | some e ↦ true ])
open_stream-op_ids_example =
    open_stream-op_ids (some memory_movement) (at_pos (body ++ tail) 0) reader
      (open-file_bytes (some memory_movement) sample options tail sample-IsPackable refl)

two_entries : length (manifest_entries reader) ≡ 2
unfolding manifest_entries sort_by_key place insert_all insert rows
two_entries = refl

drain-blobs_iter_example :
    drain 3 (blobs_iter reader) ≡ map (λ b. ok (b.0, stored 4 b.1)) (sort_by_key (λ b. b.0) sample)
drain-blobs_iter_example =
    drain-blobs_iter 4 3 sample reader
      (opened-Holds sample options tail sample-IsPackable (signed (replicate 32 7) refl))
      (omega (arith, two_entries))
