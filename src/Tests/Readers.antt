-- ===== src/Tests/Readers.antt =====
-- The two readers at a concrete file.
use clf.Prelude.{◌≡◌, arith, false, [], ◌∷◌}
use clf.BytesReader
use clf.Reader.{get}
use clf.FileReader
use clf.Format.{compute}
use clf.FileReader.{ClfReader}
use clf.BytesReader.Agrees.{in_memory, get_blob-get_blob}

-- One row whose blob is the third and fourth byte of the contents.
abbrev two_bytes : ClfReader
two_bytes = record {
  header = record {
    version = 2;
    vendor = [];
    target = [];
    blob_alignment = 0;
    kind = compute;
    header_end = 1;
  };
  manifest = (7, record { op_id = 7; offset = 1; size = 2 }) ∷ [];
  reader = record { bytes = 1 ∷ (2 ∷ (3 ∷ (4 ∷ []))); pos = 0 };
  blob_store_offset = 1;
  blob_store_len = 3;
  signature_block_present = false;
  signature_verified = false;
}

get_blob-get_blob_example :
    BytesReader.get_blob (in_memory two_bytes) 7 ≡ (FileReader.get_blob 7 two_bytes).0
unfolding get
get_blob-get_blob_example = get_blob-get_blob two_bytes 7 (omega arith) (omega arith) (omega arith)
