-- ===== src/Tests/Samples.antt =====
-- Two blobs, options with alignment 4, and stand-ins for SHA-256 and for the sizes of reads.
use clf.Prelude.{
  zero, suc, ℕ, ◌+◌, ◌%◌, refl, true, List, [], ◌∷◌, ◌++◌, replicate, All, append_assoc, append-nil,
  arith, length-replicate, min,
}
use clf.Bytes.{IsByte}
use clf.Utf8.{text, is_utf8}
use clf.Digest.{Sha256}
use clf.Format.{memory_movement}
use clf.Packer.{Blob, PackOptions, check_duplicates}
use clf.Packer.Layout.{store, stored, padding}
use clf.Packer.Signature.{ShortReads}
use clf.FileReader.RoundTrip.{IsPackable}

abbrev pub sample : List Blob
sample = (50, 9 ∷ 8 ∷ 7 ∷ 6 ∷ 5 ∷ []) ∷ (1, 4 ∷ []) ∷ []

abbrev pub options : PackOptions
options = record {
  vendor = text "acme";
  target = [];
  blob_alignment = 4;
  kind = memory_movement;
  version = 2;
  sign = true;
}

pub sample-IsPackable : IsPackable sample options
unfolding store stored padding check_duplicates is_utf8
sample-IsPackable = record {
  fits = omega arith;
  readable = record {
    vendor_len = omega arith;
    target_len = omega arith;
    vendor_utf8 = refl;
    target_utf8 = refl;
    version = omega arith;
  };
  entry_ids = omega arith;
  distinct = refl;
}

unfoldable pub total : List ℕ → ℕ
total [] = 0
total (x ∷ xs) = x + total xs

pub replicate-IsByte : (n b : ℕ) → IsByte b → All IsByte (replicate n b)
replicate-IsByte zero b h = tt
replicate-IsByte (suc n) b h = (h, replicate-IsByte n b h)

-- The sum of the bytes, 32 times.
abbrev pub checksum : Sha256
checksum = record {
  Hasher = List ℕ;
  new = [];
  update = λ h xs. h ++ xs;
  finalize = λ h. replicate 32 (total h % 256);
  update-nil = append-nil;
  update-append = append_assoc;
  finalize-IsByte = λ h. replicate-IsByte 32 (total h % 256) (omega arith);
  length-finalize = λ h. length-replicate 32 (total h % 256);
}

-- Reads of one byte.
abbrev pub single : ShortReads
single = record {
  size = λ pos m. min m 1;
  size_pos = λ pos m h. omega arith;
  size-le = λ pos m. omega arith;
}
