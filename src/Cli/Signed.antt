-- ===== src/Cli/Signed.antt =====
-- A signed archive that was written, verified by the same program.
use clf.Prelude.{ℕ, ◌≡◌, refl, ap, ◌∙◌, true, List, [], ◌++◌, ok, none, some, length}
use clf.Utf8.{Text}
use clf.Digest.{Sha256, digest}
use clf.Format.{sig_magic}
use clf.Format.Texts.{text_eq_refl}
use clf.Stream.Appends.{at_end}
use clf.Packer.{Blob, PackOptions}
use clf.Packer.Layout.{file_bytes, pack_clf-file_bytes}
use clf.Packer.Signature.{ShortReads}
use clf.Packer.Signature.Appended.{append_signature_lem}
use clf.Reader.{integrity_only}
use clf.FileReader.{ClfReader, Disk, open_file}
use clf.FileReader.Opening.{open_on_disk}
use clf.FileReader.RoundTrip.{IsPackable, opened, open-file_bytes, signature_found}
use clf.FileReader.Verify.{verify_with_policy}
use clf.FileReader.Verify.Verdict.{verify-ok_iff}
use clf.Sidecar.{put_file}
use clf.Cli.{World}
use clf.Cli.Verify.{verify_file}
use clf.Cli.Pack.{write_archive, on_output}

module _ (sha : Sha256) (short : ShortReads) (blobs : List Blob) (o : PackOptions) where
  -- The bytes of the signed archive.
  signed_bytes : List ℕ
  signed_bytes = file_bytes blobs o ++ (sig_magic ++ digest sha (file_bytes blobs o))

  write_archive_lem :
      IsPackable blobs o
      → o.sign ≡ true
      → write_archive sha short blobs o (at_end [])
        ≡ (ok (length (file_bytes blobs o)), at_end signed_bytes)
  unfolding write_archive signed_bytes
  write_archive_lem h signs = simp (
    pack_clf-file_bytes blobs o h.fits h.distinct,
    signs,
    append_signature_lem sha short (file_bytes blobs o) (length (file_bytes blobs o)),
  )

  put_file-same :
      (disk : Disk) (path : Text) (bytes : List ℕ) → put_file disk path bytes path ≡ some bytes
  unfolding put_file
  put_file-same disk path bytes = rw (text_eq_refl path) refl

  open_signed :
      (disk : Disk) (path : Text)
      → IsPackable blobs o
      → disk path ≡ some signed_bytes
      → open_file disk path ≡ ok (opened blobs o signed_bytes)
  unfolding open_file signed_bytes
  open_signed disk path h on_disk =
      open_on_disk disk path none _ on_disk ∙ open-file_bytes none blobs o _ h tt

  verify_signed : (verify_with_policy sha integrity_only (opened blobs o signed_bytes)).0 ≡ ok true
  unfolding verify_with_policy signed_bytes
  verify_signed = (verify-ok_iff sha (opened blobs o signed_bytes)).1 (file_bytes blobs o, refl)

  verify_opened :
      (path : Text) (w : World) (r : ClfReader)
      → open_file w.disk path ≡ ok r
      → r.signature_block_present ≡ true
      → (verify_with_policy sha integrity_only r).0 ≡ ok true
      → (verify_file sha path integrity_only w).0 ≡ ok tt
  unfolding verify_file
  verify_opened path w r opens found answer = simp (opens, found, answer)

  -- What the packing steps leave in the output file when `sign` is set passes `verify_file` with the
  -- policy `IntegrityOnly`, the default, whatever was there before and however short the reads are,
  -- where the version is at most 2, the sizes fit their fields, the ids are distinct `u32`s, and the
  -- texts are UTF-8 of at most 64 KiB.
  pub write_archive-verify_file :
      (path : Text) (w : World)
      → IsPackable blobs o
      → o.sign ≡ true
      → (verify_file sha path integrity_only
          (on_output path (write_archive sha short blobs o) w).1).0
        ≡ ok tt
  unfolding on_output signed_bytes
  write_archive-verify_file path w h signs =
      verify_opened path _ (opened blobs o signed_bytes)
        (open_signed _ path h (
          ap (λ p. put_file w.disk path p.1.bytes path) (write_archive_lem h signs)
          ∙ put_file-same w.disk path signed_bytes))
        (signature_found (file_bytes blobs o) (digest sha (file_bytes blobs o))
          (sha.length-finalize _))
        verify_signed
