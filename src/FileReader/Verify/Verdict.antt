-- ===== src/FileReader/Verify/Verdict.antt =====
-- The verdict of `verify_signature` as a function of the bytes of the file.
use mathlib.Core.Logic.{dif_pos, dif_neg}
use mathlib.Core.WellFounded.{Acc}
use native.Mathlib.Decide.{dec_lt}
use native.Mathlib.Bridge.{le_prop}
use clf.Prelude.{
  ℕ, ◌+◌, ◌-◌, ◌≤◌, ◌<◌, ◌≡◌, sym, ap, ap₂, ◌∙◌, min, Bool, true, false, List, ◌++◌, length, take,
  drop,
}
use clf.Prelude.{
  ◌||◌, ◌&&◌, ltb, le→leb, ltb→le, ltb→lt, ◌↔◌, length-drop, drop-drop, take_all, ok, err, Result,
  arith, Bool-cases, inl, inr, if◌then◌else◌,
}
use clf.Prelude.Order.{lt_wf}
use clf.Digest.{Sha256, digest, update-take, update-take_zero}
use clf.Stream.{seek_start}
use clf.Stream.Reads.{at_pos, read_exact_lem, seek_end_lem}
use clf.Prelude.{take-append, drop-append, length-append, take-append-drop, leb→le}
use clf.Format.Texts.{text_eq→eq, text_eq_refl}
use clf.FileReader.RoundTrip.{signature_found}
use clf.Format.{text_eq, sig_magic, sig_block_len, sig_hash_len}
use clf.Reader.{ClfError, signature_invalid}
use clf.FileReader.{ClfReader}
use clf.FileReader.Opening.{ends_signed, ends_signed_short, ends_signed_parts}
use clf.FileReader.Verify.{block, shrinks, hash_exact, check_hash, read_signature, verify_signature}

module _ (sha : Sha256) where
  -- The part of a file that a signature covers, and the hash that the file holds.
  abbrev pub signed_part : List ℕ → List ℕ
  signed_part bytes = take (length bytes - sig_block_len) bytes

  abbrev pub stored_hash : List ℕ → List ℕ
  stored_hash bytes = drop (length bytes - sig_hash_len) bytes

  abbrev pub verdict : List ℕ → Result ClfError Bool
  verdict bytes =
      if ends_signed bytes
      then (if text_eq (digest sha (signed_part bytes)) (stored_hash bytes)
          then ok true
          else err signature_invalid)
      else ok false

  hash_exact_lem :
      (n p : ℕ) (w : Acc ◌<◌ n) (h : sha.Hasher) (bytes : List ℕ)
      → p + n ≤ length bytes
      → hash_exact sha n w h (at_pos bytes p)
        ≡ (ok (sha.update h (take n (drop p bytes))), at_pos bytes (p + n))
  unfolding hash_exact
  hash_exact_lem n p (Acc.intro _ smaller) h bytes fits = elim (dec_lt 0 n) [
    | no none_left ↦ rw (dif_neg _ none_left) (
        ap₂ (λ x k. (ok x, at_pos bytes k)) (update-take_zero sha h n _ (omega arith))
          (omega arith))
    | yes more ↦
        rw (dif_pos _ le_prop more, read_exact_lem (min n block) p bytes (omega arith))
          (hash_exact_lem (n - min n block) (p + min n block) (smaller _ (shrinks n more))
              (sha.update h (take (min n block) (drop p bytes))) bytes (omega arith)
            ∙ ap₂ (λ x k. (ok x, at_pos bytes k))
                (update-take sha h (min n block) n p bytes (omega arith)) (omega arith))
  ]

  -- What `verify_signature` leaves in the reader besides the position of the file.
  abbrev pub marked : ClfReader → Bool → ℕ → ClfReader
  marked r verified p = record r { reader = at_pos r.reader.bytes p; signature_verified = verified }

  -- The hash in the file is that of the signed part.
  abbrev pub hash_matches : List ℕ → Bool
  hash_matches bytes = text_eq (digest sha (signed_part bytes)) (stored_hash bytes)

  -- Where `verify_signature` leaves the file: at the blob store after a match, for the next `get_blob`;
  -- in front of the signature after a mismatch; and at the end if there is no signature.
  abbrev pub left_at : ClfReader → ℕ
  left_at r =
      let bytes = r.reader.bytes in
      if ends_signed bytes
      then (if hash_matches bytes then r.blob_store_offset else length bytes - sig_block_len)
      else length bytes

  check_hash_lem :
      (r : ClfReader)
      → sig_block_len ≤ length r.reader.bytes
      → check_hash sha (length r.reader.bytes) (stored_hash r.reader.bytes) r ≡ (
        (if hash_matches r.reader.bytes then ok true else err signature_invalid),
        marked r (hash_matches r.reader.bytes || r.signature_verified) (
            if hash_matches r.reader.bytes
            then r.blob_store_offset
            else length r.reader.bytes - sig_block_len),
      )
  unfolding check_hash seek_start
  check_hash_lem r long =
      let bytes = r.reader.bytes in
      let n = length bytes - sig_block_len in
      let hashed = hash_exact_lem n 0 (lt_wf.apply n) sha.new bytes (omega arith) in
      elim (Bool-cases (hash_matches bytes)) [
        | inl good ↦ rw (hashed, good)
        | inr bad ↦ let from_start : 0 + n ≡ n = omega arith in rw (hashed, bad, from_start)
      ]

  read_signature_lem :
      (r : ClfReader)
      → sig_block_len ≤ length r.reader.bytes
      → read_signature sha (length r.reader.bytes) r ≡ (
        verdict r.reader.bytes,
        marked r
            ((ends_signed r.reader.bytes && hash_matches r.reader.bytes) || r.signature_verified)
            (left_at r),
      )
  unfolding read_signature ends_signed
  read_signature_lem r long =
      let bytes = r.reader.bytes in
      let start = length bytes - sig_block_len in
      let back = seek_end_lem sig_block_len r.reader.pos bytes long in
      let block_read = read_exact_lem sig_block_len start bytes (omega arith) in
      let whole : take sig_block_len (drop start bytes) ≡ drop start bytes =
        take_all sig_block_len (drop start bytes) (omega (arith, length-drop start bytes)) in
      let at_hash : drop 4 (drop start bytes) ≡ stored_hash bytes =
        drop-drop 4 start bytes ∙ ap (λ k. drop k bytes) (omega arith) in
      elim (Bool-cases (text_eq (take 4 (drop start bytes)) sig_magic)) [
        | inr other ↦
            let end : start + sig_block_len ≡ length bytes = omega arith in
            rw (back, block_read, whole, other, le→leb _ _ long, end)
        | inl found ↦
            rw (back, block_read, whole, found, le→leb _ _ long, at_hash)
              (check_hash_lem (record r { reader = at_pos bytes (start + sig_block_len) }) long)
      ]

  -- On any file, `verify_signature` answers `Ok(false)` without a signature block at the end, and
  -- otherwise `Ok(true)` or `SignatureInvalid` as the SHA-256 of everything before the block is or is
  -- not the hash in it; the reader is marked as verified exactly if it was before or the answer is
  -- `Ok(true)`. The file is left at the blob store after `Ok(true)`, in front of the block after
  -- `SignatureInvalid`, and at its end after `Ok(false)`. Nothing else in the reader changes.
  pub verify_signature_lem :
      (r : ClfReader)
      → verify_signature sha r ≡ (
        verdict r.reader.bytes,
        marked r
            ((ends_signed r.reader.bytes && hash_matches r.reader.bytes) || r.signature_verified)
            (left_at r),
      )
  unfolding verify_signature
  verify_signature_lem r =
      let bytes = r.reader.bytes in
      let sized = seek_end_lem 0 r.reader.pos bytes (omega arith) in
      let no_back : length bytes - 0 ≡ length bytes = omega arith in
      elim (Bool-cases (ltb (length bytes) sig_block_len)) [
        | inl short ↦ rw (sized, no_back, short, ends_signed_short bytes (ltb→lt _ _ short))
        | inr long ↦
            rw (sized, no_back, long)
              (read_signature_lem (record r { reader = at_pos bytes (length bytes) })
                (ltb→le _ _ long))
      ]

  verdict-ok :
      (bytes : List ℕ)
      → verdict bytes ≡ ok true
      → bytes ≡ signed_part bytes ++ (sig_magic ++ digest sha (signed_part bytes))
  verdict-ok bytes h =
      sym (take-append-drop n bytes)
      ∙ ap (λ t. take n bytes ++ t)
          (sym (take-append-drop 4 (drop n bytes)) ∙ ap₂ (λ s t. s ++ t) magic hash)
    where
      n : ℕ
      n = length bytes - sig_block_len

      found : ends_signed bytes ≡ true
      found = ground arith

      matching : hash_matches bytes ≡ true
      matching = ground arith

      long : sig_block_len ≤ length bytes
      long = leb→le _ _ (ends_signed_parts bytes found).0

      magic : take 4 (drop n bytes) ≡ sig_magic
      magic = text_eq→eq _ _ (ends_signed_parts bytes found).1

      hash : drop 4 (drop n bytes) ≡ digest sha (signed_part bytes)
      hash =
          drop-drop 4 n bytes
          ∙ ap (λ k. drop k bytes) (omega (arith, long))
          ∙ sym (text_eq→eq _ _ matching)

  verdict-signed : (body : List ℕ) → verdict (body ++ (sig_magic ++ digest sha body)) ≡ ok true
  verdict-signed body =
      let bytes = body ++ (sig_magic ++ digest sha body) in
      let hash_len = sha.length-finalize (sha.update sha.new body) in
      let total : length bytes ≡ length body + 36 =
        length-append body (sig_magic ++ digest sha body) ∙ omega (arith, hash_len) in
      let part : signed_part bytes ≡ body =
        ap (λ k. take k bytes) (omega (arith, total)) ∙ take-append body _ in
      let kept : stored_hash bytes ≡ digest sha body =
        ap (λ k. drop k bytes) (omega (arith, total))
        ∙ sym (drop-drop 4 (length body) bytes)
        ∙ ap (drop 4) (drop-append body (sig_magic ++ digest sha body)) in
      rw (
        signature_found body (digest sha body) hash_len,
        part,
        kept,
        text_eq_refl (digest sha body),
      )

  -- `verify_signature` answers `Ok(true)` exactly for the files that consist of some bytes, the magic
  -- `SIG0` and the SHA-256 of those bytes.
  pub verify-ok_iff :
      (r : ClfReader)
      → ((verify_signature sha r).0 ≡ ok true)
        ↔ ((body : List ℕ) × (r.reader.bytes ≡ body ++ (sig_magic ++ digest sha body)))
  verify-ok_iff r =
      let answer = ap (λ t. t.0) (verify_signature_lem r) in
      (
        λ h. (signed_part r.reader.bytes, verdict-ok r.reader.bytes (sym answer ∙ h)),
        λ (body, e). answer ∙ ap verdict e ∙ verdict-signed body,
      )
