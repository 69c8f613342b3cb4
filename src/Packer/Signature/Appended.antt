-- ===== src/Packer/Signature/Appended.antt =====
-- `append_signature` hashes what was written, whatever the sizes of the reads, and writes the hash.
use mathlib.Core.WellFounded.{Acc}
use mathlib.Core.Logic.{dif_pos, dif_neg}
use native.Mathlib.Decide.{dec_lt}
use native.Mathlib.Bridge.{le_prop}
use clf.Prelude.{ap₂, Result, take_all}
use clf.Stream.{Stream, seek_start}
use clf.Stream.Reads.{seek_end_lem}
use clf.Packer.{PackError}
use clf.Prelude.Order.{lt_wf}
use clf.Packer.Layout.{Appends-write, Appends-then}
use clf.Prelude.{length-take, length-drop}
use clf.Prelude.{
  ℕ, ◌+◌, ◌-◌, ◌≤◌, ◌<◌, ◌≡◌, sym, ap, ◌∙◌, min, List, ◌++◌, length, take, drop, ok, arith,
}
use clf.Digest.{Sha256, digest, update-take, update-take_zero}
use clf.Stream.Reads.{at_pos}
use clf.Stream.Appends.{at_end}
use clf.Format.{sig_magic}
use clf.Packer.Signature.{ShortReads, read_some, hash_some, append_signature, block, shrinks}

-- What one `read` returned.
record Got (sha : Sha256) (short : ShortReads) (n p : ℕ) (bytes : List ℕ) : Type 0 where
  buf : List ℕ
  eq : read_some sha short n (at_pos bytes p) ≡ (ok buf, at_pos bytes (p + length buf))
  is_next : take (length buf) (drop p bytes) ≡ buf
  buf_pos : 0 < length buf
  buf_le : length buf ≤ n

module _ (sha : Sha256) (short : ShortReads) where
  read_some_lem : (n p : ℕ) (bytes : List ℕ) → 0 < n → p < length bytes → Got sha short n p bytes
  unfolding read_some
  read_some_lem n p bytes pos there = record {
    buf = take got (drop p bytes);
    eq = ap (λ k. (ok (take got (drop p bytes)), at_pos bytes (p + k))) (sym len);
    is_next = ap (λ k. take k (drop p bytes)) len;
    buf_pos = omega (arith, len, short.size_pos p (min n (length bytes - p)) (omega arith));
    buf_le = omega (arith, len, short.size-le p (min n (length bytes - p)));
  }
    where
      got : ℕ
      got = short.size p (min n (length bytes - p))

      len : length (take got (drop p bytes)) ≡ got
      len = omega (
        arith,
        length-take got (drop p bytes),
        length-drop p bytes,
        short.size-le p (min n (length bytes - p)),
      )

  regroup :
      (n p : ℕ) (h : sha.Hasher) (buf bytes : List ℕ)
      → take (length buf) (drop p bytes) ≡ buf
      → length buf ≤ n
      → let b = length buf in
        let result : Result PackError sha.Hasher × Stream = (
          ok (sha.update (sha.update h buf) (take (n - b) (drop (p + b) bytes))),
          at_pos bytes (p + b + (n - b)),
        ) in
        result ≡ (ok (sha.update h (take n (drop p bytes))), at_pos bytes (p + n))
  regroup n p h buf bytes next le =
      ap₂ (λ x k. (ok x, at_pos bytes k))
        (ap (λ b. sha.update (sha.update h b) (take (n - length buf) (drop (p + length buf) bytes)))
            (sym next)
          ∙ update-take sha h (length buf) n p bytes le)
        (omega arith)

  -- From a position with enough bytes behind it, the loop hashes the next `n` bytes.
  hash_some_lem :
      (n p : ℕ) (w : Acc ◌<◌ n) (h : sha.Hasher) (bytes : List ℕ)
      → p + n ≤ length bytes
      → hash_some sha short n w h (at_pos bytes p)
        ≡ (ok (sha.update h (take n (drop p bytes))), at_pos bytes (p + n))
  unfolding hash_some
  hash_some_lem n p (Acc.intro _ smaller) h bytes fits = elim (dec_lt 0 n) [
    | no none_left ↦ rw (dif_neg _ none_left) (
        ap₂ (λ x k. (ok x, at_pos bytes k)) (update-take_zero sha h n _ (omega arith))
          (omega arith))
    | yes more ↦
        let g = read_some_lem (min n block) p bytes (omega arith) (omega arith) in
        rw (dif_pos _ le_prop more, g.eq, dif_pos _ le_prop g.buf_pos)
          (hash_some_lem (n - length g.buf) (p + length g.buf)
              (smaller _ (shrinks n (length g.buf) more g.buf_pos)) (sha.update h g.buf) bytes
              (omega (arith, g.buf_le))
            ∙ regroup n p h g.buf bytes g.is_next (omega (arith, g.buf_le)))
  ]

  -- Called with the length of what the stream holds, `append_signature` leaves those bytes as they
  -- are and appends the magic and the hash of all of them, in whatever pieces `read` returns them.
  pub append_signature_lem :
      (bytes : List ℕ) (p : ℕ)
      → append_signature sha short (length bytes) (at_pos bytes p)
        ≡ (ok tt, at_end (bytes ++ (sig_magic ++ digest sha bytes)))
  unfolding append_signature seek_start
  append_signature_lem bytes p =
      let all : take (length bytes) bytes ≡ bytes = take_all (length bytes) bytes (omega arith) in
      let no_back : length bytes - 0 ≡ length bytes = omega arith in
      rw
        (
          hash_some_lem (length bytes) 0 (lt_wf.apply (length bytes)) sha.new bytes (omega arith),
          all,
          seek_end_lem 0 (0 + length bytes) bytes (omega arith),
        )
        (rw no_back
          ((Appends-then (Appends-write sig_magic) (Appends-write (digest sha bytes))).at bytes))
