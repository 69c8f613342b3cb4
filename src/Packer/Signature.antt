-- ===== src/Packer/Signature.antt =====
-- src/packer.rs: `append_signature`. `read` may return fewer bytes than were asked for.
pub mod Appended
use mathlib.Core.Logic.{dite}
use mathlib.Core.WellFounded.{Acc}
use native.Mathlib.Decide.{dec_lt}
use clf.Prelude.{
  ℕ, ◌+◌, ◌-◌, ◌≤◌, ◌<◌, min, List, [], length, take, drop, ok, Action, pure, convert, ◌>>=◌, ◌>>◌,
  arith,
}
use clf.Prelude.Order.{lt_wf}
use clf.Digest.{Sha256}
use clf.Stream.{Stream, IoError, seek_start, seek_end}
use clf.Format.{sig_magic}
use clf.Packer.{PackError, io, write}

-- How many bytes a `read` at a position returns, of those that there are: at least one of them.
pub record ShortReads : Type 0 where
  pub size : ℕ → ℕ → ℕ
  pub size_pos : (pos m : ℕ) → 0 < m → 0 < size pos m
  pub size-le : (pos m : ℕ) → size pos m ≤ m

abbrev pub block : ℕ
block = 4096

pub shrinks : (to_read got : ℕ) → 0 < to_read → 0 < got → to_read - got < to_read
shrinks to_read got p q = omega arith

module _ (sha : Sha256) (short : ShortReads) where
  -- `read` into a buffer of `n` bytes
  unfoldable pub read_some : ℕ → Action Stream IoError (List ℕ)
  read_some n s =
      let got = short.size s.pos (min n (length s.bytes - s.pos)) in
      (ok (take got (drop s.pos s.bytes)), record s { pos = s.pos + got })

  unfoldable pub hash_some :
      (to_read : ℕ) → Acc ◌<◌ to_read → sha.Hasher → Action Stream PackError sha.Hasher
  hash_some to_read (Acc.intro _ smaller) h =
      dite (dec_lt 0 to_read)
        (λ more. do
          buf ← convert io (read_some (min to_read block))
          dite (dec_lt 0 (length buf))
              (λ got.
                hash_some (to_read - length buf) (smaller _ (shrinks to_read (length buf) more got))
                  (sha.update h buf))
              (λ _. pure h))
        (λ _. pure h)

  unfoldable pub append_signature : ℕ → Action Stream PackError (Unit {0})
  append_signature data_len = do
    convert io (seek_start 0)
    hasher ← hash_some data_len (lt_wf.apply data_len) sha.new
    convert io (seek_end 0)
    write sig_magic
    write (sha.finalize hasher)
