-- ===== src/Packer.antt =====
-- src/packer.rs: `PackOptions`, `pack_clf` and `append_signature`. The arithmetic on `u32` is that of
-- a release build: casts and `next_multiple_of` wrap around.
pub mod Layout
pub mod Argument
pub mod Signature
use clf.Prelude.{ℕ, ◌+◌, ◌-◌, ◌%◌, Bool, true, false, ◌||◌, List, [], ◌∷◌, length, replicate, min}
use clf.Prelude.{ltb, leb, ◌==◌, if◌then◌else◌, Result, ok, err, Action, pure, lift, raise, convert}
use clf.Prelude.{◌>>=◌, ◌>>◌}
use clf.Bytes.{as_u32, u32_mod, to_le_bytes}
use clf.Utf8.{Text}
use clf.Stream.{Stream, IoError, write_all, stream_position}
use clf.Format.{ClfKind, compute, kind_byte, clf_magic, clf_version}

pub data PackError : Type 0 where
  io : IoError → PackError
  duplicate_op_id : ℕ → PackError
  vendor_too_long target_too_long : PackError

pub record PackOptions : Type 0 where
  pub vendor : Text
  pub target : Text
  pub blob_alignment : ℕ
  pub kind : ClfKind
  pub version : ℕ
  pub sign : Bool

-- `PackOptions::default`
abbrev pub default : PackOptions
default = record {
  vendor = [];
  target = [];
  blob_alignment = 0;
  kind = compute;
  version = clf_version;
  sign = false;
}

-- `(op_id, blob)`
abbrev pub Blob : Type 0
Blob = ℕ × List ℕ

abbrev pub u32_max : ℕ
u32_max = u32_mod - 1

unfoldable pub contains : ℕ → List ℕ → Bool
contains x [] = false
contains x (y ∷ ys) = x == y || contains x ys

-- The loop with the set `seen`.
unfoldable pub check_duplicates : List ℕ → List Blob → Result PackError (Unit {0})
unfolding contains
check_duplicates seen [] = ok tt
check_duplicates seen ((op_id, blob) ∷ rest) =
    if contains op_id seen
    then err (duplicate_op_id op_id)
    else check_duplicates (op_id ∷ seen) rest

-- `u32::next_multiple_of`
unfoldable pub next_multiple_of : ℕ → ℕ → ℕ
next_multiple_of x align = if x % align == 0 then x else as_u32 (x + (align - x % align))

unfoldable pub saturating_add : ℕ → ℕ → ℕ
saturating_add a b = min (a + b) u32_max

abbrev pub write : List ℕ → Action Stream PackError (Unit {0})
write xs = convert io (write_all xs)

abbrev pub done : Action Stream PackError (Unit {0})
done = pure tt

-- `is_empty` of a slice
abbrev pub is_empty : List ℕ → Bool
is_empty [] = true
is_empty (x ∷ xs) = false

unfoldable pub write_header : PackOptions → Action Stream PackError (Unit {0})
write_header o = do
  write clf_magic
  write (o.version ∷ [])
  write (to_le_bytes (as_u32 (length o.vendor)))
  write o.vendor
  write (to_le_bytes (as_u32 (length o.target)))
  if is_empty o.target then done else write o.target
  write (o.blob_alignment ∷ [])
  if leb 2 o.version then write (kind_byte o.kind ∷ []) else done

unfoldable pub write_manifest : ℕ → ℕ → List Blob → Action Stream PackError (Unit {0})
unfolding next_multiple_of saturating_add
write_manifest align offset [] = done
write_manifest align offset ((op_id, blob) ∷ rest) = do
  let padded_size = next_multiple_of (as_u32 (length blob)) align
  write (to_le_bytes op_id)
  write (to_le_bytes offset)
  write (to_le_bytes padded_size)
  write_manifest align (saturating_add offset padded_size) rest

unfoldable pub write_padding : ℕ → List ℕ → Action Stream PackError (Unit {0})
write_padding blob_alignment blob =
    if ltb 1 blob_alignment
    then (let remainder = length blob % blob_alignment in
        if remainder == 0 then done else write (replicate (blob_alignment - remainder) 0))
    else done

unfoldable pub write_blobs : ℕ → List Blob → Action Stream PackError (Unit {0})
unfolding write_padding
write_blobs blob_alignment [] = done
write_blobs blob_alignment ((op_id, blob) ∷ rest) = do
  write blob
  write_padding blob_alignment blob
  write_blobs blob_alignment rest

-- What is written once the checks have passed.
unfoldable pub write_clf : List Blob → PackOptions → Action Stream PackError (Unit {0})
unfolding write_header write_manifest write_blobs
write_clf entries o = do
  let align = if ltb 1 o.blob_alignment then o.blob_alignment else 1
  write_header o
  write (to_le_bytes (as_u32 (length entries)))
  write_manifest align 0 entries
  write_blobs o.blob_alignment entries

unfoldable pub pack_clf : List Blob → PackOptions → Action Stream PackError ℕ
unfolding check_duplicates write_clf
pack_clf entries o =
    if ltb u32_max (length o.vendor)
    then raise vendor_too_long
    else if ltb u32_max (length o.target)
    then raise target_too_long
    else do lift (check_duplicates [] entries); write_clf entries o; convert io stream_position
