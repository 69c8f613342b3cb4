-- ===== src/Stream.antt =====
-- A seekable byte stream: what the program uses of `File`, `BufReader<File>` and `Cursor`.
pub mod Reads
pub mod Appends
use clf.Prelude.{ℕ, ◌+◌, ◌-◌, List, ◌++◌, length, take, drop, ltb, ◌==◌, if◌then◌else◌}
use clf.Prelude.{ok, err, Action}

pub record Stream : Type 0 where
  pub bytes : List ℕ
  pub pos : ℕ

-- The header fields that `read_len_prefixed_utf8` is called for.
pub data Field : Type 0 where
  vendor target : Field

-- The messages of `ErrorKind::InvalidData` that the reader gives.
pub data Message : Type 0 where
  field_too_large : Field → ℕ → Message
  count_exceeds_file count_exceeds_bytes : Message
  entry_past_blob_store entry_not_found : Message

pub data IoError : Type 0 where
  not_found unexpected_eof invalid_input : IoError
  invalid_data : Message → IoError

-- `read_exact` into a buffer of `n` bytes. On a short input it has read what there was.
unfoldable pub read_exact : ℕ → Action Stream IoError (List ℕ)
read_exact n s =
    let chunk = take n (drop s.pos s.bytes) in
    if length chunk == n
    then (ok chunk, record s { pos = s.pos + n })
    else (err unexpected_eof, record s { pos = s.pos + length chunk })

-- `write_all`: overwrites from the position on, and extends the stream at its end.
unfoldable pub write_all : List ℕ → Action Stream IoError (Unit {0})
write_all xs s = (
  ok tt,
  record s {
    bytes = take s.pos s.bytes ++ (xs ++ drop (s.pos + length xs) s.bytes);
    pos = s.pos + length xs;
  },
)

unfoldable pub stream_position : Action Stream IoError ℕ
stream_position s = (ok s.pos, s)

-- `seek(SeekFrom::Start(n))`
unfoldable pub seek_start : ℕ → Action Stream IoError ℕ
seek_start n s = (ok n, record s { pos = n })

-- `seek(SeekFrom::End(-k))`: before the start it is an error.
unfoldable pub seek_end : ℕ → Action Stream IoError ℕ
seek_end k s =
    if ltb (length s.bytes) k
    then (err invalid_input, s)
    else (ok (length s.bytes - k), record s { pos = length s.bytes - k })
