-- ===== src/RecordReader.antt =====
-- storage/record_reader.rs: the records of a log or hint file, one after another.
-- The reader is the file's bytes that are still to come. A short `read_exact` uses them up; its
-- other errors are those of a failing disk, and are not modelled. The reused buffer holds the header
-- and the body when a record is returned.
pub mod Next
pub mod Turn
use bitcask.Prelude.{ℕ, ◌+◌, ◌-◌, ◌%◌, ◌^◌, [], ◌++◌, ltb, ◌==◌, if◌then◌else◌, length, take, drop}
use bitcask.Prelude.Bytes.{Bytes}
use bitcask.Command.{header_len, body_len}

pub data RecordRead : Type 0 where
  full_record : (position : ℕ) (bytes : Bytes) → RecordRead
  clean_eof : RecordRead
  torn_tail : (position : ℕ) → RecordRead

pub record RecordReader : Type 0 where
  pub reader : Bytes
  pub position : ℕ
  pub file_len : ℕ

unfoldable pub new : Bytes → ℕ → RecordReader
new reader file_len = record { reader = reader; position = 0; file_len = file_len }

-- `a - b` on u64, as a build without overflow checks computes it.
abbrev pub sub_u64 : ℕ → ℕ → ℕ
sub_u64 a b = (a + 2 ^ 64 - b) % 2 ^ 64

unfoldable pub next_record : RecordReader → RecordRead × RecordReader
next_record r =
    let start = r.position in
    let header = take header_len r.reader in
    let rest = drop header_len r.reader in
    let len = body_len header in
    let remaining = sub_u64 (sub_u64 r.file_len start) header_len in
    if ltb (length r.reader) header_len
    then (if start == r.file_len then clean_eof else torn_tail start, record r { reader = [] })
    else if ltb remaining len
    then (torn_tail start, record r { reader = rest })
    else if ltb (length rest) len
    then (torn_tail start, record r { reader = [] })
    else (
      full_record start (header ++ take len rest),
      record r { reader = drop len rest; position = start + header_len + len },
    )
