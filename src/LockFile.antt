-- ===== src/LockFile.antt =====
-- storage/lock_file.rs: which engine a directory belongs to, and who has it open. The file's lock is
-- let go when its handle is closed, on an error too. The calls of the system that may fail are a
-- parameter.
pub mod Owner
mod Tests
use bitcask.Prelude.{Option, none, some, Bool, true, false, [], ◌∷◌, ◌++◌, if◌then◌else◌, ℕ, take}
use bitcask.Prelude.Bytes.{Bytes, bytes_eq}
use bitcask.Error.{
  KvsError, Result, ok, err, IoErrorKind, io, invalid_data, store_locked, engine_mismatch,
}
use bitcask.Exec.{Exec, ◌>>=◌, ◌>>◌, pure, raise, modify}
use bitcask.KvStore.{StoreType, as_str}
use bitcask.Utf8.{is_utf8}
use bitcask.Whitespace.{trim}

-- The lock file of a directory, `none` before the first `acquire`, and whether a handle has its lock.
pub record Lock : Type 0 where
  pub marker : Option Bytes
  pub held : Bool

-- The errors of the calls; a write fails after some bytes.
pub record Faults : Type 0 where
  pub opening : Option IoErrorKind
  pub locking : Option IoErrorKind
  pub reading : Option IoErrorKind
  pub writing : Option ℕ
  pub syncing : Option IoErrorKind

abbrev pub no_faults : Faults
no_faults = record {
  opening = none;
  locking = none;
  reading = none;
  writing = none;
  syncing = none;
}

abbrev pub contents : Lock → Bytes
contents l = elim l.marker [ none ↦ [] | some bytes ↦ bytes ]

abbrev pub release : Lock → Lock
release l = record l { held = false }

-- An error with the file closed.
abbrev fail : KvsError → Exec Lock (Unit {0})
fail e l = (err e, release l)

-- A call on the open file.
abbrev calling : Option IoErrorKind → Exec Lock (Unit {0}) → Exec Lock (Unit {0})
calling none m = m
calling (some k) m = fail (io k)

abbrev pub append : Bytes → Lock → Lock
append bytes l = record l { marker = some (contents l ++ bytes) }

-- `write_all` and `sync_all` of the engine's name.
unfoldable pub stamp : Faults → StoreType → Exec Lock (Unit {0})
stamp faults engine l = elim faults.writing [
  | some k ↦ fail (io IoErrorKind.other) (append (take k (as_str engine)) l)
  | none ↦ calling faults.syncing (pure tt) (append (as_str engine) l)
]

-- The marker that was read, with the white space at its ends taken off.
unfoldable pub check_marker : Faults → StoreType → Bytes → Exec Lock (Unit {0})
check_marker faults engine [] l = stamp faults engine l
check_marker faults engine (b ∷ marker) l =
    if bytes_eq (b ∷ marker) (as_str engine)
    then (ok tt, l)
    else fail (engine_mismatch (b ∷ marker) (as_str engine)) l

-- `read_to_string`, and what follows it.
unfoldable pub read_marker : Faults → StoreType → Exec Lock (Unit {0})
read_marker faults engine l =
    calling faults.reading
      (λ l.
        if is_utf8 (contents l)
        then check_marker faults engine (trim (contents l)) l
        else fail (io IoErrorKind.invalid_data) l)
      l

-- `try_lock` of the file, which is there now. Another handle's lock stays.
unfoldable pub lock_and_check : Faults → StoreType → Exec Lock (Unit {0})
lock_and_check faults engine l = elim faults.locking [
  | some k ↦ (err (io k), l)
  | none ↦
      if l.held then (err store_locked, l) else read_marker faults engine (record l { held = true })
]

unfoldable pub acquire : Faults → StoreType → Exec Lock (Unit {0})
acquire faults engine l = elim faults.opening [
  | some k ↦ (err (io k), l)
  | none ↦ lock_and_check faults engine (record l { marker = some (contents l) })
]
