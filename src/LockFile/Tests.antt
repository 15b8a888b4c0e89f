-- ===== src/LockFile/Tests.antt =====
-- A fresh directory, opened by one engine and then by the other.
use bitcask.Prelude.{◌≡◌, refl, none, false}
use bitcask.Error.{ok, err, store_locked}
use bitcask.KvStore.{bitcask_type, sled_type}
use bitcask.Utf8.{is_utf8}
use bitcask.Whitespace.{trim_start, trim_end}
use bitcask.LockFile.{
  Lock, no_faults, release, stamp, check_marker, read_marker, lock_and_check, acquire,
}
use bitcask.LockFile.Owner.{reopened, acquire-owns}

abbrev fresh : Lock
fresh = record { marker = none; held = false }

fresh_opens : (acquire no_faults sled_type fresh).0 ≡ ok tt
unfolding acquire lock_and_check read_marker check_marker stamp is_utf8 trim_start trim_end
fresh_opens = refl

acquire-owns_example :
    (acquire no_faults bitcask_type (acquire no_faults sled_type fresh).1
      ≡ (err store_locked, (acquire no_faults sled_type fresh).1))
    × (acquire no_faults bitcask_type (release (acquire no_faults sled_type fresh).1)
        ≡ reopened sled_type bitcask_type (release (acquire no_faults sled_type fresh).1))
acquire-owns_example = acquire-owns no_faults sled_type fresh fresh_opens bitcask_type
