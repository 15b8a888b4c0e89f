-- ===== src/Bitcask/Tests.antt =====
-- Runs of the store on a small state, and the theorems at them.
use bitcask.Prelude.{
  ◌<◌, ◌+◌, ◌*◌, ◌^◌, ◌≡◌, refl, some, none, false, [], ◌∷◌, arith, if◌then◌else◌,
}
use bitcask.Prelude.Bytes.{Bytes, bytes_eq}
use bitcask.Prelude.Map
use bitcask.Prelude.Map.{id_key}
use bitcask.Crc32.{Crc32, poly}
use bitcask.Error.{ok, err, key_not_found}
use bitcask.Config.{sync_on_every_put}
use bitcask.Files.{open_append, open_read, write, sync_all, read_exact_at}
use bitcask.Wire.{to_le_bytes, from_le_bytes}
use bitcask.BytesUtil.{read_u32, read_u64, read_u8, read_bytes}
use bitcask.Command.{serialize, deserialize, read_body, read_command, try_from}
use bitcask.Utf8.{is_utf8}
use bitcask.Files.Names.{data_file, file_name_key, name_eq}
use bitcask.Index
use bitcask.Bitcask.State.{
  Shared, Env, insert, unix_now, write_all, sync_file, create_file, open_file,
}
use bitcask.Bitcask.Write.{
  set, remove, append, post_write_ops, compaction_trigger, handle_policy, sync_by, publish, sync,
  rotate_if_full, rotate_to,
}
use bitcask.Bitcask.Read.{get_loop, read_entry}
use bitcask.Bitcask.Calm.{IsCalm}
use bitcask.Bitcask.Invariant.{IsValid}
use bitcask.Bitcask.Published.{get}
use bitcask.Bitcask.Refines.{set_refines, remove_refines, remove_missing}

instance abbrev pub crc : Crc32
crc = poly

-- A clock that moves on by a second at each call, and no faults.
instance abbrev pub calm : Env
calm = record {
  clock = λ tick. ok (1000 * tick);
  fault = λ tick. none;
  unmeasured = λ tick inode. false;
}

pub calm-IsCalm : IsCalm calm
calm-IsCalm = record { no_fault = λ tick. refl; time = λ tick. (_, refl) }

-- A store just opened in an empty directory, whose files are full at 20 bytes and which
-- compacts whenever it is asked to.
abbrev pub start : Shared
start = record {
  index = Index.empty;
  readers = (1, 0) ∷ [];
  writer = record {
    current_file_id = 1;
    file = 0;
    offset = 0;
    flushed_offset = 0;
    last_ts_flushed = 0;
    stale_bytes_count = 0;
  };
  config = record {
    durability_policy = sync_on_every_put;
    file_size_threshold = 20;
    compaction_threshold = 0;
    flush_threshold_millis = 1000;
  };
  files = record {
    dir = (data_file 1, 0) ∷ [];
    contents = λ inode. [];
    durable = λ inode. 0;
    next_inode = 1;
  };
  compaction_signal = false;
  tick = 0;
}

pub start-IsValid : IsValid start
unfolding Map.get Index.lookup name_eq
start-IsValid = record {
  structure = record {
    active = refl;
    at_end = refl;
    ids = λ id inode h. ground arith;
    inodes = λ id inode h. ground arith;
    names = λ id h. ground arith;
  };
  entries = λ key e found. absurd (cc found);
}

abbrev pub k1 : Bytes
k1 = 107 ∷ 49 ∷ []

abbrev pub v1 : Bytes
v1 = 118 ∷ 49 ∷ []

-- One key, after its file was rotated.
abbrev pub one_key : Shared
one_key = (set k1 v1 start).1

-- What a run of the writer and of a reader calls.
unfoldable pub runs : Unit {0}
unfolding set remove unix_now append write_all post_write_ops compaction_trigger handle_policy
    sync_by publish Index.lookup Index.put Index.delete Index.get_bucket Map.get Map.insert sync
    sync_file rotate_if_full rotate_to create_file open_file insert name_eq serialize to_le_bytes
    open_append open_read write sync_all get_loop read_entry read_exact_at deserialize read_u32
    read_u64 read_u8 read_bytes read_body read_command try_from from_le_bytes is_utf8 bytes_eq
runs = tt

set_went : (set k1 v1 start).0 ≡ ok tt
unfolding runs
set_went = refl

-- The file was full and the writer went on to the next; the value is still read from the first.
set_rotates : (one_key.writer.current_file_id ≡ 2) × (get one_key k1 ≡ some (ok (some v1)))
unfolding runs
set_rotates = (refl, refl)

set_refines_example :
    IsValid one_key
    × ((j : Bytes) → get one_key j ≡ (if bytes_eq k1 j then some (ok (some v1)) else get start j))
unfolding runs
set_refines_example =
    set_refines start-IsValid k1 v1 (record { body = omega arith; text = refl })
      (record { id = omega arith; offset = omega arith }) set_went

pub one_key-IsValid : IsValid one_key
one_key-IsValid = set_refines_example.0

remove_went : (remove k1 one_key).0 ≡ ok tt
unfolding runs
remove_went = refl

one_key-room : (one_key.writer.current_file_id + 1 < 2 ^ 64) × (one_key.writer.offset + 23 < 2 ^ 64)
unfolding runs
one_key-room = (omega arith, omega arith)

remove_refines_example :
    IsValid (remove k1 one_key).1
    × ((value : Bytes) × (get one_key k1 ≡ some (ok (some value))))
    × ((j : Bytes)
        → get (remove k1 one_key).1 j ≡ (if bytes_eq k1 j then some (ok none) else get one_key j))
remove_refines_example =
    remove_refines one_key-IsValid k1 (omega arith)
      (record { id = one_key-room.0; offset = one_key-room.1 }) remove_went

remove_missing_example : remove v1 start ≡ (err key_not_found, start)
unfolding runs
remove_missing_example = remove_missing start-IsValid v1 refl
