-- ===== src/Bitcask/Outcome.antt =====
-- The state that each step of the writer leaves when it goes through.
use bitcask.Prelude.{ℕ, suc, ◌+◌, ◌≡◌, none, [], arith, length, inl, inr}
use bitcask.Prelude.Bytes.{Bytes}
use bitcask.Prelude.Map
use bitcask.Prelude.Map.{id_key, get-insert}
use bitcask.Error.{ok, Result-cases}
use bitcask.Files.{open_append, open_read, write, sync_all, at}
use bitcask.Files.Names.{data_file, file_name_key, name_eq}
use bitcask.Bitcask.State.{
  Shared, Env, insert, unix_now, write_all, sync_file, create_file, open_file,
}
use bitcask.Bitcask.Write.{sync, rotate_to, as_millis}

abbrev pub synced : Shared → Shared
synced s = record s {
  files = sync_all s.writer.file s.files;
  writer = record s.writer { flushed_offset = s.writer.offset };
  tick = suc s.tick;
}

abbrev pub written : Bytes → Shared → Shared
written bytes s = record s { files = write s.writer.file bytes s.files; tick = suc s.tick }

-- A new file, which the writer appends to from now on.
abbrev pub rotated : ℕ → ℕ → Shared → Shared
rotated id now s = record s {
  files = record {
    dir = Map.insert s.files.dir (data_file id) s.files.next_inode;
    contents = at s.files.contents s.files.next_inode [];
    durable =
        at (at s.files.durable s.writer.file (length (s.files.contents s.writer.file)))
          s.files.next_inode 0;
    next_inode = s.files.next_inode + 1;
  };
  writer = record s.writer {
    file = s.files.next_inode;
    current_file_id = id;
    flushed_offset = 0;
    offset = 0;
    last_ts_flushed = as_millis now;
  };
  readers = insert s.readers id s.files.next_inode;
  tick = suc (suc (suc (suc s.tick)));
}

module _ ⦃env : Env⦄ where
  pub sync-ok : (s : Shared) → (sync s).0 ≡ ok tt → (sync s).1 ≡ synced s
  unfolding sync sync_file
  sync-ok s e = ground arith

  pub write_all-ok :
      (bytes : Bytes) (s : Shared)
      → (write_all bytes s).0 ≡ ok tt
      → (write_all bytes s).1 ≡ written bytes s
  unfolding write_all
  write_all-ok bytes s e = ground arith

  pub rotate_to-ok :
      (id : ℕ) (s : Shared)
      → Map.get s.files.dir (data_file id) ≡ none
      → (rotate_to id s).0 ≡ ok tt
      → (now : ℕ) × ((rotate_to id s).1 ≡ rotated id now s)
  unfolding rotate_to sync sync_file name_eq create_file open_file unix_now open_append open_read
      sync_all
  rotate_to-ok id s new e = elim (Result-cases (env.clock (suc (suc s.tick)))) [
    | inl (now, c) ↦ (
      now,
      ground (arith, get-insert s.files.dir (data_file id) (data_file id) s.files.next_inode),
    )
    | inr (x, c) ↦ absurd (ground arith)
  ]
