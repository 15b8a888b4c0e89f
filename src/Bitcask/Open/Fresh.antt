-- ===== src/Bitcask/Open/Fresh.antt =====
-- Opening an empty directory gives an empty store.
use bitcask.Prelude.{ℕ, ◌≡◌, refl, none, some, [], ◌∷◌, ◌+◌, ==_refl, arith}
use bitcask.Prelude.Bytes.{Bytes}
use bitcask.Prelude.Map
use bitcask.Prelude.Map.{id_key}
use bitcask.Crc32.{Crc32}
use bitcask.Error.{ok}
use bitcask.Config.{Config}
use bitcask.RecordReader
use bitcask.RecordReader.{next_record}
use bitcask.Files.{Files, open_append, open_read, at}
use bitcask.Files.Names.{data_file, file_name_key, name_eq}
use bitcask.Index
use bitcask.Bitcask.State.{Shared, insert}
use bitcask.Bitcask.Write.{as_millis}
use bitcask.Bitcask.Loader.{Loader, replay, replay_files, replay_file, replay_data, data_loop}
use bitcask.Bitcask.Lookup.{get_loop_missing}
use bitcask.Bitcask.Invariant.{IsValid}
use bitcask.Bitcask.Published.{get}
use bitcask.Bitcask.Open.{scan, open_loader, shared_of, open_replayed, open_bitcask}

module _ ⦃crc32 : Crc32⦄ where
  -- A replay of one empty file.
  replay_empty :
      (l : Loader) (inode : ℕ)
      → l.readers ≡ (l.writer.current_file_id, inode) ∷ []
      → l.files.contents inode ≡ []
      → replay l ≡ some (ok tt, record l { writer = record l.writer { offset = 0 } })
  unfolding replay replay_files replay_file replay_data data_loop RecordReader.new next_record
  replay_empty l inode one e =
      rw (replay, one, replay_files, replay_file, ==_refl l.writer.current_file_id, replay_data, e)
        refl

  -- The loader that an empty directory gives.
  abbrev first_loader : ℕ → (ℕ → Bytes) → (ℕ → ℕ) → ℕ → Loader
  first_loader now contents durable inode = record {
    readers = (1, inode) ∷ [];
    index = Index.empty;
    writer = record {
      current_file_id = 1;
      file = inode;
      offset = 0;
      flushed_offset = 0;
      last_ts_flushed = as_millis now;
      stale_bytes_count = 0;
    };
    files = record {
      dir = (data_file 1, inode) ∷ [];
      contents = at contents inode [];
      durable = at durable inode 0;
      next_inode = inode + 1;
    };
  }

  first-IsValid :
      (config : Config) (now : ℕ) (contents : ℕ → Bytes) (durable : ℕ → ℕ) (inode : ℕ)
      → IsValid (shared_of config (first_loader now contents durable inode))
  unfolding Map.get Index.lookup name_eq
  first-IsValid config now contents durable inode = record {
    structure = record {
      active = refl;
      at_end = rw (==_refl inode) refl;
      ids = λ id f h. ground (arith, h);
      inodes = λ id f h. ground (arith, h);
      names = λ id h. ground (arith, h);
    };
    entries = λ key e found. absurd (cc found);
  }

  opens_first :
      (config : Config) (now : ℕ) (contents : ℕ → Bytes) (durable : ℕ → ℕ) (inode : ℕ)
      → open_bitcask config now
          (record { dir = []; contents = contents; durable = durable; next_inode = inode })
        ≡ some (ok (shared_of config (first_loader now contents durable inode)))
  unfolding open_bitcask open_replayed scan open_loader open_append open_read Map.get Map.insert
      Map.remove insert name_eq
  opens_first config now contents durable inode =
      rw
        (
          open_bitcask,
          open_replayed,
          replay_empty (first_loader now contents durable inode) inode refl
              (rw (==_refl inode) refl),
        )
        refl

  -- In a directory with no files, opening gives a store in a valid state, with one empty data file, in
  -- which `get` finds nothing for every key.
  pub open_bitcask-empty :
      (config : Config) (now : ℕ) (files : Files)
      → files.dir ≡ []
      → (s : Shared) × (open_bitcask config now files ≡ some (ok s))
        × IsValid s
        × (Map.get s.files.dir (data_file 1) ≡ some files.next_inode)
        × ((key : Bytes) → get s key ≡ some (ok none))
  unfolding Index.lookup Map.get name_eq
  open_bitcask-empty config now files e = rw e (
    shared_of config (first_loader now files.contents files.durable files.next_inode),
    opens_first config now files.contents files.durable files.next_inode,
    first-IsValid config now files.contents files.durable files.next_inode,
    refl,
    λ key. get_loop_missing _ 0 0 key refl,
  )
