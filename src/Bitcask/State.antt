-- ===== src/Bitcask/State.antt =====
-- storage/bitcask.rs: what the handles of a store share, and the calls of the system that can fail.
use bitcask.Prelude.{ℕ, suc, Option, none, some, Bool, [], ◌∷◌, ltb, ◌==◌, if◌then◌else◌, take}
use bitcask.Prelude.Bytes.{Bytes}
use bitcask.Prelude.Map.{Map, id_key}
use bitcask.Error.{Result, ok, err, io, other}
use bitcask.Exec.{Exec}
use bitcask.Files.{Files, open_append, open_read, write, sync_all}
use bitcask.Files.Names.{FileName}
use bitcask.Config.{Config}
use bitcask.Index.{Index}

-- Fields that only the writer needs.
pub record WriterState : Type 0 where
  pub current_file_id : ℕ
  pub file : ℕ
  pub offset : ℕ
  pub flushed_offset : ℕ
  pub last_ts_flushed : ℕ
  pub stale_bytes_count : ℕ

-- `compaction_signal` is the one place of the channel to the compaction thread; `tick` counts the
-- calls of the system.
pub record Shared : Type 0 where
  pub index : Index
  pub readers : Map ℕ ℕ
  pub writer : WriterState
  pub config : Config
  pub files : Files
  pub compaction_signal : Bool
  pub tick : ℕ

-- The system around the store, at each call: the time since the epoch in milliseconds, and whether a
-- call on a file fails (`some k`: a write fails after k bytes). `unmeasured` says at which tick the
-- metadata of which open file cannot be had, where the code goes on without it.
pub record Env : Type 0 where
  pub clock : ℕ → Result ℕ
  pub fault : ℕ → Option ℕ
  pub unmeasured : ℕ → ℕ → Bool

-- A BTreeMap's insert: the entries stay in the order of their ids.
unfoldable pub insert : Map ℕ ℕ → ℕ → ℕ → Map ℕ ℕ
insert [] id inode = (id, inode) ∷ []
insert ((i, f) ∷ m) id inode =
    let rest = insert m id inode in
    if ltb id i
    then (id, inode) ∷ (i, f) ∷ m
    else if i == id
    then (id, inode) ∷ m
    else (i, f) ∷ rest

abbrev pub tick_on : Shared → Shared
tick_on s = record s { tick = suc s.tick }

module _ ⦃env : Env⦄ where
  unfoldable pub unix_now : Exec Shared ℕ
  unix_now s = (env.clock s.tick, tick_on s)

  -- A call on a file, which does `done` or, at a fault, `failed`.
  abbrev pub attempt {ℓ} : {A : Type ℓ} → Exec Shared A → (ℕ → Shared → Shared) → Exec Shared A
  attempt done failed s = elim (env.fault s.tick) [
    | none ↦ done (tick_on s)
    | some k ↦ (err (io other), failed k (tick_on s))
  ]

  -- A call that changes nothing: a seek, a read or a look at the metadata.
  unfoldable pub call : Exec Shared (Unit {0})
  call = attempt (λ s. (ok tt, s)) (λ k s. s)

  unfoldable pub write_all : Bytes → Exec Shared (Unit {0})
  write_all bytes =
      attempt (λ s. (ok tt, record s { files = write s.writer.file bytes s.files }))
        (λ k s. record s { files = write s.writer.file (take k bytes) s.files })

  unfoldable pub sync_file : Exec Shared (Unit {0})
  sync_file = attempt (λ s. (ok tt, record s { files = sync_all s.writer.file s.files })) (λ k s. s)

  unfoldable pub create_file : FileName → Exec Shared ℕ
  create_file name =
      attempt
        (λ s. let (inode, fs) = open_append name s.files in (ok inode, record s { files = fs }))
        (λ k s. s)

  unfoldable pub open_file : FileName → Exec Shared ℕ
  open_file name = attempt (λ s. (open_read name s.files, s)) (λ k s. s)
