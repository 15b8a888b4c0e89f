-- ===== src/Bitcask/Merge/Steady.antt =====
-- The calls of a merge that write: to files that no reader has, and to names that no data file above
-- the active one has. They leave what readers see, whether they go through or fail.
use bitcask.Prelude.{
  ℕ, suc, ◌+◌, ◌≤◌, ◌<◌, ◌≡◌, refl, ◌∙◌, Option, none, some, false, [], arith, take, Option-cases,
  inl, inr,
}
use bitcask.Prelude.Bytes.{Bytes}
use bitcask.Prelude.Map
use bitcask.Prelude.Map.{id_key, get-insert, get-remove}
use bitcask.Error.{Result, ok, err, io, other, Result-cases}
use bitcask.Exec.Ends.{Ends, went, failed}
use bitcask.Files.{Files, open_append, open_read, write, sync_all, at}
use bitcask.Files.Names.{FileName, data_file, file_name_key, name_eq}
use bitcask.Bitcask.State.{Shared, Env, create_file, open_file, call}
use bitcask.Bitcask.Merge.{write_to, sync_inode, on_files, seen}

-- The inodes below `low` are as they were, and the readers and the writer too.
pub record Steady (low : ℕ) (s t : Shared) : Type 0 where
  pub index : t.index ≡ s.index
  pub readers : t.readers ≡ s.readers
  pub writer : t.writer ≡ s.writer
  pub config : t.config ≡ s.config
  pub contents : (inode : ℕ) → inode < low → t.files.contents inode ≡ s.files.contents inode
  pub room : s.files.next_inode ≤ t.files.next_inode
  pub names :
      (id : ℕ)
      → s.writer.current_file_id < id
      → Map.get s.files.dir (data_file id) ≡ none
      → Map.get t.files.dir (data_file id) ≡ none

pub Steady-refl : (low : ℕ) (s : Shared) → Steady low s s
Steady-refl low s = record {
  index = refl;
  readers = refl;
  writer = refl;
  config = refl;
  contents = λ inode h. refl;
  room = omega arith;
  names = λ id above h. h;
}

pub Steady-trans : {low : ℕ} {s t u : Shared} → Steady low s t → Steady low t u → Steady low s u
Steady-trans a b = record {
  index = b.index ∙ a.index;
  readers = b.readers ∙ a.readers;
  writer = b.writer ∙ a.writer;
  config = b.config ∙ a.config;
  contents = λ inode h. b.contents inode h ∙ a.contents inode h;
  room = omega (arith, a.room, b.room);
  names = λ id above h. b.names id (rw a.writer above) (a.names id above h);
}

-- New files and a later tick.
module _ {low : ℕ} {s : Shared} (files : Files) (tick : ℕ) where
  pub Steady-files :
      ((inode : ℕ) → inode < low → files.contents inode ≡ s.files.contents inode)
      → s.files.next_inode ≤ files.next_inode
      → ((id : ℕ)
          → s.writer.current_file_id < id
          → Map.get s.files.dir (data_file id) ≡ none
          → Map.get files.dir (data_file id) ≡ none)
      → Steady low s (record s { files = files; tick = tick })
  Steady-files c r n = record {
    index = refl;
    readers = refl;
    writer = refl;
    config = refl;
    contents = c;
    room = r;
    names = n;
  }

pub Steady-tick : (low : ℕ) (s : Shared) (tick : ℕ) → Steady low s (record s { tick = tick })
Steady-tick low s tick = Steady-files s.files tick (λ i h. refl) (omega arith) (λ id above h. h)

pub Steady-write :
    {low : ℕ} (s : Shared) (inode tick : ℕ) (bytes : Bytes)
    → low ≤ inode
    → Steady low s (record s { files = write inode bytes s.files; tick = tick })
unfolding write
Steady-write s inode tick bytes h =
    Steady-files (write inode bytes s.files) tick (λ i less. ground arith) (omega arith)
      (λ id above e. e)

-- A new file under a new name.
abbrev pub created : FileName → Files → Files
created name files = record {
  dir = Map.insert files.dir name files.next_inode;
  contents = at files.contents files.next_inode [];
  durable = at files.durable files.next_inode 0;
  next_inode = files.next_inode + 1;
}

pub Steady-created :
    {low : ℕ} (name : FileName) (s : Shared) (tick : ℕ)
    → low ≤ s.files.next_inode
    → ((id : ℕ) → name_eq name (data_file id) ≡ false)
    → Steady low s (record s { files = created name s.files; tick = tick })
Steady-created name s tick room apart =
    Steady-files (created name s.files) tick (λ i less. ground arith) (omega arith)
      (λ id above e. rw (get-insert, apart id) e)

module _ ⦃env : Env⦄ where
  attempt-Ends :
      {A : Type 0} {Q : A → Shared → Type 0} {E : Shared → Type 0} (o : Option ℕ)
      {r : Result A × Shared} {fail : ℕ → Shared}
      → Ends Q E r
      → ((k : ℕ) → E (fail k))
      → Ends Q E (elim o [ none ↦ r | some k ↦ (err (io other), fail k) ])
  attempt-Ends none h f = h
  attempt-Ends (some k) h f = failed _ _ (f k)

  pub write_to-Ends :
      {low : ℕ} (inode : ℕ) (bytes : Bytes) (s : Shared)
      → low ≤ inode
      → Ends
          (λ _ t. t ≡ record s { files = write inode bytes s.files; tick = suc s.tick })
          (Steady low s)
          (write_to inode bytes s)
  unfolding write_to
  write_to-Ends inode bytes s h =
      attempt-Ends (env.fault s.tick) (went tt _ refl)
        (λ k. Steady-write s inode (suc s.tick) (take k bytes) h)

  pub sync_inode-Ends :
      {low : ℕ} (inode : ℕ) (s : Shared)
      → Ends
          (λ _ t. t ≡ record s { files = sync_all inode s.files; tick = suc s.tick })
          (Steady low s)
          (sync_inode inode s)
  unfolding sync_inode
  sync_inode-Ends {low} inode s =
      attempt-Ends (env.fault s.tick) (went tt _ refl) (λ k. Steady-tick low s (suc s.tick))

  pub call-Ends :
      {low : ℕ} (s : Shared)
      → Ends (λ _ t. t ≡ record s { tick = suc s.tick }) (Steady low s) (call s)
  unfolding call
  call-Ends {low} s =
      attempt-Ends (env.fault s.tick) (went tt _ refl) (λ k. Steady-tick low s (suc s.tick))

  pub seen-Ends :
      {low : ℕ} (name : FileName) (s : Shared)
      → Ends (λ _ t. Steady low s t) (Steady low s) (seen name s)
  unfolding seen
  seen-Ends {low} name s = elim (Option-cases (env.fault s.tick)) [
    | inl calm ↦ rw (seen, calm) (went _ _ (Steady-tick low s (suc s.tick)))
    | inr (k, fault) ↦ rw (seen, fault) (went _ _ (Steady-tick low s (suc s.tick)))
  ]

  -- A file opened under a name that is new.
  pub create_file-Ends :
      {low : ℕ} (name : FileName) (s : Shared)
      → Map.get s.files.dir name ≡ none
      → Ends
          (λ inode t.
            (inode ≡ s.files.next_inode)
            × (t ≡ record s { files = created name s.files; tick = suc s.tick }))
          (Steady low s)
          (create_file name s)
  unfolding create_file open_append
  create_file-Ends {low} name s new =
      attempt-Ends (env.fault s.tick) (rw (open_append, new) (went _ _ (refl, refl)))
        (λ k. Steady-tick low s (suc s.tick))

  pub on_files-Ends :
      {low : ℕ} (change : Files → Result Files) (s : Shared)
      → Ends
          (λ _ t.
            (files : Files) × (change s.files ≡ ok files)
            × (t ≡ record s { files = files; tick = suc s.tick }))
          (Steady low s)
          (on_files change s)
  unfolding on_files
  on_files-Ends {low} change s =
      attempt-Ends (env.fault s.tick)
        (elim (Result-cases (change s.files)) [
          | inl (files, e) ↦ rw e (went tt _ (files, refl, refl))
          | inr (x, e) ↦ rw e (failed x _ (Steady-tick low s (suc s.tick)))
        ])
        (λ k. Steady-tick low s (suc s.tick))

  pub open_file-Ends :
      {low : ℕ} (name : FileName) (s : Shared)
      → Ends
          (λ inode t.
            (Map.get s.files.dir name ≡ some inode) × (t ≡ record s { tick = suc s.tick }))
          (Steady low s)
          (open_file name s)
  unfolding open_file open_read
  open_file-Ends {low} name s =
      attempt-Ends (env.fault s.tick)
        (elim (Option-cases (Map.get s.files.dir name)) [
          | inl missing ↦ rw (open_read, missing) (failed _ _ (Steady-tick low s (suc s.tick)))
          | inr (inode, there) ↦ rw (open_read, there) (went inode _ (refl, refl))
        ])
        (λ k. Steady-tick low s (suc s.tick))
