-- ===== src/Bitcask/Merge/Start.antt =====
-- The rotation that a compaction starts with, on every outcome.
use bitcask.Prelude.{ℕ, suc, ◌≤◌, ◌<◌, ◌≡◌, refl, ◌∙◌, none, arith, inl, inr, Option-cases}
use bitcask.Prelude.Map
use bitcask.Prelude.Map.{Map, id_key}
use bitcask.Error.{Result, ok, Result-cases}
use bitcask.Exec.{Exec, ◌>>=◌, modify}
use bitcask.Exec.Ends.{Ends, went, failed, Ends-bind, Ends-weaken}
use bitcask.Files.{open_append, open_read, sync_all}
use bitcask.Files.Names.{FileName, data_file, file_name_key}
use bitcask.Bitcask.State.{
  Shared, WriterState, Env, attempt, insert, unix_now, sync_file, create_file, open_file,
}
use bitcask.Bitcask.Write.{as_millis, writer_update, sync, rotate_to}
use bitcask.Bitcask.Outcome.{rotated, rotate_to-ok}

-- The keydir, the open files and their bytes are as they were.
pub record Kept (s t : Shared) : Type 0 where
  pub index : t.index ≡ s.index
  pub readers : t.readers ≡ s.readers
  pub contents :
      (inode : ℕ) → inode < s.files.next_inode → t.files.contents inode ≡ s.files.contents inode
  pub room : s.files.next_inode ≤ t.files.next_inode

Kept-trans : {s t u : Shared} → Kept s t → Kept t u → Kept s u
Kept-trans a b = record {
  index = b.index ∙ a.index;
  readers = b.readers ∙ a.readers;
  contents = λ inode h. b.contents inode (omega (arith, h, a.room)) ∙ a.contents inode h;
  room = omega (arith, a.room, b.room);
}

-- Marks of the writer and of time.
Kept-marks :
    (s : Shared) (writer : WriterState) (tick : ℕ)
    → Kept s (record s { writer = writer; tick = tick })
Kept-marks s writer tick = record {
  index = refl;
  readers = refl;
  contents = λ inode h. refl;
  room = omega arith;
}

abbrev KeptEnds : {A : Type 0} → Exec Shared A → Shared → Type 0
KeptEnds m s = Ends (λ _ t. Kept s t) (Kept s) (m s)

Kept-bind :
    {A B : Type 0} (m : Exec Shared A) (f : A → Exec Shared B) (s : Shared)
    → KeptEnds m s
    → ((a : A) (t : Shared) → Ends (λ _ _. Unit {0}) (Kept t) (f a t))
    → Ends (λ _ _. Unit {0}) (Kept s) ((m >>= f) s)
Kept-bind m f s h k =
    Ends-bind m f s h
      λ a t kept. Ends-weaken (k a t) (λ b u q. tt) (λ u later. Kept-trans kept later)

module _ ⦃env : Env⦄ where
  sync_file-KeptEnds : (s : Shared) → KeptEnds sync_file s
  unfolding sync_file sync_all
  sync_file-KeptEnds s = elim (Option-cases (env.fault s.tick)) [
    | inl calm ↦
        rw (attempt, calm)
          (went _ _ (record {
            index = refl;
            readers = refl;
            contents = λ inode h. refl;
            room = omega arith;
          }))
    | inr (k, fault) ↦ rw (attempt, fault) (failed _ _ (Kept-marks s s.writer (suc s.tick)))
  ]

  sync-KeptEnds : (s : Shared) → KeptEnds sync s
  unfolding sync
  sync-KeptEnds s =
      Ends-bind sync_file _ s (sync_file-KeptEnds s)
        λ a t k. went _ _ (Kept-trans k (Kept-marks t _ t.tick))

  create_file-KeptEnds : (name : FileName) (s : Shared) → KeptEnds (create_file name) s
  unfolding create_file open_append
  create_file-KeptEnds name s = elim (Option-cases (env.fault s.tick)) [
    | inl calm ↦ elim (Option-cases (Map.get s.files.dir name)) [
      | inl new ↦
          rw (attempt, calm, open_append, new)
            (went _ _ (record {
              index = refl;
              readers = refl;
              contents = λ inode h. ground arith;
              room = omega arith;
            }))
      | inr (inode, old) ↦
          rw (attempt, calm, open_append, old) (went _ _ (Kept-marks s s.writer (suc s.tick)))
    ]
    | inr (k, fault) ↦ rw (attempt, fault) (failed _ _ (Kept-marks s s.writer (suc s.tick)))
  ]

  unix_now-KeptEnds : (s : Shared) → KeptEnds unix_now s
  unfolding unix_now
  unix_now-KeptEnds s = elim (Result-cases (env.clock s.tick)) [
    | inl (now, e) ↦ rw e (went _ _ (Kept-marks s s.writer (suc s.tick)))
    | inr (x, e) ↦ rw e (failed _ _ (Kept-marks s s.writer (suc s.tick)))
  ]

  open_file-KeptEnds : (name : FileName) (s : Shared) → KeptEnds (open_file name) s
  unfolding open_file
  open_file-KeptEnds name s = elim (Option-cases (env.fault s.tick)) [
    | inl calm ↦ elim (Result-cases (open_read name s.files)) [
      | inl (inode, e) ↦ rw (attempt, calm, e) (went _ _ (Kept-marks s s.writer (suc s.tick)))
      | inr (x, e) ↦ rw (attempt, calm, e) (failed _ _ (Kept-marks s s.writer (suc s.tick)))
    ]
    | inr (k, fault) ↦ rw (attempt, fault) (failed _ _ (Kept-marks s s.writer (suc s.tick)))
  ]

  mark-KeptEnds :
      (f : WriterState → WriterState) (s : Shared) → KeptEnds (modify (writer_update f)) s
  mark-KeptEnds f s = went _ _ (Kept-marks s (f s.writer) s.tick)

  -- A rotation that failed, at whichever call.
  pub rotate_to-Kept : (id : ℕ) (s : Shared) → Ends (λ _ _. Unit {0}) (Kept s) (rotate_to id s)
  unfolding rotate_to
  rotate_to-Kept id s = Kept-bind sync _ s (sync-KeptEnds s) λ a t.
      Kept-bind (create_file (data_file id)) _ t (create_file-KeptEnds (data_file id) t) λ b u.
        let switch : WriterState → WriterState =
          λ x. record x { file = b; current_file_id = id; flushed_offset = 0; offset = 0 } in
        Kept-bind (modify (writer_update switch)) _ u (mark-KeptEnds switch u) λ c v.
          Kept-bind unix_now _ v (unix_now-KeptEnds v) λ now w.
            let mark : WriterState → WriterState =
              λ x. record x { last_ts_flushed = as_millis now } in
            Kept-bind (modify (writer_update mark)) _ w (mark-KeptEnds mark w) λ d x.
              Kept-bind (open_file (data_file id)) _ x (open_file-KeptEnds (data_file id) x)
                λ inode y. went tt (record y { readers = insert y.readers id inode }) tt

  pub rotate_to-Ends :
      (id : ℕ) (s : Shared)
      → Map.get s.files.dir (data_file id) ≡ none
      → Ends (λ _ t. (now : ℕ) × (t ≡ rotated id now s)) (Kept s) (rotate_to id s)
  rotate_to-Ends id s new = go (rotate_to id s) (rotate_to-Kept id s) (rotate_to-ok id s new)
    where
      go :
          (r : Result (Unit {0}) × Shared)
          → Ends (λ _ _. Unit {0}) (Kept s) r
          → (r.0 ≡ ok tt → (now : ℕ) × (r.1 ≡ rotated id now s))
          → Ends (λ _ t. (now : ℕ) × (t ≡ rotated id now s)) (Kept s) r
      go _ (went a t q) k = went a t (k refl)
      go _ (failed x t e) k = failed x t e
