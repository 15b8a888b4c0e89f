-- ===== src/Bitcask/Loader/Total.antt =====
-- `replay` returns, whatever the files hold.
use bitcask.Prelude.{
  ℕ, zero, suc, ◌<◌, ◌≡◌, refl, some, Bool, true, false, [], ◌∷◌, ◌==◌, ◌&&◌, not, arith, length,
  inl, inr, Bool-cases,
}
use bitcask.Prelude.Map.{Map}
use bitcask.Crc32.{Crc32}
use bitcask.Error.{Result, ok, err, Result-cases}
use bitcask.Files.{exists, open_read, remove_file}
use bitcask.Files.Names.{hint_file, file_name_key}
use bitcask.Command.{deserialize}
use bitcask.IndexValue
use bitcask.RecordReader
use bitcask.RecordReader.{RecordReader, full_record, clean_eof, torn_tail, next_record, sub_u64}
use bitcask.RecordReader.Turn.{whole, ended, cut, next_record-Turn, next_record-shrinks}
use bitcask.Bitcask.Loader.{
  Loader, replay_command, replay_hint, torn_data, hint_loop, data_loop, replay_data, after_hint,
  replay_hint_file, replay_file, replay_files, replay,
}

module _ ⦃crc32 : Crc32⦄ where
  data_loop-returns :
      (fuel : ℕ) (r : RecordReader) (file_id : ℕ) (l : Loader)
      → length r.reader < fuel
      → (x : Result Bool × Loader) × (data_loop fuel r file_id l ≡ some x)
  unfolding data_loop
  data_loop-returns zero r file_id l h = absurd (omega arith)
  data_loop-returns (suc fuel) r file_id l h = elim (next_record-Turn r) [
    | whole bytes next e n split place len long ↦ elim (Result-cases (deserialize bytes)) [
      | inl ((c, used), d) ↦
          let (x, g) =
            data_loop-returns fuel next file_id
              (replay_command file_id r.position (length bytes) c l)
              (omega (arith, next_record-shrinks r next bytes split long)) in
          (x, rw (data_loop, e, d, n) g)
      | inr (x, d) ↦ ((err x, l), rw (data_loop, e, d))
    ]
    | ended e ↦ ((ok false, l), rw (data_loop, e))
    | cut position e ↦ (torn_data file_id position l, rw (data_loop, e))
  ]

  hint_loop-returns :
      (fuel : ℕ) (r : RecordReader) (file_id : ℕ) (l : Loader)
      → length r.reader < fuel
      → (x : Bool × Loader) × (hint_loop fuel r file_id l ≡ some x)
  unfolding hint_loop
  hint_loop-returns zero r file_id l h = absurd (omega arith)
  hint_loop-returns (suc fuel) r file_id l h = elim (next_record-Turn r) [
    | whole bytes next e n split place len long ↦
        elim (Result-cases (IndexValue.deserialize bytes file_id)) [
          | inl ((key, v, used), d) ↦
              let (x, g) =
                hint_loop-returns fuel next file_id (replay_hint key v l)
                  (omega (arith, next_record-shrinks r next bytes split long)) in
              (x, rw (hint_loop, e, d, n) g)
          | inr (x, d) ↦ ((false, l), rw (hint_loop, e, d))
        ]
    | ended e ↦ ((true, l), rw (hint_loop, e))
    | cut position e ↦ ((false, l), rw (hint_loop, e))
  ]

  replay_data-returns :
      (file_id inode : ℕ) (l : Loader)
      → (x : Result Bool × Loader) × (replay_data file_id inode l ≡ some x)
  unfolding replay_data RecordReader.new
  replay_data-returns file_id inode l = data_loop-returns _ _ file_id _ (omega arith)

  after_hint-returns :
      (file_id inode : ℕ) (r : Bool × Loader)
      → (x : Result Bool × Loader) × (after_hint file_id inode r ≡ some x)
  unfolding after_hint
  after_hint-returns file_id inode (true, l) = ((ok false, l), refl)
  after_hint-returns file_id inode (false, l) =
      elim (Result-cases (remove_file (hint_file file_id) l.files)) [
        | inl (files, e) ↦
            let (x, g) = replay_data-returns file_id inode (record l { files = files }) in
            (x, rw (after_hint, e) g)
        | inr (x, e) ↦ ((err x, l), rw (after_hint, e))
      ]

  replay_hint_file-returns :
      (file_id inode : ℕ) (l : Loader)
      → (x : Result Bool × Loader) × (replay_hint_file file_id inode l ≡ some x)
  unfolding replay_hint_file RecordReader.new
  replay_hint_file-returns file_id inode l =
      elim (Result-cases (open_read (hint_file file_id) l.files)) [
        | inl (hint, e) ↦
            let bytes = l.files.contents hint in
            let (r, g) =
              hint_loop-returns (suc (length bytes)) (RecordReader.new bytes (length bytes)) file_id
                l (omega arith) in
            let (x, k) = after_hint-returns file_id inode r in (x, rw (replay_hint_file, e, g) k)
        | inr (x, e) ↦ ((err x, l), rw (replay_hint_file, e))
      ]

  replay_file-returns :
      (file_id inode : ℕ) (l : Loader)
      → (x : Result Bool × Loader) × (replay_file file_id inode l ≡ some x)
  unfolding replay_file
  replay_file-returns file_id inode l =
      elim (Bool-cases
        (not (file_id == l.writer.current_file_id) && exists (hint_file file_id) l.files)) [
          | inl hinted ↦ rw hinted (replay_hint_file-returns file_id inode l)
          | inr plain ↦ rw plain (replay_data-returns file_id inode l)
        ]

  replay_files-returns :
      (readers : Map ℕ ℕ) (l : Loader)
      → (x : Result (Unit {0}) × Loader) × (replay_files readers l ≡ some x)
  unfolding replay_files
  replay_files-returns [] l = ((ok tt, l), refl)
  replay_files-returns ((file_id, inode) ∷ readers) l =
      let (x, e) = replay_file-returns file_id inode l in
      go x e (λ t. replay_files-returns readers t)
    where
      go :
          (x : Result Bool × Loader)
          → replay_file file_id inode l ≡ some x
          → ((t : Loader) → (y : Result (Unit {0}) × Loader) × (replay_files readers t ≡ some y))
          → (y : Result (Unit {0}) × Loader) × (replay_files ((file_id, inode) ∷ readers) l
              ≡ some y)
      go (ok true, t) e rest = ((ok tt, t), rw (replay_files, e))
      go (ok false, t) e rest = let (y, g) = rest t in (y, rw (replay_files, e) g)
      go (err x, t) e rest = ((err x, t), rw (replay_files, e))

  -- The fuel of the loops is enough: a replay returns, with a result or an error, whatever the data
  -- files and the hint files hold.
  pub replay-returns : (l : Loader) → (x : Result (Unit {0}) × Loader) × (replay l ≡ some x)
  unfolding replay
  replay-returns l = replay_files-returns l.readers l
