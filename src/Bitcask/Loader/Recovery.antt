-- ===== src/Bitcask/Loader/Recovery.antt =====
-- What `open` recovers: the keydir that the logs describe, and after a crash in the middle of a
-- write everything but that write.
use bitcask.Prelude.{
  ℕ, ◌+◌, ◌^◌, ◌<◌, ◌≡◌, refl, ◌∙◌, sym, ap, subst, not, ◌&&◌, ◌==◌, Bool-cases, inl, inr, Option,
  none, some, Bool, true, false, List, [], ◌∷◌, ◌++◌, arith, All, length, length-append, append-nil,
}
use bitcask.Prelude.Bytes.{Bytes}
use bitcask.Prelude.Map
use bitcask.Prelude.Map.{Map}
use bitcask.Crc32.{Crc32}
use bitcask.Error.{ok}
use bitcask.Files.{Files, exists}
use bitcask.Files.Names.{data_file, hint_file, file_name_key}
use bitcask.Command.{Command, serialize}
use bitcask.Command.RoundTrip.{Fits}
use bitcask.Bitcask.Loader.{Loader, replay_command, replay_data, replay_file, replay_files}
use bitcask.Bitcask.Loader.Hints.{
  Hint, HintFits, SetsKey, hint_log, hints_of, hinted, hinted-replayed, replay_hint_file-log,
}
use bitcask.Bitcask.Loader.Keydir.{apply, view, ShowsAll, replayed-Shows}
use bitcask.Bitcask.Loader.Replay.{log, replayed, from_start, replay_data-log}
use bitcask.Bitcask.Loader.Among.{Among, All-Among}

pub view-append :
    (xs ys : List Command) (m : Bytes → Option Bytes) → view (xs ++ ys) m ≡ view ys (view xs m)
view-append [] ys m = refl
view-append (x ∷ xs) ys m = view-append xs ys (apply x m)

module _ ⦃crc32 : Crc32⦄ where
  -- What the replay of a log leaves as it was.
  pub record Same (l t : Loader) : Type 0 where
    pub readers : t.readers ≡ l.readers
    pub files : t.files ≡ l.files
    pub current : t.writer.current_file_id ≡ l.writer.current_file_id
    pub handle : t.writer.file ≡ l.writer.file

  Same-trans : {l t u : Loader} → Same l t → Same t u → Same l u
  Same-trans a b = record {
    readers = b.readers ∙ a.readers;
    files = b.files ∙ a.files;
    current = b.current ∙ a.current;
    handle = b.handle ∙ a.handle;
  }

  replay_command-Same :
      (id position len : ℕ) (c : Command) (l : Loader) → Same l (replay_command id position len c l)
  unfolding replay_command
  replay_command-Same id position len (Command.set ts key value) l = record {
    readers = refl;
    files = refl;
    current = refl;
    handle = refl;
  }
  replay_command-Same id position len (Command.rm ts key) l = record {
    readers = refl;
    files = refl;
    current = refl;
    handle = refl;
  }

  pub replayed-Same :
      (id position : ℕ) (cs : List Command) (l : Loader) → Same l (replayed id position cs l)
  replayed-Same id position [] l = record {
    readers = refl;
    files = refl;
    current = refl;
    handle = refl;
  }
  replayed-Same id position (c ∷ cs) l =
      Same-trans (replay_command-Same id position (length (serialize c)) c l)
        (replayed-Same id (position + length (serialize c)) cs _)

  replay_command-offset :
      (id position len : ℕ) (c : Command) (l : Loader)
      → l.writer.offset + len < 2 ^ 64
      → (replay_command id position len c l).writer.offset ≡ l.writer.offset + len
  unfolding replay_command
  replay_command-offset id position len (Command.set ts key value) l h = omega arith
  replay_command-offset id position len (Command.rm ts key) l h = omega arith

  pub replayed-offset :
      (id position : ℕ) (cs : List Command) (l : Loader)
      → l.writer.offset + length (log cs) < 2 ^ 64
      → (replayed id position cs l).writer.offset ≡ l.writer.offset + length (log cs)
  replayed-offset id position [] l h = omega arith
  replayed-offset id position (c ∷ cs) l h =
      let n = length-append (serialize c) (log cs) in
      let e = replay_command-offset id position (length (serialize c)) c l (omega (arith, n)) in
      replayed-offset id (position + length (serialize c)) cs _ (omega (arith, n, e))
      ∙ let g : (replay_command id position (length (serialize c)) c l).writer.offset
              + length (log cs)
            ≡ l.writer.offset + length (log (c ∷ cs)) =
          omega (arith, n, e) in
        g

  -- The logs of the files, by id.
  module _ (logs : ℕ → List Command) where
    abbrev pub bytes_of : ℕ → Bytes
    bytes_of id = log (logs id)

    -- A command of the log of that file.
    abbrev pub Logged : ℕ → Command → Type 0
    Logged id c = Among c (logs id)

    -- The commands of some files, in the order of the files.
    abbrev pub commands : Map ℕ ℕ → List Command
    commands [] = []
    commands ((id, inode) ∷ readers) = logs id ++ commands readers

    -- There is no hint file, or the file holds sets alone and the hint file their hints.
    pub data Described (files : Files) (id : ℕ) : Type 0 where
      no_hint : Map.get files.dir (hint_file id) ≡ none → Described files id
      hint :
          (inode hint_inode : ℕ)
          → Map.get files.dir (data_file id) ≡ some inode
          → Map.get files.dir (hint_file id) ≡ some hint_inode
          → files.contents hint_inode ≡ hint_log (hints_of id 0 (logs id))
          → All SetsKey (logs id)
          → All HintFits (hints_of id 0 (logs id))
          → length (files.contents hint_inode) < 2 ^ 63
          → Described files id

    -- A file that holds a whole log.
    pub record Sealed (files : Files) (file : ℕ × ℕ) : Type 0 where
      pub bytes : files.contents file.1 ≡ bytes_of file.0
      pub described : Described files file.0
      pub fits : All Fits (logs file.0)
      pub small : length (bytes_of file.0) < 2 ^ 63

    not-and_false : (b : Bool) → (not b && false) ≡ false
    not-and_false true = refl
    not-and_false false = refl

    pub replayed-start :
        (id : ℕ) (l : Loader) (m : Bytes → Option Bytes)
        → ShowsAll bytes_of Logged m l.index
        → ShowsAll bytes_of Logged (view (logs id) m) (replayed id 0 (logs id) (from_start l)).index
    replayed-start id l m shows =
        replayed-Shows bytes_of Logged id (logs id) [] m (from_start l) shows []
          (All-Among (logs id)) (sym (append-nil (log (logs id))))

    -- What the replay of one sealed file leaves.
    record Taken (id inode : ℕ) (l : Loader) (m : Bytes → Option Bytes) : Type 0 where
      left : Loader
      same : Same l left
      runs : replay_file id inode l ≡ some (ok false, left)
      shows : ShowsAll bytes_of Logged (view (logs id) m) left.index

    data-Taken :
        (id inode : ℕ) (l : Loader) (m : Bytes → Option Bytes)
        → Sealed l.files (id, inode)
        → replay_file id inode l ≡ replay_data id inode l
        → ShowsAll bytes_of Logged m l.index
        → Taken id inode l m
    data-Taken id inode l m f by_data shows = record {
      left = replayed id 0 (logs id) (from_start l);
      same =
          Same-trans (record { readers = refl; files = refl; current = refl; handle = refl })
            (replayed-Same id 0 (logs id) (from_start l));
      runs =
          by_data
          ∙ replay_data-log id inode l (logs id) f.fits (omega (arith, ap length f.bytes, f.small))
              f.bytes;
      shows = replayed-start id l m shows;
    }

    hinted-Same : (id : ℕ) (hints : List Hint) (l : Loader) → Same l (hinted id hints l)
    hinted-Same id [] l = record { readers = refl; files = refl; current = refl; handle = refl }
    hinted-Same id ((key, e) ∷ hints) l =
        Same-trans (record { readers = refl; files = refl; current = refl; handle = refl })
          (hinted-Same id hints _)

    replay_file-Sealed :
        (id inode : ℕ) (l : Loader) (m : Bytes → Option Bytes)
        → Sealed l.files (id, inode)
        → ShowsAll bytes_of Logged m l.index
        → Taken id inode l m
    unfolding replay_file
    replay_file-Sealed id inode l m f shows = elim f.described [
      | no_hint gone ↦
          let away : exists (hint_file id) l.files ≡ false = rw (exists, gone) refl in
          data-Taken id inode l m f (rw (away, not-and_false (id == l.writer.current_file_id)) refl)
            shows
      | hint data_inode hint_inode led there e sets hints_fit small ↦
          elim (Bool-cases (id == l.writer.current_file_id)) [
            | inl active ↦ data-Taken id inode l m f (rw active refl) shows
            | inr closed ↦
                let hints = hints_of id 0 (logs id) in
                let present : exists (hint_file id) l.files ≡ true = rw (exists, there) refl in
                record {
                  left = hinted id hints l;
                  same = hinted-Same id hints l;
                  runs =
                      rw (closed, present)
                        (replay_hint_file-log id inode hint_inode l hints there e hints_fit small);
                  shows =
                      subst (λ i. ShowsAll bytes_of Logged (view (logs id) m) i)
                        (sym (hinted-replayed id 0 (logs id) l (from_start l) sets refl))
                        (replayed-start id l m shows);
                }
          ]
    ]

    pub record Replayed (sealed rest : Map ℕ ℕ) (l : Loader) (m : Bytes → Option Bytes)
        : Type 0 where
      pub left : Loader
      pub same : Same l left
      pub runs : replay_files (sealed ++ rest) l ≡ replay_files rest left
      pub shows : ShowsAll bytes_of Logged (view (commands sealed) m) left.index

    pub replay_files-Sealed :
        (sealed rest : Map ℕ ℕ) (l : Loader) (m : Bytes → Option Bytes)
        → All (Sealed l.files) sealed
        → ShowsAll bytes_of Logged m l.index
        → Replayed sealed rest l m
    unfolding replay_files
    replay_files-Sealed [] rest l m h shows = record {
      left = l;
      same = record { readers = refl; files = refl; current = refl; handle = refl };
      runs = refl;
      shows = shows;
    }
    replay_files-Sealed ((id, inode) ∷ sealed) rest l m h shows =
        let k = replay_file-Sealed id inode l m h.0 shows in
        let r =
          replay_files-Sealed sealed rest k.left (view (logs id) m)
            (subst (λ files. All (Sealed files) sealed) (sym k.same.files) h.1) k.shows in
        record {
          left = r.left;
          same = Same-trans k.same r.same;
          runs = rw (replay_files, k.runs) r.runs;
          shows =
              subst (λ f. ShowsAll bytes_of Logged f r.left.index)
                (sym (view-append (logs id) (commands sealed) m)) r.shows;
        }
