-- ===== src/Bitcask/Open/Tests.antt =====
-- Directories that are opened.
use bitcask.Prelude.{
  ℕ, zero, suc, List, ◌++◌, All, take, ◌⊎◌, ◌≡◌, refl, none, some, [], ◌∷◌, arith,
}
use bitcask.Prelude.Bytes.{Bytes}
use bitcask.Prelude.Map
use bitcask.Error.{ok}
use bitcask.Config
use bitcask.IndexValue
use bitcask.Prelude.Map.{Map, id_key}
use bitcask.Utf8.{is_utf8}
use bitcask.Wire.{to_le_bytes}
use bitcask.Command.{Command, serialize, encoded_body_len}
use bitcask.Bitcask.Appended.{IsStorable}
use bitcask.Bitcask.Loader.Keydir.{view}
use bitcask.Bitcask.Loader.Recovery.{commands, hint}
use bitcask.Bitcask.Loader.Hints.{HintFits, hint_log, hints_of}
use bitcask.Bitcask.Loader.Valid.{Placed}
use bitcask.Bitcask.Open.Recover.{CrashedDisk, open_bitcask-recovers}
use bitcask.Files.{Files}
use bitcask.Files.Names.{data_file, compact_file, hint_file, file_name_key, name_eq}
use bitcask.Files.Text.{file_text, get_file_id, is_compact, hint_id, kind_of, kind-file_text}
use bitcask.Bitcask.State.{Shared}
use bitcask.Bitcask.Invariant.{IsValid}
use bitcask.Bitcask.Published.{get}
use bitcask.Bitcask.Tests.{crc}
use bitcask.Bitcask.Open.{Scan, scan, open_bitcask}
use bitcask.Bitcask.Open.Clean.{scan-cleans}
use bitcask.Bitcask.Open.Fresh.{open_bitcask-empty}

abbrev no_files : Files
no_files = record { dir = []; contents = λ inode. []; durable = λ inode. 0; next_inode = 3 }

-- A data file with three bytes of a record, and what a merge has left.
abbrev torn_files : Files
torn_files = record {
  dir = (data_file 7, 0) ∷ (compact_file 8, 1) ∷ (hint_file 8, 2) ∷ [];
  contents = λ inode. 1 ∷ 2 ∷ 3 ∷ [];
  durable = λ inode. 3;
  next_inode = 3;
}

kind-file_text_example :
    (
      get_file_id (file_text (data_file 7)),
      is_compact (file_text (data_file 7)),
      hint_id (file_text (data_file 7)),
    )
    ≡ kind_of (data_file 7)
kind-file_text_example = kind-file_text (data_file 7) (omega arith)

open_bitcask-empty_example :
    (s : Shared) × (open_bitcask Config.new 0 no_files ≡ some (ok s))
    × IsValid s
    × (Map.get s.files.dir (data_file 1) ≡ some 3)
    × ((key : Bytes) → get s key ≡ some (ok none))
open_bitcask-empty_example = open_bitcask-empty Config.new 0 no_files refl

scan-cleans_example :
    (done : Scan) × (scan torn_files.dir
        (record { read_handlers = []; max_id = none; files = torn_files })
      ≡ ok done)
    × ((id : ℕ)
        → (Map.get done.files.dir (data_file id) ≡ Map.get torn_files.dir (data_file id))
          × (Map.get done.files.dir (compact_file id) ≡ none)
          × ((Map.get done.files.dir (hint_file id) ≡ none)
              ⊎ ((inode : ℕ) × (Map.get done.files.dir (data_file id) ≡ some inode))))
unfolding Map.get name_eq
scan-cleans_example =
    scan-cleans torn_files (omega arith, (omega arith, (omega arith, tt)))
      (refl, (refl, (refl, tt)))

abbrev set_a : Command
set_a = Command.set 7 (97 ∷ []) (120 ∷ [])

abbrev set_b : Command
set_b = Command.set 8 (98 ∷ []) (121 ∷ [])

abbrev rm_a : Command
rm_a = Command.rm 9 (97 ∷ [])

-- The files 1 and 3, and no other, have records.
abbrev logs : ℕ → List Command
logs zero = []
logs (suc zero) = set_a ∷ []
logs (suc (suc zero)) = []
logs (suc (suc (suc zero))) = set_b ∷ []
logs (suc (suc (suc (suc n)))) = []

abbrev crashed_contents : ℕ → Bytes
crashed_contents zero = serialize set_a
crashed_contents (suc zero) = serialize set_b ++ take 11 (serialize rm_a)
crashed_contents (suc (suc zero)) = hint_log (hints_of 1 0 (set_a ∷ []))
crashed_contents (suc (suc (suc n))) = 1 ∷ 2 ∷ []

-- The record of the rm was cut after eleven bytes, the file 1 has a hint file, and a merge was cut
-- off; the directory is not listed in the order of the ids.
abbrev crashed_files : Files
crashed_files = record {
  dir = (hint_file 1, 2) ∷ (data_file 3, 1) ∷ (compact_file 4, 3) ∷ (data_file 1, 0) ∷ [];
  contents = crashed_contents;
  durable = λ inode. 0;
  next_inode = 4;
}

abbrev data_files : Map ℕ ℕ
data_files = (1, 0) ∷ (3, 1) ∷ []

unlogged : (i : ℕ) → Map.get data_files i ≡ none → logs i ≡ []
unfolding Map.get
unlogged zero h = refl
unlogged (suc zero) h = absurd (cc h)
unlogged (suc (suc zero)) h = refl
unlogged (suc (suc (suc zero))) h = absurd (cc h)
unlogged (suc (suc (suc (suc n)))) h = refl

IsStorable-logs : (i : ℕ) → All IsStorable (logs i)
unfolding is_utf8 encoded_body_len
IsStorable-logs zero = tt
IsStorable-logs (suc zero) =
    (record { fits = record { ts = omega arith; body = omega arith }; text = refl }, tt)
IsStorable-logs (suc (suc zero)) = tt
IsStorable-logs (suc (suc (suc zero))) =
    (record { fits = record { ts = omega arith; body = omega arith }; text = refl }, tt)
IsStorable-logs (suc (suc (suc (suc n)))) = tt

crashed-Placed : Placed logs crashed_files data_files
unfolding Map.get name_eq is_utf8
crashed-Placed = record {
  ascending = ((omega arith, tt), (tt, tt));
  own = λ i j f a b. ground (arith, a, b);
  inodes = λ i f h. ground (arith, h);
  names = λ i. ground arith;
  logged = λ i h. unlogged i h;
  storable = IsStorable-logs;
}

set_a-HintFits : All HintFits (hints_of 1 0 (set_a ∷ []))
unfolding serialize to_le_bytes
set_a-HintFits =
    (record { ts = omega arith; offset = omega arith; len = omega arith; body = omega arith }, tt)

crashed-CrashedDisk : CrashedDisk logs crashed_files ((1, 0) ∷ []) 3 1 rm_a 11
unfolding Map.get name_eq serialize to_le_bytes IndexValue.serialize
crashed-CrashedDisk = record {
  placed = crashed-Placed;
  room = (omega arith, (omega arith, (omega arith, (omega arith, tt))));
  unique = (refl, (refl, (refl, (refl, tt))));
  closed = (
    record {
      bytes = refl;
      described = hint 0 2 refl refl refl (tt, tt) set_a-HintFits (omega arith);
      fits = (record { ts = omega arith; body = omega arith }, tt);
      small = omega arith;
    },
    tt,
  );
  last = record { ts = omega arith; body = omega arith };
  cut = omega arith;
  bytes = refl;
  small = omega arith;
}

open_bitcask-recovers_example :
    (s : Shared) × (open_bitcask Config.new 0 crashed_files ≡ some (ok s))
    × IsValid s
    × ((j : Bytes) → get s j ≡ some (ok (view (commands logs data_files) (λ j. none) j)))
open_bitcask-recovers_example = open_bitcask-recovers logs crashed-CrashedDisk Config.new 0
