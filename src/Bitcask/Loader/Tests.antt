-- ===== src/Bitcask/Loader/Tests.antt =====
-- A replay after a crash.
use bitcask.Prelude.{ℕ, zero, suc, ◌≡◌, refl, none, some, List, [], ◌∷◌, ◌++◌, arith, take}
use bitcask.Prelude.Bytes.{Bytes}
use bitcask.Prelude.Map
use bitcask.Prelude.Map.{Map}
use bitcask.Crc32.{Crc32, poly}
use bitcask.Error.{Result, ok}
use bitcask.Bitcask.Loader.Total.{replay-returns}
use bitcask.Wire.{to_le_bytes}
use bitcask.Files.Names.{data_file, name_eq}
use bitcask.Command.{Command, serialize}
use bitcask.Index
use bitcask.Index.{lookup}
use bitcask.Bitcask.Loader.{Loader, replay}
use bitcask.Bitcask.Loader.Recovery.{no_hint, commands}
use bitcask.Bitcask.Loader.Keydir.{view}
use bitcask.Bitcask.Loader.Crash.{Crashed, Recovered, replay-recovers}

instance abbrev crc : Crc32
crc = poly

abbrev set_a : Command
set_a = Command.set 7 (97 ∷ []) (120 ∷ [])

abbrev set_b : Command
set_b = Command.set 8 (98 ∷ []) (121 ∷ [])

abbrev rm_a : Command
rm_a = Command.rm 9 (97 ∷ [])

abbrev logs : ℕ → List Command
logs zero = []
logs (suc zero) = set_a ∷ []
logs (suc (suc n)) = set_b ∷ []

abbrev contents : ℕ → Bytes
contents zero = serialize set_a
contents (suc n) = serialize set_b ++ take 11 (serialize rm_a)

-- The record of the rm was cut after eleven bytes.
abbrev crashed : Loader
crashed = record {
  readers = (1, 0) ∷ (2, 1) ∷ [];
  index = Index.empty;
  writer = record {
    current_file_id = 2;
    file = 1;
    offset = 0;
    flushed_offset = 0;
    last_ts_flushed = 0;
    stale_bytes_count = 0;
  };
  files = record {
    dir = (data_file 1, 0) ∷ (data_file 2, 1) ∷ [];
    contents = contents;
    durable = λ inode. 0;
    next_inode = 2;
  };
}

crashed-Crashed : Crashed logs crashed ((1, 0) ∷ []) rm_a 11
unfolding Map.get lookup name_eq serialize to_le_bytes
crashed-Crashed = record {
  readers = refl;
  closed = (
    record {
      bytes = refl;
      described = no_hint refl;
      fits = (record { ts = omega arith; body = omega arith }, tt);
      small = omega arith;
    },
    tt,
  );
  fits = (record { ts = omega arith; body = omega arith }, tt);
  last = record { ts = omega arith; body = omega arith };
  cut = omega arith;
  bytes = refl;
  small = omega arith;
  fresh = λ j. refl;
}

replay-recovers_example :
    (t : Loader) × (replay crashed ≡ some (ok tt, t))
    × Recovered logs crashed (view (commands logs crashed.readers) (λ j. none)) t
replay-recovers_example = replay-recovers logs crashed ((1, 0) ∷ []) rm_a 11 crashed-Crashed

-- The same files, with the last record of the sealed one torn as well.
abbrev corrupt : Loader
corrupt = record crashed { readers = (1, 1) ∷ (2, 0) ∷ [] }

replay-returns_example : (x : Result (Unit {0}) × Loader) × (replay corrupt ≡ some x)
replay-returns_example = replay-returns corrupt
