-- ===== src/Bitcask/Merge/Tests.antt =====
-- A merge whose copies come late for one key, and a compaction of one sealed file.
use bitcask.Prelude.{Option, none, ap, sym, ℕ, ◌≡◌, refl, [], ◌∷◌, arith, some}
use bitcask.Prelude.Bytes.{bytes_eq}
use bitcask.Prelude.Map
use bitcask.IndexValue.{IndexValue}
use bitcask.Prelude.Map.{id_key}
use bitcask.Error.{ok}
use bitcask.RecordReader.{next_record}
use bitcask.Files.{rename, remove_file}
use bitcask.Files.Names.{file_name_key}
use bitcask.Index.{Index, empty, lookup, put, get_bucket}
use bitcask.Bitcask.Invariant.{IsValid}
use bitcask.Bitcask.Published.{get}
use bitcask.Bitcask.Tests.{crc, calm, k1, one_key, runs, one_key-IsValid}
use bitcask.Bitcask.Merge.{
  PendingUpdate, apply_updates, run_compaction, merge_files, sealed_readers, total_bytes,
  start_compaction, remove_compacted,
}
use bitcask.Bitcask.Merge.Ready.{IsReady}
use bitcask.Bitcask.Merge.Preserves.{get-run_compaction, run_compaction-IsValid}
use bitcask.Bitcask.Merge.Updates.{apply_updates-kept, apply_updates_moved}

abbrev entry_at : ℕ → ℕ → IndexValue
entry_at id offset = record { file_id = id; ts = 1; offset = offset; len = 23 }

-- The key's record was copied from file 1, and the key was set again in file 9.
abbrev late : PendingUpdate
late = record { key = 107 ∷ []; previous_value = entry_at 1 0; new = entry_at 2 0 }

abbrev newer : Index
newer = put empty (107 ∷ []) (entry_at 9 46)

abbrev file_of : ℕ → Option IndexValue → ℕ
file_of n none = n
file_of n (some e) = e.file_id

apply_updates-kept_example :
    lookup (apply_updates (late ∷ []) newer) (107 ∷ []) ≡ lookup newer (107 ∷ [])
unfolding lookup put get_bucket bytes_eq Map.get Map.insert
apply_updates-kept_example = apply_updates-kept (late ∷ []) newer (107 ∷ []) (
  (λ same e found (file, offset).
      let nine : e.file_id ≡ 9 = ap (file_of 0) (sym found) in absurd (omega (arith, nine, file))),
  tt,
)

-- The key was not written during the merge, and leads to the copy.
abbrev unmoved : Index
unmoved = put empty (107 ∷ []) (entry_at 1 0)

apply_updates_moved_example :
    lookup (apply_updates (late ∷ []) unmoved) (107 ∷ []) ≡ some (entry_at 2 0)
unfolding lookup put get_bucket bytes_eq Map.get Map.insert
apply_updates_moved_example = apply_updates_moved late [] unmoved (entry_at 1 0) refl refl refl tt

-- One sealed file with one live record, and an empty active file.
pub one_key-IsReady : IsReady one_key
unfolding runs sealed_readers total_bytes
one_key-IsReady = record {
  valid = one_key-IsValid;
  listed = (refl, (refl, tt));
  new_compact = λ id above. refl;
  new_hint = λ id above. refl;
  positive = omega arith;
  measured = (refl, tt);
  size = omega arith;
  room = omega arith;
}

get-run_compaction_example : get (run_compaction one_key).1 k1 ≡ get one_key k1
get-run_compaction_example = get-run_compaction one_key-IsReady k1

one_key_compacts : (run_compaction one_key).0 ≡ ok (some tt)
unfolding runs Map.remove sealed_readers total_bytes merge_files start_compaction remove_compacted
    run_compaction next_record rename remove_file bitcask.RecordReader.new bitcask.Command.body_len
one_key_compacts = refl

run_compaction-IsValid_example : (some (tt {0}) ≡ some tt) × IsValid (run_compaction one_key).1
run_compaction-IsValid_example = run_compaction-IsValid one_key-IsReady one_key_compacts
