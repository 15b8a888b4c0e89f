-- ===== src/Files/Names.antt =====
-- The names of the store's files, by the id that they hold: data_file_name,
-- data_file_name_compaction and hint_file_name of storage/bitcask.rs.
use bitcask.Prelude.{ℕ, ◌≡◌, ◌↔◌, Bool, true, false, arith, ◌==◌}
use bitcask.Prelude.Map.{Key}

pub data FileName : Type 0 where
  data_file : ℕ → FileName
  compact_file : ℕ → FileName
  hint_file : ℕ → FileName

unfoldable pub name_eq : FileName → FileName → Bool
name_eq (FileName.data_file i) (FileName.data_file j) = i == j
name_eq (FileName.compact_file i) (FileName.compact_file j) = i == j
name_eq (FileName.hint_file i) (FileName.hint_file j) = i == j
name_eq _ _ = false

pub name_eq_iff : (a b : FileName) → (name_eq a b ≡ true) ↔ (a ≡ b)
unfolding name_eq
name_eq_iff (FileName.data_file i) (FileName.data_file j) = ground arith
name_eq_iff (FileName.compact_file i) (FileName.compact_file j) = ground arith
name_eq_iff (FileName.hint_file i) (FileName.hint_file j) = ground arith
name_eq_iff _ _ = ground arith

instance abbrev pub file_name_key : Key FileName
file_name_key = record { beq = name_eq; beq_iff = name_eq_iff }
