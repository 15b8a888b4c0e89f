-- ===== src/Files/Text.antt =====
-- The text of a file's name, and back: data_file_name_compaction, data_file_name, hint_file_name and
-- get_file_id of storage/bitcask.rs.
use bitcask.Prelude.{
  ℕ, ◌^◌, ◌<◌, ◌≤◌, ◌≡◌, refl, append_assoc, Bool, true, false, Option, none, some, ◌++◌, arith,
  length, Bool-cases, inl, inr,
}
use bitcask.Prelude.Bytes.{
  Bytes, codes, bytes_eq, ends_with, strip_suffix, ends_with-append, strip_suffix-append,
  ends_with-tail,
}
use bitcask.Decimal.{padded, padded-Shows, parse_u64, parse_u64-Shows}
use bitcask.Files.Names.{FileName}

abbrev pub data_file_name : ℕ → Bytes
data_file_name id = padded 6 id ++ codes ".data"

abbrev pub data_file_name_compaction : ℕ → Bytes
data_file_name_compaction id = data_file_name id ++ codes ".compact"

abbrev pub hint_file_name : ℕ → Bytes
hint_file_name id = padded 6 id ++ codes ".hint"

abbrev parse_stem : Option Bytes → Option ℕ
parse_stem none = none
parse_stem (some stem) = parse_u64 stem

unfoldable pub get_file_id : Bytes → Option ℕ
get_file_id file_name = parse_stem (strip_suffix file_name (codes ".data"))

-- What `open` parses of a hint file's name.
unfoldable pub hint_id : Bytes → Option ℕ
hint_id file_name = parse_stem (strip_suffix file_name (codes ".hint"))

abbrev pub file_text : FileName → Bytes
file_text (FileName.data_file id) = data_file_name id
file_text (FileName.compact_file id) = data_file_name_compaction id
file_text (FileName.hint_file id) = hint_file_name id

abbrev pub is_compact : Bytes → Bool
is_compact file_name = ends_with file_name (codes ".data.compact")

abbrev pub name_id : FileName → ℕ
name_id (FileName.data_file id) = id
name_id (FileName.compact_file id) = id
name_id (FileName.hint_file id) = id

-- What `open` makes of each name of the store: its id as a data file, whether it is an output of a
-- compaction, and its id as a hint file.
abbrev pub kind_of : FileName → Option ℕ × Bool × Option ℕ
kind_of (FileName.data_file id) = (some id, false, none)
kind_of (FileName.compact_file id) = (none, true, none)
kind_of (FileName.hint_file id) = (none, false, some id)

no_suffix :
    (xs ys suffix : Bytes)
    → length suffix ≤ length ys
    → ends_with ys suffix ≡ false
    → strip_suffix (xs ++ ys) suffix ≡ none
no_suffix xs ys suffix h e = rw (ends_with-append xs ys suffix h, e) refl

-- A name that the store gives to a file is told from its text alone, with an id that fits in a u64: a
-- data file gives its id back, and an output of a compaction and a hint file are no data file.
pub kind-file_text :
    (name : FileName)
    → name_id name < 2 ^ 64
    → (get_file_id (file_text name), is_compact (file_text name), hint_id (file_text name))
      ≡ kind_of name
unfolding get_file_id hint_id bytes_eq
kind-file_text (FileName.data_file id) room =
    let its_id : get_file_id (data_file_name id) ≡ some id =
      rw (get_file_id, strip_suffix-append (padded 6 id) (codes ".data"))
        (parse_u64-Shows id (padded 6 id) room (padded-Shows 6 id)) in
    let no_compact : is_compact (data_file_name id) ≡ false =
      elim (Bool-cases (is_compact (data_file_name id))) [
        | inr apart ↦ apart
        | inl ends ↦ absurd (
            cc (
              ends_with-tail (data_file_name id) (codes ".data.compac") (codes "t") ends,
              ends_with-append (padded 6 id) (codes ".data") (codes "t") (omega arith),
            ))
      ] in
    let no_hint : hint_id (data_file_name id) ≡ none =
      rw (hint_id, no_suffix (padded 6 id) (codes ".data") (codes ".hint") (omega arith) refl)
        refl in
    rw (its_id, no_compact, no_hint) refl
kind-file_text (FileName.compact_file id) room =
    let name = data_file_name id in
    let no_data : get_file_id (name ++ codes ".compact") ≡ none =
      rw (get_file_id, no_suffix name (codes ".compact") (codes ".data") (omega arith) refl) refl in
    let compact : is_compact (name ++ codes ".compact") ≡ true =
      rw (append_assoc (padded 6 id) (codes ".data") (codes ".compact")) (
        ends_with-append (padded 6 id) (codes ".data.compact") (codes ".data.compact")
          (omega arith)) in
    let no_hint : hint_id (name ++ codes ".compact") ≡ none =
      rw (hint_id, no_suffix name (codes ".compact") (codes ".hint") (omega arith) refl) refl in
    rw (no_data, compact, no_hint) refl
kind-file_text (FileName.hint_file id) room =
    let no_data : get_file_id (hint_file_name id) ≡ none =
      rw (get_file_id, no_suffix (padded 6 id) (codes ".hint") (codes ".data") (omega arith) refl)
        refl in
    let no_compact : is_compact (hint_file_name id) ≡ false =
      elim (Bool-cases (is_compact (hint_file_name id))) [
        | inr apart ↦ apart
        | inl ends ↦ absurd (
            cc (
              ends_with-tail (hint_file_name id) (codes ".data.compa") (codes "ct") ends,
              ends_with-append (padded 6 id) (codes ".hint") (codes "ct") (omega arith),
            ))
      ] in
    let hint : hint_id (hint_file_name id) ≡ some id =
      rw (hint_id, strip_suffix-append (padded 6 id) (codes ".hint"))
        (parse_u64-Shows id (padded 6 id) room (padded-Shows 6 id)) in
    rw (no_data, no_compact, hint) refl
