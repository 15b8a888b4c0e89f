-- ===== src/Bitcask/Loader/Keydir.antt =====
-- The keydir that the replay of a data file builds shows the map that the file's commands make.
use bitcask.Prelude.{
  ℕ, ◌+◌, ◌≤◌, ◌≡◌, ◌∙◌, sym, ap, subst, Option, none, some, List, [], ◌∷◌, ◌++◌, All, arith,
  length, drop, length-append, append_assoc, drop-append, inl, inr, Bool-cases, if◌then◌else◌,
}
use bitcask.Prelude.Bytes.{Bytes, bytes_eq, bytes_eq_iff}
use bitcask.Crc32.{Crc32}
use bitcask.BytesUtil.{slice}
use bitcask.BytesUtil.Cursor.{At, slice-At}
use bitcask.Files.Names.{file_name_key}
use bitcask.Command.{Command, serialize}
use bitcask.IndexValue.{IndexValue}
use bitcask.Index.{Index, lookup}
use bitcask.Index.Lookup.{lookup-put, lookup-delete}
use bitcask.Bitcask.Loader.{Loader, replay_command}
use bitcask.Bitcask.Loader.Replay.{log, replayed}

-- The commands of a log, as the changes of a map that they are.
abbrev pub apply : Command → (Bytes → Option Bytes) → Bytes → Option Bytes
apply (Command.set ts key value) m j = if bytes_eq key j then some value else m j
apply (Command.rm ts key) m j = if bytes_eq key j then none else m j

abbrev pub view : List Command → (Bytes → Option Bytes) → Bytes → Option Bytes
view [] m = m
view (c ∷ cs) m = view cs (apply c m)

-- The files by id: their bytes, and the commands in them.
module _ ⦃crc32 : Crc32⦄ (bytes_of : ℕ → Bytes) (Logged : ℕ → Command → Type 0) where
  -- A key without a value has no entry; one with a value has an entry that leads to a record of it
  -- in the bytes of the entry's file.
  pub data Shows (key : Bytes) : Option Bytes → Option IndexValue → Type 0 where
    absent : Shows key none none
    present :
        (e : IndexValue) (value : Bytes)
        → e.offset + e.len ≤ length (bytes_of e.file_id)
        → slice (bytes_of e.file_id) e.offset (e.offset + e.len)
          ≡ serialize (Command.set e.ts key value)
        → Logged e.file_id (Command.set e.ts key value)
        → Shows key (some value) (some e)

  -- The keydir shows the map.
  abbrev pub ShowsAll : (Bytes → Option Bytes) → Index → Type 0
  ShowsAll m index = (j : Bytes) → Shows j (m j) (lookup index j)

  module _ (file_id : ℕ) (before rest : Bytes) (m : Bytes → Option Bytes) (l : Loader)
      (shows : ShowsAll m l.index) where
    replay_command-Shows :
        (c : Command)
        → Logged file_id c
        → bytes_of file_id ≡ before ++ (serialize c ++ rest)
        → ShowsAll
            (apply c m)
            (replay_command file_id (length before) (length (serialize c)) c l).index
    unfolding replay_command
    replay_command-Shows (Command.set ts key value) logged e j =
        elim (Bool-cases (bytes_eq key j)) [
          | inl same ↦
              let k : key ≡ j = (bytes_eq_iff key j).0 same in
              let at : At (bytes_of file_id) (length before)
                  (serialize (Command.set ts key value) ++ rest) =
                record {
                  inside = omega (
                    arith,
                    ap length e,
                    length-append before (serialize (Command.set ts key value) ++ rest),
                  );
                  follows = ap (drop (length before)) e ∙ drop-append before _;
                } in
              rw (lookup-put, same)
                (subst
                  (λ j. Shows j (some value) (
                    some (record {
                      file_id = file_id;
                      ts = ts;
                      offset = length before;
                      len = length (serialize (Command.set ts key value));
                    })))
                  k
                  (present _ value
                    (omega (
                      arith,
                      ap length e,
                      length-append before (serialize (Command.set ts key value) ++ rest),
                      length-append (serialize (Command.set ts key value)) rest,
                    ))
                    (slice-At (bytes_of file_id) (length before)
                      (serialize (Command.set ts key value)) rest at)
                    logged))
          | inr other ↦ rw (lookup-put, other) (shows j)
        ]
    replay_command-Shows (Command.rm ts key) logged e j = elim (Bool-cases (bytes_eq key j)) [
      | inl same ↦ rw (lookup-delete, same) absent
      | inr other ↦ rw (lookup-delete, other) (shows j)
    ]

  pub replayed-Shows :
      (file_id : ℕ) (cs : List Command) (before : Bytes) (m : Bytes → Option Bytes) (l : Loader)
      → ShowsAll m l.index
      → (rest : Bytes) → All (Logged file_id) cs
      → bytes_of file_id ≡ before ++ (log cs ++ rest)
      → ShowsAll (view cs m) (replayed file_id (length before) cs l).index
  replayed-Shows file_id [] before m l shows rest logged e = shows
  replayed-Shows file_id (c ∷ cs) before m l shows rest logged e =
      let e₁ : bytes_of file_id ≡ before ++ (serialize c ++ (log cs ++ rest)) =
        e ∙ ap (λ t. before ++ t) (append_assoc (serialize c) (log cs) rest) in
      let e₂ : bytes_of file_id ≡ (before ++ serialize c) ++ (log cs ++ rest) =
        e₁ ∙ sym (append_assoc before (serialize c) (log cs ++ rest)) in
      rw (length-append before (serialize c)) at (
        replayed-Shows file_id cs (before ++ serialize c) (apply c m)
          (replay_command file_id (length before) (length (serialize c)) c l)
          (replay_command-Shows file_id before (log cs ++ rest) m l shows c logged.0 e₁) rest
          logged.1 e₂)
