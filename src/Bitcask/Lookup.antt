-- ===== src/Bitcask/Lookup.antt =====
-- `get` on a state whose entry leads to a record.
use bitcask.Prelude.{
  ℕ, suc, ◌-◌, ◌≡◌, ap, none, some, length, drop, ◌++◌, ◌∷◌, [], arith, append-nil, append_assoc,
  length-append, drop-append, le→ltb,
}
use bitcask.Prelude.Bytes.{Bytes}
use bitcask.Prelude.Map.{id_key}
use bitcask.Crc32.{Crc32}
use bitcask.Error.{ok}
use bitcask.Wire.{to_le_bytes, as_u32}
use bitcask.BytesUtil.Cursor.{IsBuffer}
use bitcask.Files.{read_exact_at}
use bitcask.Command.{Command, serialize, deserialize, encoded_body_len}
use bitcask.Command.RoundTrip.{
  Fits, covered, serialize-covered, length-serialize, deserialize-serialize, write_body-fields,
}
use bitcask.IndexValue.{IndexValue}
use bitcask.Index.{lookup}
use bitcask.Bitcask.State.{Shared}
use bitcask.Bitcask.Read.{read_entry, get_loop}
use bitcask.Bitcask.Invariant.{Holds}

drop_front : (xs ys : Bytes) → drop (length (xs ++ ys) - length ys) (xs ++ ys) ≡ ys
drop_front xs ys =
    let e : length (xs ++ ys) - length ys ≡ length xs = omega (arith, length-append xs ys) in
    rw e (drop-append xs ys)

module _ ⦃crc32 : Crc32⦄ where
  -- The value is the end of its record.
  serialize-value :
      (ts : ℕ) (key value : Bytes)
      → (front : Bytes) × (serialize (Command.set ts key value) ≡ front ++ value)
  serialize-value ts key value =
      let c = Command.set ts key value in
      (
        to_le_bytes 4 (crc32.hash (covered c))
            ++ (to_le_bytes 4 (as_u32 (encoded_body_len c))
                ++ (to_le_bytes 8 ts
                    ++ (0
                        ∷ (to_le_bytes 4 (as_u32 (length key))
                            ++ (key ++ to_le_bytes 4 (as_u32 (length value))))))),
        simp (serialize-covered c, write_body-fields c, append_assoc),
      )

  value-serialize :
      (ts : ℕ) (key value : Bytes)
      → drop
          (length (serialize (Command.set ts key value)) - length value)
          (serialize (Command.set ts key value))
        ≡ value
  value-serialize ts key value =
      let (front, e) = serialize-value ts key value in rw e (drop_front front value)

  record_small : (c : Command) → Fits c → IsBuffer (serialize c)
  record_small c fits = omega (arith, length-serialize c, fits.body)

  pub deserialize_record :
      (c : Command) → Fits c → deserialize (serialize c) ≡ ok (c, length (serialize c))
  deserialize_record c fits =
      rw (append-nil (serialize c)) at
        (deserialize-serialize c [] fits (rw append-nil (record_small c fits)))

  pub read_entry-Holds :
      (s : Shared) (e : IndexValue) (key value : Bytes) (h : Holds s e key value)
      → read_entry e h.inode s.files ≡ ok (some value)
  unfolding read_entry read_exact_at
  read_entry-Holds s e key value h = rw (
    le→ltb _ _ h.inside,
    h.bytes,
    deserialize_record _ h.fits,
    value-serialize e.ts key value,
    h.text,
  )

  -- A reader that sees one state finds the value in its first round.
  pub get_loop-Holds :
      (s : Shared) (fuel now : ℕ) (key value : Bytes) (e : IndexValue)
      → lookup s.index key ≡ some e
      → Holds s e key value
      → get_loop (suc fuel) (λ _. s) now key ≡ some (ok (some value))
  unfolding get_loop
  get_loop-Holds s fuel now key value e found h =
      rw (get_loop, found, h.opened) (ap some (read_entry-Holds s e key value h))

  pub get_loop_missing :
      (s : Shared) (fuel now : ℕ) (key : Bytes)
      → lookup s.index key ≡ none
      → get_loop (suc fuel) (λ _. s) now key ≡ some (ok none)
  unfolding get_loop
  get_loop_missing s fuel now key missing = rw (get_loop, missing)
