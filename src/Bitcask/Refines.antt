-- ===== src/Bitcask/Refines.antt =====
-- The store is a map: `set`, `remove` and `get` on a valid state act as the operations of a map from
-- keys to values, whatever the durability policy does and whether or not the file is rotated.
use bitcask.Prelude.{
  ℕ, suc, ◌+◌, ◌^◌, ◌<◌, ◌≡◌, ◌∙◌, ap, some, none, true, arith, length, inl, inr, Option-cases,
  if◌then◌else◌,
}
use bitcask.Prelude.Bytes.{Bytes, bytes_eq}
use bitcask.Crc32.{Crc32}
use bitcask.Error.{Result, ok, err, key_not_found}
use bitcask.Exec.{ok-seq, ◌>>=◌}
use bitcask.Utf8.{is_utf8}
use bitcask.Command.{Command, header_len, serialize, encoded_body_len}
use bitcask.Command.RoundTrip.{length-serialize}
use bitcask.IndexValue.{IndexValue}
use bitcask.Index.{lookup}
use bitcask.Bitcask.State.{Shared, Env, unix_now, tick_on}
use bitcask.Bitcask.Write.{append, set, remove, as_secs}
use bitcask.Bitcask.Lookup.{get_loop-Holds}
use bitcask.Bitcask.Invariant.{IsValid}
use bitcask.Bitcask.Steps.{Keeps-IsValid}
use bitcask.Bitcask.Appended.{IsStorable}
use bitcask.Bitcask.After.{Settles-marks}
use bitcask.Bitcask.Published.{
  Moves, HasRoom, get, get-Keeps, get-published_set, get-published_rm, append-Keeps, get-append,
}

-- A pair that the format can hold: the body's length is a u32, and the value is text.
pub record IsEntry (key value : Bytes) : Type 0 where
  pub body : 8 + 1 + 4 + length key + 4 + length value < 2 ^ 32
  pub text : is_utf8 value ≡ true

module _ ⦃crc32 : Crc32⦄ ⦃env : Env⦄ {s : Shared} (v : IsValid s) where
  pub tick-IsValid : IsValid (tick_on s)
  tick-IsValid =
      let same = Settles-marks {s = s} _ _ (suc s.tick) _ v.structure in
      Keeps-IsValid same.keeps same.is_open v

  get-tick : (j : Bytes) → get (tick_on s) j ≡ get s j
  get-tick j = get-Keeps v (Settles-marks {s = s} _ _ (suc s.tick) _ v.structure).keeps j

  module _ (key value : Bytes) (entry : IsEntry key value)
      (room : HasRoom s (header_len + (8 + 1 + 4 + length key + 4 + length value)))
      (went : (set key value s).0 ≡ ok tt) where
    pub set-IsStorable : (now : ℕ) → IsStorable (Command.set (as_secs now) key value)
    unfolding encoded_body_len
    set-IsStorable now = record {
      fits = record { ts = omega arith; body = entry.body };
      text = entry.text;
    }

    pub set_room :
        (now : ℕ) → HasRoom (tick_on s) (length (serialize (Command.set (as_secs now) key value)))
    unfolding encoded_body_len
    set_room now = rw length-serialize (record { id = room.id; offset = room.offset })

    -- A `set` that goes through, and where the writer is then.
    pub set_goes :
        IsValid (set key value s).1
        × ((j : Bytes)
            → get (set key value s).1 j
              ≡ (if bytes_eq key j then some (ok (some value)) else get s j))
        × Moves (header_len + (8 + 1 + 4 + length key + 4 + length value)) s (set key value s).1
    unfolding set unix_now encoded_body_len
    set_goes =
        ok-seq unix_now (λ now. append (Command.set (as_secs now) key value)) s went
          λ now h k.
            let c = Command.set (as_secs now) key value in
            let storable = set-IsStorable now in
            let (valid, _, moves) = append-Keeps c tick-IsValid storable (set_room now) k in
            rw h (
              valid,
              λ j.
                  let (stale, after) = get-append c tick-IsValid storable (set_room now) k j in
                  after
                  ∙ get-published_set stale tick-IsValid j (as_secs now) key value storable
                  ∙ ap (λ r. if bytes_eq key j then some (ok (some value)) else r) (get-tick j),
              record {
                file = moves.file;
                offset = omega (arith, moves.offset, length-serialize c);
                below = moves.below;
              },
            )

    -- On a valid state, of a pair that fits the format (IsEntry) and with counters that do not wrap
    -- (HasRoom): a `set` that goes through keeps the invariant, and afterwards `get` answers the value for its
    -- key and what it answered before for every other key.
    pub set_refines :
        IsValid (set key value s).1
        × ((j : Bytes)
            → get (set key value s).1 j
              ≡ (if bytes_eq key j then some (ok (some value)) else get s j))
    set_refines = (set_goes.0, set_goes.1)

  module _ (key : Bytes) (body : 8 + 1 + 4 + length key < 2 ^ 32)
      (room : HasRoom s (header_len + (8 + 1 + 4 + length key))) where
    pub rm-IsStorable : (now : ℕ) → IsStorable (Command.rm (as_secs now) key)
    unfolding encoded_body_len
    rm-IsStorable now = record { fits = record { ts = omega arith; body = body }; text = tt }

    pub rm_room :
        (now : ℕ) → HasRoom (tick_on s) (length (serialize (Command.rm (as_secs now) key)))
    unfolding encoded_body_len
    rm_room now = rw length-serialize (record { id = room.id; offset = room.offset })

    pub removed :
        (e : IndexValue)
        → lookup s.index key ≡ some e
        → (remove key s).0 ≡ ok tt
        → IsValid (remove key s).1
          × ((j : Bytes)
              → get (remove key s).1 j ≡ (if bytes_eq key j then some (ok none) else get s j))
          × Moves (header_len + (8 + 1 + 4 + length key)) s (remove key s).1
    unfolding remove unix_now encoded_body_len
    removed e found went =
        let seq = unix_now >>= λ now. append (Command.rm (as_secs now) key) in
        let same : remove key s ≡ seq s = rw (remove, found) in
        ok-seq unix_now (λ now. append (Command.rm (as_secs now) key)) s (rw same at went)
          λ now h k.
            let storable = rm-IsStorable now in
            let (valid, _, moves) =
              append-Keeps (Command.rm (as_secs now) key) tick-IsValid storable (rm_room now) k in
            rw (same, h)
              (
                valid,
                λ j.
                    let (stale, after) =
                      get-append (Command.rm (as_secs now) key) tick-IsValid storable (rm_room now)
                        k j in
                    after
                    ∙ get-published_rm stale tick-IsValid j (as_secs now) key
                    ∙ ap (λ r. if bytes_eq key j then some (ok none) else r) (get-tick j),
                record {
                  file = moves.file;
                  offset =
                      omega (arith, moves.offset, length-serialize (Command.rm (as_secs now) key));
                  below = moves.below;
                },
              )

    -- On a valid state, of a key that fits the format and with counters that do not wrap (HasRoom): a
    -- `remove` that goes through keeps the invariant, its key had a value, and afterwards `get` finds
    -- nothing for it and answers what it answered before for every other key.
    pub remove_refines :
        (remove key s).0 ≡ ok tt
        → IsValid (remove key s).1
          × ((value : Bytes) × (get s key ≡ some (ok (some value))))
          × ((j : Bytes)
              → get (remove key s).1 j ≡ (if bytes_eq key j then some (ok none) else get s j))
    unfolding remove
    remove_refines went = elim (Option-cases (lookup s.index key)) [
      | inl missing ↦
          let fails : remove key s ≡ (err key_not_found, s) = rw (remove, missing) in
          absurd (cc (went, ap (λ (r : Result Unit × Shared). r.0) fails))
      | inr (e, found) ↦
          let (value, h) = v.entries key e found in
          let (valid, answers, _) = removed e found went in
          (valid, (value, get_loop-Holds s 0 0 key value e found h), answers)
    ]

  -- `remove` of a key for which `get` finds nothing fails with `KeyNotFound` and changes nothing.
  pub remove_missing :
      (key : Bytes) → get s key ≡ some (ok none) → remove key s ≡ (err key_not_found, s)
  unfolding remove
  remove_missing key nothing = elim (Option-cases (lookup s.index key)) [
    | inl missing ↦ rw (remove, missing)
    | inr (e, found) ↦
        let (value, h) = v.entries key e found in
        absurd (cc (nothing, get_loop-Holds s 0 0 key value e found h))
  ]
