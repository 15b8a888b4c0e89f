-- ===== src/Bitcask/Appended.antt =====
-- The state of the writer after the record was written and published, before what follows a write.
use bitcask.Prelude.{
  ℕ, suc, ◌+◌, ◌-◌, ◌^◌, ◌≤◌, ◌<◌, ◌≡◌, refl, sym, subst, ap, Option, none, some, true, length,
  drop, ◌++◌, arith, length-append, take-append_le, drop-append_le, drop-append, take_self,
  length-drop, inl, inr, ◌==◌, ==_iff, ==_refl, Bool-cases,
}
use bitcask.Prelude.Bytes.{Bytes, bytes_eq, bytes_eq_iff}
use bitcask.Prelude.Map.{id_key}
use bitcask.Crc32.{Crc32}
use bitcask.BytesUtil.{slice}
use bitcask.Files.{write}
use bitcask.Files.Names.{file_name_key}
use bitcask.Utf8.{is_utf8}
use bitcask.Command.{Command, get_timestamp, serialize}
use bitcask.Command.RoundTrip.{Fits}
use bitcask.IndexValue.{IndexValue}
use bitcask.Index.{Index, lookup, put, delete}
use bitcask.Index.Lookup.{lookup-put, lookup-delete}
use bitcask.Bitcask.State.{Shared}
use bitcask.Bitcask.Write.{publish, replaced, writer_update, add_u64}
use bitcask.Bitcask.Outcome.{written}
use bitcask.Bitcask.Invariant.{IsOpen, Holds, IsValid}

pub slice-append :
    (xs ys : Bytes) (i n : ℕ) → i + n ≤ length xs → slice (xs ++ ys) i (i + n) ≡ slice xs i (i + n)
slice-append xs ys i n h =
    rw (drop-append_le i xs ys (let l : i ≤ length xs = omega arith in l))
      (take-append_le (i + n - i) (drop i xs) ys (omega (arith, length-drop i xs)))

pub slice_end : (xs ys : Bytes) → slice (xs ++ ys) (length xs) (length xs + length ys) ≡ ys
slice_end xs ys =
    let e : length xs + length ys - length xs ≡ length ys = omega arith in
    rw (e, drop-append) (take_self ys)

-- The entry that `append` publishes, and the keydir with it.
abbrev pub entry : Command → ℕ → Shared → IndexValue
entry c len s = record {
  file_id = s.writer.current_file_id;
  ts = get_timestamp c;
  offset = s.writer.offset;
  len = len;
}

abbrev pub index_after : Command → ℕ → Shared → Index
index_after (Command.set ts key value) len s =
    put s.index key (entry (Command.set ts key value) len s)
index_after (Command.rm ts key) len s = delete s.index key

-- The state behind a published record, whose stale bytes are `stale`.
abbrev pub with_record : Command → Bytes → ℕ → Shared → Shared
with_record c bytes stale s = record s {
  index = index_after c (length bytes) s;
  files = write s.writer.file bytes s.files;
  writer = record s.writer {
    offset = add_u64 s.writer.offset (length bytes);
    stale_bytes_count = stale;
  };
  tick = suc s.tick;
}

abbrev pub appended : Command → Bytes → Shared → Shared
appended c bytes s =
    writer_update (λ w. record w { offset = add_u64 w.offset (length bytes) })
      (publish c s.writer.offset (length bytes) (written bytes s))

replaced-writer :
    (o : Option IndexValue) (s : Shared)
    → (n : ℕ) × (replaced o s ≡ writer_update (λ w. record w { stale_bytes_count = n }) s)
replaced-writer none s = (s.writer.stale_bytes_count, refl)
replaced-writer (some old) s = (add_u64 s.writer.stale_bytes_count old.len, refl)

pub appended-with_record :
    (c : Command) (bytes : Bytes) (s : Shared)
    → (stale : ℕ) × (appended c bytes s ≡ with_record c bytes stale s)
unfolding publish
appended-with_record (Command.set ts key value) bytes s =
    let (n, e) = replaced-writer (lookup s.index key) _ in
    (n, ap (writer_update (λ w. record w { offset = add_u64 w.offset (length bytes) })) e)
appended-with_record (Command.rm ts key) bytes s =
    let (n, e) = replaced-writer (lookup s.index key) _ in
    (n, ap (writer_update (λ w. record w { offset = add_u64 w.offset (length bytes) })) e)

-- The writer stays in its file, at most the record's length further, under the same configuration.
pub appended-writer :
    (c : Command) (bytes : Bytes) (s : Shared)
    → ((appended c bytes s).writer.current_file_id ≡ s.writer.current_file_id)
      × ((appended c bytes s).writer.offset ≤ s.writer.offset + length bytes)
      × ((appended c bytes s).config ≡ s.config)
appended-writer c bytes s =
    let (stale, e) = appended-with_record c bytes s in
    (
      ap (λ t. t.writer.current_file_id) e,
      subst (λ t. t.writer.offset ≤ s.writer.offset + length bytes) (sym e) (omega arith),
      ap (λ t. t.config) e,
    )

module _ (c : Command) (bytes : Bytes) (stale : ℕ) {s : Shared} where
  pub with_record-IsOpen :
      s.writer.offset + length bytes < 2 ^ 64 → IsOpen s → IsOpen (with_record c bytes stale s)
  unfolding write
  with_record-IsOpen fits o = record {
    active = o.active;
    at_end = ground (arith, o.at_end, length-append (s.files.contents s.writer.file) bytes);
    ids = o.ids;
    inodes = o.inodes;
    names = o.names;
  }

  -- What a reader could reach it still reaches: a file only grows at its end.
  pub with_record-Holds :
      ⦃crc32 : Crc32⦄ (e : IndexValue) (key value : Bytes)
      → Holds s e key value
      → Holds (with_record c bytes stale s) e key value
  unfolding write
  with_record-Holds e key value h = elim (Bool-cases (s.writer.file == h.inode)) [
    | inl same ↦ record {
      inode = h.inode;
      opened = h.opened;
      inside =
          rw (same, (==_iff _ _).0 same)
            (omega (arith, h.inside, length-append (s.files.contents h.inode) bytes));
      bytes =
          rw
            (
              same,
              (==_iff _ _).0 same,
              slice-append (s.files.contents h.inode) bytes e.offset e.len h.inside,
            )
            h.bytes;
      fits = h.fits;
      text = h.text;
    }
    | inr different ↦ record {
      inode = h.inode;
      opened = h.opened;
      inside = rw different h.inside;
      bytes = rw different h.bytes;
      fits = h.fits;
      text = h.text;
    }
  ]

abbrev pub IsText : Command → Type 0
IsText (Command.set ts key value) = is_utf8 value ≡ true
IsText (Command.rm ts key) = Unit

-- A record that fits its format; a stored value is text.
pub record IsStorable (c : Command) : Type 0 where
  pub fits : Fits c
  pub text : IsText c

module _ ⦃crc32 : Crc32⦄ where
  pub entry-Holds :
      (ts : ℕ) (key value : Bytes) (stale : ℕ) {s : Shared}
      → IsOpen s
      → IsStorable (Command.set ts key value)
      → let c = Command.set ts key value in
        Holds (with_record c (serialize c) stale s) (entry c (length (serialize c)) s) key value
  unfolding write
  entry-Holds ts key value stale {s} o storable =
      let c = Command.set ts key value in
      let self : (s.writer.file == s.writer.file) ≡ true = ==_refl s.writer.file in
      record {
        inode = s.writer.file;
        opened = o.active;
        inside =
            rw self (
              omega
                (arith, o.at_end, length-append (s.files.contents s.writer.file) (serialize c)));
        bytes = rw (self, o.at_end) (slice_end (s.files.contents s.writer.file) (serialize c));
        fits = storable.fits;
        text = storable.text;
      }

  -- The keydir entries of the new state lead to their records, the new one included.
  with_record-entries :
      (c : Command) (stale : ℕ) {s : Shared}
      → IsValid s
      → IsStorable c
      → (j : Bytes) (e : IndexValue) → lookup (with_record c (serialize c) stale s).index j ≡ some e
      → (value : Bytes) × Holds (with_record c (serialize c) stale s) e j value
  with_record-entries (Command.set ts key value) stale {s} v storable j e found =
      let c = Command.set ts key value in
      let new : IndexValue = entry c (length (serialize c)) s in
      let law = lookup-put s.index key j new in
      elim (Bool-cases (bytes_eq key j)) [
        | inl same ↦
            let is_new : new ≡ e = ground (arith, law, found, same) in
            (
              value,
              rw (← is_new, ← (bytes_eq_iff key j).0 same)
                  (entry-Holds ts key value stale v.structure storable),
            )
        | inr other ↦
            let old : lookup s.index j ≡ some e = ground (arith, law, found, other) in
            let (w, h) = v.entries j e old in (w, with_record-Holds c (serialize c) stale e j w h)
      ]
  with_record-entries (Command.rm ts key) stale {s} v storable j e found =
      let c = Command.rm ts key in
      let old : lookup s.index j ≡ some e = ground (arith, lookup-delete s.index key j, found) in
      let (w, h) = v.entries j e old in (w, with_record-Holds c (serialize c) stale e j w h)

  pub appended-IsValid :
      (c : Command) {s : Shared}
      → s.writer.offset + length (serialize c) < 2 ^ 64
      → IsStorable c
      → IsValid s
      → IsValid (appended c (serialize c) s)
  appended-IsValid c {s} fits storable v =
      let (stale, e) = appended-with_record c (serialize c) s in
      rw e (record {
        structure = with_record-IsOpen c (serialize c) stale fits v.structure;
        entries = with_record-entries c stale v storable;
      })
