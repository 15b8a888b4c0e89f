-- ===== src/Bitcask/Concurrent/Grown.antt =====
-- The writer's steps keep what a reader relies on.
use bitcask.Prelude.{
  ℕ, ◌<◌, ◌≡◌, refl, ◌∙◌, sym, ap, subst, Option, none, some, false, arith, length-append, ◌==◌,
  ==_iff, Bool-cases, inl, inr, [], ◌++◌, append-nil,
}
use bitcask.Prelude.Bytes.{Bytes, bytes_eq, bytes_eq_iff}
use bitcask.Prelude.Map
use bitcask.Prelude.Map.{id_key}
use bitcask.Crc32.{Crc32}
use bitcask.Files.{write, at}
use bitcask.Command.{Command}
use bitcask.IndexValue.{IndexValue}
use bitcask.Index.{lookup, put, delete}
use bitcask.Index.Lookup.{lookup-put, lookup-delete}
use bitcask.Bitcask.State.{Shared, insert}
use bitcask.Bitcask.Write.{publish, replaced}
use bitcask.Bitcask.Readers.{get-insert}
use bitcask.Bitcask.Invariant.{Holds, IsValid}
use bitcask.Bitcask.Appended.{slice-append}
use bitcask.Bitcask.Merge.Start.{Kept}
use bitcask.Bitcask.Concurrent.{
  Booked, InPlace, Step, books, writes, publishes, creates, opens, Steps, still, further, Served,
  Sees,
}

module _ ⦃crc32 : Crc32⦄ where
  pub IsValid-Served : {s : Shared} → IsValid s → Served s
  IsValid-Served v = record { inodes = v.structure.inodes; entries = v.entries }

  -- The same through files that have only grown, and more readers.
  Holds-grown :
      {s t : Shared}
      → ((id inode : ℕ) → Map.get s.readers id ≡ some inode → Map.get t.readers id ≡ some inode)
      → ((id inode : ℕ)
          → Map.get s.readers id ≡ some inode
          → (more : Bytes) × (t.files.contents inode ≡ s.files.contents inode ++ more))
      → Sees s t
  Holds-grown opened grown = record {
    opened = opened;
    data_kept = λ e key value h.
        let (more, same) = grown e.file_id h.inode h.opened in
        record {
          inode = h.inode;
          opened = opened e.file_id h.inode h.opened;
          inside = rw same (omega (arith, h.inside, length-append _ more));
          bytes = rw (same, slice-append _ more e.offset e.len h.inside) h.bytes;
          fits = h.fits;
          text = h.text;
        };
  }

  same_grown :
      {s t : Shared} → t.readers ≡ s.readers → t.files.contents ≡ s.files.contents → Sees s t
  same_grown readers contents =
      Holds-grown (λ id inode h. rw readers h)
        (λ id inode h. ([], ap (λ c. c inode) contents ∙ sym (append-nil _)))

  write_grown :
      (s : Shared) (inode : ℕ) (bytes : Bytes)
      → Sees s (record s { files = write inode bytes s.files })
  unfolding write
  write_grown s inode bytes =
      Holds-grown (λ id j h. h)
        (λ id j h. elim (Bool-cases (inode == j)) [
          | inl same ↦ (bytes, rw (same, (==_iff _ _).0 same) refl)
          | inr apart ↦ ([], rw (apart, append-nil) refl)
        ])

  create_grown :
      {s t : Shared}
      → Served s
      → t.readers ≡ s.readers
      → t.files.contents ≡ at s.files.contents s.files.next_inode []
      → Sees s t
  create_grown {s} v readers contents =
      Holds-grown (λ id inode h. rw readers h)
        (λ id inode h.
          let old : (s.files.next_inode == inode) ≡ false = ground (arith, v.inodes id inode h) in
          ([], ap (λ c. c inode) contents ∙ rw (old, append-nil) refl))

  open_grown :
      (s : Shared) (id inode : ℕ)
      → Map.get s.readers id ≡ none
      → Sees s (record s { readers = insert s.readers id inode })
  open_grown s id inode new =
      Holds-grown (λ j f h. ground (arith, get-insert s.readers id j inode, new, h))
        (λ j f h. ([], sym (append-nil _)))

  replaced-Sees : (o : Option IndexValue) (s : Shared) → Booked s (replaced o s)
  replaced-Sees none s = record {
    index = refl;
    readers = refl;
    contents = refl;
    next_inode = refl;
    dir = refl;
    current = refl;
    handle = refl;
  }
  replaced-Sees (some old) s = record {
    index = refl;
    readers = refl;
    contents = refl;
    next_inode = refl;
    dir = refl;
    current = refl;
    handle = refl;
  }

  publish_grown : (c : Command) (offset len : ℕ) (s : Shared) → Sees s (publish c offset len s)
  unfolding publish
  publish_grown (Command.set ts key value) offset len s =
      let b = replaced-Sees (lookup s.index key) _ in same_grown b.readers b.contents
  publish_grown (Command.rm ts key) offset len s =
      let b = replaced-Sees (lookup s.index key) _ in same_grown b.readers b.contents

  -- A step keeps what a reader could reach.
  Step-Sees : {s t : Shared} → Served s → Step s t → Sees s t
  Step-Sees v (books t b) = same_grown b.readers b.contents
  Step-Sees {s} v (writes inode bytes) = write_grown s inode bytes
  Step-Sees {s} v (publishes c offset len placed) = publish_grown c offset len s
  Step-Sees v (creates t index readers contents next_inode) = create_grown v readers contents
  Step-Sees {s} v (opens id inode new made) = open_grown s id inode new

  -- Under the index as it was.
  kept-Served :
      {s t : Shared}
      → Served s
      → Sees s t
      → t.index ≡ s.index
      → ((id inode : ℕ) → Map.get t.readers id ≡ some inode → inode < t.files.next_inode)
      → Served t
  kept-Served v k index inodes = record {
    inodes = inodes;
    entries = λ key e found.
        let (value, h) = v.entries key e (rw index at found) in (value, k.data_kept e key value h);
  }

  publish-entries :
      (c : Command) (offset len : ℕ) {s : Shared}
      → Served s
      → InPlace c offset len s
      → (j : Bytes) (e : IndexValue) → lookup (publish c offset len s).index j ≡ some e
      → (value : Bytes) × Holds s e j value
  unfolding publish
  publish-entries (Command.set ts key value) offset len {s} v placed j e found =
      let new : IndexValue = record {
        file_id = s.writer.current_file_id;
        ts = ts;
        offset = offset;
        len = len;
      } in
      let index =
        (replaced-Sees (lookup s.index key) (record s { index = put s.index key new })).index in
      let law = lookup-put s.index key j new in
      let put_found : lookup (put s.index key new) j ≡ some e =
        subst (λ i. lookup i j ≡ some e) index found in
      elim (Bool-cases (bytes_eq key j)) [
        | inl same ↦
            let is_new : new ≡ e = ground (arith, law, put_found, same) in
            (
              value,
              subst (λ q. Holds s q j value) is_new
                  (subst (λ k. Holds s new k value) ((bytes_eq_iff key j).0 same) placed),
            )
        | inr other ↦ v.entries j e (ground (arith, law, put_found, other))
      ]
  publish-entries (Command.rm ts key) offset len {s} v placed j e found =
      let index =
        (replaced-Sees (lookup s.index key) (record s { index = delete s.index key })).index in
      let del_found : lookup (delete s.index key) j ≡ some e =
        subst (λ i. lookup i j ≡ some e) index found in
      v.entries j e (ground (arith, lookup-delete s.index key j, del_found))

  publish-Booked :
      (c : Command) (offset len : ℕ) (s : Shared)
      → ((publish c offset len s).readers ≡ s.readers)
        × ((publish c offset len s).files.next_inode ≡ s.files.next_inode)
  unfolding publish
  publish-Booked (Command.set ts key value) offset len s =
      let b = replaced-Sees (lookup s.index key) _ in (b.readers, b.next_inode)
  publish-Booked (Command.rm ts key) offset len s =
      let b = replaced-Sees (lookup s.index key) _ in (b.readers, b.next_inode)

  Step-Served : {s t : Shared} → Served s → Step s t → Served t
  Step-Served {s} v (books t b) =
      kept-Served v (Step-Sees v (books t b)) b.index
        (λ id inode h. rw b.next_inode (v.inodes id inode (rw b.readers at h)))
  Step-Served {s} v (writes inode bytes) =
      kept-Served v (Step-Sees v (writes inode bytes)) refl
        (λ id j h. unfold write in v.inodes id j h)
  Step-Served {s} v (publishes c offset len placed) =
      let (readers, next_inode) = publish-Booked c offset len s in
      let k = publish_grown c offset len s in
      record {
        inodes = λ id inode h. rw next_inode (v.inodes id inode (rw readers at h));
        entries = λ key e found.
            let (value, h) = publish-entries c offset len v placed key e found in
            (value, k.data_kept e key value h);
      }
  Step-Served {s} v (creates t index readers contents next_inode) =
      kept-Served v (create_grown v readers contents) index
        (λ id inode h. rw next_inode (omega (arith, v.inodes id inode (rw readers at h))))
  Step-Served {s} v (opens id inode new made) =
      kept-Served v (open_grown s id inode new) refl
        (λ j f h. ground (arith, get-insert s.readers id j inode, v.inodes j f, h, made))

  Sees-trans : {s t u : Shared} → Sees s t → Sees t u → Sees s u
  Sees-trans a b = record {
    opened = λ id inode h. b.opened id inode (a.opened id inode h);
    data_kept = λ e key value h. b.data_kept e key value (a.data_kept e key value h);
  }

  pub Steps-Served : {s t : Shared} → Served s → Steps s t → Served t × Sees s t
  Steps-Served v still = (v, record { opened = λ id inode h. h; data_kept = λ e key value h. h })
  Steps-Served v (further steps step) =
      let (mid, sees) = Steps-Served v steps in
      (Step-Served mid step, Sees-trans sees (Step-Sees mid step))

  -- What one state leads to for a reader.
  abbrev pub Onward : Shared → Shared → Type 0
  Onward s t = Served s → Served t × Sees s t

  pub Onward-refl : {s : Shared} → Onward s s
  Onward-refl v = Steps-Served v still

  pub Onward-trans : {s t u : Shared} → Onward s t → Onward t u → Onward s u
  Onward-trans a b v =
      let (mid, first) = a v in let (last, second) = b mid in (last, Sees-trans first second)

  -- A rotation that failed.
  pub Kept-Onward : {s t : Shared} → Kept s t → Onward s t
  Kept-Onward {s} {t} k v =
      let sees : Sees s t =
        Holds-grown (λ id inode h. rw k.readers h)
          (λ id inode h. ([], k.contents inode (v.inodes id inode h) ∙ sym (append-nil _))) in
      (
        kept-Served v sees k.index
            (λ id inode h. omega (arith, v.inodes id inode (rw k.readers at h), k.room)),
        sees,
      )
