-- ===== src/Bitcask/Durable/Rotated.antt =====
-- What a rotation makes of the files.
use bitcask.Prelude.{
  ℕ, ◌^◌, ◌<◌, ◌≡◌, refl, ◌∙◌, sym, ap, subst, none, some, false, List, [], ◌∷◌, ◌++◌, All, arith,
  length, append-nil, ◌==◌, ==_refl, Option-cases, inl, inr, if◌then◌else◌,
}
use bitcask.Prelude.Map
use bitcask.Prelude.Map.{Map, id_key}
use bitcask.Crc32.{Crc32}
use bitcask.Files.Names.{data_file, hint_file, name_eq, file_name_key}
use bitcask.Command.{Command}
use bitcask.Bitcask.State.{Shared, insert}
use bitcask.Bitcask.Outcome.{rotated}
use bitcask.Bitcask.Readers.{get-insert}
use bitcask.Bitcask.Readers.Order.{
  Ascending, Ascending-insert, Below-last, insert_last, last_greatest,
}
use bitcask.Bitcask.Loader.Replay.{log}
use bitcask.Bitcask.Loader.Among.{All-map}
use bitcask.Bitcask.Loader.Recovery.{bytes_of, commands, Sealed, no_hint}
use bitcask.Bitcask.Loader.Crash.{commands-append}
use bitcask.Bitcask.Durable.{files_of, OnDisk}
use bitcask.Bitcask.Durable.Directory.{HasIds-insert, Unique-insert}
use bitcask.Bitcask.Durable.Files.{there, sealed_listed, Sealed-kept}

module _ ⦃crc32 : Crc32⦄ where
  module _ {logs : ℕ → List Command} {s : Shared} {sealed : Map ℕ ℕ} (d : OnDisk logs s sealed)
      (id now : ℕ) (above : s.writer.current_file_id < id) (fits : id < 2 ^ 64)
      (small : length (bytes_of logs s.writer.current_file_id) < 2 ^ 63) where
    abbrev before : Map ℕ ℕ
    before = files_of s sealed

    at_end : insert before id s.files.next_inode ≡ before ++ ((id, s.files.next_inode) ∷ [])
    at_end =
        insert_last before id s.files.next_inode
          (Below-last sealed s.writer.current_file_id s.writer.file id d.placed.ascending above)

    got :
        (j : ℕ)
        → Map.get (before ++ ((id, s.files.next_inode) ∷ [])) j
          ≡ (if id == j then some s.files.next_inode else Map.get before j)
    got j = ap (λ m. Map.get m j) (sym at_end) ∙ get-insert before id j s.files.next_inode

    new_id : Map.get before id ≡ none
    new_id = elim (Option-cases (Map.get before id)) [
      | inl none_there ↦ none_there
      | inr (f, found) ↦ absurd (
          omega (
            arith,
            above,
            last_greatest sealed s.writer.current_file_id s.writer.file d.placed.ascending id f
                found,
          ))
    ]

    old_file :
        (i f : ℕ)
        → Map.get before i ≡ some f
        → (rotated id now s).files.contents f ≡ s.files.contents f
    old_file i f h =
        let apart : (s.files.next_inode == f) ≡ false = ground (arith, d.placed.inodes i f h) in
        rw apart refl

    hints_none : (i : ℕ) → Map.get (rotated id now s).files.dir (hint_file i) ≡ none
    hints_none i =
        Map.get-insert s.files.dir (data_file id) (hint_file i) s.files.next_inode
        ∙ (unfold name_eq in d.no_hints i)

    -- The active file, once it is sealed.
    active-Sealed : Sealed logs (rotated id now s).files (s.writer.current_file_id, s.writer.file)
    active-Sealed = record {
      bytes = old_file s.writer.current_file_id s.writer.file (there d) ∙ d.bytes;
      described = no_hint (hints_none s.writer.current_file_id);
      fits =
          All-map (logs s.writer.current_file_id) (λ x storable. storable.fits)
            (d.placed.storable s.writer.current_file_id);
      small = small;
    }

    all-Sealed : All (Sealed logs (rotated id now s).files) before
    all-Sealed = snoc sealed (
        Sealed-kept d logs (rotated id now s).files sealed hints_none (λ i less. refl)
          (λ i f h less. old_file i f h) (sealed_listed d) d.closed)
      where
        snoc :
            (m : Map ℕ ℕ)
            → All (Sealed logs (rotated id now s).files) m
            → All (Sealed logs (rotated id now s).files) (files_of s m)
        snoc [] h = (active-Sealed, tt)
        snoc (f ∷ m) h = (h.0, snoc m h.1)

    pub OnDisk-rotated : OnDisk logs (rotated id now s) before
    OnDisk-rotated = record {
      readers = ap (λ m. insert m id s.files.next_inode) d.readers ∙ at_end;
      placed = record {
        ascending =
            subst Ascending at_end
              (Ascending-insert before id s.files.next_inode d.placed.ascending);
        own = λ i j f h k. ground (
          arith,
          got i,
          got j,
          h,
          k,
          d.placed.own i j f,
          d.placed.inodes i f,
          d.placed.inodes j f,
        );
        inodes = λ i f h. ground (arith, got i, h, d.placed.inodes i f);
        names = λ i.
            Map.get-insert s.files.dir (data_file id) (data_file i) s.files.next_inode
            ∙ (unfold name_eq in ground (arith, d.placed.names i, got i));
        logged = λ i h. logged_later i h;
        storable = d.placed.storable;
      };
      room = HasIds-insert s.files.dir (data_file id) s.files.next_inode fits d.room;
      unique = Unique-insert s.files.dir (data_file id) s.files.next_inode d.unique;
      no_hints = hints_none;
      closed = all-Sealed;
      bytes = rw (==_refl s.files.next_inode) (sym (ap log (d.placed.logged id new_id)));
    }
      where
        logged_later :
            (i : ℕ) → Map.get (before ++ ((id, s.files.next_inode) ∷ [])) i ≡ none → logs i ≡ []
        logged_later i h = d.placed.logged i (ground (arith, got i, h))

    pub commands-rotated : commands logs (files_of (rotated id now s) before) ≡ commands logs before
    commands-rotated =
        commands-append logs before ((id, s.files.next_inode) ∷ [])
        ∙ rw (d.placed.logged id new_id, append-nil) refl
