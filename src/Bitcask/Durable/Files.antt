-- ===== src/Bitcask/Durable/Files.antt =====
-- What the steps of an `append` make of the files.
use bitcask.Prelude.{
  ℕ, ◌<◌, ◌≡◌, refl, ◌∙◌, sym, ap, subst, none, some, false, List, [], ◌∷◌, ◌++◌, All, arith,
  append_assoc, append-nil, ◌==◌, ==_iff, ==_refl, Bool-cases, inl, inr,
}
use bitcask.Prelude.Map
use bitcask.Prelude.Map.{Map, id_key}
use bitcask.Crc32.{Crc32}
use bitcask.Files.{Files, write, at}
use bitcask.Files.Names.{hint_file, file_name_key}
use bitcask.Command.{Command, serialize}
use bitcask.Bitcask.State.{Shared}
use bitcask.Bitcask.Appended.{IsStorable, with_record}
use bitcask.Bitcask.Readers.Order.{Below, Below-front, listed, get_last}
use bitcask.Bitcask.Concurrent.{Booked}
use bitcask.Bitcask.Loader.Replay.{log}
use bitcask.Bitcask.Loader.Recovery.{commands, Sealed, no_hint}
use bitcask.Bitcask.Loader.Crash.{commands-append}
use bitcask.Bitcask.Durable.{files_of, OnDisk}

module _ ⦃crc32 : Crc32⦄ where
  log-append : (xs ys : List Command) → log (xs ++ ys) ≡ log xs ++ log ys
  log-append [] ys = refl
  log-append (x ∷ xs) ys =
      ap (λ t. serialize x ++ t) (log-append xs ys)
      ∙ sym (append_assoc (serialize x) (log xs) (log ys))

  -- One command more in one log.
  abbrev pub logged_at : (ℕ → List Command) → ℕ → Command → ℕ → List Command
  logged_at logs id c = at logs id (logs id ++ (c ∷ []))

  commands-Below :
      (logs : ℕ → List Command) (id : ℕ) (c : Command) (m : Map ℕ ℕ)
      → Below id m
      → commands (logged_at logs id c) m ≡ commands logs m
  commands-Below logs id c [] h = refl
  commands-Below logs id c ((i, f) ∷ m) h =
      let apart : (id == i) ≡ false = ground (arith, h.0) in
      rw (apart, commands-Below logs id c m h.1) refl

  module _ {logs : ℕ → List Command} {s : Shared} {sealed : Map ℕ ℕ}
      (d : OnDisk logs s sealed) where
    pub there : Map.get (files_of s sealed) s.writer.current_file_id ≡ some s.writer.file
    there = get_last sealed s.writer.current_file_id s.writer.file d.placed.ascending

    -- The sealed files are found, and are not the active one.
    pub sealed_listed :
        All
          (λ file.
            (Map.get (files_of s sealed) file.0 ≡ some file.1)
            × (file.0 < s.writer.current_file_id))
          sealed
    sealed_listed =
        All-two _ _ sealed
          (listed sealed ((s.writer.current_file_id, s.writer.file) ∷ []) d.placed.ascending)
          (Below-front sealed s.writer.current_file_id s.writer.file d.placed.ascending)
      where
        All-two : (P Q : ℕ × ℕ → Type 0) (m : Map ℕ ℕ) → All P m → All Q m → All (λ f. P f × Q f) m
        All-two P Q [] p q = tt
        All-two P Q (f ∷ m) p q = ((p.0, q.0), All-two P Q m p.1 q.1)

    pub other_file :
        (i f : ℕ)
        → Map.get (files_of s sealed) i ≡ some f
        → i < s.writer.current_file_id
        → (s.writer.file == f) ≡ false
    other_file i f h less = elim (Bool-cases (s.writer.file == f)) [
      | inl same ↦
          let e = (==_iff s.writer.file f).0 same in
          let clash = d.placed.own s.writer.current_file_id i f (there ∙ ap some e) h in
          absurd (omega (arith, clash, less))
      | inr apart ↦ apart
    ]

    -- Files that have the same names and hold the same under the ids of the sealed ones.
    pub Sealed-kept :
        (now : ℕ → List Command) (files : Files) (m : Map ℕ ℕ)
        → ((i : ℕ) → Map.get files.dir (hint_file i) ≡ none)
        → ((i : ℕ) → i < s.writer.current_file_id → now i ≡ logs i)
        → ((i f : ℕ)
            → Map.get (files_of s sealed) i ≡ some f
            → i < s.writer.current_file_id
            → files.contents f ≡ s.files.contents f)
        → All
            (λ file.
              (Map.get (files_of s sealed) file.0 ≡ some file.1)
              × (file.0 < s.writer.current_file_id))
            m
        → All (Sealed logs s.files) m
        → All (Sealed now files) m
    Sealed-kept now files [] hints same contents here h = tt
    Sealed-kept now files ((i, f) ∷ m) hints same contents here h = (
      record {
        bytes = contents i f here.0.0 here.0.1 ∙ h.0.bytes ∙ ap log (sym (same i here.0.1));
        described = no_hint (hints i);
        fits = rw (same i here.0.1) h.0.fits;
        small = rw (same i here.0.1) h.0.small;
      },
      Sealed-kept now files m hints same contents here.1 h.1,
    )

    -- A change of the state that no reader sees.
    pub OnDisk-Booked : {t : Shared} → Booked s t → OnDisk logs t sealed
    OnDisk-Booked {t} b =
        let all : files_of t sealed ≡ files_of s sealed = rw (b.current, b.handle) refl in
        record {
          readers = b.readers ∙ d.readers ∙ sym all;
          placed = rw all (record {
            ascending = d.placed.ascending;
            own = d.placed.own;
            inodes = λ i f h. rw b.next_inode (d.placed.inodes i f h);
            names = λ i. rw b.dir (d.placed.names i);
            logged = d.placed.logged;
            storable = d.placed.storable;
          });
          room = rw b.dir d.room;
          unique = rw b.dir d.unique;
          no_hints = λ i. rw b.dir (d.no_hints i);
          closed =
              Sealed-kept logs t.files sealed (λ i. rw b.dir (d.no_hints i)) (λ i less. refl)
                (λ i f h less. ap (λ c. c f) b.contents) sealed_listed d.closed;
          bytes = ap (λ c. c t.writer.file) b.contents ∙ rw (b.handle, b.current) d.bytes;
        }

  -- The logs once the record of a command stands behind the active one.
  module _ {logs : ℕ → List Command} {s : Shared} {sealed : Map ℕ ℕ} (d : OnDisk logs s sealed)
      (c : Command) (storable : IsStorable c) where
    abbrev logs_after : ℕ → List Command
    logs_after = logged_at logs s.writer.current_file_id c

    IsStorable-after : (i : ℕ) → All IsStorable (logs_after i)
    IsStorable-after i = elim (Bool-cases (s.writer.current_file_id == i)) [
      | inl active ↦ rw active (
          All-snoc (logs s.writer.current_file_id) c (d.placed.storable s.writer.current_file_id)
            storable)
      | inr other ↦ rw other (d.placed.storable i)
    ]
      where
        All-snoc :
            (xs : List Command) (x : Command)
            → All IsStorable xs
            → IsStorable x
            → All IsStorable (xs ++ (x ∷ []))
        All-snoc [] x h k = (k, tt)
        All-snoc (y ∷ xs) x h k = (h.0, All-snoc xs x h.1 k)

    logged_after : (i : ℕ) → Map.get (files_of s sealed) i ≡ none → logs_after i ≡ []
    logged_after i h = elim (Bool-cases (s.writer.current_file_id == i)) [
      | inl active ↦
          let e = (==_iff s.writer.current_file_id i).0 active in
          absurd (cc (there d, subst (λ k. Map.get (files_of s sealed) k ≡ none) (sym e) h))
      | inr other ↦ rw other (d.placed.logged i h)
    ]

    pub OnDisk-record : (stale : ℕ) → OnDisk logs_after (with_record c (serialize c) stale s) sealed
    unfolding write
    OnDisk-record stale = record {
      readers = d.readers;
      placed = record {
        ascending = d.placed.ascending;
        own = d.placed.own;
        inodes = d.placed.inodes;
        names = d.placed.names;
        logged = logged_after;
        storable = IsStorable-after;
      };
      room = d.room;
      unique = d.unique;
      no_hints = d.no_hints;
      closed =
          Sealed-kept d logs_after _ sealed d.no_hints
            (λ i less.
              let apart : (s.writer.current_file_id == i) ≡ false = ground (arith, less) in
              rw apart refl)
            (λ i f h less. rw (other_file d i f h less) refl) (sealed_listed d) d.closed;
      bytes =
          rw (==_refl s.writer.file, ==_refl s.writer.current_file_id)
            (ap (λ b. b ++ serialize c) d.bytes
              ∙ sym (
                  log-append (logs s.writer.current_file_id) (c ∷ [])
                  ∙ ap (λ b. log (logs s.writer.current_file_id) ++ b) (append-nil (serialize c))));
    }

    -- One command more at the end.
    pub commands-record :
        (t : Shared)
        → files_of t sealed ≡ files_of s sealed
        → commands logs_after (files_of t sealed) ≡ commands logs (files_of s sealed) ++ (c ∷ [])
    commands-record t same =
        let front =
          commands-Below logs s.writer.current_file_id c sealed
            (Below-front sealed s.writer.current_file_id s.writer.file d.placed.ascending) in
        let active : Map ℕ ℕ = (s.writer.current_file_id, s.writer.file) ∷ [] in
        ap (commands logs_after) same
        ∙ commands-append logs_after sealed active
        ∙ rw (front, ==_refl s.writer.current_file_id, append-nil)
            (sym (
              ap (λ b. b ++ (c ∷ [])) (commands-append logs sealed active)
              ∙ rw append-nil
                  (append_assoc (commands logs sealed) (logs s.writer.current_file_id) (c ∷ []))))
