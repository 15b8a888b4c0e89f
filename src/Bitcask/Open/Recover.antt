-- ===== src/Bitcask/Open/Recover.antt =====
-- Opening after a crash: the store is valid and has what was logged.
use bitcask.Prelude.{
  ℕ, ◌^◌, ◌<◌, ◌≡◌, refl, ◌∙◌, sym, ap, subst, Option, none, some, List, [], ◌∷◌, ◌++◌, All, arith,
  length, take, ◌==◌, ==_iff, Bool-cases, inl, inr,
}
use bitcask.Prelude.Bytes.{Bytes}
use bitcask.Prelude.Map
use bitcask.Prelude.Map.{Map, id_key}
use bitcask.Crc32.{Crc32}
use bitcask.Error.{ok}
use bitcask.Files.{Files, open_append, open_read}
use bitcask.Files.Names.{data_file, hint_file, file_name_key}
use bitcask.Files.Text.{name_id}
use bitcask.Command.{Command, serialize}
use bitcask.Command.RoundTrip.{Fits}
use bitcask.Config.{Config}
use bitcask.Index
use bitcask.Bitcask.State.{Shared, insert}
use bitcask.Bitcask.Write.{as_millis}
use bitcask.Bitcask.Invariant.{IsValid}
use bitcask.Bitcask.Published.{get}
use bitcask.Bitcask.Readers.{get-insert}
use bitcask.Bitcask.Readers.Order.{
  Ascending, Ascending-insert, Ascending-same, get_last, last_greatest,
}
use bitcask.Bitcask.Loader.{Loader}
use bitcask.Bitcask.Loader.Keydir.{view}
use bitcask.Bitcask.Loader.Among.{All-map}
use bitcask.Bitcask.Loader.Recovery.{bytes_of, commands, Sealed, Described, no_hint, hint}
use bitcask.Bitcask.Loader.Crash.{Crashed, replay-recovers}
use bitcask.Bitcask.Loader.Valid.{Placed, recovered-IsValid, get-recovered}
use bitcask.Bitcask.Open.{Scan, open_loader, shared_of, open_replayed, open_bitcask}
use bitcask.Bitcask.Open.Clean.{Unique, scan_start, scan-Left, Left-start}
use bitcask.Bitcask.Open.Handlers.{
  Unwritten, Passed-Ascending, Passed-Unwritten, Passed-kept, Passed-get, Passed-Tops, Tops,
  or_else,
}

module _ ⦃crc32 : Crc32⦄ (logs : ℕ → List Command) where
  -- A directory after a crash in the middle of a write: the data files, which stand below in the order
  -- of their ids, hold their logs, those with a hint file are described by it, and the last one holds the first n bytes of one more record.
  pub record CrashedDisk (files : Files) (sealed : Map ℕ ℕ) (id inode : ℕ) (c : Command) (n : ℕ)
      : Type 0 where
    pub placed : Placed logs files (sealed ++ ((id, inode) ∷ []))
    pub room : All (λ entry. name_id entry.0 < 2 ^ 64) files.dir
    pub unique : Unique files.dir
    pub closed : All (Sealed logs files) sealed
    pub last : Fits c
    pub cut : n < length (serialize c)
    pub bytes : files.contents inode ≡ bytes_of logs id ++ take n (serialize c)
    pub small : length (files.contents inode) < 2 ^ 63

  or_none : (o : Option ℕ) → or_else o none ≡ o
  or_none none = refl
  or_none (some f) = refl

  -- The greatest id of an ascending map.
  top_lem :
      (o : Option ℕ) (sealed : Map ℕ ℕ) (id inode : ℕ)
      → Ascending (sealed ++ ((id, inode) ∷ []))
      → Tops o (sealed ++ ((id, inode) ∷ []))
      → o ≡ some id
  top_lem none sealed id inode up h = absurd (cc (h id, get_last sealed id inode up))
  top_lem (some k) sealed id inode up h =
      let below = last_greatest sealed id inode up k h.0.0 h.0.1 in
      let above = h.1 id inode (get_last sealed id inode up) in
      ap some (let e : k ≡ id = omega arith in e)

  module _ {files : Files} {sealed : Map ℕ ℕ} {id inode : ℕ} {c : Command} {n : ℕ}
      (d : CrashedDisk files sealed id inode c n) where
    abbrev all_files : Map ℕ ℕ
    all_files = sealed ++ ((id, inode) ∷ [])

    last_there : Map.get all_files id ≡ some inode
    last_there = get_last sealed id inode d.placed.ascending

    -- What the scan leaves of the files that it opens.
    abbrev LeftOf : Files → Type 0
    LeftOf now =
        Unwritten files now
        × ((i : ℕ) → Map.get now.dir (data_file i) ≡ Map.get files.dir (data_file i))
        × ((i f h : ℕ)
            → Map.get files.dir (data_file i) ≡ some f
            → Map.get files.dir (hint_file i) ≡ some h
            → Map.get now.dir (hint_file i) ≡ some h)

    Described-left :
        (now : Files) (i : ℕ) → LeftOf now → Described logs files i → Described logs now i
    Described-left now i (u, named, hints) (no_hint gone) = no_hint (u.gone (hint_file i) gone)
    Described-left now i (u, named, hints) (hint f h led there bytes sets fit small) =
        hint f h (named i ∙ led) (hints i f h led there)
          (ap (λ contents. contents h) u.contents ∙ bytes) sets fit (rw u.contents small)

    Sealed-left :
        (now : Files) (m : Map ℕ ℕ)
        → LeftOf now
        → All (Sealed logs files) m
        → All (Sealed logs now) m
    Sealed-left now m left h =
        All-map m
          (λ (i, f) file. record {
            bytes = ap (λ contents. contents f) left.0.contents ∙ file.bytes;
            described = Described-left now i left file.described;
            fits = file.fits;
            small = file.small;
          })
          h

    -- The loader that is opened.
    abbrev loader : ℕ → Files → Loader
    loader now fs = record {
      readers = all_files;
      index = Index.empty;
      writer = record {
        current_file_id = id;
        file = inode;
        offset = 0;
        flushed_offset = 0;
        last_ts_flushed = as_millis now;
        stale_bytes_count = 0;
      };
      files = fs;
    }

    same_readers : insert all_files id inode ≡ all_files
    same_readers =
        Ascending-same (insert all_files id inode) all_files
          (Ascending-insert all_files id inode d.placed.ascending) d.placed.ascending
          (λ j. get-insert all_files id j inode ∙ elim (Bool-cases (id == j)) [
            | inl same ↦
                let e : id ≡ j = (==_iff id j).0 same in
                rw same (sym (subst (λ k. Map.get all_files k ≡ some inode) e last_there))
            | inr apart ↦ rw apart refl
          ])

    open_loader-Scan :
        (sc : Scan) (now : ℕ)
        → sc.read_handlers ≡ all_files
        → sc.max_id ≡ some id
        → Map.get sc.files.dir (data_file id) ≡ some inode
        → open_loader sc now ≡ ok (loader now sc.files)
    unfolding open_loader open_append open_read
    open_loader-Scan sc now handlers top there =
        rw (open_loader, handlers, top, open_append, there, open_read, there, same_readers) refl

    loader-Crashed : (now : ℕ) (fs : Files) → LeftOf fs → Crashed logs (loader now fs) sealed c n
    unfolding Index.lookup Map.get
    loader-Crashed now fs left = record {
      readers = refl;
      closed = Sealed-left fs sealed left d.closed;
      fits = All-map (logs id) (λ x storable. storable.fits) (d.placed.storable id);
      last = d.last;
      cut = d.cut;
      bytes = ap (λ contents. contents inode) left.0.contents ∙ d.bytes;
      small = rw left.0.contents d.small;
      fresh = λ j. refl;
    }

    -- Opening a directory after a crash in the middle of a write, or after an orderly stop (n = 0),
    -- whose files hold their logs, with hint files that describe theirs or none, and whose commands fit
    -- the format: it goes through, the store is
    -- valid, and `get` answers for every key what the commands that were written whole make of it, in
    -- the order of the files.
    pub open_bitcask-recovers :
        (config : Config) (now : ℕ)
        → (s : Shared) × (open_bitcask config now files ≡ some (ok s))
          × IsValid s
          × ((j : Bytes)
              → get s j
                ≡ some (ok (view (commands logs (sealed ++ ((id, inode) ∷ []))) (λ j. none) j)))
    unfolding open_bitcask open_replayed Map.get
    open_bitcask-recovers config now =
        let (done, goes, cleaned, way) =
          scan-Left files.dir files.dir (scan_start files) d.room d.unique (Left-start files) in
        let u = Passed-Unwritten way in
        let same_get : (i : ℕ) → Map.get done.read_handlers i ≡ Map.get all_files i = λ i.
          Passed-get way d.unique i
          ∙ or_none (Map.get files.dir (data_file i))
          ∙ d.placed.names i in
        let handlers : done.read_handlers ≡ all_files =
          Ascending-same done.read_handlers all_files (Passed-Ascending way tt) d.placed.ascending
            same_get in
        let top : done.max_id ≡ some id =
          top_lem done.max_id sealed id inode d.placed.ascending
            (subst (λ m. Tops done.max_id m) handlers (Passed-Tops way (λ i. refl))) in
        let kept : (i : ℕ) → Map.get done.files.dir (data_file i) ≡ Map.get all_files i =
          λ i. cleaned.data_kept i ∙ d.placed.names i in
        let opened = open_loader-Scan done now handlers top (kept id ∙ last_there) in
        let l = loader now done.files in
        let crashed =
          loader-Crashed now done.files (u, cleaned.data_kept, λ i f h. Passed-kept way i f h) in
        let placed : Placed logs done.files all_files = record {
          ascending = d.placed.ascending;
          own = d.placed.own;
          inodes = λ i f h. rw u.next_inode (d.placed.inodes i f h);
          names = kept;
          logged = d.placed.logged;
          storable = d.placed.storable;
        } in
        let (t, replayed, r) = replay-recovers logs l sealed c n crashed in
        (
          shared_of config t,
          rw (open_bitcask, goes, opened, open_replayed, replayed) refl,
          recovered-IsValid logs l sealed c n crashed placed config _ t r,
          get-recovered logs l sealed c n crashed placed config _ t r,
        )
