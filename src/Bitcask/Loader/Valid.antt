-- ===== src/Bitcask/Loader/Valid.antt =====
-- The store that the loader becomes after a replay: it is valid, and `get` answers what was logged.
use bitcask.Prelude.{
  ℕ, ◌+◌, ◌≤◌, ◌<◌, ◌≡◌, ◌≢◌, refl, ◌∙◌, sym, ap, subst, Option, none, some, false, List, [], ◌∷◌,
  ◌++◌, All, arith, length, ◌==◌, ==_iff, Bool-cases, Option-cases, inl, inr,
}
use bitcask.Prelude.Bytes.{Bytes}
use bitcask.Prelude.Map
use bitcask.Prelude.Map.{Map, id_key}
use bitcask.Crc32.{Crc32}
use bitcask.Error.{ok}
use bitcask.BytesUtil.{slice}
use bitcask.Files.{Files}
use bitcask.Files.Names.{data_file, file_name_key}
use bitcask.Command.{Command, serialize}
use bitcask.IndexValue.{IndexValue}
use bitcask.Index.{lookup}
use bitcask.Config.{Config}
use bitcask.Bitcask.Invariant.{IsOpen, Holds, IsValid}
use bitcask.Bitcask.Appended.{IsStorable}
use bitcask.Bitcask.Lookup.{get_loop-Holds, get_loop_missing}
use bitcask.Bitcask.Published.{get}
use bitcask.Bitcask.Readers.Order.{Ascending, get_last, last_greatest}
use bitcask.Bitcask.Loader.{Loader}
use bitcask.Bitcask.Loader.Keydir.{Shows, absent, present}
use bitcask.Bitcask.Loader.Among.{Among, first, later, All-at}
use bitcask.Bitcask.Loader.Recovery.{bytes_of, Logged, Sealed}
use bitcask.Bitcask.Loader.Crash.{Crashed, Recovered}
use bitcask.Bitcask.Open.{shared_of}

nothing-Among : {c : Command} {cs : List Command} → Among c cs → cs ≢ []
nothing-Among (first xs) e = cc e
nothing-Among (later y xs among) e = cc e

module _ ⦃crc32 : Crc32⦄ (logs : ℕ → List Command) where
  -- The names and inodes of the files are their own, and every command is in a file.
  pub record Placed (files : Files) (readers : Map ℕ ℕ) : Type 0 where
    pub ascending : Ascending readers
    pub own : (i j f : ℕ) → Map.get readers i ≡ some f → Map.get readers j ≡ some f → i ≡ j
    pub inodes : (i f : ℕ) → Map.get readers i ≡ some f → f < files.next_inode
    pub names : (i : ℕ) → Map.get files.dir (data_file i) ≡ Map.get readers i
    pub logged : (i : ℕ) → Map.get readers i ≡ none → logs i ≡ []
    pub storable : (i : ℕ) → All IsStorable (logs i)

  sealed_bytes :
      (files : Files) (sealed : Map ℕ ℕ) (cur f id inode : ℕ)
      → All (Sealed logs files) sealed
      → (cur == id) ≡ false
      → Map.get (sealed ++ ((cur, f) ∷ [])) id ≡ some inode
      → files.contents inode ≡ bytes_of logs id
  unfolding Map.get
  sealed_bytes files [] cur f id inode h apart e = absurd (cc (rw apart at e))
  sealed_bytes files ((i, g) ∷ sealed) cur f id inode h apart e = elim (Bool-cases (i == id)) [
    | inl same ↦
        let i_id : i ≡ id = (==_iff i id).0 same in
        let g_inode : g ≡ inode = cc (rw same at e) in rw (← g_inode, ← i_id) h.0.bytes
    | inr differs ↦ sealed_bytes files sealed cur f id inode h.1 apart (rw differs at e)
  ]

  module _ (l : Loader) (sealed : Map ℕ ℕ) (c : Command) (n : ℕ) (k : Crashed logs l sealed c n)
      (p : Placed l.files l.readers) (config : Config) (m : Bytes → Option Bytes) (t : Loader)
      (r : Recovered logs l m t) where
    active_at : Map.get l.readers l.writer.current_file_id ≡ some l.writer.file
    active_at =
        subst (λ f. Map.get f l.writer.current_file_id ≡ some l.writer.file) (sym k.readers)
          (get_last sealed l.writer.current_file_id l.writer.file
            (subst Ascending k.readers p.ascending))

    greatest : (j f : ℕ) → Map.get l.readers j ≡ some f → j ≤ l.writer.current_file_id
    greatest j f e =
        last_greatest sealed l.writer.current_file_id l.writer.file
          (subst Ascending k.readers p.ascending) j f
          (subst (λ q. Map.get q j ≡ some f) k.readers e)

    -- Every file holds its log.
    holds_log :
        (id inode : ℕ)
        → Map.get l.readers id ≡ some inode
        → t.files.contents inode ≡ bytes_of logs id
    holds_log id inode e = elim (Bool-cases (l.writer.current_file_id == id)) [
      | inl same ↦
          let at_id : l.writer.current_file_id ≡ id = (==_iff _ _).0 same in
          let is_active : l.writer.file ≡ inode = let a = active_at in cc (a, e, at_id) in
          ap t.files.contents (sym is_active ∙ sym r.framed.handle)
          ∙ r.truncated
          ∙ ap (bytes_of logs) at_id
      | inr apart ↦
          let other : (l.writer.file == inode) ≡ false =
            elim (Bool-cases (l.writer.file == inode)) [
              | inl same ↦
                  let is_active : l.writer.file ≡ inode = (==_iff _ _).0 same in
                  let clash : l.writer.current_file_id ≡ id =
                    p.own l.writer.current_file_id id l.writer.file active_at (rw is_active e) in
                  absurd (ground (arith, clash, apart))
              | inr differs ↦ differs
            ] in
          r.framed.others inode other
          ∙ sealed_bytes l.files sealed l.writer.current_file_id l.writer.file id inode k.closed
              apart (subst (λ q. Map.get q id ≡ some inode) k.readers e)
    ]

    recovered-Holds :
        (e : IndexValue) (key value : Bytes)
        → e.offset + e.len ≤ length (bytes_of logs e.file_id)
        → slice (bytes_of logs e.file_id) e.offset (e.offset + e.len)
          ≡ serialize (Command.set e.ts key value)
        → Logged logs e.file_id (Command.set e.ts key value)
        → Holds (shared_of config t) e key value
    recovered-Holds e key value inside bytes logged =
        elim (Option-cases (Map.get l.readers e.file_id)) [
          | inl none_there ↦ absurd (nothing-Among logged (p.logged e.file_id none_there))
          | inr (inode, there) ↦
              let same = holds_log e.file_id inode there in
              let storable = All-at IsStorable (logs e.file_id) (p.storable e.file_id) logged in
              record {
                inode = inode;
                opened = subst (λ q. Map.get q e.file_id ≡ some inode) (sym r.framed.readers) there;
                inside = rw same inside;
                bytes = rw same bytes;
                fits = storable.fits;
                text = storable.text;
              }
        ]

    entry_there :
        (key : Bytes) (e : IndexValue) {value : Option Bytes} {entry : Option IndexValue}
        → Shows (bytes_of logs) (Logged logs) key value entry
        → entry ≡ some e
        → (v : Bytes) × Holds (shared_of config t) e key v
    entry_there key e absent same = absurd (cc same)
    entry_there key e (present e₁ value inside bytes logged) same =
        let is_e : e₁ ≡ e = cc same in
        (
          value,
          subst (λ q. Holds (shared_of config t) q key value) is_e
              (recovered-Holds e₁ key value inside bytes logged),
        )

    recovered-IsOpen : IsOpen (shared_of config t)
    recovered-IsOpen = record {
      active = rw (r.framed.readers, r.framed.current, r.framed.handle) active_at;
      at_end = r.at_end ∙ sym (ap length r.truncated);
      ids = λ id inode h.
          rw r.framed.current
            (greatest id inode (subst (λ q. Map.get q id ≡ some inode) r.framed.readers h));
      inodes = λ id inode h.
          rw r.framed.next_inode
            (p.inodes id inode (subst (λ q. Map.get q id ≡ some inode) r.framed.readers h));
      names = λ id h. rw r.framed.dir (
          p.names id ∙ elim (Option-cases (Map.get l.readers id)) [
            | inl none_there ↦ none_there
            | inr (f, there) ↦ absurd (omega (arith, h, r.framed.current, greatest id f there))
          ]);
    }

    pub recovered-IsValid : IsValid (shared_of config t)
    recovered-IsValid = record {
      structure = recovered-IsOpen;
      entries = λ key e found. entry_there key e (r.shows key) found;
    }

    get_shown :
        (j : Bytes) {value : Option Bytes} {entry : Option IndexValue}
        → Shows (bytes_of logs) (Logged logs) j value entry
        → lookup t.index j ≡ entry
        → get (shared_of config t) j ≡ some (ok value)
    get_shown j absent found = get_loop_missing (shared_of config t) 0 0 j found
    get_shown j (present e value inside bytes logged) found =
        get_loop-Holds (shared_of config t) 0 0 j value e found
          (recovered-Holds e j value inside bytes logged)

    pub get-recovered : (j : Bytes) → get (shared_of config t) j ≡ some (ok (m j))
    get-recovered j = get_shown j (r.shows j) refl
