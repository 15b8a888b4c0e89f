-- ===== src/Bitcask/Loader/Crash.antt =====
-- `replay` after a crash in the middle of a write.
use bitcask.Prelude.{
  ℕ, zero, suc, ◌+◌, ◌^◌, ◌<◌, ◌≡◌, refl, ◌∙◌, sym, ap, subst, Option, none, some, true, false,
  ◌==◌, [], ◌∷◌, ◌++◌, List, ==_refl, arith, All, length, take, append-nil, append_assoc,
  take-append,
}
use bitcask.Prelude.Bytes.{Bytes}
use bitcask.Prelude.Map.{Map}
use bitcask.Crc32.{Crc32}
use bitcask.Error.{ok}
use bitcask.Files.{set_len}
use bitcask.Command.{Command, serialize}
use bitcask.Command.RoundTrip.{Fits}
use bitcask.Index.{lookup}
use bitcask.Bitcask.Loader.{Loader, torn_data, replay_data, replay_file, replay_files, replay}
use bitcask.Bitcask.Loader.Replay.{log, replayed, from_start, replay_data-log, replay_data-torn}
use bitcask.Bitcask.Loader.Keydir.{view, ShowsAll, absent}
use bitcask.Bitcask.Loader.Recovery.{
  Same, replayed-Same, replayed-offset, replayed-start, bytes_of, Logged, commands, Sealed,
  replay_files-Sealed, view-append,
}

module _ ⦃crc32 : Crc32⦄ (logs : ℕ → List Command) where
  -- The sealed files hold their logs, and the active file holds its log and then the first n bytes
  -- of the record that was being written; n = 0 is an orderly stop.
  pub record Crashed (l : Loader) (sealed : Map ℕ ℕ) (c : Command) (n : ℕ) : Type 0 where
    pub readers : l.readers ≡ sealed ++ ((l.writer.current_file_id, l.writer.file) ∷ [])
    pub closed : All (Sealed logs l.files) sealed
    pub fits : All Fits (logs l.writer.current_file_id)
    pub last : Fits c
    pub cut : n < length (serialize c)
    pub bytes :
        l.files.contents l.writer.file
        ≡ bytes_of logs l.writer.current_file_id ++ take n (serialize c)
    pub small : length (l.files.contents l.writer.file) < 2 ^ 63
    pub fresh : (j : Bytes) → lookup l.index j ≡ none

  -- What the replay leaves as it was: everything but the active file's contents.
  pub record Framed (l t : Loader) : Type 0 where
    pub readers : t.readers ≡ l.readers
    pub current : t.writer.current_file_id ≡ l.writer.current_file_id
    pub handle : t.writer.file ≡ l.writer.file
    pub dir : t.files.dir ≡ l.files.dir
    pub next_inode : t.files.next_inode ≡ l.files.next_inode
    pub others : (i : ℕ) → (l.writer.file == i) ≡ false → t.files.contents i ≡ l.files.contents i

  Same-Framed : {l t u : Loader} → Same l t → Framed t u → Framed l u
  Same-Framed s f = record {
    readers = f.readers ∙ s.readers;
    current = f.current ∙ s.current;
    handle = f.handle ∙ s.handle;
    dir = f.dir ∙ ap (λ files. files.dir) s.files;
    next_inode = f.next_inode ∙ ap (λ files. files.next_inode) s.files;
    others = λ i h. f.others i (rw s.handle h) ∙ ap (λ files. files.contents i) s.files;
  }

  -- The state that the replay of the active file leaves.
  pub record Recovered (l : Loader) (m : Bytes → Option Bytes) (t : Loader) : Type 0 where
    pub framed : Framed l t
    pub truncated : t.files.contents t.writer.file ≡ bytes_of logs l.writer.current_file_id
    pub at_end : t.writer.offset ≡ length (bytes_of logs l.writer.current_file_id)
    pub shows : ShowsAll (bytes_of logs) (Logged logs) m t.index

  module _ (l : Loader) (m : Bytes → Option Bytes) (fits : All Fits (logs l.writer.current_file_id))
      (small : length (l.files.contents l.writer.file) < 2 ^ 63)
      (shows : ShowsAll (bytes_of logs) (Logged logs) m l.index) where
    abbrev active_log : List Command
    active_log = logs l.writer.current_file_id

    -- What the whole records of the active file make of the loader.
    abbrev whole : Loader
    whole = replayed l.writer.current_file_id 0 active_log (from_start l)

    whole-Same : Same (from_start l) whole
    whole-Same = replayed-Same l.writer.current_file_id 0 active_log (from_start l)

    active_data :
        replay_file l.writer.current_file_id l.writer.file l
        ≡ replay_data l.writer.current_file_id l.writer.file l
    unfolding replay_file
    active_data = rw (==_refl)

    shut : Loader
    shut = record whole {
      files = set_len whole.writer.file (length (log active_log)) whole.files;
      writer = record whole.writer { offset = length (log active_log) };
    }

    torn_data-whole :
        torn_data l.writer.current_file_id (length (log active_log)) whole ≡ (ok true, shut)
    unfolding torn_data shut
    torn_data-whole = rw (whole-Same.current, ==_refl)

    shut-Recovered :
        (tail : Bytes)
        → l.files.contents l.writer.file ≡ log active_log ++ tail
        → Recovered l (view active_log m) shut
    unfolding shut set_len
    shut-Recovered tail e = record {
      framed = record {
        readers = whole-Same.readers;
        current = whole-Same.current;
        handle = whole-Same.handle;
        dir = ap (λ files. files.dir) whole-Same.files;
        next_inode = ap (λ files. files.next_inode) whole-Same.files;
        others = λ i h. rw (whole-Same.files, whole-Same.handle, h) refl;
      };
      truncated =
          rw (==_refl, whole-Same.files, whole-Same.handle, e) (take-append (log active_log) tail);
      at_end = refl;
      shows = replayed-start logs l.writer.current_file_id l m shows;
    }

    whole-Recovered :
        l.files.contents l.writer.file ≡ log active_log → Recovered l (view active_log m) whole
    whole-Recovered e = record {
      framed = record {
        readers = whole-Same.readers;
        current = whole-Same.current;
        handle = whole-Same.handle;
        dir = ap (λ files. files.dir) whole-Same.files;
        next_inode = ap (λ files. files.next_inode) whole-Same.files;
        others = λ i h. ap (λ files. files.contents i) whole-Same.files;
      };
      truncated = rw (whole-Same.files, whole-Same.handle) e;
      at_end =
          replayed-offset l.writer.current_file_id 0 active_log (from_start l)
            (omega (arith, ap length e, small))
          ∙ let g : 0 + length (log active_log) ≡ length (log active_log) = omega arith in g;
      shows = replayed-start logs l.writer.current_file_id l m shows;
    }

    replay_active :
        (c : Command) (n : ℕ)
        → Fits c
        → n < length (serialize c)
        → l.files.contents l.writer.file ≡ log active_log ++ take n (serialize c)
        → (t : Loader) × (replay_files ((l.writer.current_file_id, l.writer.file) ∷ []) l
            ≡ some (ok tt, t))
          × Recovered l (view active_log m) t
    unfolding replay_files
    replay_active c zero fit less e =
        let e₁ = e ∙ append-nil (log active_log) in
        (
          whole,
          rw (
            replay_files,
            active_data,
            replay_data-log l.writer.current_file_id l.writer.file l active_log fits small e₁,
            replay_files,
          ),
          whole-Recovered e₁,
        )
    replay_active c (suc n) fit less e = (
      shut,
      rw (
        replay_files,
        active_data,
        replay_data-torn l.writer.current_file_id l.writer.file l active_log fits small c (suc n)
            fit (omega arith) less e,
        torn_data-whole,
      ),
      shut-Recovered (take (suc n) (serialize c)) e,
    )

  pub commands-append :
      (xs ys : Map ℕ ℕ) → commands logs (xs ++ ys) ≡ commands logs xs ++ commands logs ys
  commands-append [] ys = refl
  commands-append ((id, inode) ∷ xs) ys =
      ap (λ t. logs id ++ t) (commands-append xs ys)
      ∙ sym (append_assoc (logs id) (commands logs xs) (commands logs ys))

  -- After a crash in the middle of a write, with the other files whole and each without a hint file or
  -- described by it, `replay` goes through: the keydir shows every command that was written whole, in
  -- the order of the files, and none other; the active file is cut back to its whole records, and the
  -- writer stands at its end.
  pub replay-recovers :
      (l : Loader) (sealed : Map ℕ ℕ) (c : Command) (n : ℕ)
      → Crashed l sealed c n
      → (t : Loader) × (replay l ≡ some (ok tt, t))
        × Recovered l (view (commands logs l.readers) (λ j. none)) t
  unfolding replay
  replay-recovers l sealed c n k =
      let active : Map ℕ ℕ = (l.writer.current_file_id, l.writer.file) ∷ [] in
      let r =
        replay_files-Sealed logs sealed active l (λ j. none) k.closed
          (λ j. rw (k.fresh j) absent) in
      let id = r.same.current in
      let inode = r.same.handle in
      let contents = r.same.files in
      let (t, runs, done) =
        replay_active r.left (view (commands logs sealed) (λ j. none)) (rw id k.fits)
          (rw (inode, contents) k.small) r.shows c n k.last k.cut
          (rw (inode, contents, id) k.bytes) in
      let all : view (commands logs l.readers) (λ j. none)
          ≡ view (logs r.left.writer.current_file_id) (view (commands logs sealed) (λ j. none)) =
        ap (λ f. view (commands logs f) (λ j. none)) k.readers
        ∙ ap (λ cs. view cs (λ j. none)) (commands-append sealed active)
        ∙ view-append (commands logs sealed) (logs l.writer.current_file_id ++ []) (λ j. none)
        ∙ ap (λ cs. view cs (view (commands logs sealed) (λ j. none)))
            (append-nil (logs l.writer.current_file_id) ∙ ap logs (sym id)) in
      (
        t,
        ap (λ f. replay_files f l) k.readers ∙ r.runs ∙ rw (id, inode) at runs,
        record {
          framed = Same-Framed r.same done.framed;
          truncated = done.truncated ∙ ap (bytes_of logs) id;
          at_end = done.at_end ∙ ap (λ i. length (bytes_of logs i)) id;
          shows =
              subst (λ m. ShowsAll (bytes_of logs) (Logged logs) m t.index) (sym all) done.shows;
        },
      )
