-- ===== src/Bitcask/Durable/Reopen.antt =====
-- A store that is opened again has what was written: after an orderly stop, and after a crash in the
-- middle of a write.
use bitcask.Prelude.{
  ℕ, ◌+◌, ◌^◌, ◌<◌, ◌≡◌, refl, ◌∙◌, sym, ap, Option, some, List, ◌++◌, All, arith, length,
  length-append, length-take, take, ==_refl, fun_ext,
}
use bitcask.Prelude.Bytes.{Bytes}
use bitcask.Crc32.{Crc32}
use bitcask.Error.{Result, ok}
use bitcask.Files.{Files, write}
use bitcask.Config.{Config}
use bitcask.KvStore.Reference.{reference}
use bitcask.Command.{Command, serialize}
use bitcask.Command.RoundTrip.{Fits}
use bitcask.Network.Protocol.{Request}
use bitcask.Server.Answers.{executed}
use bitcask.Bitcask.State.{Shared, Env}
use bitcask.Bitcask.Invariant.{IsValid}
use bitcask.Bitcask.Calm.{IsCalm}
use bitcask.Bitcask.Engine.{engine, value_in, values}
use bitcask.Bitcask.Engine.Refines.{IsLoggable, weights, executed-engine}
use bitcask.Bitcask.Open.{open_bitcask}
use bitcask.Bitcask.Open.Recover.{CrashedDisk, open_bitcask-recovers}
use bitcask.Bitcask.Durable.Files.{Sealed-kept, sealed_listed, other_file}
use bitcask.Bitcask.Durable.Stored.{Stored, executed-Stored}

module _ ⦃crc32 : Crc32⦄ where
  -- The state at a crash: the first bytes of one more record are behind the active file.
  abbrev pub torn : Command → ℕ → Shared → Files
  torn c n s = write s.writer.file (take n (serialize c)) s.files

  Stored-CrashedDisk :
      {s : Shared} (st : Stored s) (c : Command) (n : ℕ)
      → Fits c
      → n < length (serialize c)
      → length (s.files.contents s.writer.file) + n < 2 ^ 63
      → CrashedDisk st.logs (torn c n s) st.sealed s.writer.current_file_id s.writer.file c n
  unfolding write
  Stored-CrashedDisk {s} st c n fits cut small =
      let d = st.disk in
      record {
        placed = record {
          ascending = d.placed.ascending;
          own = d.placed.own;
          inodes = d.placed.inodes;
          names = d.placed.names;
          logged = d.placed.logged;
          storable = d.placed.storable;
        };
        room = d.room;
        unique = d.unique;
        closed =
            Sealed-kept d st.logs (torn c n s) st.sealed d.no_hints (λ i less. refl)
              (λ i f h less. rw (other_file d i f h less) refl) (sealed_listed d) d.closed;
        last = fits;
        cut = cut;
        bytes = rw (==_refl s.writer.file) (ap (λ b. b ++ take n (serialize c)) d.bytes);
        small = rw (==_refl s.writer.file) (
            omega (
              arith,
              length-append (s.files.contents s.writer.file) (take n (serialize c)),
              length-take n (serialize c),
              small,
            ));
      }

  reopen-Stored :
      {s : Shared} (st : Stored s) (config : Config) (now : ℕ) (c : Command) (n : ℕ)
      → Fits c
      → n < length (serialize c)
      → length (s.files.contents s.writer.file) + n < 2 ^ 63
      → (t : Shared) × (open_bitcask config now (torn c n s) ≡ some (ok t))
        × IsValid t
        × (values t ≡ values s)
  reopen-Stored st config now c n fits cut small =
      let (t, opened, valid, answers) =
        open_bitcask-recovers st.logs (Stored-CrashedDisk st c n fits cut small) config now in
      (t, opened, valid, fun_ext (λ j. ap value_in (answers j)) ∙ sym st.shows)

module _ ⦃crc32 : Crc32⦄ ⦃env : Env⦄ (calm : IsCalm env) (spin : Result (Option Bytes)) where
  -- Requests to a store that has not been compacted, whose files hold what it shows, and then a crash
  -- when n bytes of one more record are written, or an orderly stop (n = 0): its directory is opened
  -- again, in a valid state, which stands for the map that the requests make of the one before them.
  -- The system did not fail until then, the records fit the format and the file sizes a Rust buffer.
  pub open_bitcask-executed :
      (reqs : List Request) {s : Shared}
      → IsValid s
      → Stored s
      → All IsLoggable reqs
      → s.writer.current_file_id + length reqs < 2 ^ 64
      → (c : Command) (n : ℕ) → Fits c
      → n < length (serialize c)
      → s.writer.offset + weights reqs + n < 2 ^ 63
      → (config : Config) (now : ℕ)
      → (t : Shared) × (open_bitcask config now (torn c n (executed (engine spin) reqs s).1)
          ≡ some (ok t))
        × IsValid t
        × (values t ≡ (executed reference reqs (values s)).1)
  open_bitcask-executed reqs {s} v st h ids c n fits cut small config now =
      let (stored, below) = executed-Stored calm spin reqs v h ids (omega arith) st in
      let (_, view_after, valid) = executed-engine calm spin reqs v h ids (omega arith) in
      let (t, opened, valid_again, same) =
        reopen-Stored stored config now c n fits cut
          (omega (arith, valid.structure.at_end, below, small)) in
      (t, opened, valid_again, same ∙ view_after)
