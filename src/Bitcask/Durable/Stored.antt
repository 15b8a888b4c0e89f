-- ===== src/Bitcask/Durable/Stored.antt =====
-- The files of a store in use hold what it shows, after every request.
use bitcask.Prelude.{
  ℕ, ◌+◌, ◌^◌, ◌≤◌, ◌<◌, ◌≡◌, refl, ◌∙◌, sym, ap, Option, none, some, List, [], ◌∷◌, ◌++◌, All,
  arith, length, Option-cases, inl, inr,
}
use bitcask.Prelude.Bytes.{Bytes}
use bitcask.Prelude.Map.{Map}
use bitcask.Crc32.{Crc32}
use bitcask.Error.{Result}
use bitcask.Exec.{ok-seq, ◌>>=◌}
use bitcask.KvStore.Reference.{Values, update}
use bitcask.Command.{Command, header_len, encoded_body_len}
use bitcask.Command.RoundTrip.{length-serialize}
use bitcask.Index.{lookup}
use bitcask.IndexValue.{IndexValue}
use bitcask.Network.Protocol.{Request, get_req, set_req, rm_req, execute}
use bitcask.Server.Answers.{executed}
use bitcask.Bitcask.State.{Shared, Env, unix_now, tick_on}
use bitcask.Bitcask.Write.{append, set, remove, as_secs}
use bitcask.Bitcask.Invariant.{IsValid}
use bitcask.Bitcask.Lookup.{get_loop_missing}
use bitcask.Bitcask.Published.{HasRoom}
use bitcask.Bitcask.Refines.{
  IsEntry, set_goes, removed, remove_missing, tick-IsValid, set-IsStorable, set_room, rm-IsStorable,
  rm_room,
}
use bitcask.Bitcask.Calm.{IsCalm, set-ok, remove-ok}
use bitcask.Bitcask.Engine.{engine, values}
use bitcask.Bitcask.Engine.Refines.{IsLoggable, weight, weights, values-update, execute-engine}
use bitcask.Bitcask.Concurrent.{Booked}
use bitcask.Bitcask.Loader.Keydir.{apply, view}
use bitcask.Bitcask.Loader.Recovery.{commands, view-append}
use bitcask.Bitcask.Durable.{files_of, OnDisk}
use bitcask.Bitcask.Durable.Files.{OnDisk-Booked}
use bitcask.Bitcask.Durable.Append.{Added, append-Added}

abbrev pub nothing : Values
nothing key = none

module _ ⦃crc32 : Crc32⦄ where
  -- The files of the store hold what it shows.
  pub record Stored (s : Shared) : Type 0 where
    pub logs : ℕ → List Command
    pub sealed : Map ℕ ℕ
    pub disk : OnDisk logs s sealed
    pub shows : values s ≡ view (commands logs (files_of s sealed)) nothing

  Added-Stored :
      {t : Shared} (cs : List Command) (c : Command)
      → Added (cs ++ (c ∷ [])) t
      → values t ≡ apply c (view cs nothing)
      → Stored t
  Added-Stored cs c a e = record {
    logs = a.logs;
    sealed = a.sealed;
    disk = a.disk;
    shows = e ∙ sym (view-append cs (c ∷ []) nothing) ∙ ap (λ q. view q nothing) (sym a.all);
  }

module _ ⦃crc32 : Crc32⦄ ⦃env : Env⦄ (calm : IsCalm env) (spin : Result (Option Bytes)) where
  ticked : {s : Shared} → Booked s (tick_on s)
  ticked = record {
    index = refl;
    readers = refl;
    contents = refl;
    next_inode = refl;
    dir = refl;
    current = refl;
    handle = refl;
  }

  set-Stored :
      (key value : Bytes) {s : Shared} (v : IsValid s) (entry : IsEntry key value)
      (room : HasRoom s (header_len + (8 + 1 + 4 + length key + 4 + length value)))
      → s.writer.offset + (header_len + (8 + 1 + 4 + length key + 4 + length value)) < 2 ^ 63
      → Stored s
      → Stored (set key value s).1
  unfolding set unix_now encoded_body_len
  set-Stored key value {s} v entry room small st =
      let went = set-ok calm key value s in
      let (valid, answers, moves) = set_goes v key value entry room went in
      let shown = values-update s _ key (some value) answers in
      ok-seq unix_now (λ now. append (Command.set (as_secs now) key value)) s went
        λ now h k.
          let c = Command.set (as_secs now) key value in
          let added =
            append-Added c (OnDisk-Booked st.disk ticked) (tick-IsValid v)
              (set-IsStorable v key value entry room went now)
              (set_room v key value entry room went now) (omega (arith, length-serialize c, small))
              k in
          rw h (
            Added-Stored (commands st.logs (files_of s st.sealed)) c added
              (rw h at shown ∙ ap (update key (some value)) st.shows))

  remove-Stored :
      (key : Bytes) (e : IndexValue) {s : Shared} (v : IsValid s)
      (body : 8 + 1 + 4 + length key < 2 ^ 32)
      (room : HasRoom s (header_len + (8 + 1 + 4 + length key)))
      → s.writer.offset + (header_len + (8 + 1 + 4 + length key)) < 2 ^ 63
      → lookup s.index key ≡ some e
      → Stored s
      → Stored (remove key s).1
  unfolding remove unix_now encoded_body_len
  remove-Stored key e {s} v body room small found st =
      let went = remove-ok calm key e s found in
      let (valid, answers, moves) = removed v key body room e found went in
      let shown = values-update s _ key none answers in
      let seq = unix_now >>= λ now. append (Command.rm (as_secs now) key) in
      let same : remove key s ≡ seq s = rw (remove, found) in
      ok-seq unix_now (λ now. append (Command.rm (as_secs now) key)) s (rw same at went)
        λ now h k.
          let c = Command.rm (as_secs now) key in
          let added =
            append-Added c (OnDisk-Booked st.disk ticked) (tick-IsValid v)
              (rm-IsStorable v key body room now) (rm_room v key body room now)
              (omega (arith, length-serialize c, small)) k in
          rw (same, h)
            (Added-Stored (commands st.logs (files_of s st.sealed)) c added
              (rw (same, h) at shown ∙ ap (update key none) st.shows))

  execute-Stored :
      (req : Request) {s : Shared}
      → IsValid s
      → IsLoggable req
      → HasRoom s (weight req)
      → s.writer.offset + weight req < 2 ^ 63
      → Stored s
      → Stored (execute (engine spin) req s).1
  unfolding execute
  execute-Stored (get_req key) v h room small st = st
  execute-Stored (set_req key value) v h room small st = set-Stored key value v h room small st
  execute-Stored (rm_req key) {s} v h room small st = elim (Option-cases (lookup s.index key)) [
    | inl missing ↦ rw (remove_missing v key (get_loop_missing s 0 0 key missing)) st
    | inr (e, found) ↦ remove-Stored key e v h room small found st
  ]

  pub executed-Stored :
      (reqs : List Request) {s : Shared}
      → IsValid s
      → All IsLoggable reqs
      → s.writer.current_file_id + length reqs < 2 ^ 64
      → s.writer.offset + weights reqs < 2 ^ 63
      → Stored s
      → Stored (executed (engine spin) reqs s).1
        × ((executed (engine spin) reqs s).1.writer.offset ≤ s.writer.offset + weights reqs)
  executed-Stored [] v h ids offsets st = (st, omega arith)
  executed-Stored (req ∷ reqs) {s} v h ids offsets st =
      let room : HasRoom s (weight req) = record { id = omega arith; offset = omega arith } in
      let a = execute-engine calm spin req v h.0 room in
      let (all, below) =
        executed-Stored reqs a.valid h.1 (omega (arith, a.moves.file))
          (omega (arith, a.moves.offset)) (execute-Stored req v h.0 room (omega arith) st) in
      (all, omega (arith, below, a.moves.offset))
