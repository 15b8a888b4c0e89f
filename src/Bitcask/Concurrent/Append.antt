-- ===== src/Bitcask/Concurrent/Append.antt =====
-- Each action of an `append` leaves what a reader relies on, whether it goes through or fails.
use bitcask.Prelude.{
  ℕ, suc, ◌+◌, ◌^◌, ◌<◌, ◌≡◌, refl, sym, subst, none, arith, length, Bool-cases, Option-cases, inl,
  inr, ltb, take, List, [], ◌∷◌,
}
use bitcask.Prelude.Bytes.{Bytes}
use bitcask.Prelude.Map
use bitcask.Prelude.Map.{id_key}
use bitcask.Crc32.{Crc32}
use bitcask.Error.{ok, Result-cases}
use bitcask.Exec.{Exec, modify}
use bitcask.Exec.Ends.{Ends-state}
use bitcask.Command.{Command, serialize}
use bitcask.Bitcask.State.{Shared, Env, write_all, attempt}
use bitcask.Bitcask.Write.{
  rotate_if_full, handle_policy, compaction_trigger, add_u64, publish, writer_update,
}
use bitcask.Bitcask.Outcome.{written, rotated, write_all-ok}
use bitcask.Bitcask.Invariant.{IsOpen, IsValid}
use bitcask.Bitcask.Appended.{appended, appended-IsValid, appended-writer, IsStorable, entry-Holds}
use bitcask.Bitcask.After.{Settles-trans, Settling-trigger, Settling-policy}
use bitcask.Bitcask.Published.{HasRoom}
use bitcask.Bitcask.Merge.Start.{rotate_to-Ends}
use bitcask.Bitcask.Concurrent.Grown.{Steps-Served, Onward, Onward-refl, Kept-Onward}
use bitcask.Bitcask.Concurrent.History.{trace, append_actions}
use bitcask.Bitcask.Concurrent.{
  Booked, InPlace, books, writes, publishes, creates, opens, Steps, still, further,
}
use bitcask.Bitcask.Concurrent.Books.{Books-trigger, Books-policy}

module _ ⦃crc32 : Crc32⦄ ⦃env : Env⦄ where
  -- The file is made, and then opened under an id that no reader has.
  rotated-Steps :
      {s u : Shared} (o : IsOpen s) (id now : ℕ)
      → s.writer.current_file_id < id
      → Steps u s
      → Steps u (rotated id now s)
  rotated-Steps {s} o id now above before =
      let new : Map.get s.readers id ≡ none = elim (Option-cases (Map.get s.readers id)) [
        | inl none_there ↦ none_there
        | inr (f, there) ↦ absurd (omega (arith, above, o.ids id f there))
      ] in
      further
        (further before
          (creates (record (rotated id now s) { readers = s.readers }) refl refl refl refl))
        (opens id s.files.next_inode new (omega arith))

  rotate_if_full-Onward :
      {s : Shared}
      → IsOpen s
      → s.writer.current_file_id + 1 < 2 ^ 64
      → Onward s (rotate_if_full s).1
  unfolding rotate_if_full
  rotate_if_full-Onward {s} o fits =
      let next : add_u64 s.writer.current_file_id 1 ≡ s.writer.current_file_id + 1 = omega arith in
      let above : s.writer.current_file_id < s.writer.current_file_id + 1 = omega arith in
      elim (Bool-cases (ltb s.writer.offset s.config.file_size_threshold)) [
        | inl room ↦ rw (rotate_if_full, room) Onward-refl
        | inr full ↦
            rw (rotate_if_full, full, next)
              (Ends-state (rotate_to-Ends _ s (o.names _ above)) (Onward s)
                (λ a t (now, at_t).
                  rw at_t (λ v. Steps-Served v (rotated-Steps o _ now above still)))
                (λ t k. Kept-Onward k))
      ]

  -- All of the bytes, or those before a failure.
  write_all-Onward : (bytes : Bytes) (s : Shared) → Onward s (write_all bytes s).1
  unfolding write_all
  write_all-Onward bytes s v =
      let start : Steps s (record s { tick = suc s.tick }) = further still (
        books _ (record {
          index = refl;
          readers = refl;
          contents = refl;
          next_inode = refl;
          dir = refl;
          current = refl;
          handle = refl;
        })) in
      elim (Option-cases (env.fault s.tick)) [
        | inl calm ↦
            rw (write_all, attempt, calm)
              (Steps-Served v (further start (writes s.writer.file bytes)))
        | inr (k, fault) ↦
            rw (write_all, attempt, fault)
              (Steps-Served v (further start (writes s.writer.file (take k bytes))))
      ]

  -- The record stands in the file before it is published.
  written-InPlace :
      (c : Command) {s : Shared}
      → IsOpen s
      → IsStorable c
      → InPlace c s.writer.offset (length (serialize c)) (written (serialize c) s)
  written-InPlace (Command.set ts key value) o storable =
      let h = entry-Holds ts key value 0 o storable in
      record {
        inode = h.inode;
        opened = h.opened;
        inside = h.inside;
        bytes = h.bytes;
        fits = h.fits;
        text = h.text;
      }
  written-InPlace (Command.rm ts key) o storable = tt

  -- Each state leads on to the next one.
  abbrev pub Chain : Shared → List Shared → Type 0
  Chain s [] = Unit
  Chain s (t ∷ ts) = Onward s t × Chain t ts

  trace-Chain :
      (action : Exec Shared (Unit {0})) (actions : List (Exec Shared (Unit {0}))) (s : Shared)
      → Onward s (action s).1
      → ((action s).0 ≡ ok tt → Chain (action s).1 (trace actions (action s).1))
      → Chain s (trace (action ∷ actions) s)
  unfolding trace
  trace-Chain action actions s on next = elim (Result-cases (action s).0) [
    | inl (a, e) ↦ rw (trace, e) (on, next e)
    | inr (x, e) ↦ rw (trace, e) (on, tt)
  ]

  Chain-none : (s : Shared) → Chain s (trace [] s)
  unfolding trace
  Chain-none s = tt

  pub append-Chain :
      (c : Command) {s : Shared}
      → IsValid s
      → IsStorable c
      → HasRoom s (length (serialize c))
      → Chain s (trace (append_actions c s.writer.offset) s)
  append-Chain c {s} v storable room =
      trace-Chain (write_all (serialize c)) _ s (write_all-Onward (serialize c) s) λ h.
        let out = write_all-ok (serialize c) s h in
        let now = appended c (serialize c) s in
        let valid : IsValid now = appended-IsValid c room.offset storable v in
        let (here, _, _) = appended-writer c (serialize c) s in
        let counted : Booked
            (publish c s.writer.offset (length (serialize c)) (written (serialize c) s)) now =
          record {
            index = refl;
            readers = refl;
            contents = refl;
            next_inode = refl;
            dir = refl;
            current = refl;
            handle = refl;
          } in
        let placed = written-InPlace c v.structure storable in
        rw out (
          trace-Chain (modify (publish c s.writer.offset (length (serialize c)))) _
            (written (serialize c) s)
            (λ w.
              Steps-Served w
                (further still (publishes c s.writer.offset (length (serialize c)) placed)))
            λ _.
              trace-Chain
                (modify (
                  writer_update λ w. record w { offset = add_u64 w.offset (length (serialize c)) }))
                _ (publish c s.writer.offset (length (serialize c)) (written (serialize c) s))
                (λ w. Steps-Served w (further still (books now counted)))
                λ _.
                  trace-Chain compaction_trigger _ now
                    (λ w. Steps-Served w (further still (books _ (Books-trigger.at now))))
                    λ h₁.
                      let first = Settling-trigger.at valid.structure tt h₁ in
                      trace-Chain handle_policy _ (compaction_trigger now).1
                        (λ w. Steps-Served w (further still (books _ (Books-policy.at _))))
                        λ h₂.
                          let both = Settles-trans first (Settling-policy.at first.is_open tt h₂) in
                          trace-Chain rotate_if_full [] _
                            (rotate_if_full-Onward both.is_open
                              (rw both.same_file (subst (λ i. i + 1 < 2 ^ 64) (sym here) room.id)))
                            λ _. Chain-none _)
