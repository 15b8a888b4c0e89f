-- ===== src/Bitcask/Merge/Preserves.antt =====
-- A compaction changes no answer.
use bitcask.Prelude.{
  ℕ, suc, ◌/◌, ◌<◌, ◌≡◌, refl, ◌∙◌, sym, Option, none, some, Bool, true, false, [], ◌∷◌, ◌⊎◌, arith,
  ltb, inl, inr, Bool-cases, Option-cases,
}
use bitcask.Prelude.Bytes.{Bytes}
use bitcask.Prelude.Map
use bitcask.Prelude.Map.{Map, id_key}
use bitcask.Crc32.{Crc32}
use bitcask.Error.{ok}
use bitcask.Exec.{when}
use bitcask.Exec.Ends.{Ends, went, Ends-bind, Ends-weaken, Ends-state, Ends-ok}
use bitcask.Files.{Files, remove_file}
use bitcask.Files.Names.{FileName, data_file, hint_file, file_name_key}
use bitcask.Index.{lookup}
use bitcask.IndexValue.{IndexValue}
use bitcask.Bitcask.State.{Shared, Env}
use bitcask.Bitcask.Write.{rotate_to, add_u64}
use bitcask.Bitcask.Lookup.{get_loop-Holds, get_loop_missing}
use bitcask.Bitcask.Outcome.{rotated}
use bitcask.Bitcask.Invariant.{IsOpen, IsValid, Holds}
use bitcask.Bitcask.Published.{get}
use bitcask.Bitcask.Merge.{
  on_files, seen, remove_compacted, start_compaction, merge_files, run_compaction, total_bytes,
}
use bitcask.Bitcask.Merge.Steady.{
  Steady, Steady-refl, Steady-trans, Steady-files, on_files-Ends, seen-Ends,
}
use bitcask.Bitcask.Merge.Working.{Answers, missing, holds, Serves, Steady-Serves, Steady-IsOpen}
use bitcask.Bitcask.Merge.Budget.{total_bytes-sum_len}
use bitcask.Bitcask.Merge.Walk.{Served, merge_files-Ends}
use bitcask.Bitcask.Merge.Start.{rotate_to-Ends}
use bitcask.Bitcask.Merge.Ready.{
  sealed_of, sealed_bytes, next_active, IsReady, view_of, view_of-Answers, IsValid-Serves,
  Kept-Serves, start-Between,
}

-- What `remove_file` leaves.
remove_file-dir :
    (name : FileName) (fs files : Files)
    → remove_file name fs ≡ ok files
    → files ≡ record fs { dir = Map.remove fs.dir name }
unfolding remove_file
remove_file-dir name fs files e = elim (Option-cases (Map.get fs.dir name)) [
  | inl gone ↦ absurd (cc (rw (remove_file, gone) at e))
  | inr (inode, there) ↦ cc (rw (remove_file, there) at e)
]

module _ {low : ℕ} ⦃env : Env⦄ where
  -- Taking a name away.
  remove-Steady :
      (name : FileName) (s : Shared)
      → Ends (λ _ t. Steady low s t) (Steady low s) (on_files (remove_file name) s)
  remove-Steady name s =
      Ends-weaken (on_files-Ends (remove_file name) s)
        (λ a t (files, e, at_t).
          rw (at_t, remove_file-dir name s.files files e)
            (Steady-files (record s.files { dir = Map.remove s.files.dir name }) (suc s.tick)
              (λ i less. refl) (omega arith)
              (λ id above free. rw Map.get-remove (ground (arith, free)))))
        (λ t k. k)

  hint-Steady :
      (id : ℕ) (b : Bool) (s : Shared)
      → Ends
          (λ _ t. Steady low s t)
          (Steady low s)
          (when b (on_files (remove_file (hint_file id))) s)
  hint-Steady id true s = remove-Steady (hint_file id) s
  hint-Steady id false s = went _ _ (Steady-refl low s)

  remove_compacted-Ends :
      (m : Map ℕ ℕ) (s : Shared)
      → Ends (λ _ t. Steady low s t) (Steady low s) (remove_compacted m s)
  unfolding remove_compacted
  remove_compacted-Ends [] s = went _ _ (Steady-refl low s)
  remove_compacted-Ends ((id, inode) ∷ m) s =
      Ends-bind (on_files (remove_file (data_file id))) _ s (remove-Steady (data_file id) s)
        λ a t k.
          Ends-bind (seen (hint_file id)) _ t
            (Ends-weaken (seen-Ends (hint_file id) t) (λ b u l. Steady-trans k l)
              (λ u l. Steady-trans k l))
            λ has_hint u l.
              Ends-bind (when has_hint (on_files (remove_file (hint_file id)))) _ u
                (Ends-weaken (hint-Steady id has_hint u) (λ b v n. Steady-trans l n)
                  (λ v n. Steady-trans l n))
                λ b v n.
                  Ends-weaken (remove_compacted-Ends m v) (λ c w o. Steady-trans n o)
                    (λ w o. Steady-trans n o)

module _ ⦃crc32 : Crc32⦄ ⦃env : Env⦄ {s : Shared} (ready : IsReady s) where
  abbrev view : Bytes → Option Bytes
  view = view_of ready.valid

  abbrev Unchanged : Shared → Type 0
  Unchanged = Served view

  snapshot_total : total_bytes (env.unmeasured s.tick) (sealed_of s) s.files ≡ sealed_bytes s
  snapshot_total =
      total_bytes-sum_len (env.unmeasured s.tick) (sealed_of s) s.files ready.measured ready.size

  id_lem :
      add_u64
        (add_u64 s.writer.current_file_id (
          add_u64
            (total_bytes (env.unmeasured s.tick) (sealed_of s) s.files
              / s.config.file_size_threshold)
            2))
        1
      ≡ next_active s
  id_lem = rw snapshot_total (omega (arith, ready.room))

  -- Either there is nothing to do, or the writer has moved on.
  abbrev Started : Map ℕ ℕ → ℕ → Option (Map ℕ ℕ × ℕ × ℕ) → Shared → Type 0
  Started m id o t =
      ((o ≡ none) × (t ≡ s))
      ⊎ ((now : ℕ) × (o ≡ some (m, s.writer.stale_bytes_count, s.writer.current_file_id))
          × (t ≡ rotated id now s))

  begin-Ends :
      (m : Map ℕ ℕ) (id : ℕ)
      → sealed_of s ≡ m
      → add_u64
          (add_u64 s.writer.current_file_id (
            add_u64
              (total_bytes (env.unmeasured s.tick) (sealed_of s) s.files
                / s.config.file_size_threshold)
              2))
          1
        ≡ id
      → s.writer.current_file_id < id
      → ltb s.writer.stale_bytes_count s.config.compaction_threshold ≡ false
      → Ends (Started m id) Unchanged (start_compaction s)
  unfolding start_compaction
  begin-Ends [] id e n above due = rw (start_compaction, due, e) (went _ _ (inl (refl, refl)))
  begin-Ends (file ∷ m) id e n above due =
      rw (start_compaction, due, e, n)
        (Ends-bind (rotate_to id) _ s
          (Ends-weaken (rotate_to-Ends id s (ready.valid.structure.names id above)) (λ a t q. q)
            (λ t k. (s.files.next_inode, Kept-Serves (IsValid-Serves ready.valid) k)))
          λ a t (now, at_t). went _ _ (inr (now, refl, at_t)))

  start-Ends : Ends (Started (sealed_of s) (next_active s)) Unchanged (start_compaction s)
  unfolding start_compaction
  start-Ends = elim (Bool-cases (ltb s.writer.stale_bytes_count s.config.compaction_threshold)) [
    | inl small ↦ rw (start_compaction, small) (went _ _ (inl (refl, refl)))
    | inr due ↦ begin-Ends (sealed_of s) (next_active s) refl id_lem (omega arith) due
  ]

  -- The state behind a compaction that went through.
  record Compacted (t : Shared) : Type 0 where
    low : ℕ
    serves : Serves view low t
    is_open : IsOpen t

  Compacted-stale :
      {low : ℕ} {t : Shared} (stale : ℕ)
      → Serves view low t
      → IsOpen t
      → Compacted (record t { writer = record t.writer { stale_bytes_count = stale } })
  Compacted-stale {low} {t} stale v o = record {
    low = low;
    serves = record { answers = λ key. go key (v.answers key); inodes = v.inodes; room = v.room };
    is_open = record {
      active = o.active;
      at_end = o.at_end;
      ids = o.ids;
      inodes = o.inodes;
      names = o.names;
    };
  }
    where
      u : Shared
      u = record t { writer = record t.writer { stale_bytes_count = stale } }

      go : (key : Bytes) → Answers t key (view key) → Answers u key (view key)
      go key (missing e n) = missing e n
      go key (holds e value found h n) =
          holds e value found
            (record {
              inode = h.inode;
              opened = h.opened;
              inside = h.inside;
              bytes = h.bytes;
              fits = h.fits;
              text = h.text;
            })
            n

  run_compaction-Ends : Ends (λ o t. (o ≡ some tt) × Compacted t) Unchanged (run_compaction s)
  unfolding run_compaction
  run_compaction-Ends = Ends-bind start_compaction _ s start-Ends λ started t q. elim q [
    | inl (nothing, same) ↦
        rw (nothing, same)
          (went _ _ (
            refl,
            record {
              low = s.files.next_inode;
              serves = IsValid-Serves ready.valid;
              is_open = ready.valid.structure;
            },
          ))
    | inr (now, some_files, at_t) ↦
        rw (some_files, at_t)
          (Ends-bind (merge_files (sealed_of s) none s.writer.current_file_id []) _
            (rotated (next_active s) now s)
            (merge_files-Ends view s.writer.current_file_id s.config.file_size_threshold
              (sealed_bytes s) (next_active s) ready.positive refl ready.size ready.room
              (sealed_of s) none [] s.writer.current_file_id (rotated (next_active s) now s)
              (refl, start-Between ready now (sealed_bytes s) refl))
            λ o u (e, walked).
              let w = walked.working in
              rw e (
                Ends-bind (remove_compacted (sealed_of s)) _ u
                  (Ends-weaken (remove_compacted-Ends {low = walked.low} (sealed_of s) u)
                    (λ a v k. k) (λ v k. (walked.low, Steady-Serves k w.serves)))
                  λ a v k. went _ _ (
                    refl,
                    Compacted-stale _ (Steady-Serves k w.serves)
                        (Steady-IsOpen w.serves.inodes k w.is_open),
                  )))
  ]

  get-Answers :
      {t : Shared} (key : Bytes) {o : Option Bytes} → Answers t key o → get t key ≡ some (ok o)
  get-Answers {t} key (missing e n) = rw n (get_loop_missing t 0 0 key e)
  get-Answers {t} key (holds e value found h n) = rw n (get_loop-Holds t 0 0 key value e found h)

  get-Unchanged : {t : Shared} → Unchanged t → (key : Bytes) → get t key ≡ get s key
  get-Unchanged (low, v) key =
      get-Answers key (v.answers key) ∙ sym (get-Answers key (view_of-Answers ready.valid key))

  -- On a state in which a compaction may start (IsReady: valid, no file listed twice, no name of an
  -- output taken above the active id, a threshold above 0, ids and sizes within a u64, and the
  -- metadata of the sealed files to be had for their total) and with no other thread in between, `get`
  -- answers as before for every key, however the compaction ends and whichever other call of the
  -- system fails in it.
  pub get-run_compaction : (key : Bytes) → get (run_compaction s).1 key ≡ get s key
  get-run_compaction =
      get-Unchanged
        (Ends-state run_compaction-Ends Unchanged (λ o t (e, c). (c.low, c.serves)) (λ t v. v))

  -- A compaction that goes through, on a state in which it may start (IsReady: the metadata of the
  -- sealed files can be had for their total) and with no other thread in between, has read every file to its end and leaves a valid state.
  pub run_compaction-IsValid :
      {o : Option (Unit {0})}
      → (run_compaction s).0 ≡ ok o
      → (o ≡ some tt) × IsValid (run_compaction s).1
  run_compaction-IsValid e =
      let (whole, c) = Ends-ok run_compaction-Ends e in
      (
        whole,
        record {
          structure = c.is_open;
          entries = λ key entry found. go key entry found (c.serves.answers key);
        },
      )
    where
      go :
          {t : Shared} (key : Bytes) (e : IndexValue)
          → lookup t.index key ≡ some e
          → Answers t key (view key)
          → (value : Bytes) × Holds t e key value
      go key e found (missing none_there n) = absurd (cc (found, none_there))
      go key e found (holds f value there h n) =
          let same : f ≡ e = cc (found, there) in (value, rw same at h)
