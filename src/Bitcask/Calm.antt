-- ===== src/Bitcask/Calm.antt =====
-- A system in which no call fails: every write goes through.
use bitcask.Prelude.{
  ℕ, suc, ◌≡◌, refl, none, some, true, arith, inl, inr, Bool-cases, leb, ltb, Option-cases, length,
}
use bitcask.Prelude.Map
use bitcask.Prelude.Map.{id_key, get-insert}
use bitcask.Prelude.Bytes.{Bytes}
use bitcask.Crc32.{Crc32}
use bitcask.Error.{ok}
use bitcask.Exec.{Exec, ◌>>=◌, modify}
use bitcask.Files.{open_append, open_read, sync_all}
use bitcask.Files.Names.{data_file, name_eq, name_eq_iff, file_name_key}
use bitcask.RecordReader.{sub_u64}
use bitcask.Config.{DurabilityPolicy, sync_on_every_put, sync_on_interval, os_decides}
use bitcask.Command.{Command, serialize}
use bitcask.Index.{lookup}
use bitcask.IndexValue.{IndexValue}
use bitcask.Bitcask.State.{Shared, Env, unix_now, write_all, sync_file, create_file, open_file}
use bitcask.Bitcask.Write.{
  sync, rotate_to, rotate_if_full, sync_if_due, sync_by, handle_policy, compaction_trigger,
  post_write_ops, as_millis, as_secs, publish, writer_update, append, set, remove, add_u64,
}

-- The clock is read and no call on a file fails.
pub record IsCalm (env : Env) : Type 0 where
  pub no_fault : (tick : ℕ) → env.fault tick ≡ none
  pub time : (tick : ℕ) → (now : ℕ) × (env.clock tick ≡ ok now)

-- An action that goes through from every state.
record Goes {ℓ} {A : Type ℓ} (m : Exec Shared A) : Type ℓ where
  at : (s : Shared) → (a : A) × ((m s).0 ≡ ok a)

Goes-bind {ℓ κ} :
    {A : Type ℓ} {B : Type κ} (m : Exec Shared A) (f : A → Exec Shared B)
    → Goes m
    → ((a : A) → Goes (f a))
    → Goes (m >>= f)
Goes-bind m f gm gf = record {
  at = λ s. let (a, e) = gm.at s in let (b, h) = (gf a).at (m s).1 in (b, rw e h);
}

Goes-modify : (f : Shared → Shared) → Goes (modify f)
Goes-modify f = record { at = λ s. (tt, refl) }

module _ ⦃env : Env⦄ (calm : IsCalm env) where
  Goes-now : Goes unix_now
  unfolding unix_now
  Goes-now = record { at = λ s. calm.time s.tick }

  Goes-sync : Goes sync
  unfolding sync sync_file
  Goes-sync = record { at = λ s. (tt, ground (arith, calm.no_fault s.tick)) }

  -- The new file is there when it is opened for reading.
  Goes-rotate : (id : ℕ) → Goes (rotate_to id)
  unfolding rotate_to sync sync_file create_file open_file unix_now open_append open_read sync_all
  Goes-rotate id = record {
    at = λ s.
        let (now, c) = calm.time (suc (suc s.tick)) in
        let self : name_eq (data_file id) (data_file id) ≡ true = (name_eq_iff _ _).1 refl in
        (
          tt,
          elim (Option-cases (Map.get s.files.dir (data_file id))) [
            | inl new ↦
                let added =
                  get-insert s.files.dir (data_file id) (data_file id) s.files.next_inode in
                ground (
                  arith,
                  calm.no_fault s.tick,
                  calm.no_fault (suc s.tick),
                  c,
                  calm.no_fault (suc (suc (suc s.tick))),
                  added,
                  new,
                  self,
                )
            | inr (inode, there) ↦ ground (
              arith,
              calm.no_fault s.tick,
              calm.no_fault (suc s.tick),
              c,
              calm.no_fault (suc (suc (suc s.tick))),
              there,
            )
          ],
        );
  }

  Goes-if_full : Goes rotate_if_full
  unfolding rotate_if_full
  Goes-if_full = record {
    at = λ s. elim (Bool-cases (ltb s.writer.offset s.config.file_size_threshold)) [
      | inl room ↦ (tt, rw room refl)
      | inr full ↦ rw full ((Goes-rotate (add_u64 s.writer.current_file_id 1)).at s)
    ];
  }

  Goes-if_due : (now : ℕ) → Goes (sync_if_due now)
  unfolding sync_if_due
  Goes-if_due now = record {
    at = λ s.
        elim (Bool-cases
          (leb s.config.flush_threshold_millis (sub_u64 now s.writer.last_ts_flushed))) [
            | inl due ↦ rw due ((Goes-bind sync _ Goes-sync (λ _. Goes-modify _)).at s)
            | inr not_due ↦ (tt, rw not_due refl)
          ];
  }

  Goes-sync_by : (p : DurabilityPolicy) → Goes (sync_by p)
  unfolding sync_by
  Goes-sync_by sync_on_every_put = Goes-sync
  Goes-sync_by sync_on_interval = Goes-bind unix_now _ Goes-now (λ now. Goes-if_due (as_millis now))
  Goes-sync_by os_decides = record { at = λ s. (tt, refl) }

  Goes-post_write_ops : Goes post_write_ops
  unfolding post_write_ops compaction_trigger handle_policy
  Goes-post_write_ops =
      Goes-bind compaction_trigger _ (record { at = λ s. (tt, refl) })
        λ _.
          Goes-bind handle_policy _
            (record { at = λ s. (Goes-sync_by s.config.durability_policy).at s }) λ _. Goes-if_full

  Goes-write : (bytes : Bytes) → Goes (write_all bytes)
  unfolding write_all
  Goes-write bytes = record { at = λ s. (tt, ground (arith, calm.no_fault s.tick)) }

  module _ ⦃crc32 : Crc32⦄ where
    Goes-append : (c : Command) → Goes (append c)
    unfolding append
    Goes-append c = record {
      at = λ s.
          (Goes-bind (write_all (serialize c)) _ (Goes-write (serialize c)) λ _.
              Goes-bind (modify (publish c s.writer.offset (length (serialize c)))) _
                (Goes-modify _)
                λ _.
                  Goes-bind
                    (modify (
                      writer_update
                        λ w. record w { offset = add_u64 w.offset (length (serialize c)) }))
                    _ (Goes-modify _) λ _. Goes-post_write_ops).at
            s;
    }

    -- A `set` goes through.
    pub set-ok : (key value : Bytes) (s : Shared) → (set key value s).0 ≡ ok tt
    unfolding set
    set-ok key value s =
        ((Goes-bind unix_now _ Goes-now λ now. Goes-append (Command.set (as_secs now) key value)).at
          s).1

    -- A `remove` of a key that is there goes through.
    pub remove-ok :
        (key : Bytes) (e : IndexValue) (s : Shared)
        → lookup s.index key ≡ some e
        → (remove key s).0 ≡ ok tt
    unfolding remove
    remove-ok key e s found =
        rw (remove, found)
          (((Goes-bind unix_now _ Goes-now λ now. Goes-append (Command.rm (as_secs now) key)).at
            s).1)
