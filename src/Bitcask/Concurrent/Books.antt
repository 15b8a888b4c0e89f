-- ===== src/Bitcask/Concurrent/Books.antt =====
-- The actions of the writer that keep its books alone: what a reader looks at stays.
use bitcask.Prelude.{ℕ, refl, ◌∙◌, arith, Bool-cases, Option-cases, inl, inr, leb}
use bitcask.Prelude.Map.{id_key}
use bitcask.Error.{Result-cases}
use bitcask.Exec.{Exec, ◌>>=◌}
use bitcask.Files.{sync_all}
use bitcask.RecordReader.{sub_u64}
use bitcask.Config.{DurabilityPolicy, sync_on_every_put, sync_on_interval, os_decides}
use bitcask.Bitcask.State.{Shared, Env, unix_now, sync_file}
use bitcask.Bitcask.Write.{
  sync, sync_if_due, sync_by, handle_policy, compaction_trigger, as_millis, writer_update,
}
use bitcask.Bitcask.Concurrent.{Booked}

pub Booked-refl : {s : Shared} → Booked s s
Booked-refl = record {
  index = refl;
  readers = refl;
  contents = refl;
  next_inode = refl;
  dir = refl;
  current = refl;
  handle = refl;
}

pub Booked-trans : {s t u : Shared} → Booked s t → Booked t u → Booked s u
Booked-trans a b = record {
  index = b.index ∙ a.index;
  readers = b.readers ∙ a.readers;
  contents = b.contents ∙ a.contents;
  next_inode = b.next_inode ∙ a.next_inode;
  dir = b.dir ∙ a.dir;
  current = b.current ∙ a.current;
  handle = b.handle ∙ a.handle;
}

-- An action that keeps the books, whether or not it goes through.
pub record Books {ℓ} {A : Type ℓ} (m : Exec Shared A) : Type ℓ where
  pub at : (s : Shared) → Booked s (m s).1

pub Books-bind {ℓ κ} :
    {A : Type ℓ} {B : Type κ} (m : Exec Shared A) (f : A → Exec Shared B)
    → Books m
    → ((a : A) → Books (f a))
    → Books (m >>= f)
Books-bind m f bm bf = record {
  at = λ s. elim (Result-cases (m s).0) [
    | inl (a, e) ↦ rw e (Booked-trans (bm.at s) ((bf a).at (m s).1))
    | inr (x, e) ↦ rw e (bm.at s)
  ];
}

-- What changes the writer's own state alone.
marked :
    {s : Shared} (flushed last : ℕ)
    → Booked s
        (writer_update (λ w. record w { flushed_offset = flushed; last_ts_flushed = last }) s)
marked flushed last = record {
  index = refl;
  readers = refl;
  contents = refl;
  next_inode = refl;
  dir = refl;
  current = refl;
  handle = refl;
}

module _ ⦃env : Env⦄ where
  Books-sync : Books sync
  unfolding sync sync_file sync_all
  Books-sync = record {
    at = λ s. elim (Option-cases (env.fault s.tick)) [
      | inl calm ↦ record {
        index = ground (arith, calm);
        readers = ground (arith, calm);
        contents = ground (arith, calm);
        next_inode = ground (arith, calm);
        dir = ground (arith, calm);
        current = ground (arith, calm);
        handle = ground (arith, calm);
      }
      | inr (k, fault) ↦ record {
        index = ground (arith, fault);
        readers = ground (arith, fault);
        contents = ground (arith, fault);
        next_inode = ground (arith, fault);
        dir = ground (arith, fault);
        current = ground (arith, fault);
        handle = ground (arith, fault);
      }
    ];
  }

  Books-now : Books unix_now
  unfolding unix_now
  Books-now = record {
    at = λ s. record {
      index = refl;
      readers = refl;
      contents = refl;
      next_inode = refl;
      dir = refl;
      current = refl;
      handle = refl;
    };
  }

  pub Books-trigger : Books compaction_trigger
  unfolding compaction_trigger
  Books-trigger = record {
    at = λ s. elim (Bool-cases (leb s.config.compaction_threshold s.writer.stale_bytes_count)) [
      | inl due ↦ rw due (record {
        index = refl;
        readers = refl;
        contents = refl;
        next_inode = refl;
        dir = refl;
        current = refl;
        handle = refl;
      })
      | inr not_due ↦ rw not_due Booked-refl
    ];
  }

  Books-if_due : (now : ℕ) → Books (sync_if_due now)
  unfolding sync_if_due
  Books-if_due now = record {
    at = λ s.
        elim (Bool-cases
          (leb s.config.flush_threshold_millis (sub_u64 now s.writer.last_ts_flushed))) [
            | inl due ↦
                rw due
                  ((Books-bind sync _ Books-sync (λ _. record { at = λ t. marked _ now })).at s)
            | inr not_due ↦ rw not_due Booked-refl
          ];
  }

  Books-sync_by : (p : DurabilityPolicy) → Books (sync_by p)
  unfolding sync_by
  Books-sync_by sync_on_every_put = Books-sync
  Books-sync_by sync_on_interval =
      Books-bind unix_now _ Books-now (λ now. Books-if_due (as_millis now))
  Books-sync_by os_decides = record { at = λ s. Booked-refl }

  pub Books-policy : Books handle_policy
  unfolding handle_policy
  Books-policy = record { at = λ s. (Books-sync_by s.config.durability_policy).at s }
