-- ===== src/Bitcask/After.antt =====
-- What follows a write changes nothing that readers see.
use bitcask.Prelude.{
  ℕ, Bool, ◌+◌, ◌^◌, ◌≤◌, ◌<◌, ◌≡◌, refl, ◌∙◌, true, arith, ltb, inl, inr, Bool-cases, leb,
}
use bitcask.Prelude.Map.{id_key}
use bitcask.Crc32.{Crc32}
use bitcask.Error.{ok}
use bitcask.Exec.{Exec, ok-seq, ◌>>=◌, ◌>>◌, modify}
use bitcask.RecordReader.{sub_u64}
use bitcask.Config.{DurabilityPolicy, sync_on_every_put, sync_on_interval, os_decides}
use bitcask.Bitcask.State.{Shared, Env, unix_now}
use bitcask.Bitcask.Write.{
  sync, rotate_if_full, sync_if_due, sync_by, handle_policy, compaction_trigger, post_write_ops,
  add_u64, as_millis, writer_update,
}
use bitcask.Bitcask.Outcome.{sync-ok, rotate_to-ok}
use bitcask.Bitcask.Invariant.{IsOpen, Keeps}
use bitcask.Bitcask.Steps.{synced-IsOpen, rotated-IsOpen, synced-Keeps, rotated-Keeps, Keeps-trans}

module _ ⦃crc32 : Crc32⦄ where
  -- The state is still open, under the same active file, and readers see the same.
  pub record Settles (s t : Shared) : Type 0 where
    pub keeps : Keeps s t
    pub is_open : IsOpen t
    pub same_file : t.writer.current_file_id ≡ s.writer.current_file_id
    pub same_offset : t.writer.offset ≡ s.writer.offset
    pub same_config : t.config ≡ s.config

  -- The same, or under the next file, which is empty.
  pub record Rests (s t : Shared) : Type 0 where
    pub keeps : Keeps s t
    pub is_open : IsOpen t
    pub file : t.writer.current_file_id ≤ s.writer.current_file_id + 1
    pub offset : t.writer.offset ≤ s.writer.offset
    pub below : 0 < s.config.file_size_threshold → t.writer.offset < t.config.file_size_threshold

  pub Settles-trans : {s t u : Shared} → Settles s t → Settles t u → Settles s u
  Settles-trans a b = record {
    keeps = Keeps-trans a.keeps b.keeps;
    is_open = b.is_open;
    same_file = b.same_file ∙ a.same_file;
    same_offset = b.same_offset ∙ a.same_offset;
    same_config = b.same_config ∙ a.same_config;
  }

  -- Marks of the writer that no reader reads.
  pub Settles-marks :
      {s : Shared} (flushed last tick : ℕ) (signal : Bool)
      → IsOpen s
      → Settles s (record s {
        writer = record s.writer { flushed_offset = flushed; last_ts_flushed = last };
        compaction_signal = signal;
        tick = tick;
      })
  Settles-marks flushed last tick signal o = record {
    keeps = record {
      index = refl;
      data_kept = λ e key value h. record {
        inode = h.inode;
        opened = h.opened;
        inside = h.inside;
        bytes = h.bytes;
        fits = h.fits;
        text = h.text;
      };
    };
    is_open = record {
      active = o.active;
      at_end = o.at_end;
      ids = o.ids;
      inodes = o.inodes;
      names = o.names;
    };
    same_file = refl;
    same_offset = refl;
    same_config = refl;
  }

  -- An action after which, if it goes through, the state has settled.
  pub record Settling {ℓ} {A : Type ℓ} (m : Exec Shared A) : Type ℓ where
    pub at : {s : Shared} → IsOpen s → (a : A) → (m s).0 ≡ ok a → Settles s (m s).1

  Settling-bind {ℓ κ} :
      {A : Type ℓ} {B : Type κ} (m : Exec Shared A) (f : A → Exec Shared B)
      → Settling m
      → ((a : A) → Settling (f a))
      → Settling (m >>= f)
  Settling-bind m f km kf = record {
    at = λ {s} o b e. ok-seq m f s e λ a h k.
        let first = km.at o a h in rw h (Settles-trans first ((kf a).at first.is_open b k));
  }

module _ ⦃crc32 : Crc32⦄ ⦃env : Env⦄ where
  pub Settling-trigger : Settling compaction_trigger
  unfolding compaction_trigger
  Settling-trigger = record {
    at = λ {s} o _ _.
        elim (Bool-cases (leb s.config.compaction_threshold s.writer.stale_bytes_count)) [
          | inl due ↦ rw due (Settles-marks _ _ _ true o)
          | inr not_due ↦ rw not_due (Settles-marks _ _ _ _ o)
        ];
  }

  Settling-sync : Settling sync
  Settling-sync = record {
    at = λ {s} o _ e. rw (sync-ok s e) (record {
      keeps = synced-Keeps;
      is_open = synced-IsOpen o;
      same_file = refl;
      same_offset = refl;
      same_config = refl;
    });
  }

  Settling-mark_time :
      (now : ℕ) → Settling (modify (writer_update λ w. record w { last_ts_flushed = now }))
  Settling-mark_time now = record { at = λ o _ _. Settles-marks _ now _ _ o }

  Settling-now : Settling unix_now
  unfolding unix_now
  Settling-now = record { at = λ o _ _. Settles-marks _ _ _ _ o }

  Settling-if_due : (now : ℕ) → Settling (sync_if_due now)
  unfolding sync_if_due
  Settling-if_due now = record {
    at = λ {s} o a e.
        elim (Bool-cases
          (leb s.config.flush_threshold_millis (sub_u64 now s.writer.last_ts_flushed))) [
            | inl due ↦ rw due (
                (Settling-bind sync _ Settling-sync (λ _. Settling-mark_time now)).at o a
                  (rw due at e))
            | inr not_due ↦ rw not_due (Settles-marks _ _ _ _ o)
          ];
  }

  Settling-sync_by : (p : DurabilityPolicy) → Settling (sync_by p)
  unfolding sync_by
  Settling-sync_by sync_on_every_put = Settling-sync
  Settling-sync_by sync_on_interval =
      Settling-bind unix_now _ Settling-now (λ now. Settling-if_due (as_millis now))
  Settling-sync_by os_decides = record { at = λ o _ _. Settles-marks _ _ _ _ o }

  pub Settling-policy : Settling handle_policy
  unfolding handle_policy
  Settling-policy = record {
    at = λ {s} o a e. (Settling-sync_by s.config.durability_policy).at o a e;
  }

  rotate_if_full-Rests :
      {s : Shared}
      → IsOpen s
      → s.writer.current_file_id + 1 < 2 ^ 64
      → (rotate_if_full s).0 ≡ ok tt
      → Rests s (rotate_if_full s).1
  unfolding rotate_if_full
  rotate_if_full-Rests {s} o fits e =
      let next : add_u64 s.writer.current_file_id 1 ≡ s.writer.current_file_id + 1 = omega arith in
      let above : s.writer.current_file_id < s.writer.current_file_id + 1 = omega arith in
      elim (Bool-cases (ltb s.writer.offset s.config.file_size_threshold)) [
        | inl room ↦
            let same = Settles-marks {s = s} _ _ _ _ o in
            rw room (record {
              keeps = same.keeps;
              is_open = same.is_open;
              file = omega arith;
              offset = omega arith;
              below = λ some_room. ground (arith, room);
            })
        | inr full ↦
            let (now, out) = rotate_to-ok _ s (o.names _ above) (rw (full, next) at e) in
            rw (full, next, out)
              (record {
                keeps = rotated-Keeps o _ now above;
                is_open = rotated-IsOpen o _ now above;
                file = omega arith;
                offset = omega arith;
                below = λ some_room. some_room;
              })
      ]

  -- What follows a write, when it goes through, leaves a state in which readers find the same.
  pub post_write_ops-Rests :
      {s : Shared}
      → IsOpen s
      → s.writer.current_file_id + 1 < 2 ^ 64
      → (post_write_ops s).0 ≡ ok tt
      → Rests s (post_write_ops s).1
  unfolding post_write_ops
  post_write_ops-Rests {s} o fits e =
      ok-seq compaction_trigger (λ _. handle_policy >> rotate_if_full) s e
        λ a h₁ k₁.
          ok-seq handle_policy (λ _. rotate_if_full) (compaction_trigger s).1 k₁
            λ b h₂ k₂.
              let first = Settling-trigger.at o a h₁ in
              let both = Settles-trans first (Settling-policy.at first.is_open b h₂) in
              let rest = rotate_if_full-Rests both.is_open (rw both.same_file fits) k₂ in
              rw (h₁, h₂)
                (record {
                  keeps = Keeps-trans both.keeps rest.keeps;
                  is_open = rest.is_open;
                  file = omega (arith, rest.file, both.same_file);
                  offset = omega (arith, rest.offset, both.same_offset);
                  below = λ h. rest.below (rw both.same_config h);
                })
