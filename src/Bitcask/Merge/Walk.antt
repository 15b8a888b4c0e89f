-- ===== src/Bitcask/Merge/Walk.antt =====
-- The walk over the sealed files.
use bitcask.Prelude.{
  ℕ, ◌+◌, ◌*◌, ◌/◌, ◌^◌, ◌≤◌, ◌<◌, ◌≡◌, refl, ◌∙◌, subst, Option, none, some, List, [], ◌∷◌, arith,
  All, leb, inl, inr, Bool-cases,
}
use bitcask.Prelude.Bytes.{Bytes}
use bitcask.Prelude.Map.{Map, id_key}
use bitcask.Crc32.{Crc32}
use bitcask.Exec.Ends.{Ends, went, Ends-bind, Ends-weaken}
use bitcask.Bitcask.State.{Shared, Env}
use bitcask.Bitcask.Write.{add_u64}
use bitcask.Bitcask.Merge.{
  PendingUpdate, MergeOutput, open_output, finish_output, ensure_output, finish_if_full,
  finish_last, merge_file, merge_files,
}
use bitcask.Bitcask.Merge.Steady.{Steady}
use bitcask.Bitcask.Merge.Working.{Serves, Steady-Serves, Working, Filling}
use bitcask.Bitcask.Merge.Outputs.{Opened, open_output-Ends}
use bitcask.Bitcask.Merge.Loop.{merge_file-Ends}
use bitcask.Bitcask.Merge.Finish.{finished, finished-Working, finish_output-Ends, kept_open}
use bitcask.Bitcask.Merge.Budget.{
  sum_len, Opens, Steady-Opens, Steady-sum_len, Setting, Between, Within, output_below,
}

module _ ⦃crc32 : Crc32⦄ (view : Bytes → Option Bytes) where
  -- Every key is still answered, also where a merge failed.
  abbrev pub Served : Shared → Type 0
  Served t = (low : ℕ) × Serves view low t

  Served-Steady : {low : ℕ} {s t : Shared} → Serves view low s → Steady low s t → Served t
  Served-Steady {low} v k = (low, Steady-Serves k v)

  module _ (prev size cap active : ℕ) (positive : 0 < size)
      (reserve : active ≡ prev + cap / size + 3) (fits : cap < 2 ^ 64)
      (room : active < 2 ^ 64) where
    abbrev pub Stage : Map ℕ ℕ → Option MergeOutput → List PendingUpdate → ℕ → Shared → Type 0
    Stage m none pending next_id t = (pending ≡ []) × Between view prev size cap active m next_id t
    Stage m (some out) pending next_id t = Within view prev size cap active m out pending next_id t

    Setting-Steady :
        {low : ℕ} {s t : Shared}
        → Steady low s t
        → Setting view prev size cap active s
        → Setting view prev size cap active t
    Setting-Steady k c = record {
      current = rw k.writer c.current;
      threshold = rw k.config c.threshold;
    }

    module _ ⦃env : Env⦄ where
      Opened-Within :
          (m : Map ℕ ℕ) (next_id : ℕ) {s t : Shared} {out : MergeOutput}
          (b : Between view prev size cap active m next_id s)
          → Opened view b.low (next_id + 1) (next_id + 1) s out t
          → Within view prev size cap active m out [] (next_id + 1) t
      Opened-Within m next_id b o = record {
        low = b.low;
        done = b.done;
        same_id = o.same_id;
        next = omega (arith, b.next);
        budget =
            rw (o.empty, Steady-sum_len m b.working.serves.inodes o.steady b.opens)
              (omega (arith, b.budget));
        working = o.working;
        filling = o.filling;
        opens = Steady-Opens m o.steady b.opens;
        setting = Setting-Steady o.steady b.setting;
      }

      ensure_output-Ends :
          (m : Map ℕ ℕ) (output : Option MergeOutput) (pending : List PendingUpdate) (next_id : ℕ)
          (s : Shared)
          → Stage m output pending next_id s
          → Ends
              (λ r t. Within view prev size cap active m r.0 pending r.1 t)
              Served
              (ensure_output output next_id s)
      unfolding ensure_output
      ensure_output-Ends m (some out) pending next_id s w = went _ _ w
      ensure_output-Ends m none pending next_id s (nothing, b) =
          let below : prev + b.done + 1 < active =
            output_below view prev size cap active positive reserve b.done
              (sum_len m s.files.contents) b.budget in
          let step : add_u64 next_id 1 ≡ next_id + 1 = omega (arith, b.next) in
          rw step (
            Ends-bind (open_output (next_id + 1)) _ s
              (Ends-weaken (open_output-Ends view b.low (next_id + 1) b.working (omega arith))
                (λ out t o. rw nothing (Opened-Within m next_id b o))
                (λ t k. Served-Steady b.working.serves k))
              λ out t w. went _ _ w)

      merge_file-Within :
          (id inode : ℕ) (m : Map ℕ ℕ) (out : MergeOutput) (pending : List PendingUpdate)
          (next_id : ℕ) (s : Shared)
          → Within view prev size cap active ((id, inode) ∷ m) out pending next_id s
          → Ends
              (λ o t.
                (x : MergeOutput × List PendingUpdate) × (o ≡ some x)
                × Within view prev size cap active m x.0 x.1 next_id t)
              Served
              (merge_file id inode out pending s)
      merge_file-Within id inode m out pending next_id s w =
          Ends-weaken
            (merge_file-Ends view w.low id inode (w.working.serves.inodes id inode w.opens.0) out
              pending s w.working w.filling w.opens.0 (omega (arith, w.budget)))
            (λ o t (x, e, q). (
              x,
              e,
              record {
                low = w.low;
                done = w.done;
                same_id = q.same_id ∙ w.same_id;
                next = w.next;
                budget =
                    rw (Steady-sum_len m w.working.serves.inodes q.steady w.opens.1)
                      (omega (arith, w.budget, q.bounded));
                working = q.working;
                filling = q.filling;
                opens = Steady-Opens m q.steady w.opens.1;
                setting = Setting-Steady q.steady w.setting;
              },
            ))
            (λ t k. Served-Steady w.working.serves k)

      -- The files that are left are as they were.
      finished-Opens :
          {low last_id next_free : ℕ} {out : MergeOutput} {pending : List PendingUpdate}
          {s : Shared} (w : Working view low last_id next_free s)
          (f : Filling view low out pending s) (from : next_free ≤ out.id)
          (below : out.id < s.writer.current_file_id) (tick : ℕ) (m : Map ℕ ℕ)
          → All (Opens s) m
          → All (Opens (finished view w f from below tick)) m
      finished-Opens w f from below tick [] h = tt
      finished-Opens w f from below tick ((id, inode) ∷ m) h =
          (kept_open view w f from below id inode h.0, finished-Opens w f from below tick m h.1)

      module _ (m : Map ℕ ℕ) (out : MergeOutput) (pending : List PendingUpdate) (next_id : ℕ)
          (s : Shared) (w : Within view prev size cap active m out pending next_id s) where
        from_lem : next_id ≤ out.id
        from_lem = omega (arith, w.same_id)

        below_lem : out.id < s.writer.current_file_id
        below_lem =
            let h : prev + w.done + 1 < active =
              output_below view prev size cap active positive reserve w.done
                (out.written + sum_len m s.files.contents) (omega (arith, w.budget)) in
            omega (arith, w.same_id, w.next, w.setting.current)

        finished-last :
            (tick : ℕ)
            → Working view s.files.next_inode next_id
                (next_id + 1)
                (finished view w.working w.filling from_lem below_lem tick)
        finished-last tick =
            subst
              (λ n.
                Working view s.files.next_inode next_id (n + 1)
                  (finished view w.working w.filling from_lem below_lem tick))
              w.same_id (finished-Working view w.working w.filling from_lem below_lem tick)

        -- A full output is finished.
        finished-Between :
            (tick : ℕ)
            → size ≤ out.written
            → Between view prev size cap active m next_id
                (finished view w.working w.filling from_lem below_lem tick)
        unfolding bitcask.Files.sync_all
        finished-Between tick full = record {
          low = s.files.next_inode;
          done = w.done + 1;
          next = omega (arith, w.next);
          budget =
              let e : (w.done + 1) * size ≡ w.done * size + size = grind arith in
              omega (arith, w.budget);
          working = finished-last tick;
          opens = finished-Opens w.working w.filling from_lem below_lem tick m w.opens;
          setting = record { current = w.setting.current; threshold = w.setting.threshold };
        }

        finish-Ends :
            Ends
              (λ _ t. (tick : ℕ) × (t ≡ finished view w.working w.filling from_lem below_lem tick))
              Served
              (finish_output out pending s)
        finish-Ends =
            Ends-weaken (finish_output-Ends view w.working w.filling from_lem below_lem)
              (λ a t q. q) (λ t k. Served-Steady w.working.serves k)

        finish_if_full-Ends :
            Ends (λ r t. Stage m r.0 r.1 next_id t) Served (finish_if_full out pending s)
        unfolding finish_if_full
        finish_if_full-Ends = elim (Bool-cases (leb s.config.file_size_threshold out.written)) [
          | inl full ↦
              rw (finish_if_full, full)
                (Ends-bind (finish_output out pending) _ s finish-Ends λ a t (tick, at_t). rw at_t (
                  went _ _
                    (refl, finished-Between tick (ground (arith, full, w.setting.threshold)))))
          | inr half ↦ rw (finish_if_full, half) (went _ _ w)
        ]

      -- The end of a walk: no output is open.
      pub record Walked (t : Shared) : Type 0 where
        pub low : ℕ
        pub last_id : ℕ
        pub working : Working view low last_id (last_id + 1) t
        pub current : t.writer.current_file_id ≡ active

      finish_last-Ends :
          (output : Option MergeOutput) (pending : List PendingUpdate) (next_id : ℕ) (s : Shared)
          → Stage [] output pending next_id s
          → Ends (λ _ t. Walked t) Served (finish_last output pending s)
      unfolding finish_last
      finish_last-Ends none pending next_id s (nothing, b) = went _ _ (record {
        low = b.low;
        last_id = next_id;
        working = b.working;
        current = b.setting.current;
      })
      finish_last-Ends (some out) pending next_id s w =
          Ends-weaken (finish-Ends [] out pending next_id s w)
            (λ a t (tick, at_t). rw at_t (record {
              low = s.files.next_inode;
              last_id = next_id;
              working = finished-last [] out pending next_id s w tick;
              current = w.setting.current;
            }))
            (λ t k. k)

      pub merge_files-Ends :
          (m : Map ℕ ℕ) (output : Option MergeOutput) (pending : List PendingUpdate) (next_id : ℕ)
          (s : Shared)
          → Stage m output pending next_id s
          → Ends (λ o t. (o ≡ some tt) × Walked t) Served (merge_files m output next_id pending s)
      unfolding merge_files
      merge_files-Ends [] output pending next_id s stage =
          Ends-bind (finish_last output pending) _ s
            (finish_last-Ends output pending next_id s stage) λ a t w. went _ _ (refl, w)
      merge_files-Ends ((id, inode) ∷ m) output pending next_id s stage =
          Ends-bind (ensure_output output next_id) _ s
            (ensure_output-Ends ((id, inode) ∷ m) output pending next_id s stage)
            λ (out, next) t w.
              Ends-bind (merge_file id inode out pending) _ t
                (merge_file-Within id inode m out pending next t w)
                λ o u (x, e, v). rw e (
                  Ends-bind (finish_if_full x.0 x.1) _ u (finish_if_full-Ends m x.0 x.1 next u v)
                    λ r y last. merge_files-Ends m r.0 r.1 next y last)
