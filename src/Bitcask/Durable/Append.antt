-- ===== src/Bitcask/Durable/Append.antt =====
-- An `append` that goes through puts one command more into the files.
use bitcask.Prelude.{
  ℕ, ◌+◌, ◌^◌, ◌<◌, ◌≡◌, refl, ◌∙◌, sym, ap, subst, List, [], ◌∷◌, ◌++◌, arith, length, Bool-cases,
  inl, inr, ltb,
}
use bitcask.Prelude.Map.{Map, id_key}
use bitcask.Crc32.{Crc32}
use bitcask.Error.{ok}
use bitcask.Exec.{ok-seq, ◌>>◌}
use bitcask.Files.Names.{file_name_key}
use bitcask.Command.{Command, serialize}
use bitcask.Bitcask.State.{Shared, Env, write_all}
use bitcask.Bitcask.Write.{
  append, post_write_ops, compaction_trigger, handle_policy, rotate_if_full, add_u64,
}
use bitcask.Bitcask.Outcome.{write_all-ok, rotate_to-ok}
use bitcask.Bitcask.Invariant.{IsOpen, IsValid}
use bitcask.Bitcask.Appended.{
  IsStorable, appended, appended-with_record, appended-IsValid, appended-writer,
}
use bitcask.Bitcask.After.{Settles-trans, Settling-trigger, Settling-policy}
use bitcask.Bitcask.Published.{HasRoom}
use bitcask.Bitcask.Concurrent.Books.{Booked-trans, Books-trigger, Books-policy}
use bitcask.Bitcask.Loader.Recovery.{bytes_of, commands}
use bitcask.Bitcask.Durable.{files_of, OnDisk}
use bitcask.Bitcask.Durable.Files.{OnDisk-Booked, OnDisk-record, logged_at, commands-record}
use bitcask.Bitcask.Durable.Rotated.{OnDisk-rotated, commands-rotated}

module _ ⦃crc32 : Crc32⦄ where
  -- The files of the state behind an action, which hold the same commands.
  record Holding (logs : ℕ → List Command) (cs : List Command) (t : Shared) : Type 0 where
    sealed : Map ℕ ℕ
    disk : OnDisk logs t sealed
    same : commands logs (files_of t sealed) ≡ cs

  -- The files of the state behind an `append`, which hold one command more.
  pub record Added (cs : List Command) (t : Shared) : Type 0 where
    pub logs : ℕ → List Command
    pub sealed : Map ℕ ℕ
    pub disk : OnDisk logs t sealed
    pub all : commands logs (files_of t sealed) ≡ cs

module _ ⦃crc32 : Crc32⦄ ⦃env : Env⦄ {logs : ℕ → List Command} where
  rotate_if_full-Holding :
      {s : Shared} {sealed : Map ℕ ℕ}
      → OnDisk logs s sealed
      → IsOpen s
      → s.writer.current_file_id + 1 < 2 ^ 64
      → s.writer.offset < 2 ^ 63
      → (rotate_if_full s).0 ≡ ok tt
      → Holding logs (commands logs (files_of s sealed)) (rotate_if_full s).1
  unfolding rotate_if_full
  rotate_if_full-Holding {s} {sealed} d o fits small e =
      let next : add_u64 s.writer.current_file_id 1 ≡ s.writer.current_file_id + 1 = omega arith in
      let above : s.writer.current_file_id < s.writer.current_file_id + 1 = omega arith in
      let short : length (bytes_of logs s.writer.current_file_id) < 2 ^ 63 =
        omega (arith, ap length d.bytes, o.at_end, small) in
      elim (Bool-cases (ltb s.writer.offset s.config.file_size_threshold)) [
        | inl room ↦ rw room (record { sealed = sealed; disk = d; same = refl })
        | inr full ↦
            let (now, out) = rotate_to-ok _ s (o.names _ above) (rw (full, next) at e) in
            rw (full, next, out)
              (record {
                sealed = files_of s sealed;
                disk = OnDisk-rotated d _ now above fits short;
                same = commands-rotated d _ now above fits short;
              })
      ]

  post_write_ops-Holding :
      {s : Shared} {sealed : Map ℕ ℕ}
      → OnDisk logs s sealed
      → IsOpen s
      → s.writer.current_file_id + 1 < 2 ^ 64
      → s.writer.offset < 2 ^ 63
      → (post_write_ops s).0 ≡ ok tt
      → Holding logs (commands logs (files_of s sealed)) (post_write_ops s).1
  unfolding post_write_ops
  post_write_ops-Holding {s} {sealed} d o fits small e =
      ok-seq compaction_trigger (λ _. handle_policy >> rotate_if_full) s e
        λ a h₁ k₁.
          ok-seq handle_policy (λ _. rotate_if_full) (compaction_trigger s).1 k₁
            λ b h₂ k₂.
              let first = Settling-trigger.at o a h₁ in
              let both = Settles-trans first (Settling-policy.at first.is_open b h₂) in
              let booked =
                Booked-trans (Books-trigger.at s) (Books-policy.at (compaction_trigger s).1) in
              let all : files_of (handle_policy (compaction_trigger s).1).1 sealed
                  ≡ files_of s sealed =
                rw (booked.current, booked.handle) refl in
              let r =
                rotate_if_full-Holding (OnDisk-Booked d booked) both.is_open
                  (rw both.same_file fits) (rw both.same_offset small) k₂ in
              rw (h₁, h₂)
                (record {
                  sealed = r.sealed;
                  disk = r.disk;
                  same = r.same ∙ ap (commands logs) all;
                })

module _ ⦃crc32 : Crc32⦄ ⦃env : Env⦄ {logs : ℕ → List Command} where
  -- An `append` that goes through leaves the files with its command at the end.
  pub append-Added :
      (c : Command) {s : Shared} {sealed : Map ℕ ℕ}
      → OnDisk logs s sealed
      → IsValid s
      → IsStorable c
      → HasRoom s (length (serialize c))
      → s.writer.offset + length (serialize c) < 2 ^ 63
      → (append c s).0 ≡ ok tt
      → Added (commands logs (files_of s sealed) ++ (c ∷ [])) (append c s).1
  unfolding append
  append-Added c {s} {sealed} d v storable room small e =
      ok-seq (write_all (serialize c)) _ s e λ a h k.
        let out = write_all-ok (serialize c) s h in
        let now = appended c (serialize c) s in
        let (stale, same) = appended-with_record c (serialize c) s in
        let valid : IsValid now = appended-IsValid c room.offset storable v in
        let went : (post_write_ops now).0 ≡ ok tt = rw out at k in
        let (here, below, _) = appended-writer c (serialize c) s in
        let disk : OnDisk (logged_at logs s.writer.current_file_id c) now sealed =
          subst (λ t. OnDisk (logged_at logs s.writer.current_file_id c) t sealed) (sym same)
            (OnDisk-record d c storable stale) in
        let all : files_of now sealed ≡ files_of s sealed = ap (λ t. files_of t sealed) same in
        let r =
          post_write_ops-Holding disk valid.structure
            (subst (λ i. i + 1 < 2 ^ 64) (sym here) room.id) (omega (arith, below, small)) went in
        rw (h, out)
          (record {
            logs = logged_at logs s.writer.current_file_id c;
            sealed = r.sealed;
            disk = r.disk;
            all = r.same ∙ commands-record d c storable now all;
          })
