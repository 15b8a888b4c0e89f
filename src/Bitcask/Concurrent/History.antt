-- ===== src/Bitcask/Concurrent/History.antt =====
-- The states that the writer's thread leaves behind each action of its `append`s, in the order of the
-- code: the write, the keydir and the offset, then the trigger, the policy and the rotation. A sync and
-- a rotation are one action each; Concurrent.Append splits the rotation into the steps inside it.
use bitcask.Prelude.{ℕ, zero, suc, ◌≡◌, List, [], ◌∷◌, ◌++◌, length}
use bitcask.Crc32.{Crc32}
use bitcask.Error.{ok, err}
use bitcask.Exec.{Exec}
use bitcask.Command.{Command, serialize}
use bitcask.Bitcask.State.{Shared, Env}
use bitcask.Bitcask.Write.{write_actions, before_rotation, rotate_if_full, append}
use bitcask.Bitcask.Appended.{IsStorable}
use bitcask.Bitcask.Published.{HasRoom}

-- The state behind each action, the failing one included, with which they end.
unfoldable pub trace : List (Exec Shared (Unit {0})) → Shared → List Shared
trace [] s = []
trace (action ∷ actions) s =
    let rest = trace actions (action s).1 in
    elim (action s).0 [ ok _ ↦ (action s).1 ∷ rest | err x ↦ (action s).1 ∷ [] ]

-- The state after `n` of the states behind it, or the last one.
abbrev pub state_at : Shared → List Shared → ℕ → Shared
state_at s [] n = s
state_at s (t ∷ ts) zero = s
state_at s (t ∷ ts) (suc n) = state_at t ts n

module _ ⦃crc32 : Crc32⦄ ⦃env : Env⦄ where
  abbrev pub append_actions : Command → ℕ → List (Exec Shared (Unit {0}))
  append_actions command offset =
      write_actions command offset ++ (before_rotation ++ (rotate_if_full ∷ []))

  -- One `append` after the other, up to one that fails.
  unfoldable pub history : List Command → Shared → List Shared
  history [] s = []
  history (c ∷ cs) s =
      let rest = history cs (append c s).1 in
      trace (append_actions c s.writer.offset) s
      ++ (elim (append c s).0 [ ok _ ↦ rest | err x ↦ [] ])

  -- Each record fits the format, and no counter wraps, as far as the appends go through.
  abbrev pub Appendable : List Command → Shared → Type 0
  Appendable [] s = Unit
  Appendable (c ∷ cs) s =
      IsStorable c
      × HasRoom s (length (serialize c))
      × ((append c s).0 ≡ ok tt → Appendable cs (append c s).1)
