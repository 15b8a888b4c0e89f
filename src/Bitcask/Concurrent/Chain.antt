-- ===== src/Bitcask/Concurrent/Chain.antt =====
-- The states that a list of appends passes lead on to one another.
use bitcask.Prelude.{ℕ, zero, suc, ◌≤◌, ◌≡◌, refl, List, [], ◌∷◌, ◌++◌, append-nil, arith, inl, inr}
use bitcask.Crc32.{Crc32}
use bitcask.Error.{ok, Result-cases}
use bitcask.Exec.{Exec, ok-seq}
use bitcask.Command.{Command}
use bitcask.Bitcask.State.{Shared, Env}
use bitcask.Bitcask.Write.{
  rotate_if_full, post_write_ops, in_turn, append, write_actions, before_rotation,
}
use bitcask.Bitcask.Invariant.{IsValid}
use bitcask.Bitcask.Published.{append-Keeps}
use bitcask.Bitcask.Concurrent.Grown.{Onward, Onward-refl, Onward-trans}
use bitcask.Bitcask.Concurrent.History.{trace, append_actions, history, Appendable, state_at}
use bitcask.Bitcask.Concurrent.Append.{Chain, append-Chain}

module _ ⦃crc32 : Crc32⦄ ⦃env : Env⦄ where
  abbrev last_of : Shared → List Shared → Shared
  last_of s [] = s
  last_of s (t ∷ ts) = last_of t ts

  Chain-append :
      (s : Shared) (ts us : List Shared) → Chain s ts → Chain (last_of s ts) us → Chain s (ts ++ us)
  Chain-append s [] us h k = k
  Chain-append s (t ∷ ts) us (on, h) k = (on, Chain-append t ts us h k)

  -- A trace that goes through ends where the actions do.
  trace-last :
      (actions : List (Exec Shared (Unit {0}))) (last : Exec Shared (Unit {0})) (s : Shared)
      → (in_turn actions last s).0 ≡ ok tt
      → last_of s (trace (actions ++ (last ∷ [])) s) ≡ (in_turn actions last s).1
  unfolding trace
  trace-last [] last s e = rw (trace, e) refl
  trace-last (action ∷ actions) last s e =
      ok-seq action (λ _. in_turn actions last) s e
        λ a h k. rw (trace, h) (trace-last actions last (action s).1 k)

  append-last :
      (c : Command) (s : Shared)
      → (append c s).0 ≡ ok tt
      → last_of s (trace (append_actions c s.writer.offset) s) ≡ (append c s).1
  unfolding append post_write_ops
  append-last c s e =
      trace-last (write_actions c s.writer.offset ++ before_rotation) rotate_if_full s e

  pub history-Chain :
      (cs : List Command) {s : Shared} → IsValid s → Appendable cs s → Chain s (history cs s)
  unfolding history
  history-Chain [] v h = tt
  history-Chain (c ∷ cs) {s} v (storable, room, later) =
      let first = append-Chain c v storable room in
      elim (Result-cases (append c s).0) [
        | inl (a, e) ↦
            let (valid, _, _) = append-Keeps c v storable room e in
            rw (history, e)
              (Chain-append s _ _ first (rw (append-last c s e) (history-Chain cs valid (later e))))
        | inr (x, e) ↦ rw (history, e, append-nil) first
      ]

  -- From one state to a later one.
  pub Chain-from : (s : Shared) (ts : List Shared) (n : ℕ) → Chain s ts → Onward s (state_at s ts n)
  Chain-from s [] n h = Onward-refl
  Chain-from s (t ∷ ts) zero h = Onward-refl
  Chain-from s (t ∷ ts) (suc n) (on, h) = Onward-trans on (Chain-from t ts n h)

  pub Chain-between :
      (s : Shared) (ts : List Shared) (m n : ℕ)
      → m ≤ n
      → Chain s ts
      → Onward (state_at s ts m) (state_at s ts n)
  Chain-between s [] m n le h = Onward-refl
  Chain-between s (t ∷ ts) zero n le h = Chain-from s (t ∷ ts) n h
  Chain-between s (t ∷ ts) (suc m) zero le h = absurd (omega arith)
  Chain-between s (t ∷ ts) (suc m) (suc n) le (on, h) = Chain-between t ts m n (omega arith) h
