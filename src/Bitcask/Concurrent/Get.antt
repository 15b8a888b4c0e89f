-- ===== src/Bitcask/Concurrent/Get.antt =====
-- A `get` beside the writer comes back in its first round, with the value of the moment of its first
-- look.
use bitcask.Prelude.{
  ℕ, zero, suc, ◌+◌, ◌≤◌, ◌≡◌, List, refl, ◌∙◌, sym, ap, subst, none, some, arith, Option-cases,
  inl, inr,
}
use bitcask.Prelude.Bytes.{Bytes}
use bitcask.Prelude.Map
use bitcask.Prelude.Map.{id_key}
use bitcask.Crc32.{Crc32}
use bitcask.Error.{ok}
use bitcask.Command.{Command}
use bitcask.IndexValue.{IndexValue}
use bitcask.Index.{lookup}
use bitcask.Bitcask.State.{Shared, Env}
use bitcask.Bitcask.Read.{get_loop, read_entry}
use bitcask.Bitcask.Lookup.{read_entry-Holds, get_loop-Holds, get_loop_missing}
use bitcask.Bitcask.Invariant.{IsValid}
use bitcask.Bitcask.Engine.{values}
use bitcask.Bitcask.Concurrent.{Served}
use bitcask.Bitcask.Concurrent.Grown.{IsValid-Served, Onward}
use bitcask.Bitcask.Concurrent.History.{history, state_at, Appendable}
use bitcask.Bitcask.Concurrent.Chain.{history-Chain, Chain-from, Chain-between}

module _ ⦃crc32 : Crc32⦄ where
  world-Served :
      (world : ℕ → Shared)
      → Served (world 0)
      → ((i : ℕ) → Onward (world i) (world (i + 1)))
      → (i : ℕ) → Served (world i)
  world-Served world v steps zero = v
  world-Served world v steps (suc i) =
      subst (λ k. Served (world k)) (let e : i + 1 ≡ suc i = omega arith in e)
        (steps i (world-Served world v steps i)).0

  -- The three looks of a round.
  three_looks :
      (world : ℕ → Shared) (fuel now : ℕ) (key : Bytes) (e : IndexValue) (inode : ℕ)
      → lookup (world now).index key ≡ some e
      → Map.get (world (now + 1)).readers e.file_id ≡ some inode
      → get_loop (suc fuel) world now key ≡ some (read_entry e inode (world (now + 2)).files)
  unfolding get_loop
  three_looks world fuel now key e inode found opened = rw (get_loop, found, opened) refl

  first_look :
      (world : ℕ → Shared) (fuel now : ℕ) (key : Bytes)
      → lookup (world now).index key ≡ none
      → get_loop (suc fuel) world now key ≡ some (ok none)
  unfolding get_loop
  first_look world fuel now key missing = rw (get_loop, missing) refl

  -- On a world whose states lead on to one another.
  get-Onward :
      (world : ℕ → Shared)
      → Served (world 0)
      → ((i : ℕ) → Onward (world i) (world (i + 1)))
      → (fuel now : ℕ) (key : Bytes)
      → get_loop (suc fuel) world now key ≡ some (ok (values (world now) key))
  get-Onward world served steps fuel now key =
      let v = world-Served world served steps now in
      elim (Option-cases (lookup (world now).index key)) [
        | inl missing ↦
            let e = get_loop_missing (world now) 0 0 key missing in
            let none_there : values (world now) key ≡ none = rw e refl in
            first_look world fuel now key missing ∙ ap (λ o. some (ok o)) (sym none_there)
        | inr (e, found) ↦
            let (value, h) = v.entries key e found in
            let there = get_loop-Holds (world now) 0 0 key value e found h in
            let has_value : values (world now) key ≡ some value = rw there refl in
            let (mid, sees) = steps now v in
            let (last, later) = steps (now + 1) mid in
            let next : now + 1 + 1 ≡ now + 2 = omega arith in
            let opened = sees.opened e.file_id h.inode h.opened in
            let h₂ = later.data_kept e key value (sees.data_kept e key value h) in
            let same : h₂.inode ≡ h.inode =
              let o = later.opened e.file_id h.inode opened in let o₂ = h₂.opened in cc (o, o₂) in
            let reads = read_entry-Holds (world (now + 1 + 1)) e key value h₂ in
            three_looks world fuel now key e h.inode found opened
            ∙ ap some (
                subst (λ i. read_entry e i (world (now + 2)).files ≡ ok (some value)) same
                  (subst (λ k. read_entry e h₂.inode (world k).files ≡ ok (some value)) next reads))
            ∙ ap (λ o. some (ok o)) (sym has_value)
      ]

  -- A `get` of one thread while another does a list of appends, from a valid state and with records
  -- that fit the format and counters that do not wrap; the first append that fails, at whichever call,
  -- is the last. The reader's looks fall on states that the writer's actions leave behind them, in
  -- their order and however far apart: the `get` comes back in its first round, with the value that its
  -- key had at its first look.
  pub get-history :
      ⦃env : Env⦄ (cs : List Command) {s : Shared}
      → IsValid s
      → Appendable cs s
      → (look : ℕ → ℕ) → ((i : ℕ) → look i ≤ look (i + 1))
      → (fuel now : ℕ) (key : Bytes)
      → get_loop (suc fuel) (λ i. state_at s (history cs s) (look i)) now key
        ≡ some (ok (values (state_at s (history cs s) (look now)) key))
  get-history cs {s} valid goes look forward fuel now key =
      let chain = history-Chain cs valid goes in
      get-Onward (λ i. state_at s (history cs s) (look i))
        (Chain-from s (history cs s) (look 0) chain (IsValid-Served valid)).0
        (λ i. Chain-between s (history cs s) (look i) (look (i + 1)) (forward i) chain) fuel now key
