-- ===== src/Bitcask/Engine/Refines.antt =====
-- Requests to the engine, one after another, are answered as by a map.
use bitcask.Prelude.{
  ℕ, ◌+◌, ◌^◌, ◌≤◌, ◌<◌, ◌≡◌, refl, sym, ap, ◌∙◌, none, some, Option, List, [], ◌∷◌, All, arith,
  length, fun_ext, Bool-cases, inl, inr, Option-cases, if◌then◌else◌,
}
use bitcask.Prelude.Bytes.{Bytes, bytes_eq}
use bitcask.Crc32.{Crc32}
use bitcask.Error.{Result, ok, err, key_not_found}
use bitcask.KvStore.Reference.{Values, update, reference}
use bitcask.Command.{header_len}
use bitcask.Network.Protocol.{Request, get_req, set_req, rm_req, Response, answer, done, execute}
use bitcask.Server.Answers.{executed}
use bitcask.Index.{lookup}
use bitcask.Bitcask.State.{Shared, Env}
use bitcask.Bitcask.Invariant.{IsValid}
use bitcask.Bitcask.Lookup.{get_loop-Holds, get_loop_missing}
use bitcask.Bitcask.Published.{get, HasRoom, HasSpace, Moves}
use bitcask.Bitcask.Refines.{IsEntry, set_goes, removed, remove_missing}
use bitcask.Bitcask.Calm.{IsCalm, set-ok, remove-ok}
use bitcask.Bitcask.Engine.{engine, values}

-- A request whose record the format can hold.
abbrev pub IsLoggable : Request → Type 0
IsLoggable (get_req key) = Unit
IsLoggable (set_req key value) = IsEntry key value
IsLoggable (rm_req key) = 8 + 1 + 4 + length key < 2 ^ 32

-- The bytes that a request adds to the log, at most.
abbrev pub weight : Request → ℕ
weight (get_req key) = 0
weight (set_req key value) = header_len + (8 + 1 + 4 + length key + 4 + length value)
weight (rm_req key) = header_len + (8 + 1 + 4 + length key)

abbrev pub weights : List Request → ℕ
weights [] = 0
weights (req ∷ reqs) = weight req + weights reqs

reference-missing :
    (key : Bytes) (m : Values)
    → m key ≡ none
    → execute reference (rm_req key) m
      ≡ (answer {0} {A = Unit {0}} (λ _. done) (err key_not_found), m)
unfolding execute
reference-missing key m gone = rw (execute, gone) refl

pub reference-there :
    (key value : Bytes) (m : Values)
    → m key ≡ some value
    → execute reference (rm_req key) m
      ≡ (answer {0} {A = Unit {0}} (λ _. done) (ok tt), update key none m)
unfolding execute
reference-there key value m there = rw (execute, there) refl

module _ ⦃crc32 : Crc32⦄ where
  pub get-values : {s : Shared} → IsValid s → (key : Bytes) → get s key ≡ some (ok (values s key))
  get-values {s} v key = elim (Option-cases (lookup s.index key)) [
    | inl missing ↦ let e = get_loop_missing s 0 0 key missing in rw e refl
    | inr (e, found) ↦
        let (value, h) = v.entries key e found in
        let e = get_loop-Holds s 0 0 key value e found h in rw e refl
  ]

  -- A state in which `get` answers as on another, but for one key, stands for the updated map.
  pub values-update :
      (s t : Shared) (key : Bytes) (value : Option Bytes)
      → ((j : Bytes) → get t j ≡ (if bytes_eq key j then some (ok value) else get s j))
      → values t ≡ update key value (values s)
  values-update s t key value h = fun_ext (λ j. elim (Bool-cases (bytes_eq key j)) [
    | inl same ↦ rw (h j, same) refl
    | inr apart ↦ rw (h j, apart) refl
  ])

  module _ ⦃env : Env⦄ (calm : IsCalm env) (spin : Result (Option Bytes)) where
    -- What one request does.
    pub record Agrees (req : Request) (s : Shared) : Type 0 where
      pub response : (execute (engine spin) req s).0 ≡ (execute reference req (values s)).0
      pub view : values (execute (engine spin) req s).1 ≡ (execute reference req (values s)).1
      pub valid : IsValid (execute (engine spin) req s).1
      pub moves : Moves (weight req) s (execute (engine spin) req s).1

    pub execute-engine :
        (req : Request) {s : Shared}
        → IsValid s
        → IsLoggable req
        → HasRoom s (weight req)
        → Agrees req s
    unfolding execute
    execute-engine (get_req key) {s} v h room = record {
      response = rw (get-values v key) refl;
      view = refl;
      valid = v;
      moves = record { file = omega arith; offset = omega arith; below = λ h. h };
    }
    execute-engine (set_req key value) {s} v h room =
        let went = set-ok calm key value s in
        let (valid, answers, moves) = set_goes v key value h room went in
        record {
          response = rw went refl;
          view = values-update s _ key (some value) answers;
          valid = valid;
          moves = moves;
        }
    execute-engine (rm_req key) {s} v h room = elim (Option-cases (lookup s.index key)) [
      | inl missing ↦
          let none_there = get_loop_missing s 0 0 key missing in
          let same = reference-missing key (values s) (rw none_there refl) in
          let fails = remove_missing v key none_there in
          record {
            response = rw fails (sym (ap (λ (r : Response × Values). r.0) same));
            view = rw fails (sym (ap (λ (r : Response × Values). r.1) same));
            valid = rw fails v;
            moves = rw fails (record { file = omega arith; offset = omega arith; below = λ h. h });
          }
      | inr (e, found) ↦
          let went = remove-ok calm key e s found in
          let (value, holds) = v.entries key e found in
          let there = get_loop-Holds s 0 0 key value e found holds in
          let same = reference-there key value (values s) (rw there refl) in
          let (valid, answers, moves) = removed v key h room e found went in
          record {
            response = rw went (sym (ap (λ (r : Response × Values). r.0) same));
            view =
                values-update s _ key none answers ∙ sym (ap (λ (r : Response × Values). r.1) same);
            valid = valid;
            moves = moves;
          }
    ]

    -- Requests to the engine, one after another, where the system does not fail, the records fit the
    -- format and the counters do not wrap: they are answered as by the map from keys to values that the
    -- valid state stands for, and leave a valid state, which stands for the map that is left.
    pub executed-engine :
        (reqs : List Request) {s : Shared}
        → IsValid s
        → All IsLoggable reqs
        → s.writer.current_file_id + length reqs < 2 ^ 64
        → s.writer.offset + weights reqs < 2 ^ 64
        → ((executed (engine spin) reqs s).0 ≡ (executed reference reqs (values s)).0)
          × (values (executed (engine spin) reqs s).1 ≡ (executed reference reqs (values s)).1)
          × IsValid (executed (engine spin) reqs s).1
    executed-engine [] v h ids offsets = (refl, refl, v)
    executed-engine (req ∷ reqs) {s} v h ids offsets =
        let a = execute-engine req v h.0 (record { id = omega arith; offset = omega arith }) in
        let (responses, view, valid) =
          executed-engine reqs a.valid h.1 (omega (arith, a.moves.file))
            (omega (arith, a.moves.offset)) in
        (rw (a.response, responses, a.view) refl, rw (view, a.view) refl, valid)

    -- Requests under the same conditions, to a store whose active file is below its size threshold: it
    -- is below it again behind them, and no more files were started than there were requests.
    pub executed-engine_bounds :
        (reqs : List Request) {s : Shared}
        → IsValid s
        → All IsLoggable reqs
        → s.writer.current_file_id + length reqs < 2 ^ 64
        → s.writer.offset + weights reqs < 2 ^ 64
        → HasSpace s
        → HasSpace (executed (engine spin) reqs s).1
          × ((executed (engine spin) reqs s).1.writer.current_file_id
              ≤ s.writer.current_file_id + length reqs)
    executed-engine_bounds [] v h ids offsets space = (space, omega arith)
    executed-engine_bounds (req ∷ reqs) {s} v h ids offsets space =
        let a = execute-engine req v h.0 (record { id = omega arith; offset = omega arith }) in
        let (below, files) =
          executed-engine_bounds reqs a.valid h.1 (omega (arith, a.moves.file))
            (omega (arith, a.moves.offset)) (a.moves.below space) in
        (below, omega (arith, files, a.moves.file))
