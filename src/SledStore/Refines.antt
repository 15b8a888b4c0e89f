-- ===== src/SledStore/Refines.antt =====
-- The store on sled answers as a map from keys to values, where sled is one and does not fail.
use bitcask.Prelude.{
  ◌≡◌, refl, ◌∙◌, sym, none, some, true, List, [], ◌∷◌, All, fun_ext, Bool-cases, inl, inr,
  Option-cases,
}
use bitcask.Prelude.Bytes.{Bytes, bytes_eq, bytes_eq_iff}
use bitcask.Error.{ok, err, key_not_found}
use bitcask.KvStore.Reference.{Values, update, reference}
use bitcask.Utf8.{is_utf8}
use bitcask.Network.Protocol.{Request, get_req, set_req, rm_req, execute}
use bitcask.Server.Answers.{executed}
use bitcask.SledStore.{
  SledDb, SledResult, sled_ok, SledStore, set_sled, remove_sled, get_sled, sled_store,
  flush_if_synced,
}

-- A call that goes through with this value, and leaves these values.
pub record Does {D A : Type 0} (view : D → Values) (r : SledResult A × D) (a : A) (m : Values)
    : Type 0 where
  pub result : r.0 ≡ sled_ok a
  pub values : view r.1 ≡ m

-- What sled's documentation promises of its calls, where none of them fails.
pub record IsMap {D : Type 0} (sled : SledDb D) (view : D → Values) : Type 0 where
  pub insert_does :
      (key value : Bytes) (d : D)
      → Does view (sled.insert key value d) (view d key) (update key (some value) (view d))
  pub remove_does :
      (key : Bytes) (d : D) → Does view (sled.remove key d) (view d key) (update key none (view d))
  pub get_does : (key : Bytes) (d : D) → Does view (sled.get key d) (view d key) (view d)
  pub flush_does : (d : D) → Does view (sled.flush d) tt (view d)

-- The values of a map are texts.
abbrev pub AllText : Values → Type 0
AllText m = (key value : Bytes) → m key ≡ some value → is_utf8 value ≡ true

-- A request to set gives a text.
abbrev pub HasText : Request → Type 0
HasText (get_req key) = Unit
HasText (set_req key value) = is_utf8 value ≡ true
HasText (rm_req key) = Unit

AllText-update :
    (key value : Bytes) (m : Values)
    → is_utf8 value ≡ true
    → AllText m
    → AllText (update key (some value) m)
AllText-update key value m t h j v e = elim (Bool-cases (bytes_eq key j)) [
  | inl same ↦ let is_v : value ≡ v = cc (rw same at e) in rw (← is_v) t
  | inr apart ↦ h j v (rw apart at e)
]

AllText-remove : (key : Bytes) (m : Values) → AllText m → AllText (update key none m)
AllText-remove key m h j v e = elim (Bool-cases (bytes_eq key j)) [
  | inl same ↦ absurd (cc (rw same at e))
  | inr apart ↦ h j v (rw apart at e)
]

module _ {D : Type 0} (sled : SledDb D) (view : D → Values) (laws : IsMap sled view) where
  -- A flush, if there is one, changes no value.
  flushed :
      (s : SledStore D)
      → ((flush_if_synced sled s).0 ≡ ok tt) × (view (flush_if_synced sled s).1.db ≡ view s.db)
  flushed s = elim (Bool-cases s.sync_every_put) [
    | inl synced ↦ let f = laws.flush_does s.db in (rw (synced, f.result) refl, rw synced f.values)
    | inr lazy ↦ (rw lazy refl, rw lazy refl)
  ]

  set_sled-does :
      (key value : Bytes) (s : SledStore D)
      → ((set_sled sled key value s).0 ≡ ok tt)
        × (view (set_sled sled key value s).1.db ≡ update key (some value) (view s.db))
  unfolding set_sled
  set_sled-does key value s =
      let i = laws.insert_does key value s.db in
      let (went, same) = flushed (record s { db = (sled.insert key value s.db).1 }) in
      (rw (set_sled, i.result) went, rw (set_sled, i.result) (same ∙ i.values))

  remove_sled-missing :
      (key : Bytes) (s : SledStore D)
      → view s.db key ≡ none
      → ((remove_sled sled key s).0 ≡ err key_not_found)
        × (view (remove_sled sled key s).1.db ≡ view s.db)
  unfolding remove_sled
  remove_sled-missing key s gone =
      let r = laws.remove_does key s.db in
      let unchanged : update key none (view s.db) ≡ view s.db = fun_ext (λ j.
        elim (Bool-cases (bytes_eq key j)) [
          | inl same ↦ let e = (bytes_eq_iff key j).0 same in rw same (sym (rw e at gone))
          | inr apart ↦ rw apart refl
        ]) in
      (
        rw (remove_sled, r.result, gone) refl,
        rw (remove_sled, r.result, gone) (r.values ∙ unchanged),
      )

  remove_sled-there :
      (key value : Bytes) (s : SledStore D)
      → view s.db key ≡ some value
      → ((remove_sled sled key s).0 ≡ ok tt)
        × (view (remove_sled sled key s).1.db ≡ update key none (view s.db))
  unfolding remove_sled
  remove_sled-there key value s there =
      let r = laws.remove_does key s.db in
      let (went, same) = flushed (record s { db = (sled.remove key s.db).1 }) in
      (rw (remove_sled, r.result, there) went, rw (remove_sled, r.result, there) (same ∙ r.values))

  get_sled-does :
      (key : Bytes) (s : SledStore D)
      → AllText (view s.db)
      → ((get_sled sled key s).0 ≡ ok (view s.db key))
        × (view (get_sled sled key s).1.db ≡ view s.db)
  unfolding get_sled
  get_sled-does key s t =
      let g = laws.get_does key s.db in
      elim (Option-cases (view s.db key)) [
        | inl gone ↦ (rw (get_sled, g.result, gone) refl, rw (get_sled, g.result) g.values)
        | inr (value, there) ↦
            let text = t key value there in
            (rw (get_sled, g.result, there, text) refl, rw (get_sled, g.result) g.values)
      ]

  -- One request: the same response, and the same values after it.
  execute-sled :
      (req : Request) (s : SledStore D)
      → HasText req
      → AllText (view s.db)
      → ((execute (sled_store sled) req s).0 ≡ (execute reference req (view s.db)).0)
        × (view (execute (sled_store sled) req s).1.db ≡ (execute reference req (view s.db)).1)
        × AllText (execute reference req (view s.db)).1
  unfolding execute
  execute-sled (get_req key) s h t =
      let (went, same) = get_sled-does key s t in (rw went refl, same, t)
  execute-sled (set_req key value) s h t =
      let (went, same) = set_sled-does key value s in
      (rw went refl, same, AllText-update key value (view s.db) h t)
  execute-sled (rm_req key) s h t = elim (Option-cases (view s.db key)) [
    | inl gone ↦
        let (went, same) = remove_sled-missing key s gone in
        (rw (went, gone) refl, rw gone same, rw gone t)
    | inr (value, there) ↦
        let (went, same) = remove_sled-there key value s there in
        (rw (went, there) refl, rw there same, rw there (AllText-remove key (view s.db) t))
  ]

  -- Requests to a store on sled, one after another, are answered as by a map from keys to values, and
  -- leave the values of that map. Sled is such a map and does not fail, and the values that it holds
  -- and those that are set are texts.
  pub executed-sled :
      (reqs : List Request) (s : SledStore D)
      → All HasText reqs
      → AllText (view s.db)
      → ((executed (sled_store sled) reqs s).0 ≡ (executed reference reqs (view s.db)).0)
        × (view (executed (sled_store sled) reqs s).1.db ≡ (executed reference reqs (view s.db)).1)
  executed-sled [] s h t = (refl, refl)
  executed-sled (req ∷ reqs) s h t =
      let (response, values, texts) = execute-sled req s h.0 t in
      let (responses, all_values) =
        executed-sled reqs (execute (sled_store sled) req s).1 h.1 (rw values texts) in
      (rw (response, responses, values) refl, rw (all_values, values) refl)
