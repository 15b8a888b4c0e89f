-- ===== src/LockFile/Owner.antt =====
-- A directory belongs to the engine that opened it first, and to one handle at a time.
use bitcask.Prelude.{
  ◌≡◌, refl, ◌∙◌, some, true, false, inl, inr, [], ◌∷◌, ◌++◌, if◌then◌else◌, Bool-cases,
  Option-cases,
}
use bitcask.Prelude.Bytes.{Bytes, bytes_eq, bytes_eq_iff}
use bitcask.Error.{Result, ok, err, store_locked, engine_mismatch}
use bitcask.KvStore.{StoreType, bitcask_type, sled_type, as_str}
use bitcask.Utf8.{is_utf8, is_utf8-append}
use bitcask.Whitespace.{white_len, trim, trim_start, trim_end, all_white}
use bitcask.Whitespace.Trim.{trim-append}
use bitcask.LockFile.{
  Lock, Faults, no_faults, contents, release, stamp, check_marker, read_marker, lock_and_check,
  acquire,
}

-- The lock is held, and the file says which engine it is.
record Owned (engine : StoreType) (l : Lock) : Type 0 where
  held : l.held ≡ true
  bytes : Bytes
  marker : l.marker ≡ some bytes
  text : is_utf8 bytes ≡ true
  engine_name : trim bytes ≡ as_str engine

as_str-text :
    (engine : StoreType) → (is_utf8 (as_str engine) ≡ true) × (trim (as_str engine) ≡ as_str engine)
unfolding is_utf8 white_len trim_start trim_end all_white
as_str-text bitcask_type = (refl, refl)
as_str-text sled_type = (refl, refl)

stamp-Owned :
    (faults : Faults) (engine : StoreType) (l : Lock)
    → l.held ≡ true
    → is_utf8 (contents l) ≡ true
    → trim (contents l) ≡ []
    → (stamp faults engine l).0 ≡ ok tt
    → Owned engine (stamp faults engine l).1
unfolding stamp
stamp-Owned faults engine l held text blank e = elim (Option-cases faults.writing) [
  | inr (k, fault) ↦ absurd (cc (rw (stamp, fault) at e))
  | inl calm ↦ elim (Option-cases faults.syncing) [
    | inr (k, fault) ↦ absurd (cc (rw (stamp, calm, fault) at e))
    | inl synced ↦
        let (name_text, name_trim) = as_str-text engine in
        rw (stamp, calm, synced)
          (record {
            held = held;
            bytes = contents l ++ as_str engine;
            marker = refl;
            text = is_utf8-append (contents l) (as_str engine) text ∙ name_text;
            engine_name = trim-append (contents l) (as_str engine) blank ∙ name_trim;
          })
  ]
]

check_marker-Owned :
    (faults : Faults) (engine : StoreType) (marker : Bytes) (l : Lock)
    → l.held ≡ true
    → is_utf8 (contents l) ≡ true
    → l.marker ≡ some (contents l)
    → trim (contents l) ≡ marker
    → (check_marker faults engine marker l).0 ≡ ok tt
    → Owned engine (check_marker faults engine marker l).1
unfolding check_marker
check_marker-Owned faults engine [] l held text there same e =
    stamp-Owned faults engine l held text same e
check_marker-Owned faults engine (b ∷ marker) l held text there same e =
    elim (Bool-cases (bytes_eq (b ∷ marker) (as_str engine))) [
      | inl equal ↦
          rw (check_marker, equal)
            (record {
              held = held;
              bytes = contents l;
              marker = there;
              text = text;
              engine_name = same ∙ (bytes_eq_iff (b ∷ marker) (as_str engine)).0 equal;
            })
      | inr apart ↦ absurd (cc (rw (check_marker, apart) at e))
    ]

read_marker-Owned :
    (faults : Faults) (engine : StoreType) (l : Lock)
    → l.held ≡ true
    → l.marker ≡ some (contents l)
    → (read_marker faults engine l).0 ≡ ok tt
    → Owned engine (read_marker faults engine l).1
unfolding read_marker check_marker stamp
read_marker-Owned faults engine l held there e = elim (Option-cases faults.reading) [
  | inr (k, fault) ↦ absurd (cc (rw (read_marker, fault) at e))
  | inl calm ↦ elim (Bool-cases (is_utf8 (contents l))) [
    | inl text ↦
        rw (read_marker, calm, text)
          (check_marker-Owned faults engine (trim (contents l)) l held text there refl
            (rw (read_marker, calm, text) at e))
    | inr garbage ↦ absurd (cc (rw (read_marker, calm, garbage) at e))
  ]
]

acquire-Owned :
    (faults : Faults) (engine : StoreType) (l : Lock)
    → (acquire faults engine l).0 ≡ ok tt
    → Owned engine (acquire faults engine l).1
unfolding acquire lock_and_check
acquire-Owned faults engine l e = elim (Option-cases faults.opening) [
  | inr (k, fault) ↦ absurd (cc (rw (acquire, fault) at e))
  | inl there ↦ elim (Option-cases faults.locking) [
    | inr (k, fault) ↦ absurd (cc (rw (acquire, there, lock_and_check, fault) at e))
    | inl calm ↦ elim (Bool-cases l.held) [
      | inl taken ↦ absurd (cc (rw (acquire, there, lock_and_check, calm, taken) at e))
      | inr free ↦
          rw (acquire, there, lock_and_check, calm, free)
            (read_marker-Owned faults engine (record { marker = some (contents l); held = true })
              refl refl (rw (acquire, there, lock_and_check, calm, free) at e))
    ]
  ]
]

-- What an `acquire` with no failing call says of a directory that was closed.
abbrev pub reopened : StoreType → StoreType → Lock → Result (Unit {0}) × Lock
reopened owner engine l =
    if bytes_eq (as_str owner) (as_str engine)
    then (ok tt, record l { held = true })
    else (err (engine_mismatch (as_str owner) (as_str engine)), l)

Owned-lock :
    {owner : StoreType} {l : Lock} (o : Owned owner l)
    → l ≡ record { marker = some o.bytes; held = true }
Owned-lock {owner} {l} o = cc (o.marker, o.held)

held_by_other :
    (engine : StoreType) (bytes : Bytes)
    → acquire no_faults engine (record { marker = some bytes; held = true })
      ≡ (err store_locked, record { marker = some bytes; held = true })
unfolding acquire lock_and_check
held_by_other engine bytes = refl

reopened_by :
    (owner engine : StoreType) (bytes : Bytes)
    → is_utf8 bytes ≡ true
    → trim bytes ≡ as_str owner
    → acquire no_faults engine (record { marker = some bytes; held = false })
      ≡ reopened owner engine (record { marker = some bytes; held = false })
unfolding acquire lock_and_check read_marker check_marker bytes_eq
reopened_by bitcask_type bitcask_type bytes text name =
    rw (acquire, lock_and_check, read_marker, text, name) refl
reopened_by bitcask_type sled_type bytes text name =
    rw (acquire, lock_and_check, read_marker, text, name) refl
reopened_by sled_type bitcask_type bytes text name =
    rw (acquire, lock_and_check, read_marker, text, name) refl
reopened_by sled_type sled_type bytes text name =
    rw (acquire, lock_and_check, read_marker, text, name) refl

-- An engine that got a directory, whichever marker was there: while it has it open no engine gets it,
-- and when it is closed again, that engine gets it and the other is refused with both names. Neither
-- refusal changes the directory. The later calls of the system do not fail.
pub acquire-owns :
    (faults : Faults) (owner : StoreType) (l : Lock)
    → (acquire faults owner l).0 ≡ ok tt
    → (engine : StoreType)
    → (acquire no_faults engine (acquire faults owner l).1
        ≡ (err store_locked, (acquire faults owner l).1))
      × (acquire no_faults engine (release (acquire faults owner l).1)
          ≡ reopened owner engine (release (acquire faults owner l).1))
acquire-owns faults owner l e engine =
    let o = acquire-Owned faults owner l e in
    rw (Owned-lock o)
      (held_by_other engine o.bytes, reopened_by owner engine o.bytes o.text o.engine_name)
