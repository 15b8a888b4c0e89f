-- ===== src/Bitcask/Open/Clean.antt =====
-- The scan of the directory at `open`: what it takes away and what it keeps.
use bitcask.Prelude.{
  ℕ, ◌^◌, ◌<◌, ◌≡◌, ◌≢◌, refl, ◌∙◌, sym, subst, none, some, false, ◌⊎◌, inl, inr, List, [], ◌∷◌,
  All, Bool-cases,
}
use bitcask.Prelude.Map
use bitcask.Prelude.Map.{Map}
use bitcask.Error.{ok}
use bitcask.Files.{Files}
use bitcask.Files.Names.{
  FileName, data_file, compact_file, hint_file, name_eq, name_eq_iff, file_name_key,
}
use bitcask.Files.Text.{name_id}
use bitcask.Bitcask.Open.{Scan, scan}
use bitcask.Bitcask.Open.Step.{
  Stepped, opened, kept, removed, scan_entry-Step, stays_gone, Passed, arrived, passed,
}

-- The rest of the listing, and the files as the scan has left them so far.
pub record Left (dir : Map FileName ℕ) (entries : List (FileName × ℕ)) (fs : Files) : Type 0 where
  pub data_kept : (id : ℕ) → Map.get fs.dir (data_file id) ≡ Map.get dir (data_file id)
  pub present :
      (name : FileName) (inode : ℕ)
      → Map.get entries name ≡ some inode
      → Map.get fs.dir name ≡ some inode
  pub compact_gone :
      (id : ℕ) → Map.get entries (compact_file id) ≡ none → Map.get fs.dir (compact_file id) ≡ none
  pub hint_led :
      (id : ℕ)
      → Map.get entries (hint_file id) ≡ none
      → (Map.get fs.dir (hint_file id) ≡ none)
        ⊎ ((inode : ℕ) × (Map.get dir (data_file id) ≡ some inode))

-- Other names are as they were.
stays :
    {name : FileName} {fs files : Files}
    → Stepped name fs files
    → (j : FileName) → name_eq name j ≡ false
    → Map.get files.dir j ≡ Map.get fs.dir j
stays (opened id e) j apart = refl
stays (kept id inode e led) j apart = refl
stays {name} {fs} (removed no_data led) j apart = rw (Map.get-remove, apart) refl

apart_lem : (name j : FileName) → name ≢ j → name_eq name j ≡ false
apart_lem name j apart = elim (Bool-cases (name_eq name j)) [
  | inl same ↦ absurd (apart ((name_eq_iff name j).0 same))
  | inr differs ↦ differs
]

pub Stepped-data :
    {name : FileName} {fs files : Files}
    → Stepped name fs files
    → (id : ℕ) → Map.get files.dir (data_file id) ≡ Map.get fs.dir (data_file id)
Stepped-data (opened id e) j = refl
Stepped-data (kept id inode e led) j = refl
Stepped-data {name} {fs} (removed no_data led) j =
    rw (Map.get-remove, apart_lem name (data_file j) (no_data j)) refl

Stepped-compact :
    (id : ℕ) {fs files : Files}
    → Stepped (compact_file id) fs files
    → Map.get files.dir (compact_file id) ≡ none
Stepped-compact id (opened j e) = absurd (cc e)
Stepped-compact id (kept j inode e led) = absurd (cc e)
Stepped-compact id {fs} (removed no_data led) =
    rw (Map.get-remove, (name_eq_iff (compact_file id) (compact_file id)).1 refl) refl

Stepped-hint :
    (id : ℕ) {fs files : Files}
    → Stepped (hint_file id) fs files
    → (Map.get files.dir (hint_file id) ≡ none)
      ⊎ ((inode : ℕ) × (Map.get fs.dir (data_file id) ≡ some inode))
Stepped-hint id (opened j e) = absurd (cc e)
Stepped-hint id (kept j inode e led) = let same : id ≡ j = cc e in inr (inode, rw same led)
Stepped-hint id {fs} (removed no_data led) =
    inl (rw (Map.get-remove, (name_eq_iff (hint_file id) (hint_file id)).1 refl) refl)

-- No name stands twice in a listing.
abbrev pub Unique : List (FileName × ℕ) → Type 0
Unique [] = Unit
Unique ((name, inode) ∷ entries) = (Map.get entries name ≡ none) × Unique entries

Left-step :
    {dir : Map FileName ℕ} {name : FileName} {inode : ℕ} {entries : List (FileName × ℕ)}
    {fs files : Files}
    → Left dir ((name, inode) ∷ entries) fs
    → Map.get entries name ≡ none
    → Stepped name fs files
    → Left dir entries files
unfolding Map.get
Left-step {dir} {name} {inode} {entries} {fs} {files} l unique step = record {
  data_kept = λ id. Stepped-data step id ∙ l.data_kept id;
  present = λ j f listed. elim (Bool-cases (name_eq name j)) [
    | inl same ↦ let e = (name_eq_iff name j).0 same in absurd (cc (rw e at unique, listed))
    | inr apart ↦ stays step j apart ∙ l.present j f (rw apart listed)
  ];
  compact_gone = λ id gone. elim (Bool-cases (name_eq name (compact_file id))) [
    | inl same ↦
        let e = (name_eq_iff name (compact_file id)).0 same in
        Stepped-compact id (subst (λ n. Stepped n fs files) e step)
    | inr apart ↦ stays_gone step (compact_file id) (l.compact_gone id (rw apart gone))
  ];
  hint_led = λ id gone. elim (Bool-cases (name_eq name (hint_file id))) [
    | inl same ↦
        let e = (name_eq_iff name (hint_file id)).0 same in
        elim (Stepped-hint id (subst (λ n. Stepped n fs files) e step)) [
          | inl away ↦ inl away
          | inr (f, led) ↦ inr (f, sym (l.data_kept id) ∙ led)
        ]
    | inr apart ↦ elim (l.hint_led id (rw apart gone)) [
      | inl away ↦ inl (stays_gone step (hint_file id) away)
      | inr led ↦ inr led
    ]
  ];
}

pub scan-Left :
    (dir : Map FileName ℕ) (entries : List (FileName × ℕ)) (sc : Scan)
    → All (λ entry. name_id entry.0 < 2 ^ 64) entries
    → Unique entries
    → Left dir entries sc.files
    → (done : Scan) × (scan entries sc ≡ ok done) × Left dir [] done.files × Passed entries sc done
unfolding scan Map.get
scan-Left dir [] sc room unique l = (sc, refl, l, arrived sc)
scan-Left dir ((name, inode) ∷ entries) sc room unique l =
    let st =
      scan_entry-Step name sc inode room.0
        (l.present name inode (rw ((name_eq_iff name name).1 refl) refl)) in
    let (done, goes, left, way) =
      scan-Left dir entries st.next room.1 unique.1 (Left-step l unique.0 st.stepped) in
    (done, rw (scan, st.goes) goes, left, passed name inode entries sc done st way)

abbrev pub scan_start : Files → Scan
scan_start files = record { read_handlers = []; max_id = none; files = files }

pub Left-start : (files : Files) → Left files.dir files.dir files
Left-start files = record {
  data_kept = λ id. refl;
  present = λ name inode h. h;
  compact_gone = λ id gone. gone;
  hint_led = λ id gone. inl gone;
}

-- The scan of a directory in which no name stands twice and the ids fit in a u64 goes through. Behind
-- it every data file has its name, no output of a compaction that was not finished is left, and a hint
-- file that is left has its data file.
pub scan-cleans :
    (files : Files)
    → All (λ entry. name_id entry.0 < 2 ^ 64) files.dir
    → Unique files.dir
    → (done : Scan) × (scan files.dir (record { read_handlers = []; max_id = none; files = files })
        ≡ ok done)
      × ((id : ℕ)
          → (Map.get done.files.dir (data_file id) ≡ Map.get files.dir (data_file id))
            × (Map.get done.files.dir (compact_file id) ≡ none)
            × ((Map.get done.files.dir (hint_file id) ≡ none)
                ⊎ ((inode : ℕ) × (Map.get done.files.dir (data_file id) ≡ some inode))))
unfolding Map.get
scan-cleans files room unique =
    let (done, goes, left, way) =
      scan-Left files.dir files.dir (scan_start files) room unique (Left-start files) in
    (
      done,
      goes,
      λ id. (
        left.data_kept id,
        left.compact_gone id refl,
        elim (left.hint_led id refl) [
          | inl away ↦ inl away
          | inr (f, led) ↦ inr (f, left.data_kept id ∙ led)
        ],
      ),
    )
