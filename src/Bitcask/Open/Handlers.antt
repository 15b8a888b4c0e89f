-- ===== src/Bitcask/Open/Handlers.antt =====
-- The files that the scan has opened.
use bitcask.Prelude.{
  ℕ, ◌≤◌, ◌≡◌, refl, ◌∙◌, Option, none, some, true, false, List, arith, inl, inr, Bool-cases, ◌==◌,
  ==_iff, ltb,
}
use bitcask.Prelude.Map
use bitcask.Prelude.Map.{Map, id_key}
use bitcask.Files.{Files}
use bitcask.Files.Names.{FileName, data_file, hint_file, name_eq, name_eq_iff, file_name_key}
use bitcask.Bitcask.State.{insert}
use bitcask.Bitcask.Readers.{get-insert}
use bitcask.Bitcask.Readers.Order.{Ascending, Ascending-insert}
use bitcask.Bitcask.Open.{Scan, max_or}
use bitcask.Bitcask.Open.Step.{
  Stepped, opened, kept, removed, as_data, as_other, stays_gone, Passed, arrived, passed,
}
use bitcask.Bitcask.Open.Clean.{Unique, Stepped-data}

pub Passed-Ascending :
    {entries : List (FileName × ℕ)} {sc done : Scan}
    → Passed entries sc done
    → Ascending sc.read_handlers
    → Ascending done.read_handlers
Passed-Ascending (arrived sc) h = h
Passed-Ascending (passed name inode entries sc done st way) h = elim st.handled [
  | as_data id e handlers max ↦
      Passed-Ascending way (rw handlers (Ascending-insert sc.read_handlers id inode h))
  | as_other apart handlers max ↦ Passed-Ascending way (rw handlers h)
]

-- What the scan does not remove: bytes and inodes; and it adds no name.
pub record Unwritten (fs files : Files) : Type 0 where
  pub contents : files.contents ≡ fs.contents
  pub next_inode : files.next_inode ≡ fs.next_inode
  pub gone : (name : FileName) → Map.get fs.dir name ≡ none → Map.get files.dir name ≡ none

Unwritten-trans : {fs gs hs : Files} → Unwritten fs gs → Unwritten gs hs → Unwritten fs hs
Unwritten-trans a b = record {
  contents = b.contents ∙ a.contents;
  next_inode = b.next_inode ∙ a.next_inode;
  gone = λ name h. b.gone name (a.gone name h);
}

Stepped-contents :
    {name : FileName} {fs files : Files}
    → Stepped name fs files
    → (files.contents ≡ fs.contents) × (files.next_inode ≡ fs.next_inode)
Stepped-contents (opened id e) = (refl, refl)
Stepped-contents (kept id inode e led) = (refl, refl)
Stepped-contents (removed apart led) = (refl, refl)

Stepped-Unwritten :
    {name : FileName} {fs files : Files} → Stepped name fs files → Unwritten fs files
Stepped-Unwritten step = record {
  contents = (Stepped-contents step).0;
  next_inode = (Stepped-contents step).1;
  gone = stays_gone step;
}

pub Passed-Unwritten :
    {entries : List (FileName × ℕ)} {sc done : Scan}
    → Passed entries sc done
    → Unwritten sc.files done.files
Passed-Unwritten (arrived sc) = record { contents = refl; next_inode = refl; gone = λ name h. h }
Passed-Unwritten (passed name inode entries sc done st way) =
    Unwritten-trans (Stepped-Unwritten st.stepped) (Passed-Unwritten way)

Stepped-kept :
    {name : FileName} {fs files : Files}
    → Stepped name fs files
    → (id d h : ℕ) → Map.get fs.dir (data_file id) ≡ some d
    → Map.get fs.dir (hint_file id) ≡ some h
    → Map.get files.dir (hint_file id) ≡ some h
Stepped-kept (opened i e) id d h led there = there
Stepped-kept (kept i inode e l) id d h led there = there
Stepped-kept {name} {fs} (removed apart gone) id d h led there =
    rw Map.get-remove (elim (Bool-cases (name_eq name (hint_file id))) [
      | inl same ↦
          let no_data = gone id ((name_eq_iff name (hint_file id)).0 same) in
          absurd (cc (no_data, led))
      | inr differs ↦ rw differs there
    ])

-- A hint file whose data file is there stays.
pub Passed-kept :
    {entries : List (FileName × ℕ)} {sc done : Scan}
    → Passed entries sc done
    → (id d h : ℕ) → Map.get sc.files.dir (data_file id) ≡ some d
    → Map.get sc.files.dir (hint_file id) ≡ some h
    → Map.get done.files.dir (hint_file id) ≡ some h
Passed-kept (arrived sc) id d h led there = there
Passed-kept (passed name inode entries sc done st way) id d h led there =
    Passed-kept way id d h (Stepped-data st.stepped id ∙ led)
      (Stepped-kept st.stepped id d h led there)

abbrev pub or_else : Option ℕ → Option ℕ → Option ℕ
or_else none other = other
or_else (some f) other = some f

-- The data files of the listing are those that are open behind it, beside those open before.
pub Passed-get :
    {entries : List (FileName × ℕ)} {sc done : Scan}
    → Passed entries sc done
    → Unique entries
    → (id : ℕ)
    → Map.get done.read_handlers id
      ≡ or_else (Map.get entries (data_file id)) (Map.get sc.read_handlers id)
unfolding Map.get
Passed-get (arrived sc) unique id = refl
Passed-get (passed name inode entries sc done st way) unique id = elim st.handled [
  | as_data k e handlers max ↦ elim (Bool-cases (name_eq (data_file k) (data_file id))) [
    | inl same ↦
        let k_id : data_file k ≡ data_file id = (name_eq_iff _ _).0 same in
        let here : (k == id) ≡ true = (==_iff k id).1 (cc k_id) in
        let later : Map.get entries (data_file id) ≡ none = rw (e ∙ k_id) at unique.0 in
        Passed-get way unique.1 id ∙ rw (later, handlers, get-insert, here, e, same) refl
    | inr apart ↦
        let elsewhere : (k == id) ≡ false = unfold name_eq in apart in
        Passed-get way unique.1 id ∙ rw (handlers, get-insert, elsewhere, e, apart) refl
  ]
  | as_other apart handlers max ↦
      let differs : name_eq name (data_file id) ≡ false =
        elim (Bool-cases (name_eq name (data_file id))) [
          | inl same ↦ absurd (apart id ((name_eq_iff _ _).0 same))
          | inr differs ↦ differs
        ] in
      Passed-get way unique.1 id ∙ rw (differs, handlers) refl
]

-- The greatest id that is open, if any is.
abbrev pub Tops : Option ℕ → Map ℕ ℕ → Type 0
Tops none m = (id : ℕ) → Map.get m id ≡ none
Tops (some k) m = ((f : ℕ) × (Map.get m k ≡ some f)) × ((id f : ℕ) → Map.get m id ≡ some f → id ≤ k)

Tops-insert :
    (o : Option ℕ) (m : Map ℕ ℕ) (k v : ℕ) → Tops o m → Tops (some (max_or k o)) (insert m k v)
Tops-insert none m k v h =
    ((v, rw get-insert (ground arith)), λ id f e. ground (arith, e, get-insert m k id v, h id))
Tops-insert (some j) m k v h = elim (Bool-cases (ltb j k)) [
  | inl above ↦ rw above (
    (v, rw get-insert (ground arith)),
    λ id f e. ground (arith, e, get-insert m k id v, h.1 id f, above),
  )
  | inr below ↦ rw below (
    elim (Bool-cases (k == j)) [
      | inl same ↦ (v, rw (get-insert, same) refl)
      | inr apart ↦ (h.0.0, rw (get-insert, apart) h.0.1)
    ],
    λ id f e. ground (arith, e, get-insert m k id v, h.1 id f, below),
  )
]

pub Passed-Tops :
    {entries : List (FileName × ℕ)} {sc done : Scan}
    → Passed entries sc done
    → Tops sc.max_id sc.read_handlers
    → Tops done.max_id done.read_handlers
Passed-Tops (arrived sc) h = h
Passed-Tops (passed name inode entries sc done st way) h = elim st.handled [
  | as_data id e handlers max ↦
      Passed-Tops way (rw (handlers, max) (Tops-insert sc.max_id sc.read_handlers id inode h))
  | as_other apart handlers max ↦ Passed-Tops way (rw (handlers, max) h)
]
