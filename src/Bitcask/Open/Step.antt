-- ===== src/Bitcask/Open/Step.antt =====
-- One entry of the directory at `open`: what is done with it.
use bitcask.Prelude.{
  ℕ, ◌^◌, ◌<◌, ◌≡◌, ◌≢◌, refl, ap, none, some, inl, inr, List, [], ◌∷◌, arith, Option-cases,
}
use bitcask.Prelude.Map
use bitcask.Prelude.Map.{Map}
use bitcask.Error.{ok}
use bitcask.Files.{Files, open_read, remove_file, exists}
use bitcask.Files.Names.{FileName, data_file, compact_file, hint_file, file_name_key}
use bitcask.Files.Text.{file_text, hint_id, name_id, kind-file_text}
use bitcask.Bitcask.State.{insert}
use bitcask.Bitcask.Open.{Scan, scan_hint, max_or, scan_entry}

-- What one entry does to the files.
pub data Stepped (name : FileName) (fs : Files) : Files → Type 0 where
  opened : (id : ℕ) → name ≡ data_file id → Stepped name fs fs
  kept :
      (id inode : ℕ)
      → name ≡ hint_file id
      → Map.get fs.dir (data_file id) ≡ some inode
      → Stepped name fs fs
  removed :
      ((id : ℕ) → name ≢ data_file id)
      → ((id : ℕ) → name ≡ hint_file id → Map.get fs.dir (data_file id) ≡ none)
      → Stepped name fs (record fs { dir = Map.remove fs.dir name })

-- What it does to the handlers.
pub data Handled (name : FileName) (inode : ℕ) (sc next : Scan) : Type 0 where
  as_data :
      (id : ℕ)
      → name ≡ data_file id
      → next.read_handlers ≡ insert sc.read_handlers id inode
      → next.max_id ≡ some (max_or id sc.max_id)
      → Handled name inode sc next
  as_other :
      ((id : ℕ) → name ≢ data_file id)
      → next.read_handlers ≡ sc.read_handlers
      → next.max_id ≡ sc.max_id
      → Handled name inode sc next

pub record Step (name : FileName) (inode : ℕ) (sc : Scan) : Type 0 where
  pub next : Scan
  pub goes : scan_entry name sc ≡ ok next
  pub stepped : Stepped name sc.files next.files
  pub handled : Handled name inode sc next

pub scan_entry-Step :
    (name : FileName) (sc : Scan) (inode : ℕ)
    → name_id name < 2 ^ 64
    → Map.get sc.files.dir name ≡ some inode
    → Step name inode sc
unfolding scan_entry open_read remove_file
scan_entry-Step (data_file id) sc inode room there =
    let kind = kind-file_text (data_file id) room in
    record {
      next = record sc {
        read_handlers = insert sc.read_handlers id inode;
        max_id = some (max_or id sc.max_id);
      };
      goes = rw (scan_entry, ap (λ k. k.0) kind, open_read, there) refl;
      stepped = opened id refl;
      handled = as_data id refl refl refl;
    }
scan_entry-Step (compact_file id) sc inode room there =
    let kind = kind-file_text (compact_file id) room in
    record {
      next = record sc {
        files = record sc.files { dir = Map.remove sc.files.dir (compact_file id) };
      };
      goes = rw (scan_entry, ap (λ k. k.0) kind, ap (λ k. k.1) kind, remove_file, there) refl;
      stepped = removed (λ j e. cc e) (λ j e. cc e);
      handled = as_other (λ j e. cc e) refl refl;
    }
scan_entry-Step (hint_file id) sc inode room there =
    let kind = kind-file_text (hint_file id) room in
    let its_id : hint_id (file_text (hint_file id)) ≡ some id = ap (λ k. k.2) kind in
    elim (Option-cases (Map.get sc.files.dir (data_file id))) [
      | inl gone ↦ record {
        next = record sc {
          files = record sc.files { dir = Map.remove sc.files.dir (hint_file id) };
        };
        goes =
            rw
              (
                scan_entry,
                ap (λ k. k.0) kind,
                ap (λ k. k.1) kind,
                its_id,
                scan_hint,
                exists,
                gone,
                remove_file,
                there,
              )
              refl;
        stepped = removed (λ j e. cc e) (λ j e. let same : id ≡ j = cc e in rw same at gone);
        handled = as_other (λ j e. cc e) refl refl;
      }
      | inr (f, led) ↦ record {
        next = sc;
        goes =
            rw (scan_entry, ap (λ k. k.0) kind, ap (λ k. k.1) kind, its_id, scan_hint, exists, led)
              refl;
        stepped = kept id f refl led;
        handled = as_other (λ j e. cc e) refl refl;
      }
    ]

-- A name that is gone stays gone.
pub stays_gone :
    {name : FileName} {fs files : Files}
    → Stepped name fs files
    → (j : FileName) → Map.get fs.dir j ≡ none
    → Map.get files.dir j ≡ none
stays_gone (opened id e) j gone = gone
stays_gone (kept id inode e led) j gone = gone
stays_gone {name} {fs} (removed apart led) j gone = rw Map.get-remove (ground (arith, gone))

-- The listing gone through, entry by entry.
pub data Passed : List (FileName × ℕ) → Scan → Scan → Type 0 where
  arrived : (sc : Scan) → Passed [] sc sc
  passed :
      (name : FileName) (inode : ℕ) (entries : List (FileName × ℕ)) (sc done : Scan)
      (st : Step name inode sc)
      → Passed entries st.next done
      → Passed ((name, inode) ∷ entries) sc done
