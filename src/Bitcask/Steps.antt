-- ===== src/Bitcask/Steps.antt =====
-- Each step of the writer keeps what readers can reach, and the structure of the state.
use bitcask.Prelude.{ℕ, subst, ◌<◌, ◌≡◌, refl, ◌∙◌, some, false, arith, ◌==◌}
use bitcask.Prelude.Map
use bitcask.Prelude.Map.{id_key}
use bitcask.Crc32.{Crc32}
use bitcask.Files.{sync_all}
use bitcask.Files.Names.{file_name_key, name_eq}
use bitcask.Index.{lookup}
use bitcask.Bitcask.State.{Shared}
use bitcask.Bitcask.Readers.{get-insert}
use bitcask.Bitcask.Outcome.{synced, rotated}
use bitcask.Bitcask.Invariant.{IsOpen, IsValid, Keeps}

module _ {s : Shared} (o : IsOpen s) where
  pub synced-IsOpen : IsOpen (synced s)
  unfolding sync_all
  synced-IsOpen = record {
    active = o.active;
    at_end = o.at_end;
    ids = o.ids;
    inodes = o.inodes;
    names = o.names;
  }

  pub rotated-IsOpen : (id now : ℕ) → s.writer.current_file_id < id → IsOpen (rotated id now s)
  rotated-IsOpen id now above = record {
    active = rw get-insert (ground arith);
    at_end = ground arith;
    ids = λ i inode h. ground (arith, get-insert s.readers id i s.files.next_inode, o.ids i inode);
    inodes =
        λ i inode h. ground (arith, get-insert s.readers id i s.files.next_inode, o.inodes i inode);
    names = λ i h. rw Map.get-insert (unfold name_eq in ground (arith, o.names i));
  }

module _ ⦃crc32 : Crc32⦄ {s : Shared} where
  pub synced-Keeps : Keeps s (synced s)
  unfolding sync_all
  synced-Keeps = record {
    index = refl;
    data_kept = λ e key value h. record {
      inode = h.inode;
      opened = h.opened;
      inside = h.inside;
      bytes = h.bytes;
      fits = h.fits;
      text = h.text;
    };
  }

  pub rotated-Keeps :
      IsOpen s → (id now : ℕ) → s.writer.current_file_id < id → Keeps s (rotated id now s)
  rotated-Keeps o id now above = record {
    index = refl;
    data_kept = λ e key value h.
        let other_file : (s.files.next_inode == h.inode) ≡ false =
          ground (arith, o.inodes e.file_id h.inode h.opened) in
        record {
          inode = h.inode;
          opened = ground (
            arith,
            get-insert s.readers id e.file_id s.files.next_inode,
            h.opened,
            o.ids e.file_id h.inode h.opened,
          );
          inside = rw other_file h.inside;
          bytes = rw other_file h.bytes;
          fits = h.fits;
          text = h.text;
        };
  }

  pub Keeps-trans : {t u : Shared} → Keeps s t → Keeps t u → Keeps s u
  Keeps-trans a b = record {
    index = b.index ∙ a.index;
    data_kept = λ e key value h. b.data_kept e key value (a.data_kept e key value h);
  }

  pub Keeps-IsValid : {t : Shared} → Keeps s t → IsOpen t → IsValid s → IsValid t
  Keeps-IsValid {t} k o v = record {
    structure = o;
    entries = λ key e found.
        let found_before : lookup s.index key ≡ some e =
          subst (λ i. lookup i key ≡ some e) k.index found in
        let (value, h) = v.entries key e found_before in (value, k.data_kept e key value h);
  }
