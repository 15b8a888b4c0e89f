-- ===== src/Bitcask/Close.antt =====
-- storage/bitcask.rs: the compaction thread of `open`, one turn, and the drop of a Handle. The channel
-- of the thread holds one signal, and the drop waits for the thread, which takes a signal that is there.
mod Tests
use bitcask.Prelude.{ℕ, suc, none, length, if◌then◌else◌, Bool, true, false, ==_refl}
use bitcask.Prelude.Bytes.{Bytes}
use bitcask.Crc32.{Crc32}
use bitcask.Error.{ok}
use bitcask.Exec.{◌>>=◌, ◌>>◌, modify}
use bitcask.Files.{at}
use bitcask.Bitcask.State.{Shared, Env}
use bitcask.Bitcask.Write.{sync}
use bitcask.Bitcask.Merge.{run_compaction}

-- The state with the signal taken.
abbrev pub signal_taken : Shared → Shared
signal_taken s = record s { compaction_signal = false }

module _ ⦃crc32 : Crc32⦄ ⦃env : Env⦄ where
  -- One turn of the thread, if it is signalled; an error of the compaction is logged.
  unfoldable pub worker_turn : Shared → Shared
  worker_turn s = if s.compaction_signal then (run_compaction (signal_taken s)).1 else s

  unfoldable pub drop_handle : Shared → Shared
  drop_handle s = (sync (worker_turn s)).1
