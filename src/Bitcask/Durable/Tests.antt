-- ===== src/Bitcask/Durable/Tests.antt =====
-- A new store, after some requests and a crash.
use bitcask.Prelude.{ℕ, ◌<◌, ◌≡◌, refl, some, List, [], ◌∷◌, All, arith, length}
use bitcask.Prelude.Map
use bitcask.Prelude.Map.{id_key}
use bitcask.Error.{ok, err, lock_poisoned}
use bitcask.Utf8.{is_utf8}
use bitcask.Wire.{to_le_bytes}
use bitcask.Config
use bitcask.KvStore.Reference.{reference}
use bitcask.Command.{Command, serialize, encoded_body_len}
use bitcask.Command.RoundTrip.{Fits}
use bitcask.Files.Names.{name_eq, file_name_key}
use bitcask.Index
use bitcask.Network.Protocol.{Request, set_req, rm_req}
use bitcask.Server.Answers.{executed}
use bitcask.Bitcask.State.{Shared}
use bitcask.Bitcask.Invariant.{IsValid}
use bitcask.Bitcask.Read.{get_loop}
use bitcask.Bitcask.Tests.{crc, calm, calm-IsCalm, k1, v1, start, start-IsValid}
use bitcask.Bitcask.Engine.{engine, values}
use bitcask.Bitcask.Engine.Refines.{IsLoggable}
use bitcask.Bitcask.Open.{open_bitcask}
use bitcask.Bitcask.Durable.Stored.{Stored}
use bitcask.Bitcask.Durable.Reopen.{torn, open_bitcask-executed}

abbrev no_logs : ℕ → List Command
no_logs id = []

start-Stored : Stored start
unfolding Map.get name_eq Index.lookup get_loop
start-Stored = record {
  logs = no_logs;
  sealed = [];
  disk = record {
    readers = refl;
    placed = record {
      ascending = (tt, tt);
      own = λ i j f a b. ground (arith, a, b);
      inodes = λ i f h. ground (arith, h);
      names = λ i. refl;
      logged = λ i h. refl;
      storable = λ i. tt;
    };
    room = (omega arith, tt);
    unique = (refl, tt);
    no_hints = λ i. refl;
    closed = tt;
    bytes = refl;
  };
  shows = refl;
}

-- Each set fills a file; the last one is cut after eleven bytes.
abbrev requests : List Request
requests = set_req k1 v1 ∷ set_req v1 k1 ∷ rm_req k1 ∷ []

requests-All : All IsLoggable requests
unfolding is_utf8
requests-All = (
  record { body = omega arith; text = refl },
  (record { body = omega arith; text = refl }, (omega arith, tt)),
)

abbrev last_set : Command
last_set = Command.set 9 k1 k1

last_set-Fits : Fits last_set
unfolding encoded_body_len
last_set-Fits = record { ts = omega arith; body = omega arith }

last_set-cut : 11 < length (serialize last_set)
unfolding serialize to_le_bytes
last_set-cut = omega arith

open_bitcask-executed_example :
    (t : Shared) × (open_bitcask Config.new 7
        (torn last_set 11 (executed (engine (err lock_poisoned)) requests start).1)
      ≡ some (ok t))
    × IsValid t
    × (values t ≡ (executed reference requests (values start)).1)
open_bitcask-executed_example =
    open_bitcask-executed calm-IsCalm (err lock_poisoned) requests start-IsValid start-Stored
      requests-All (omega arith) last_set 11 last_set-Fits last_set-cut (omega arith) Config.new 7
