-- ===== src/Client/Tests.antt =====
-- A command that is typed, and run by a client of a server on a map in memory.
use bitcask.Prelude.{◌≡◌, refl, some, false, Bool, [], ◌∷◌, ◌++◌, arith}
use bitcask.Prelude.Bytes.{Bytes, codes, bytes_eq}
use bitcask.Prelude.Map
use bitcask.Prelude.Map.{Map, bytes_key}
use bitcask.Error.{KvsError, ok}
use bitcask.KvStore.{KvStore}
use bitcask.Network.Protocol.{Response, execute}
use bitcask.Network.Protocol.RoundTrip.{get_text, found_answer}
use bitcask.Utf8.{is_utf8}
use bitcask.Whitespace.{white_len}
use bitcask.Server.{handle}
use bitcask.Repl.{set_command, get_command, parse_command, run_command}
use bitcask.Repl.RoundTrip.{word, set_words, command_line, parse_command-command_line}
use bitcask.Client.{run_remote}
use bitcask.Client.Remote.{stream_of, get_went, run_remote-run_command}

abbrev in_memory : KvStore (Map Bytes Bytes)
in_memory = record {
  set = λ key value m. (ok tt, Map.insert m key value);
  remove = λ key m. (ok tt, Map.remove m key);
  get = λ key m. (ok (Map.get m key), m);
}

abbrev key : Bytes
key = codes "key"

abbrev value : Bytes
value = codes "value"

abbrev one_key : Map Bytes Bytes
one_key = (key, value) ∷ []

abbrev same : Bytes → Bytes
same b = b

abbrev message : KvsError → Bytes
message e = codes "error"

abbrev debug : Response → Bytes
debug r = codes "response"

abbrev never : Bytes → Bool
never b = false

parse_command-command_line_example :
    parse_command (command_line (set_command key value)) ≡ some (set_command key value)
unfolding white_len
parse_command-command_line_example = parse_command-command_line (set_command key value) (
    set_words key value (word 107 (101 ∷ 121 ∷ []) refl)
      (word 118 (97 ∷ 108 ∷ 117 ∷ 101 ∷ []) refl))

run_remote-run_command_example :
    (wire : Bytes) × (answer : Bytes) × (handle in_memory same message never wire one_key
      ≡ some (ok tt, (run_command message in_memory (get_command key) one_key).1, answer))
    × (run_remote message debug (get_command key) (stream_of (answer ++ []) [])
        ≡ ((run_command message in_memory (get_command key) one_key).0, stream_of [] ([] ++ wire)))
unfolding is_utf8 Map.get bytes_eq execute
run_remote-run_command_example =
    run_remote-run_command in_memory same message never debug (get_command key) one_key [] []
      (get_text key refl (omega arith)) (found_answer value refl (omega arith))
      (get_went key (some value) refl)
