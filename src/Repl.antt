-- ===== src/Repl.antt =====
-- src/repl_helper.rs, and bin/kvs.rs: the commands of a terminal and the loop that runs them on a store.
-- The terminal is the results of its `readline` calls and the lines that were printed; what is logged
-- is not modelled. `to_string` is Display of an error.
pub mod RoundTrip
use bitcask.Prelude.{Option, none, some, List, [], ◌∷◌, ◌++◌, ◌||◌, if◌then◌else◌}
use bitcask.Prelude.Bytes.{Bytes, codes, bytes_eq}
use bitcask.Error.{KvsError, Result, ok, err}
use bitcask.KvStore.{KvStore}
use bitcask.Whitespace.{trim, split_whitespace}

pub data ReplCommand : Type 0 where
  set_command : (key value : Bytes) → ReplCommand
  get_command : (key : Bytes) → ReplCommand
  rm_command : (key : Bytes) → ReplCommand

-- The words behind `set`.
abbrev pub parse_set : List Bytes → Option ReplCommand
parse_set (key ∷ value ∷ parts) = some (set_command key value)
parse_set _ = none

-- The words behind `get` or `rm`.
abbrev pub parse_key : (Bytes → ReplCommand) → List Bytes → Option ReplCommand
parse_key f [] = none
parse_key f (key ∷ parts) = some (f key)

unfoldable pub parse_words : List Bytes → Option ReplCommand
parse_words [] = none
parse_words (command ∷ parts) =
    if bytes_eq command (codes "set")
    then parse_set parts
    else if bytes_eq command (codes "get")
    then parse_key get_command parts
    else if bytes_eq command (codes "rm")
    then parse_key rm_command parts
    else none

unfoldable pub parse_command : Bytes → Option ReplCommand
parse_command input = parse_words (split_whitespace input)

-- A line on stdout or on stderr.
pub data Line : Type 0 where
  stdout : Bytes → Line
  stderr : Bytes → Line

pub data Input : Type 0 where
  line : Bytes → Input
  eof : Input
  interrupted : Input
  failure : Bytes → Input

abbrev pub print_help : List Line
print_help =
    stdout (codes "Available commands:")
    ∷ stdout (codes "  set <KEY> <VALUE>  Set the value of a key")
    ∷ stdout (codes "  get <KEY>          Get the value of a key")
    ∷ stdout (codes "  rm <KEY>           Remove a key")
    ∷ stdout (codes "  help               Show this help")
    ∷ stdout (codes "  quit               Exit")
    ∷ []

-- What becomes of a line that was read.
pub data Action : Type 0 where
  skip : Action
  stop : Action
  help : Action
  command : ReplCommand → Action

abbrev of_command : Option ReplCommand → Action
of_command none = skip
of_command (some c) = command c

abbrev of_text : Bytes → Action
of_text [] = skip
of_text (b ∷ text) =
    if bytes_eq (b ∷ text) (codes "quit") || bytes_eq (b ∷ text) (codes "exit")
    then stop
    else if bytes_eq (b ∷ text) (codes "help")
    then help
    else of_command (parse_command (b ∷ text))

unfoldable pub action : Bytes → Action
action text = of_text (trim text)

-- More lines in front.
abbrev pub printing : {S : Type 0} → List Line → List Line × S → List Line × S
printing out (more, s) = (out ++ more, s)

-- The loop over what is read, by what runs a command; it ends with the input.
module _ {S : Type 0} (run : ReplCommand → S → Line × S) where
  unfoldable pub input_loop : List Input → S → List Line × S
  input_loop [] s = ([], s)
  input_loop (eof ∷ inputs) s = ([], s)
  input_loop (interrupted ∷ inputs) s = printing (stdout (codes "^C") ∷ []) (input_loop inputs s)
  input_loop (failure msg ∷ inputs) s = (stderr (codes "Error: " ++ msg) ∷ [], s)
  input_loop (line text ∷ inputs) s = elim (action text) [
    | skip ↦ input_loop inputs s
    | stop ↦ ([], s)
    | help ↦ printing print_help (input_loop inputs s)
    | command c ↦ let (out, t) = run c s in printing (out ∷ []) (input_loop inputs t)
  ]

module _ (to_string : KvsError → Bytes) where
  abbrev pub error_line : KvsError → Line
  error_line e = stderr (codes "Error: " ++ to_string e)

  abbrev pub print_set : Bytes → Bytes → Result (Unit {0}) → Line
  print_set key value (err e) = error_line e
  print_set key value (ok _) = stdout (codes "SET " ++ (key ++ (codes " = " ++ value)))

  abbrev pub print_get : Result (Option Bytes) → Line
  print_get (ok (some value)) = stdout value
  print_get (ok none) = stdout (codes "Key not found")
  print_get (err e) = error_line e

  abbrev pub print_rm : Bytes → Result (Unit {0}) → Line
  print_rm key (err e) = error_line e
  print_rm key (ok _) = stdout (codes "Removed key: " ++ key)

  module _ {S : Type 0} (store : KvStore S) where
    unfoldable pub run_command : ReplCommand → S → Line × S
    run_command (set_command key value) s =
        let (r, t) = store.set key value s in (print_set key value r, t)
    run_command (get_command key) s = let (r, t) = store.get key s in (print_get r, t)
    run_command (rm_command key) s = let (r, t) = store.remove key s in (print_rm key r, t)

    -- main, on a store that was opened.
    abbrev pub repl : List Input → S → List Line × S
    repl inputs s = printing print_help (input_loop run_command inputs s)
