-- ===== src/Network/Resp/Parse.antt =====
-- network/resp.rs: from a frame to a request.
use bitcask.Prelude.{
  ℕ, zero, suc, ◌+◌, ◌-◌, ◌^◌, Option, none, some, Bool, true, false, not, List, [], ◌∷◌, ◌++◌,
  ◌&&◌, ◌||◌, ltb, leb, ◌==◌, if◌then◌else◌, length, take, drop,
}
use bitcask.Decimal.{is_empty, all_digits, number}
use bitcask.Prelude.Bytes.{Bytes, codes, bytes_eq}
use bitcask.Error.{Result, ok, err, invalid_data, ◌>>=◌}
use bitcask.BytesUtil.{slice}
use bitcask.Utf8.{is_utf8}
use bitcask.Network.Protocol.{get_req, set_req, rm_req, text}
use bitcask.Network.Resp.{
  ℤ, pos, negsuc, RespValue, simple_string, error_string, integer, bulk_string, null_array, array,
  RespValues, no_items, item, RespRequest, kv, config_get, plus, minus, colon, dollar, star, crlf,
  protocol_error, parse_len, max_depth,
}

-- The place of the first `\r\n`.
unfoldable pub find_crlf : Bytes → Option ℕ
find_crlf [] = none
find_crlf (x ∷ []) = none
find_crlf (x ∷ y ∷ bs) =
    let later = find_crlf (y ∷ bs) in
    if x == 13 && y == 10 then some 0 else elim later [ none ↦ none | some n ↦ some (suc n) ]

-- The kind, the body and the length of a line.
unfoldable pub take_line : Bytes → Result (ℕ × Bytes × ℕ)
unfolding find_crlf protocol_error
take_line buf = elim (find_crlf buf) [
  | none ↦ err (protocol_error (codes "expected CRLF-terminated line"))
  | some end ↦ elim buf [
    | [] ↦ err (protocol_error (codes "empty line"))
    | (kind ∷ bs) ↦
        if end == 0
        then err (protocol_error (codes "empty line"))
        else ok (kind, take (end - 1) bs, end + 2)
  ]
]

-- The digits of a number with its sign, in the range of i64.
abbrev pub signed : Bool → Bytes → Option ℤ
signed negative digits =
    if is_empty digits || not (all_digits digits) then none else elim negative [
      | false ↦ if ltb (number 0 digits) (2 ^ 63) then some (pos (number 0 digits)) else none
      | true ↦
          if ltb (2 ^ 63) (number 0 digits)
          then none
          else elim (number 0 digits) [ zero ↦ some (pos 0) | suc n ↦ some (negsuc n) ]
    ]

-- `s.parse::<i64>()`
abbrev pub parse_signed : Bytes → Option ℤ
parse_signed [] = none
parse_signed (b ∷ bs) =
    if b == plus
    then signed false bs
    else if b == minus
    then signed true bs
    else signed false (b ∷ bs)

unfoldable pub parse_i64 : Bytes → Result ℤ
unfolding protocol_error number
parse_i64 body = elim (if is_utf8 body then parse_signed body else none) [
  | none ↦ err (protocol_error (codes "invalid integer"))
  | some n ↦ ok n
]

-- The data of a bulk string behind its line.
unfoldable pub parse_bulk : Bytes → Option ℕ → ℕ → Result (RespValue × ℕ)
unfolding protocol_error
parse_bulk buf none used = ok (bulk_string none, used)
parse_bulk buf (some len) used =
    if ltb (length buf) (used + len)
    then err (protocol_error (codes "short bulk string"))
    else if bytes_eq (slice buf (used + len) (used + len + 2)) crlf
    then ok (bulk_string (some (slice buf used (used + len))), used + len + 2)
    else err (protocol_error (codes "bulk string not CRLF-terminated"))

-- The loop over the items of an array.
unfoldable pub parse_items :
    (Bytes → Result (RespValue × ℕ)) → ℕ → Bytes → ℕ → Result (RespValues × ℕ)
parse_items parse zero buf used = ok (no_items, used)
parse_items parse (suc len) buf used = do
  (value, n) ← parse (drop used buf)
  (items, used) ← parse_items parse len buf (used + n)
  ok (item value items, used)

unfoldable pub parse_array :
    (Bytes → Result (RespValue × ℕ)) → Bytes → Option ℕ → ℕ → Result (RespValue × ℕ)
unfolding parse_items
parse_array parse buf none used = ok (null_array, used)
parse_array parse buf (some len) used = do
  (items, used) ← parse_items parse len buf used
  ok (array items, used)

-- `parse_value` at a depth, from which `levels` more are allowed.
unfoldable pub parse_value : ℕ → Bytes → Result (RespValue × ℕ)
unfolding take_line parse_i64 parse_len parse_bulk parse_array protocol_error
parse_value zero buf = err (protocol_error (codes "nesting too deep"))
parse_value (suc levels) buf = do
  (kind, body, used) ← take_line buf
  if kind == plus
      then ok (simple_string body, used)
      else if kind == minus
      then ok (error_string body, used)
      else if kind == colon
      then (do n ← parse_i64 body; ok (integer n, used))
      else if kind == dollar
      then (do len ← parse_len body; parse_bulk buf len used)
      else if kind == star
      then (do len ← parse_len body; parse_array (λ rest. parse_value levels rest) buf len used)
      else err (protocol_error (codes "unknown type byte"))

unfoldable pub parse_resp : Bytes → Result RespValue
unfolding parse_value protocol_error
parse_resp buf = do
  (value, used) ← parse_value (suc max_depth) buf
  if used == length buf then ok value else err (protocol_error (codes "trailing bytes after value"))

-- The strings of a request's array.
unfoldable pub arguments : RespValues → Result (List Bytes)
unfolding protocol_error
arguments no_items = ok []
arguments (item (bulk_string (some b)) items) = do bs ← arguments items; ok (b ∷ bs)
arguments (item _ items) = err (protocol_error (codes "expected bulk string"))

abbrev pub to_lower : Bytes → Bytes
to_lower [] = []
to_lower (b ∷ bs) = (if leb 65 b && leb b 90 then b + 32 else b) ∷ to_lower bs

abbrev pub eq_ignore_ascii_case : Bytes → Bytes → Bool
eq_ignore_ascii_case xs ys = bytes_eq (to_lower xs) (to_lower ys)

module _ (lossy : Bytes → Bytes) where
  abbrev pub wrong_number {ℓ} : {A : Type ℓ} → Bytes → Result A
  wrong_number name = err (
      invalid_data
        (codes "wrong number of arguments for '" ++ (to_lower (lossy name) ++ codes "' command")))

  unfoldable pub decode_get : Bytes → List Bytes → Result RespRequest
  unfolding text
  decode_get name (arg ∷ []) = do key ← text arg; ok (kv (get_req key))
  decode_get name _ = wrong_number name

  unfoldable pub decode_set : Bytes → List Bytes → Result RespRequest
  unfolding text
  decode_set name (arg ∷ value_arg ∷ []) = do
    key ← text arg
    value ← text value_arg
    ok (kv (set_req key value))
  decode_set name _ = wrong_number name

  unfoldable pub decode_del : Bytes → List Bytes → Result RespRequest
  unfolding text
  decode_del name (arg ∷ []) = do key ← text arg; ok (kv (rm_req key))
  decode_del name _ = wrong_number name

  unfoldable pub decode_config : List Bytes → Result RespRequest
  decode_config [] = err (invalid_data (codes "unknown subcommand for 'config' command"))
  decode_config (sub ∷ names) =
      if eq_ignore_ascii_case sub (codes "GET")
      then ok (config_get names)
      else err (invalid_data (codes "unknown subcommand for 'config' command"))

  unfoldable pub decode_command : Bytes → List Bytes → Result RespRequest
  unfolding decode_get decode_set decode_del decode_config
  decode_command name args =
      if eq_ignore_ascii_case name (codes "GET")
      then decode_get name args
      else if eq_ignore_ascii_case name (codes "SET")
      then decode_set name args
      else if eq_ignore_ascii_case name (codes "DEL")
      then decode_del name args
      else if eq_ignore_ascii_case name (codes "CONFIG")
      then decode_config args
      else err (invalid_data (codes "unknown command '" ++ (lossy name ++ codes "'")))

  -- A request is an array of at least one string.
  unfoldable pub decode_items : RespValue → Result RespRequest
  unfolding decode_command arguments protocol_error
  decode_items (array (item first items)) = do
    args ← arguments (item first items)
    elim args [
      | [] ↦ err (protocol_error (codes "expected non-empty array"))
      | (name ∷ args) ↦ decode_command name args
    ]
  decode_items _ = err (protocol_error (codes "expected non-empty array"))

  unfoldable pub decode_request_resp : Bytes → Result RespRequest
  unfolding parse_resp decode_items
  decode_request_resp frame = do value ← parse_resp frame; decode_items value
