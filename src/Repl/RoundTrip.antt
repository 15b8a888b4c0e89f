-- ===== src/Repl/RoundTrip.antt =====
-- A command that is typed is the command that is run.
use bitcask.Prelude.{
  ℕ, ◌≡◌, refl, ◌∙◌, some, true, Bool, [], ◌∷◌, ◌++◌, append_assoc, append-nil, arith, ◌==◌, ◌&&◌,
}
use bitcask.Prelude.Bytes.{Bytes, codes, bytes_eq}
use bitcask.Whitespace.{white_len, push_word, split_loop, split_whitespace}
use bitcask.Repl.{ReplCommand, set_command, get_command, rm_command, parse_words, parse_command}

-- No White_Space character starts in a text.
abbrev pub no_white : Bytes → Bool
no_white [] = true
no_white (b ∷ bs) = white_len (b ∷ bs) == 0 && no_white bs

-- A text that is one word.
pub data IsWord : Bytes → Type 0 where
  word : (b : ℕ) (bs : Bytes) → no_white (b ∷ bs) ≡ true → IsWord (b ∷ bs)

no_white-first :
    (b : ℕ) (bs : Bytes)
    → no_white (b ∷ bs) ≡ true
    → (white_len (b ∷ bs) ≡ 0) × (no_white bs ≡ true)
no_white-first b bs h = (ground (arith, h), ground (arith, h))

white_len-space :
    (b : ℕ) (bs rest : Bytes) → white_len (b ∷ (bs ++ (32 ∷ rest))) ≡ white_len (b ∷ bs)
unfolding white_len
white_len-space b [] [] = ground arith
white_len-space b [] (r ∷ rest) = ground arith
white_len-space b (c ∷ []) rest = ground arith
white_len-space b (c ∷ d ∷ bs) rest = refl

split_loop-end :
    (done bs : Bytes) → no_white bs ≡ true → split_loop 0 done bs ≡ push_word (done ++ bs) []
unfolding split_loop
split_loop-end done [] h = rw append-nil refl
split_loop-end done (b ∷ bs) h =
    let (dark, rest_dark) = no_white-first b bs h in
    rw (split_loop, dark) (split_loop-end (done ++ (b ∷ [])) bs rest_dark ∙ rw append_assoc refl)

split_loop-space :
    (done bs rest : Bytes)
    → no_white bs ≡ true
    → split_loop 0 done (bs ++ (32 ∷ rest)) ≡ push_word (done ++ bs) (split_loop 0 [] rest)
unfolding split_loop white_len
split_loop-space done [] rest h = rw (white_len, append-nil) refl
split_loop-space done (b ∷ bs) rest h =
    let (dark, rest_dark) = no_white-first b bs h in
    rw (split_loop, white_len-space b bs rest, dark)
      (split_loop-space (done ++ (b ∷ [])) bs rest rest_dark ∙ rw append_assoc refl)

split_whitespace-word : {w : Bytes} → IsWord w → split_whitespace w ≡ w ∷ []
split_whitespace-word (word b bs h) = split_loop-end [] (b ∷ bs) h

split_whitespace-space :
    {w : Bytes}
    → IsWord w
    → (rest : Bytes) → split_whitespace (w ++ (32 ∷ rest)) ≡ w ∷ split_whitespace rest
split_whitespace-space (word b bs h) rest = split_loop-space [] (b ∷ bs) rest h

-- A command as it is typed.
abbrev pub command_line : ReplCommand → Bytes
command_line (set_command key value) = codes "set" ++ (32 ∷ (key ++ (32 ∷ value)))
command_line (get_command key) = codes "get" ++ (32 ∷ key)
command_line (rm_command key) = codes "rm" ++ (32 ∷ key)

pub data HasWords : ReplCommand → Type 0 where
  set_words : (key value : Bytes) → IsWord key → IsWord value → HasWords (set_command key value)
  get_words : (key : Bytes) → IsWord key → HasWords (get_command key)
  rm_words : (key : Bytes) → IsWord key → HasWords (rm_command key)

-- A command whose key and value are words is parsed from the line in which it is typed.
pub parse_command-command_line :
    (c : ReplCommand) → HasWords c → parse_command (command_line c) ≡ some c
unfolding parse_command parse_words bytes_eq white_len
parse_command-command_line _ (set_words key value k v) =
    rw
      (
        split_whitespace-space (word 115 (101 ∷ 116 ∷ []) refl) (key ++ (32 ∷ value)),
        split_whitespace-space k value,
        split_whitespace-word v,
      )
      refl
parse_command-command_line _ (get_words key k) =
    rw (split_whitespace-space (word 103 (101 ∷ 116 ∷ []) refl) key, split_whitespace-word k) refl
parse_command-command_line _ (rm_words key k) =
    rw (split_whitespace-space (word 114 (109 ∷ []) refl) key, split_whitespace-word k) refl
