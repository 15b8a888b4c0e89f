-- ===== src/Whitespace.antt =====
-- `trim` and `split_whitespace` of std's str, on the bytes of a text.
pub mod Trim
use bitcask.Prelude.{
  ℕ, zero, suc, Bool, true, false, List, [], ◌∷◌, ◌++◌, ◌&&◌, ◌||◌, leb, ◌==◌, if◌then◌else◌,
}
use bitcask.Prelude.Bytes.{Bytes}

-- The length of the White_Space character of more than a byte that starts with `b`.
abbrev wide_len : ℕ → Bytes → ℕ
wide_len b [] = 0
wide_len b (c ∷ []) = if b == 194 && (c == 133 || c == 160) then 2 else 0
wide_len b (c ∷ d ∷ bs) =
    if b == 194 && (c == 133 || c == 160)
    then 2
    else if (b == 225 && c == 154 && d == 128)
        || (b == 226 && c == 128 && ((leb 128 d && leb d 138) || d == 168 || d == 169 || d == 175))
        || (b == 226 && c == 129 && d == 159)
        || (b == 227 && c == 128 && d == 128)
    then 3
    else 0

-- The length of the White_Space character in front, or 0.
unfoldable pub white_len : Bytes → ℕ
white_len [] = 0
white_len (b ∷ bs) = if (leb 9 b && leb b 13) || b == 32 then 1 else wide_len b bs

abbrev pub push_word : Bytes → List Bytes → List Bytes
push_word [] words = words
push_word (b ∷ word) words = (b ∷ word) ∷ words

-- With what is left of a White_Space character, and the word so far.
unfoldable pub split_loop : ℕ → Bytes → Bytes → List Bytes
split_loop skip word [] = push_word word []
split_loop (suc skip) word (b ∷ bs) = split_loop skip word bs
split_loop zero word (b ∷ bs) = elim (white_len (b ∷ bs)) [
  | zero ↦ split_loop zero (word ++ (b ∷ [])) bs
  | suc n ↦ push_word word (split_loop n [] bs)
]

abbrev pub split_whitespace : Bytes → List Bytes
split_whitespace text = split_loop 0 [] text

unfoldable pub trim_start : ℕ → Bytes → Bytes
trim_start skip [] = []
trim_start (suc skip) (b ∷ bs) = trim_start skip bs
trim_start zero (b ∷ bs) = elim (white_len (b ∷ bs)) [ zero ↦ b ∷ bs | suc n ↦ trim_start n bs ]

unfoldable pub all_white : ℕ → Bytes → Bool
all_white skip [] = true
all_white (suc skip) (b ∷ bs) = all_white skip bs
all_white zero (b ∷ bs) = elim (white_len (b ∷ bs)) [ zero ↦ false | suc n ↦ all_white n bs ]

unfoldable pub trim_end : Bytes → Bytes
trim_end [] = []
trim_end (b ∷ bs) = elim (all_white 0 (b ∷ bs)) [ true ↦ [] | false ↦ b ∷ trim_end bs ]

abbrev pub trim : Bytes → Bytes
trim text = trim_end (trim_start 0 text)
