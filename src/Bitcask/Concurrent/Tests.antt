-- ===== src/Bitcask/Concurrent/Tests.antt =====
-- A `get` whose key is written anew after its first look.
use bitcask.Prelude.{ℕ, ◌*◌, List, [], ◌∷◌, ◌≡◌, refl, some, arith, length}
use bitcask.Error.{ok}
use bitcask.Command.{Command, serialize, encoded_body_len}
use bitcask.Utf8.{is_utf8}
use bitcask.Bitcask.State.{Shared}
use bitcask.Bitcask.Write.{append}
use bitcask.Bitcask.Read.{get_loop}
use bitcask.Bitcask.Appended.{IsStorable}
use bitcask.Bitcask.Published.{HasRoom}
use bitcask.Bitcask.Tests.{crc, calm, k1, one_key, one_key-IsValid, runs}
use bitcask.Bitcask.Engine.{values}
use bitcask.Bitcask.Concurrent.Get.{get-history}
use bitcask.Bitcask.Concurrent.History.{trace, history, state_at}

abbrev again : Command
again = Command.set 9 k1 k1

abbrev later : Shared
later = (append again one_key).1

again-IsStorable : IsStorable again
unfolding is_utf8 encoded_body_len
again-IsStorable = record { fits = record { ts = omega arith; body = omega arith }; text = refl }

again-room : HasRoom one_key (length (serialize again))
unfolding runs
again-room = record { id = omega arith; offset = omega arith }

abbrev both : List Command
both = again ∷ again ∷ []

later-room : HasRoom later (length (serialize again))
unfolding runs
later-room = record { id = omega arith; offset = omega arith }

-- The first look is before the first write, the second behind it, and the third and those after it
-- behind the second append.
abbrev look : ℕ → ℕ
look i = i * 4

-- Behind the write of the first append its key still has its old value, and behind the next action
-- the new one.
published_second :
    (values (state_at one_key (history both one_key) 1) k1 ≡ values one_key k1)
    × (values (state_at one_key (history both one_key) 2) k1 ≡ some k1)
unfolding runs trace history
published_second = (refl, refl)

get-history_example :
    get_loop 1 (λ i. state_at one_key (history both one_key) (look i)) 0 k1
    ≡ some (ok (values (state_at one_key (history both one_key) (look 0)) k1))
get-history_example =
    get-history both one_key-IsValid
      (again-IsStorable, again-room, λ e. (again-IsStorable, later-room, λ f. tt)) look
      (λ i. omega arith) 0 0 k1
