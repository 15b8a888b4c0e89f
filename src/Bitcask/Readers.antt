-- ===== src/Bitcask/Readers.antt =====
-- The sorted map of open files.
pub mod Order
use bitcask.Prelude.{ℕ, ◌≡◌, some, [], ◌∷◌, arith, ◌==◌, if◌then◌else◌}
use bitcask.Prelude.Map.{Map, get, id_key}
use bitcask.Bitcask.State.{insert}

pub get-insert :
    (m : Map ℕ ℕ) (k j v : ℕ) → get (insert m k v) j ≡ (if k == j then some v else get m j)
unfolding get insert
get-insert [] k j v = ground arith
get-insert ((i, w) ∷ m) k j v = ground (arith, get-insert m k j v)
