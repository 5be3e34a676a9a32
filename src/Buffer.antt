-- ===== src/Buffer.antt =====
-- libsponge/util/buffer: a shared string with an offset, and a list of such.
-- The storage is read-only, so sharing it between copies is not seen, and a `Buffer` is a value.
pub mod Contents
pub mod Views
mod Tests
use nju_networking_lab.Base.{ℕ, zero, suc, ◌+◌, ◌-◌, List, [], ◌∷◌, ◌++◌}
use nju_networking_lab.Base.{Option, none, some, ltb, ◌==◌, if◌then◌else◌, length, drop, ◌>>=◌}

-- `none` is a null `_storage`.
pub record Buffer : Type 0 where
  pub storage : Option (List ℕ)
  pub starting_offset : ℕ

-- `Buffer()`
abbrev pub null : Buffer
null = record { storage = none; starting_offset = 0 }

-- `Buffer(std::string &&)`
abbrev pub of_string : List ℕ → Buffer
of_string s = record { storage = some s; starting_offset = 0 }

view : Option (List ℕ) → ℕ → List ℕ
view none i = []
view (some s) i = drop i s

-- The view that `str()` gives, and that `copy()` copies.
unfoldable pub str : Buffer → List ℕ
unfolding view
str b = view b.storage b.starting_offset

unfoldable pub size : Buffer → ℕ
unfolding str
size b = length (str b)

-- `_storage.reset()` once nothing is left of it.
release : Option (List ℕ) → ℕ → Option (List ℕ)
release none i = none
release (some s) i = if i == length s then none else some s

-- `none` is `out_of_range`.
unfoldable pub remove_prefix : ℕ → Buffer → Option Buffer
unfolding size release
remove_prefix n b =
    let i = b.starting_offset + n in
    if ltb (size b) n
    then none
    else some (record { storage = release b.storage i; starting_offset = i })

abbrev pub BufferList : Type 0
BufferList = List Buffer

-- `BufferList::append`: a `push_back` for each buffer of the other list.
unfoldable pub append : BufferList → BufferList → BufferList
append bs [] = bs
append bs (c ∷ cs) = append (bs ++ (c ∷ [])) cs

-- `operator Buffer()`: `none` is the exception for a list of several buffers.
unfoldable pub to_buffer : BufferList → Option Buffer
to_buffer [] = some null
to_buffer (b ∷ []) = some b
to_buffer (b ∷ c ∷ bs) = none

concatenate_onto : List ℕ → BufferList → List ℕ
unfolding str
concatenate_onto ret [] = ret
concatenate_onto ret (b ∷ bs) = concatenate_onto (ret ++ str b) bs

unfoldable pub concatenate : BufferList → List ℕ
unfolding concatenate_onto
concatenate bs = concatenate_onto [] bs

size_from : ℕ → BufferList → ℕ
unfolding size
size_from ret [] = ret
size_from ret (b ∷ bs) = size_from (ret + size b) bs

unfoldable pub list_size : BufferList → ℕ
unfolding size_from
list_size bs = size_from 0 bs

-- `BufferList::remove_prefix`. The loop goes on while `n > 0`, and drops a buffer in each round but
-- the last; `none` is `out_of_range`.
unfoldable pub list_remove_prefix : ℕ → BufferList → Option BufferList
unfolding remove_prefix
list_remove_prefix zero bs = some bs
list_remove_prefix (suc n) [] = none
list_remove_prefix (suc n) (b ∷ bs) =
    let rest = list_remove_prefix (suc n - size b) bs in
    if ltb (suc n) (size b) then (remove_prefix (suc n) b >>= λ b'. some (b' ∷ bs)) else rest
