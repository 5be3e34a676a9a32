-- ===== src/Buffer/Views.antt =====
-- `BufferViewList` of libsponge/util/buffer: a list of views, each given by the bytes that it shows.
pub mod Agrees
use nju_networking_lab.Base.{
  ℕ, zero, suc, ◌+◌, ◌-◌, List, [], ◌∷◌, Option, none, some, ltb, if◌then◌else◌, length, drop,
}
use nju_networking_lab.Buffer.{str, BufferList}

abbrev pub BufferViewList : Type 0
BufferViewList = List (List ℕ)

-- `BufferViewList(const BufferList &)`
unfoldable pub of_list : BufferList → BufferViewList
of_list [] = []
of_list (b ∷ bs) = str b ∷ of_list bs

-- The loop goes on while `n > 0`, and drops a view in each round but the last; `none` is
-- `out_of_range`.
unfoldable pub remove_prefix : ℕ → BufferViewList → Option BufferViewList
remove_prefix zero vs = some vs
remove_prefix (suc n) [] = none
remove_prefix (suc n) (v ∷ vs) =
    let rest = remove_prefix (suc n - length v) vs in
    if ltb (suc n) (length v) then some (drop (suc n) v ∷ vs) else rest

size_from : ℕ → BufferViewList → ℕ
size_from ret [] = ret
size_from ret (v ∷ vs) = size_from (ret + length v) vs

unfoldable pub size : BufferViewList → ℕ
unfolding size_from
size vs = size_from 0 vs

-- What `writev` and `sendmsg` are given for a view: its bytes, and how many they are.
pub record Iovec : Type 0 where
  pub base : List ℕ
  pub len : ℕ

unfoldable pub as_iovecs : BufferViewList → List Iovec
as_iovecs [] = []
as_iovecs (v ∷ vs) = record { base = v; len = length v } ∷ as_iovecs vs
