-- ===== src/Buffer/Views/Agrees.antt =====
-- A list of views behaves as the list of buffers that it views.
use nju_networking_lab.Base.{
  take, take_of_le, ℕ, zero, suc, ◌+◌, ◌-◌, ◌≡◌, refl, inl, inr, arith, List, [], ◌∷◌, ◌++◌, some,
  ◌>>=◌, true, false, ltb, length, Bool-cases,
}
use nju_networking_lab.Buffer
use nju_networking_lab.Buffer.{BufferList, str, list_remove_prefix, list_size}
use nju_networking_lab.Buffer.Contents.{bytes, str-remove_prefix, size-str}
use nju_networking_lab.Buffer.Views.{Iovec, of_list, remove_prefix, size_from, size, as_iovecs}

remove_prefix-of_list :
    (n : ℕ) (bs : BufferList)
    → remove_prefix n (of_list bs) ≡ (list_remove_prefix n bs >>= λ bs'. some (of_list bs'))
unfolding remove_prefix list_remove_prefix of_list
remove_prefix-of_list zero bs = refl
remove_prefix-of_list (suc n) [] = refl
remove_prefix-of_list (suc n) (b ∷ bs) = elim (Bool-cases (ltb (suc n) (Buffer.size b))) [
  | inl e ↦
      let e' : ltb (suc n) (length (str b)) ≡ true = rw (size-str b) at e in
      let (b', run, left) = str-remove_prefix (suc n) b (ground arith) in
      rw (e') (rw (run) (rw (left) refl))
  | inr e ↦
      let e' : ltb (suc n) (length (str b)) ≡ false = rw (size-str b) at e in
      rw (e') (rw (size-str b) (remove_prefix-of_list (suc n - length (str b)) bs))
]

size_from-of_list :
    (ret : ℕ) (bs : BufferList) → size_from ret (of_list bs) ≡ Buffer.size_from ret bs
unfolding size_from of_list Buffer.size_from Buffer.size
size_from-of_list ret [] = refl
size_from-of_list ret (b ∷ bs) = size_from-of_list (ret + length (str b)) bs

-- What a system call reads from the vectors: of each as many bytes as it says.
abbrev pub gathered : List Iovec → List ℕ
gathered [] = []
gathered (v ∷ vs) = take v.len v.base ++ gathered vs

gathered-as_iovecs : (bs : BufferList) → gathered (as_iovecs (of_list bs)) ≡ bytes bs
unfolding as_iovecs of_list bytes
gathered-as_iovecs [] = refl
gathered-as_iovecs (b ∷ bs) =
    rw (gathered-as_iovecs bs, take_of_le (length (str b)) (str b) (omega arith)) refl

-- What a system call is given for the views of a list of buffers is the bytes of the list, in their
-- order; the size is the list's; and to take bytes off the front of the views gives the views of
-- the list with these bytes taken off, or throws where the list throws.
pub views_agree :
    (n : ℕ) (bs : BufferList)
    → (gathered (as_iovecs (of_list bs)) ≡ bytes bs)
      × (size (of_list bs) ≡ list_size bs)
      × (remove_prefix n (of_list bs) ≡ (list_remove_prefix n bs >>= λ bs'. some (of_list bs')))
unfolding size list_size
views_agree n bs = (gathered-as_iovecs bs, size_from-of_list 0 bs, remove_prefix-of_list n bs)
