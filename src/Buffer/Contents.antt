-- ===== src/Buffer/Contents.antt =====
-- The bytes that a buffer, or a list of buffers, stands for.
use nju_networking_lab.Base.{
  ℕ, zero, suc, ◌+◌, ◌-◌, ◌≤◌, ◌<◌, ◌≡◌, refl, sym, ◌∙◌, arith, List, [], ◌∷◌, ◌++◌,
}
use nju_networking_lab.Base.{Option, none, some, ltb, ◌==◌, length, drop, Bool-cases, inl, inr}
use nju_networking_lab.Base.{
  length-append, drop-drop, drop_of_le, drop-append_of_le, drop-append_of_ge,
}
use nju_networking_lab.Base.{append-nil, append_assoc}
use nju_networking_lab.Buffer.{Buffer, view, str, size, release, remove_prefix, BufferList}
use nju_networking_lab.Buffer.{
  append, concatenate_onto, concatenate, size_from, list_size, list_remove_prefix,
}

-- The bytes of a list of buffers, in order.
unfoldable pub bytes : BufferList → List ℕ
bytes [] = []
bytes (b ∷ bs) = str b ++ bytes bs

view-release : (o : Option (List ℕ)) (i : ℕ) → view (release o i) i ≡ view o i
unfolding view release
view-release none i = refl
view-release (some s) i = elim (Bool-cases (i == length s)) [
  | inl e ↦ rw e (sym (drop_of_le i s (ground arith)))
  | inr e ↦ rw e refl
]

view-view : (o : Option (List ℕ)) (i n : ℕ) → view o (i + n) ≡ drop n (view o i)
unfolding view
view-view none i n = sym (drop_of_le n [] (omega arith))
view-view (some s) i n = sym (drop-drop n i s)

-- A removal that is in range leaves the rest of the bytes.
pub str-remove_prefix :
    (n : ℕ) (b : Buffer)
    → n ≤ size b
    → (b' : Buffer) × (remove_prefix n b ≡ some b') × (str b' ≡ drop n (str b))
unfolding remove_prefix str
str-remove_prefix n b h = (
  record {
    storage = release b.storage (b.starting_offset + n);
    starting_offset = b.starting_offset + n;
  },
  ground arith,
  view-release b.storage (b.starting_offset + n) ∙ view-view b.storage b.starting_offset n,
)

bytes-++ : (bs cs : BufferList) → bytes (bs ++ cs) ≡ bytes bs ++ bytes cs
unfolding bytes
bytes-++ [] cs = refl
bytes-++ (b ∷ bs) cs = rw (bytes-++ bs cs) (sym (append_assoc (str b) (bytes bs) (bytes cs)))

pub bytes-append : (bs cs : BufferList) → bytes (append bs cs) ≡ bytes bs ++ bytes cs
unfolding append bytes
bytes-append bs [] = sym (append-nil (bytes bs))
bytes-append bs (c ∷ cs) =
    rw (bytes-append (bs ++ (c ∷ [])) cs, bytes-++ bs (c ∷ []), append-nil, append_assoc)

concatenate_onto-bytes :
    (ret : List ℕ) (bs : BufferList) → concatenate_onto ret bs ≡ ret ++ bytes bs
unfolding concatenate_onto bytes
concatenate_onto-bytes ret [] = sym (append-nil ret)
concatenate_onto-bytes ret (b ∷ bs) = rw (concatenate_onto-bytes (ret ++ str b) bs, append_assoc)

pub concatenate-bytes : (bs : BufferList) → concatenate bs ≡ bytes bs
unfolding concatenate
concatenate-bytes bs = concatenate_onto-bytes [] bs

size_from-bytes : (ret : ℕ) (bs : BufferList) → size_from ret bs ≡ ret + length (bytes bs)
unfolding size_from bytes
size_from-bytes ret [] = omega arith
size_from-bytes ret (b ∷ bs) =
    unfold size in
    omega (arith, size_from-bytes (ret + length (str b)) bs, length-append (str b) (bytes bs))

pub list_size-bytes : (bs : BufferList) → list_size bs ≡ length (bytes bs)
unfolding list_size
list_size-bytes bs = size_from-bytes 0 bs ∙ omega arith

pub size-str : (b : Buffer) → size b ≡ length (str b)
unfolding size
size-str b = refl

-- What `BufferList::remove_prefix` does with at least `n` bytes at hand: it takes them off the
-- front, through as many buffers as need be, and does not throw.
pub bytes-list_remove_prefix :
    (n : ℕ) (bs : BufferList)
    → n ≤ length (bytes bs)
    → (bs' : BufferList) × (list_remove_prefix n bs ≡ some bs') × (bytes bs' ≡ drop n (bytes bs))
unfolding list_remove_prefix bytes
bytes-list_remove_prefix zero bs h = (bs, refl, refl)
bytes-list_remove_prefix (suc n) [] h = absurd (omega arith)
bytes-list_remove_prefix (suc n) (b ∷ bs) h = elim (Bool-cases (ltb (suc n) (size b))) [
  | inl e ↦
      let fits : suc n ≤ length (str b) = ground (arith, size-str b) in
      let (b', run, left) = str-remove_prefix (suc n) b (omega (arith, size-str b)) in
      (b' ∷ bs, rw (e, run) refl, rw left (sym (drop-append_of_le (suc n) (str b) (bytes bs) fits)))
  | inr e ↦
      let past : length (str b) ≤ suc n = ground (arith, size-str b) in
      let room : suc n - size b ≤ length (bytes bs) =
        omega (arith, size-str b, length-append (str b) (bytes bs)) in
      let (bs', run, left) = bytes-list_remove_prefix (suc n - size b) bs room in
      (
        bs',
        rw e run,
        rw (left, size-str b) (sym (drop-append_of_ge (suc n) (str b) (bytes bs) past)),
      )
]

-- With fewer than `n` bytes at hand it throws.
pub list_remove_prefix_throws :
    (n : ℕ) (bs : BufferList) → length (bytes bs) < n → list_remove_prefix n bs ≡ none
unfolding list_remove_prefix bytes
list_remove_prefix_throws zero bs h = absurd (omega arith)
list_remove_prefix_throws (suc n) [] h = refl
list_remove_prefix_throws (suc n) (b ∷ bs) h = ground (
  arith,
  size-str b,
  length-append (str b) (bytes bs),
  list_remove_prefix_throws (suc n - size b) bs,
)
