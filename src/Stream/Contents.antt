-- ===== src/Stream/Contents.antt =====
-- What each operation does to the bytes in the stream, and the stream's invariant.
use nju_networking_lab.Base.{ℕ, ◌+◌, ◌≤◌, ◌<◌, min, ◌≡◌, refl, sym, ap, ◌∙◌, arith}
use nju_networking_lab.Base.{List, [], ◌∷◌, ◌++◌, some, ltb, ◌==◌, if◌then◌else◌}
use nju_networking_lab.Base.{
  length, take, drop, add64, u64_mod, append-nil, length-append, length-take, length-drop,
}
use nju_networking_lab.Base.{take_of_le, take-min, drop-min, Bool-cases, inl, inr}
use nju_networking_lab.Buffer
use nju_networking_lab.Buffer.{BufferList}
use nju_networking_lab.Buffer.Contents
use nju_networking_lab.Stream.{
  ByteStream, fresh, remaining_capacity, write, clip, peek_output, pop_output, read, buffer_empty,
}

-- The bytes written and not yet popped, oldest first.
unfoldable pub contents : ByteStream → List ℕ
contents s = Contents.bytes s.buffer

-- The buffer fits the capacity, and the counters differ by what it holds, modulo 2 ^ 64.
pub record IsValid (s : ByteStream) : Type 0 where
  pub cap_fits : s.capacity < u64_mod
  pub held : length (contents s) ≤ s.capacity
  pub counted : s.write_bytes ≡ add64 s.read_bytes (length (contents s))

pub fresh-IsValid : (capacity : ℕ) → capacity < u64_mod → IsValid (fresh capacity)
unfolding contents Contents.bytes
fresh-IsValid capacity h = omega arith

pub list_size-contents : (s : ByteStream) → Buffer.list_size s.buffer ≡ length (contents s)
unfolding contents
list_size-contents s = Contents.list_size-bytes s.buffer

pub contents-append :
    (s : ByteStream) (more : List ℕ)
    → Contents.bytes (Buffer.append s.buffer (Buffer.of_string more ∷ [])) ≡ contents s ++ more
unfolding contents Contents.bytes Buffer.str
contents-append s more =
    Contents.bytes-append s.buffer (Buffer.of_string more ∷ [])
    ∙ ap (λ xs. Contents.bytes s.buffer ++ xs) (append-nil more)

-- The room that is left, on a valid stream.
pub remaining_capacity-add-length :
    {s : ByteStream} → IsValid s → remaining_capacity s + length (contents s) ≡ s.capacity
unfolding remaining_capacity
remaining_capacity-add-length {s} v = ground (arith, list_size-contents s)

take_clip :
    (space : ℕ) (xs : List ℕ)
    → take (if ltb space (length xs) then space else length xs) xs ≡ take space xs
take_clip space xs = elim (Bool-cases (ltb space (length xs))) [
  | inl e ↦ rw e refl
  | inr e ↦
      rw (e, take_of_le (length xs) xs (omega arith)) (sym (take_of_le space xs (ground arith)))
]

-- The count that `write` returns.
pub write-count :
    (xs : List ℕ) (s : ByteStream) → (write xs s).0 ≡ min (length xs) (remaining_capacity s)
unfolding write remaining_capacity
write-count xs s = ground arith

-- What `write` adds: the front of the data, as much as there is room for.
pub contents-write :
    (xs : List ℕ) (s : ByteStream)
    → contents (write xs s).1 ≡ contents s ++ take (remaining_capacity s) xs
unfolding write remaining_capacity
contents-write xs s =
    unfold contents in
    contents-append s _ ∙ ap (λ ys. contents s ++ ys) (take_clip (remaining_capacity s) xs)

pub write-IsValid : (xs : List ℕ) {s : ByteStream} → IsValid s → IsValid (write xs s).1
unfolding write
write-IsValid xs {s} v = ground (
  arith,
  contents-write xs s,
  write-count xs s,
  remaining_capacity-add-length v,
  length-append (contents s) (take (remaining_capacity s) xs),
  length-take (remaining_capacity s) xs,
)

-- What a pop leaves: the rest of the bytes, and all else but the count of bytes read.
pub record Popped (n : ℕ) (s s' : ByteStream) : Type 0 where
  pub rest : contents s' ≡ drop n (contents s)
  pub read_count : s'.read_bytes ≡ add64 s.read_bytes (min n (length (contents s)))
  pub same_capacity : s'.capacity ≡ s.capacity
  pub same_written : s'.write_bytes ≡ s.write_bytes
  pub same_end : s'.input_end ≡ s.input_end
  pub same_error : s'.error ≡ s.error

pub clip_lem : (n : ℕ) (s : ByteStream) → clip n s ≡ min n (length (contents s))
unfolding clip
clip_lem n s = ground (arith, list_size-contents s)

-- `pop_output` never throws, whatever the stream and the length.
pub pop_output_lem :
    (n : ℕ) (s : ByteStream) → (s' : ByteStream) × (pop_output n s ≡ some s') × Popped n s s'
unfolding pop_output contents
pop_output_lem n s =
    let fits : clip n s ≤ length (Contents.bytes s.buffer) = omega (arith, clip_lem n s) in
    let (rest, run, left) = Contents.bytes-list_remove_prefix (clip n s) s.buffer fits in
    (
      record s { read_bytes = add64 s.read_bytes (clip n s); buffer = rest },
      ground arith,
      record {
        rest = left ∙ rw (clip_lem n s) (drop-min n (Contents.bytes s.buffer));
        read_count = ap (add64 s.read_bytes) (clip_lem n s);
        same_capacity = refl;
        same_written = refl;
        same_end = refl;
        same_error = refl;
      },
    )

pub peek_output_lem : (n : ℕ) (s : ByteStream) → peek_output n s ≡ take n (contents s)
unfolding peek_output contents
peek_output_lem n s =
    rw (clip_lem n s, Contents.concatenate-bytes s.buffer) (take-min n (Contents.bytes s.buffer))

clip-clip : (n : ℕ) (s : ByteStream) → clip (clip n s) s ≡ clip n s
unfolding clip
clip-clip n s = ground arith

peek_output-clip : (n : ℕ) (s : ByteStream) → peek_output (clip n s) s ≡ peek_output n s
unfolding peek_output
peek_output-clip n s = rw (clip-clip n s)

pop_output-clip : (n : ℕ) (s : ByteStream) → pop_output (clip n s) s ≡ pop_output n s
unfolding pop_output
pop_output-clip n s = rw (clip-clip n s)

-- `read` returns the front of the bytes and pops it, and never throws.
pub read_lem :
    (n : ℕ) (s : ByteStream)
    → (s' : ByteStream) × (read n s ≡ some (take n (contents s), s')) × Popped n s s'
unfolding read
read_lem n s =
    let (s', run, popped) = pop_output_lem n s in
    (s', rw (pop_output-clip n s, run, peek_output-clip n s, peek_output_lem n s), popped)

pub Popped-IsValid : {n : ℕ} {s s' : ByteStream} → Popped n s s' → IsValid s → IsValid s'
Popped-IsValid {n} {s} {s'} p v = ground (arith, length-drop n (contents s))

pub buffer_empty_lem : (s : ByteStream) → buffer_empty s ≡ (length (contents s) == 0)
unfolding buffer_empty
buffer_empty_lem s = rw (list_size-contents s)
