-- ===== src/Stream/Fifo.antt =====
-- A byte stream behaves as a bounded queue of bytes with an end mark, for every sequence of calls.
use nju_networking_lab.Base.{
  ℕ, ◌-◌, min, ◌≡◌, refl, ap, ◌∙◌, arith, List, [], ◌∷◌, ◌++◌, Option, some,
}
use nju_networking_lab.Base.{Bool, true, ◌&&◌, ◌==◌, length, take, drop, ◌>>=◌}
use nju_networking_lab.Stream
use nju_networking_lab.Stream.{ByteStream}
use nju_networking_lab.Stream.Contents.{
  contents, IsValid, contents-write, write-count, write-IsValid, remaining_capacity-add-length,
  pop_output_lem, peek_output_lem, read_lem, Popped-IsValid, buffer_empty_lem,
}

-- The calls of a stream's two users.
pub data Op : Type 0 where
  write : List ℕ → Op
  end_input : Op
  peek_output : ℕ → Op
  pop_output : ℕ → Op
  read : ℕ → Op
  ask_eof : Op
  ask_room : Op

pub data Reply : Type 0 where
  count : ℕ → Reply
  bytes : List ℕ → Reply
  flag : Bool → Reply
  done : Reply

-- One call on the code's stream.
call : Op → ByteStream → Option (Reply × ByteStream)
call (write xs) s = let (n, s') = Stream.write xs s in some (count n, s')
call end_input s = some (done, Stream.end_input s)
call (peek_output n) s = some (bytes (Stream.peek_output n s), s)
call (pop_output n) s = Stream.pop_output n s >>= λ s'. some (done, s')
call (read n) s = Stream.read n s >>= λ r. some (bytes r.0, r.1)
call ask_eof s = some (flag (Stream.eof s), s)
call ask_room s = some (count (Stream.remaining_capacity s), s)

pub run : List Op → ByteStream → Option (List Reply)
run [] s = some []
run (op ∷ ops) s = call op s >>= λ r. run ops r.1 >>= λ rs. some (r.0 ∷ rs)

-- The specification: a queue of at most `cap` bytes.
pub record Queue : Type 0 where
  pub held : List ℕ
  pub ended : Bool

module _ (cap : ℕ) where
  spec_call : Op → Queue → Reply × Queue
  spec_call (write xs) q =
      let room = cap - length q.held in
      (count (min (length xs) room), record q { held = q.held ++ take room xs })
  spec_call end_input q = (done, record q { ended = true })
  spec_call (peek_output n) q = (bytes (take n q.held), q)
  spec_call (pop_output n) q = (done, record q { held = drop n q.held })
  spec_call (read n) q = (bytes (take n q.held), record q { held = drop n q.held })
  spec_call ask_eof q = (flag ((length q.held == 0) && q.ended), q)
  spec_call ask_room q = (count (cap - length q.held), q)

  pub spec_run : List Op → Queue → List Reply
  unfolding spec_call
  spec_run [] q = []
  spec_run (op ∷ ops) q = let (r, q') = spec_call op q in r ∷ spec_run ops q'

abbrev pub queue_of : ByteStream → Queue
queue_of s = record { held = contents s; ended = s.input_end }

room_lem :
    {s : ByteStream} → IsValid s → Stream.remaining_capacity s ≡ s.capacity - length (contents s)
room_lem {s} v = omega (arith, remaining_capacity-add-length v)

-- What one call gives: its reply and the queue after it are the specification's.
record Agrees (cap : ℕ) (s : ByteStream) (op : Op) (r : Reply × ByteStream) : Type 0 where
  ran : call op s ≡ some r
  reply : r.0 ≡ (spec_call cap op (queue_of s)).0
  queue : queue_of r.1 ≡ (spec_call cap op (queue_of s)).1
  valid : IsValid r.1
  same_cap : r.1.capacity ≡ s.capacity

queue_path :
    {xs ys : List ℕ} {e f : Bool}
    → xs ≡ ys
    → e ≡ f
    → ◌≡◌ {A = Queue} (record { held = xs; ended = e }) (record { held = ys; ended = f })
queue_path p q = λ i. record { held = p i; ended = q i }

call-Agrees :
    (op : Op) {s : ByteStream} → IsValid s → (r : Reply × ByteStream) × Agrees s.capacity s op r
unfolding call spec_call
call-Agrees (write xs) {s} v = (
  (count (Stream.write xs s).0, (Stream.write xs s).1),
  record {
    ran = refl;
    reply = ap count (write-count xs s ∙ ap (min (length xs)) (room_lem v));
    queue =
        queue_path (contents-write xs s ∙ ap (λ n. contents s ++ take n xs) (room_lem v))
          (unfold Stream.write in refl);
    valid = write-IsValid xs v;
    same_cap = unfold Stream.write in refl;
  },
)
call-Agrees end_input {s} v = (
  (done, Stream.end_input s),
  record {
    ran = refl;
    reply = refl;
    queue = queue_path (unfold Stream.end_input contents in refl) (unfold Stream.end_input in refl);
    valid =
        unfold Stream.end_input contents in
        record { cap_fits = v.cap_fits; held = v.held; counted = v.counted };
    same_cap = unfold Stream.end_input in refl;
  },
)
call-Agrees (peek_output n) {s} v = (
  (bytes (Stream.peek_output n s), s),
  record {
    ran = refl;
    reply = ap bytes (peek_output_lem n s);
    queue = refl;
    valid = v;
    same_cap = refl;
  },
)
call-Agrees (pop_output n) {s} v =
    let (s', e, p) = pop_output_lem n s in
    (
      (done, s'),
      record {
        ran = rw e;
        reply = refl;
        queue = queue_path p.rest p.same_end;
        valid = Popped-IsValid p v;
        same_cap = p.same_capacity;
      },
    )
call-Agrees (read n) {s} v =
    let (s', e, p) = read_lem n s in
    (
      (bytes (take n (contents s)), s'),
      record {
        ran = rw e;
        reply = refl;
        queue = queue_path p.rest p.same_end;
        valid = Popped-IsValid p v;
        same_cap = p.same_capacity;
      },
    )
call-Agrees ask_eof {s} v = (
  (flag (Stream.eof s), s),
  record {
    ran = refl;
    reply = ap flag (unfold Stream.eof in ap (λ b. b && s.input_end) (buffer_empty_lem s));
    queue = refl;
    valid = v;
    same_cap = refl;
  },
)
call-Agrees ask_room {s} v = (
  (count (Stream.remaining_capacity s), s),
  record { ran = refl; reply = ap count (room_lem v); queue = refl; valid = v; same_cap = refl },
)

-- From a valid stream no sequence of calls throws, and the replies, in order, are those of the
-- queue of at most `capacity` bytes that starts with the stream's bytes and end mark.
pub run_refines :
    (ops : List Op) {s : ByteStream}
    → IsValid s
    → run ops s ≡ some (spec_run s.capacity ops (queue_of s))
unfolding run spec_run
run_refines [] v = refl
run_refines (op ∷ ops) {s} v =
    let (r, a) = call-Agrees op v in
    rw (a.ran, run_refines ops a.valid, a.same_cap, a.reply, a.queue) refl
