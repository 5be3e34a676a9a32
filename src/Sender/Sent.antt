-- ===== src/Sender/Sent.antt =====
-- What it means that a sender has sent segments: `Sent` relates the states before and after.
use nju_networking_lab.Base.{ℕ, ◌+◌, ◌≤◌, ◌<◌, ◌≡◌, refl, sym, ◌∙◌, arith, List, [], ◌∷◌, ◌++◌}
use nju_networking_lab.Base.{
  length, append-nil, append_assoc, Bool, true, false, not, ◌||◌, add64, u64_mod,
}
use nju_networking_lab.Wrap.{WrappingInt32, wrap}
use nju_networking_lab.Stream.Contents
use nju_networking_lab.Stream.Contents.{contents}
use nju_networking_lab.Wire.TcpSegment.{TcpSegment, length_in_sequence_space}
use nju_networking_lab.Sender.{TcpSender, segment_handler, with_seqno, max_payload_size, is_empty}

-- The sequence numbers that the segments take up.
unfoldable pub total : List TcpSegment → ℕ
total [] = 0
total (seg ∷ segs) = length_in_sequence_space seg + total segs

-- The payloads, one after the other.
unfoldable pub payloads : List TcpSegment → List ℕ
payloads [] = []
payloads (seg ∷ segs) = seg.payload ++ payloads segs

-- The segments are numbered without a gap from the absolute number `n` on; each takes up a number
-- at least, and none is longer than a segment may be.
abbrev pub Numbered : WrappingInt32 → ℕ → List TcpSegment → Type 0
Numbered isn n [] = Unit
Numbered isn n (seg ∷ segs) =
    (seg.header.seqno ≡ wrap n isn)
    × (0 < length_in_sequence_space seg)
    × (length seg.payload ≤ max_payload_size)
    × Numbered isn (add64 n (length_in_sequence_space seg)) segs

pub total-append : (xs ys : List TcpSegment) → total (xs ++ ys) ≡ total xs + total ys
unfolding total
total-append [] ys = omega arith
total-append (x ∷ xs) ys = omega (arith, total-append xs ys)

pub payloads-append : (xs ys : List TcpSegment) → payloads (xs ++ ys) ≡ payloads xs ++ payloads ys
unfolding payloads
payloads-append [] ys = refl
payloads-append (x ∷ xs) ys =
    rw (payloads-append xs ys) (sym (append_assoc x.payload (payloads xs) (payloads ys)))

pub Numbered-append :
    (isn : WrappingInt32) (n m : ℕ) (xs ys : List TcpSegment)
    → m < u64_mod
    → m ≡ add64 n (total xs)
    → n < u64_mod
    → Numbered isn n xs
    → Numbered isn m ys
    → Numbered isn n (xs ++ ys)
unfolding total
Numbered-append isn n m [] ys small e small' hx hy = let e' : m ≡ n = omega arith in rw e' at hy
Numbered-append isn n m (x ∷ xs) ys small e small' (h1, h2, h3, h4) hy = (
  h1,
  h2,
  h3,
  Numbered-append isn (add64 n (length_in_sequence_space x)) m xs ys small (omega arith)
      (omega arith) h4 hy,
)

-- The stream is well formed and the 64-bit counters are in range.
pub record Ready (s : TcpSender) : Type 0 where
  pub stream : Contents.IsValid s.stream
  pub next_small : s.next_seqno < u64_mod
  pub flight_small : s.bytes_in_flight < u64_mod

-- Segments `added` went to both queues, numbered from `_next_seqno` on; their payloads were taken off
-- the stream, in order, none lost and none twice; the counters moved by what they take up; and
-- the timer runs if it ran before or something was sent.
pub record Sent (s s' : TcpSender) : Type 0 where
  pub added : List TcpSegment
  pub out_is : s'.segments_out ≡ s.segments_out ++ added
  pub outstanding_is : s'.outstanding ≡ s.outstanding ++ added
  pub moved : payloads added ++ contents s'.stream ≡ contents s.stream
  pub numbered : Numbered s.isn s.next_seqno added
  pub next : s'.next_seqno ≡ add64 s.next_seqno (total added)
  pub flight : s'.bytes_in_flight ≡ add64 s.bytes_in_flight (total added)
  pub same_isn : s'.isn ≡ s.isn
  pub timer : s'.timer_running ≡ s.timer_running || not (is_empty added)
  pub retx : s'.consecutive_retransmission ≡ s.consecutive_retransmission
  pub ready : Ready s'

is_empty-append :
    (b : Bool) (xs ys : List TcpSegment)
    → (b || not (is_empty xs)) || not (is_empty ys) ≡ b || not (is_empty (xs ++ ys))
is_empty-append true xs ys = refl
is_empty-append false [] ys = refl
is_empty-append false (x ∷ xs) ys = refl

pub Sent-trans : {s t u : TcpSender} → Ready s → Sent s t → Sent t u → Sent s u
Sent-trans {s} {t} {u} v p q = record {
  added = p.added ++ q.added;
  out_is = q.out_is ∙ rw p.out_is (append_assoc s.segments_out p.added q.added);
  outstanding_is =
      q.outstanding_is ∙ rw p.outstanding_is (append_assoc s.outstanding p.added q.added);
  moved =
      rw
        (
          payloads-append p.added q.added,
          append_assoc (payloads p.added) (payloads q.added),
          q.moved,
        )
        p.moved;
  numbered =
      Numbered-append s.isn s.next_seqno t.next_seqno p.added q.added p.ready.next_small p.next
        v.next_small p.numbered (rw p.same_isn at q.numbered);
  next = omega (arith, q.next, p.next, total-append p.added q.added);
  flight = omega (arith, q.flight, p.flight, total-append p.added q.added);
  same_isn = q.same_isn ∙ p.same_isn;
  retx = q.retx ∙ p.retx;
  timer = q.timer ∙ rw p.timer (is_empty-append s.timer_running p.added q.added);
  ready = q.ready;
}

-- What a segment that is about to be sent may have changed: its payload is off the stream.
pub record Before (payload : List ℕ) (s0 s : TcpSender) : Type 0 where
  pub out_same : s.segments_out ≡ s0.segments_out
  pub outstanding_same : s.outstanding ≡ s0.outstanding
  pub taken : payload ++ contents s.stream ≡ contents s0.stream
  pub isn_same : s.isn ≡ s0.isn
  pub next_same : s.next_seqno ≡ s0.next_seqno
  pub flight_same : s.bytes_in_flight ≡ s0.bytes_in_flight
  pub timer_same : s.timer_running ≡ s0.timer_running
  pub retx_same : s.consecutive_retransmission ≡ s0.consecutive_retransmission
  pub valid : Contents.IsValid s.stream

-- One segment, numbered and sent.
pub segment_handler-Sent :
    (seg : TcpSegment) {s0 s : TcpSender}
    → Ready s0
    → Before seg.payload s0 s
    → 0 < length_in_sequence_space seg
    → length seg.payload ≤ max_payload_size
    → Sent s0 (segment_handler seg s)
unfolding segment_handler total payloads length_in_sequence_space
segment_handler-Sent seg {s0} {s} v b pos short = record {
  added = with_seqno seg (wrap s.next_seqno s.isn) ∷ [];
  out_is = rw (b.out_same) refl;
  outstanding_is = rw (b.outstanding_same) refl;
  moved = rw (append-nil seg.payload) b.taken;
  numbered = (rw (b.next_same, b.isn_same) refl, pos, short, tt);
  next = omega (arith, b.next_same);
  flight = omega (arith, b.flight_same);
  same_isn = b.isn_same;
  retx = b.retx_same;
  timer = ground arith;
  ready = record { stream = b.valid; next_small = omega arith; flight_small = omega arith };
}

-- Nothing is sent.
pub Sent-still : {s0 s : TcpSender} → Ready s0 → Before [] s0 s → Sent s0 s
unfolding total payloads
Sent-still {s0} {s} v b = record {
  added = [];
  out_is = rw (append-nil s0.segments_out) b.out_same;
  outstanding_is = rw (append-nil s0.outstanding) b.outstanding_same;
  moved = b.taken;
  numbered = tt;
  next = omega (arith, v.next_small, b.next_same);
  flight = omega (arith, v.flight_small, b.flight_same);
  same_isn = b.isn_same;
  retx = b.retx_same;
  timer = ground (arith, b.timer_same);
  ready = record {
    stream = b.valid;
    next_small = omega (arith, v.next_small, b.next_same);
    flight_small = omega (arith, v.flight_small, b.flight_same);
  };
}
