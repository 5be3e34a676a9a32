-- ===== src/Sender/Window.antt =====
-- What the sender sends lies within the receiver's window, but for a FIN that data carries.
use mathlib.Core.Path.{subst}
use nju_networking_lab.Base.{
  ℕ, zero, suc, ◌+◌, ◌-◌, ◌≤◌, ◌<◌, ◌≡◌, ◌⊎◌, [], ◌∷◌, ◌++◌, refl, inl, inr, arith, List,
}
use nju_networking_lab.Base.{
  length, take, length-take, IsU32, Option, none, some, ◌>>=◌, Bool, true, false, ◌&&◌,
  if◌then◌else◌, ltb, ◌==◌, Bool-cases, add32,
}
use nju_networking_lab.Stream
use nju_networking_lab.Stream.{ByteStream}
use nju_networking_lab.Stream.Contents.{contents, read_lem, Popped, buffer_empty_lem}
use nju_networking_lab.Wire.TcpSegment.{TcpSegment, length_in_sequence_space}
use nju_networking_lab.Sender.{
  TcpSender, segment_handler, data_segment, max_payload_size, free_space, send_data, may_send,
  send_loop, send_fin, fill, awaits_syn, fill_window,
}
use nju_networking_lab.Sender.Sent.{Ready, Sent}
use nju_networking_lab.Sender.Fill.{fill_window_lem}

-- The last segment that went out has the FIN and at least a byte of payload.
abbrev pub CarriesFin : TcpSender → Type 0
CarriesFin s =
    (before : List TcpSegment) × (seg : TcpSegment) × (s.segments_out ≡ before ++ (seg ∷ []))
    × (seg.header.fin ≡ true)
    × (0 < length seg.payload)

-- The next sequence number is at most at the edge, or one beyond it, and then the last segment that
-- went out carries the FIN behind its payload.
abbrev pub IsInside : ℕ → TcpSender → Type 0
IsInside edge s =
    (s.next_seqno ≤ edge) ⊎ ((s.next_seqno ≤ edge + 1) × (s.fin_sent ≡ true) × CarriesFin s)

abbrev AllInside : ℕ → Option TcpSender → Type 0
AllInside edge none = Unit
AllInside edge (some s) = IsInside edge s

send_data-IsInside :
    (edge : ℕ) (s : TcpSender)
    → IsU32 edge
    → s.next_seqno ≤ edge
    → s.free_bytes ≡ edge - s.next_seqno
    → 0 < edge - s.next_seqno
    → 0 < length (contents s.stream)
    → (s' : TcpSender) × (send_data s ≡ some s') × IsInside edge s'
unfolding send_data segment_handler length_in_sequence_space
send_data-IsInside edge s he le free room held = go (read_lem size s.stream)
  where
    size : ℕ
    size = if ltb max_payload_size s.free_bytes then max_payload_size else s.free_bytes

    payload : List ℕ
    payload = take size (contents s.stream)

    short : length payload ≤ edge - s.next_seqno
    short = ground (arith, length-take size (contents s.stream))

    some_bytes : 0 < length payload
    some_bytes = ground (arith, length-take size (contents s.stream))

    last : ByteStream → Bool
    last st =
        Stream.eof st
        && ltb (length_in_sequence_space (data_segment payload false)) s.receiver_window_size

    inside :
        (last : Bool) (st : ByteStream)
        → IsInside edge (
            segment_handler
              (data_segment payload last)
              (record s { stream = st; fin_sent = if last then true else s.fin_sent }))
    inside true st = inr (omega (arith, short), refl, (s.segments_out, _, refl, refl, some_bytes))
    inside false st = inl (omega (arith, short))

    go :
        ((st : ByteStream) × (Stream.read size s.stream ≡ some (payload, st))
          × Popped size s.stream st)
        → (s' : TcpSender) × (send_data s ≡ some s') × IsInside edge s'
    go (st, run, p) = (
      segment_handler (data_segment payload (last st))
          (record s { stream = st; fin_sent = if last st then true else s.fin_sent }),
      rw (run) refl,
      inside (last st) st,
    )

open_window :
    (edge : ℕ) (s : TcpSender)
    → IsU32 edge
    → IsInside edge s
    → may_send edge s ≡ true
    → (s.next_seqno ≤ edge)
      × (free_space edge s ≡ edge - s.next_seqno)
      × (0 < edge - s.next_seqno)
      × (0 < length (contents s.stream))
unfolding may_send free_space
open_window edge s he (inl le) t = (
  le,
  omega arith,
  ground (arith, buffer_empty_lem s.stream),
  ground (arith, buffer_empty_lem s.stream),
)
open_window edge s he (inr (le, fin, c)) t = absurd (ground arith)

send_loop_inside :
    (fuel edge : ℕ) (s : TcpSender)
    → IsU32 edge
    → IsInside edge s
    → AllInside edge (send_loop fuel edge s)
unfolding send_loop
send_loop_inside zero edge s he h = tt
send_loop_inside (suc fuel) edge s he h = elim (Bool-cases (may_send edge s)) [
  | inr f ↦ rw (f, send_loop) h
  | inl t ↦
      let w = open_window edge s he h t in
      rw (t, send_loop)
        (onwards (λ u. send_loop_inside fuel edge u he)
          (send_data-IsInside edge (record s { free_bytes = free_space edge s }) he w.0 w.1 w.2
            w.3))
]
  where
    onwards :
        ((u : TcpSender) → IsInside edge u → AllInside edge (send_loop fuel edge u))
        → ((s' : TcpSender) × (send_data (record s { free_bytes = free_space edge s }) ≡ some s')
            × IsInside edge s')
        → AllInside edge
            (send_data (record s { free_bytes = free_space edge s }) >>= send_loop fuel edge)
    onwards rest (s', run, i) = rw (run) (rest s' i)

-- The right edge of the window, which is taken to be open by one byte at least.
abbrev pub right_edge : TcpSender → ℕ
right_edge s = s.rcv_base + (if s.receiver_window_size == 0 then 1 else s.receiver_window_size)

send_fin-IsInside :
    (edge : ℕ) (s : TcpSender) → IsU32 edge → s.next_seqno ≤ edge → IsInside edge (send_fin edge s)
unfolding send_fin segment_handler length_in_sequence_space
send_fin-IsInside edge s he le = elim (Bool-cases (Stream.eof s.stream && ltb s.next_seqno edge)) [
  | inr f ↦ rw (f) (inl le)
  | inl t ↦ rw (t) (inl (ground arith))
]

fill_inside :
    (s : TcpSender)
    → IsU32 (right_edge s)
    → s.next_seqno ≤ right_edge s
    → AllInside (right_edge s) (fill s)
unfolding fill
fill_inside s he le =
    subst
      (λ e.
        AllInside (right_edge s)
          (send_loop (suc (Stream.buffer_size (send_fin e noted).stream)) e (send_fin e noted)))
      same
      (send_loop_inside (suc (Stream.buffer_size (send_fin (right_edge s) noted).stream))
        (right_edge s) (send_fin (right_edge s) noted) he
        (send_fin-IsInside (right_edge s) noted he le))
  where
    noted : TcpSender
    noted = record s {
      receiver_window_size = if s.receiver_window_size == 0 then 1 else s.receiver_window_size;
    }

    same : right_edge s ≡ add32 s.rcv_base noted.receiver_window_size
    same = omega arith

-- Once the SYN is sent, with a valid stream and a right edge that fits in 32 bits: when nothing in
-- flight lies beyond the window, no byte of payload that `fill_window` sends does either, and no FIN
-- of its own: the next sequence number is then at most at the window's right edge, or one beyond it,
-- and in that case the last segment that went out has the FIN behind a payload of a byte at least.
pub fill_window-IsInside :
    (s : TcpSender)
    → Ready s
    → s.syn_sent ≡ true
    → IsU32 (right_edge s)
    → s.next_seqno ≤ right_edge s
    → (s' : TcpSender) × (fill_window s ≡ some s') × IsInside (right_edge s) s'
unfolding fill_window
fill_window-IsInside s v started he le = go (fill_window_lem s v)
  where
    all : AllInside (right_edge s) (fill_window s)
    all = elim (Bool-cases (awaits_syn s.outstanding)) [
      | inl w ↦ simp (started, w) (inl le)
      | inr n ↦ elim (Bool-cases s.fin_sent) [
        | inl d ↦ simp (started, n, d) (inl le)
        | inr g ↦ simp (started, n, g) (fill_inside s he le)
      ]
    ]

    go :
        ((s' : TcpSender) × (fill_window s ≡ some s') × Sent s s')
        → (s' : TcpSender) × (fill_window s ≡ some s') × IsInside (right_edge s) s'
    go (s', run, sent) = (s', run, subst (AllInside (right_edge s)) run all)
