-- ===== src/Sender/Fill.antt =====
-- `fill_window` always returns, and what it sends it takes off the stream.
use nju_networking_lab.Base.{ℕ, zero, suc, ◌≤◌, ◌<◌, ◌≡◌, refl, ap, ◌∙◌, inl, inr, arith, List, []}
use nju_networking_lab.Base.{
  length, take, length-take, length-drop, take-append-drop, some, Bool, true, false, ◌&&◌,
  if◌then◌else◌, ltb, ◌==◌, Bool-cases, add32,
}
use nju_networking_lab.Stream
use nju_networking_lab.Stream.{ByteStream}
use nju_networking_lab.Stream.Contents.{
  contents, read_lem, Popped, Popped-IsValid, buffer_empty_lem, list_size-contents,
}
use nju_networking_lab.Wire.TcpSegment.{length_in_sequence_space}
use nju_networking_lab.Sender.{
  TcpSender, segment_handler, syn_segment, fin_segment, data_segment, max_payload_size, free_space,
  send_data, may_send, send_loop, send_fin, fill, awaits_syn, fill_window,
}
use nju_networking_lab.Sender.Sent.{
  Ready, Sent, Before, Sent-still, Sent-trans, segment_handler-Sent,
}

same_fields :
    {s0 s : TcpSender}
    → s.segments_out ≡ s0.segments_out
    → s.outstanding ≡ s0.outstanding
    → s.stream ≡ s0.stream
    → s.isn ≡ s0.isn
    → s.next_seqno ≡ s0.next_seqno
    → s.bytes_in_flight ≡ s0.bytes_in_flight
    → s.timer_running ≡ s0.timer_running
    → s.consecutive_retransmission ≡ s0.consecutive_retransmission
    → Ready s0
    → Before [] s0 s
same_fields {s0} {s} a b c d e f g h v = record {
  out_same = a;
  outstanding_same = b;
  taken = ap contents c;
  isn_same = d;
  next_same = e;
  flight_same = f;
  timer_same = g;
  retx_same = h;
  valid = rw (c) v.stream;
}

-- One round of the loop: the stream holds less after it.
send_data_lem :
    (s0 s : TcpSender)
    → Ready s0
    → Before [] s0 s
    → 0 < s.free_bytes
    → 0 < length (contents s.stream)
    → (s' : TcpSender) × (send_data s ≡ some s')
      × Sent s0 s'
      × (length (contents s'.stream) < length (contents s.stream))
unfolding send_data segment_handler length_in_sequence_space
send_data_lem s0 s v b room some_bytes = go (read_lem size s.stream)
  where
    size : ℕ
    size = if ltb max_payload_size s.free_bytes then max_payload_size else s.free_bytes

    size_pos : 0 < size
    size_pos = ground arith

    size_max : size ≤ max_payload_size
    size_max = ground arith

    payload : List ℕ
    payload = take size (contents s.stream)

    last : ByteStream → Bool
    last st =
        Stream.eof st
        && ltb (length_in_sequence_space (data_segment payload false)) s.receiver_window_size

    go :
        ((st : ByteStream) × (Stream.read size s.stream ≡ some (payload, st))
          × Popped size s.stream st)
        → (s' : TcpSender) × (send_data s ≡ some s')
          × Sent s0 s'
          × (length (contents s'.stream) < length (contents s.stream))
    go (st, run, p) = (
      segment_handler (data_segment payload (last st))
          (record s { stream = st; fin_sent = if last st then true else s.fin_sent }),
      rw (run) refl,
      segment_handler-Sent (data_segment payload (last st)) v
          (record {
            out_same = b.out_same;
            outstanding_same = b.outstanding_same;
            taken = rw (p.rest) (take-append-drop size (contents s.stream) ∙ b.taken);
            isn_same = b.isn_same;
            next_same = b.next_same;
            flight_same = b.flight_same;
            timer_same = b.timer_same;
            retx_same = b.retx_same;
            valid = Popped-IsValid p b.valid;
          })
          (omega (arith, length-take size (contents s.stream), size_pos))
          (omega (arith, length-take size (contents s.stream), size_max)),
      omega (arith, ap length p.rest, length-drop size (contents s.stream), size_pos),
    )

-- What the loop's test lets in: room in the window, and bytes in the stream.
may_send_lem :
    (edge : ℕ) (s : TcpSender)
    → may_send edge s ≡ true
    → (0 < free_space edge s) × (0 < length (contents s.stream))
unfolding may_send
may_send_lem edge s t = (ground arith, ground (arith, buffer_empty_lem s.stream))

send_loop_lem :
    (fuel edge : ℕ) (s : TcpSender)
    → Ready s
    → length (contents s.stream) < fuel
    → (s' : TcpSender) × (send_loop fuel edge s ≡ some s') × Sent s s'
unfolding send_loop
send_loop_lem zero edge s v h = absurd (omega arith)
send_loop_lem (suc fuel) edge s v h = elim (Bool-cases (may_send edge s)) [
  | inr f ↦ (tested, rw (f, send_loop) refl, stop)
  | inl t ↦
      more t (λ u. send_loop_lem fuel edge u)
        (send_data_lem s tested v (same_fields refl refl refl refl refl refl refl refl v)
          (may_send_lem edge s t).0 (may_send_lem edge s t).1)
]
  where
    tested : TcpSender
    tested = record s { free_bytes = free_space edge s }

    stop : Sent s tested
    stop = Sent-still v (same_fields refl refl refl refl refl refl refl refl v)

    more :
        may_send edge s ≡ true
        → ((u : TcpSender)
            → Ready u
            → length (contents u.stream) < fuel
            → (s' : TcpSender) × (send_loop fuel edge u ≡ some s') × Sent u s')
        → ((s1 : TcpSender) × (send_data tested ≡ some s1)
            × Sent s s1
            × (length (contents s1.stream) < length (contents s.stream)))
        → (s' : TcpSender) × (send_loop (suc fuel) edge s ≡ some s') × Sent s s'
    more t loop (s1, run, sent, less) = rest (loop s1 sent.ready (omega arith))
      where
        rest :
            ((s' : TcpSender) × (send_loop fuel edge s1 ≡ some s') × Sent s1 s')
            → (s' : TcpSender) × (send_loop (suc fuel) edge s ≡ some s') × Sent s s'
        rest (s', run', sent') = (s', rw (t, send_loop) (rw (run) run'), Sent-trans v sent sent')

send_fin_lem : (edge : ℕ) (s0 s : TcpSender) → Ready s0 → Before [] s0 s → Sent s0 (send_fin edge s)
unfolding send_fin length_in_sequence_space
send_fin_lem edge s0 s v b = elim (Bool-cases (Stream.eof s.stream && ltb s.next_seqno edge)) [
  | inr f ↦ rw (f) (Sent-still v b)
  | inl t ↦ rw (t) (
      segment_handler-Sent fin_segment v
        (record {
          out_same = b.out_same;
          outstanding_same = b.outstanding_same;
          taken = b.taken;
          isn_same = b.isn_same;
          next_same = b.next_same;
          flight_same = b.flight_same;
          timer_same = b.timer_same;
          retx_same = b.retx_same;
          valid = b.valid;
        })
        (omega arith) (omega arith))
]

fill_lem : (s : TcpSender) → Ready s → (s' : TcpSender) × (fill s ≡ some s') × Sent s s'
unfolding fill Stream.buffer_size
fill_lem s v =
    go (send_fin_lem edge s noted v (same_fields refl refl refl refl refl refl refl refl v))
  where
    noted : TcpSender
    noted = record s {
      receiver_window_size = if s.receiver_window_size == 0 then 1 else s.receiver_window_size;
    }

    edge : ℕ
    edge = add32 s.rcv_base noted.receiver_window_size

    go : Sent s (send_fin edge noted) → (s' : TcpSender) × (fill s ≡ some s') × Sent s s'
    go first = after (
        send_loop_lem (suc (Stream.buffer_size (send_fin edge noted).stream)) edge
          (send_fin edge noted) first.ready
          (omega (arith, list_size-contents (send_fin edge noted).stream)))
      where
        after :
            ((s' : TcpSender) × (send_loop
                  (suc (Stream.buffer_size (send_fin edge noted).stream))
                  edge
                  (send_fin edge noted)
                ≡ some s')
              × Sent (send_fin edge noted) s')
            → (s' : TcpSender) × (fill s ≡ some s') × Sent s s'
        after (s', run, sent) = (s', run, Sent-trans v first sent)

-- With a valid stream, `fill_window` always returns: however many segments the window lets out,
-- the segments that it adds to both queues are numbered without a gap from the next sequence
-- number on, their payloads are the bytes taken off the stream, in order, and the counters and the
-- timer account for them.
pub fill_window_lem :
    (s : TcpSender) → Ready s → (s' : TcpSender) × (fill_window s ≡ some s') × Sent s s'
unfolding fill_window length_in_sequence_space
fill_window_lem s v = elim (Bool-cases s.syn_sent) [
  | inr f ↦ (
    segment_handler syn_segment (record s { syn_sent = true }),
    rw (f) refl,
    segment_handler-Sent syn_segment v (same_fields refl refl refl refl refl refl refl refl v)
        (omega arith) (omega arith),
  )
  | inl t ↦ elim (Bool-cases (awaits_syn s.outstanding)) [
    | inl w ↦
        (s, rw (t, w) refl, Sent-still v (same_fields refl refl refl refl refl refl refl refl v))
    | inr n ↦ elim (Bool-cases s.fin_sent) [
      | inl d ↦ (
        s,
        rw (t, n, d) refl,
        Sent-still v (same_fields refl refl refl refl refl refl refl refl v),
      )
      | inr g ↦ go t n g (fill_lem s v)
    ]
  ]
]
  where
    go :
        s.syn_sent ≡ true
        → awaits_syn s.outstanding ≡ false
        → s.fin_sent ≡ false
        → ((s' : TcpSender) × (fill s ≡ some s') × Sent s s')
        → (s' : TcpSender) × (fill_window s ≡ some s') × Sent s s'
    go t n g (s', run, sent) = (s', simp (t, n, g) run, sent)
