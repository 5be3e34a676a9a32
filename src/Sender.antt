-- ===== src/Sender.antt =====
-- libsponge/tcp_sender: segments from the outgoing stream, the window, and the retransmission timer.
-- `none` is an exception, or the front of an empty queue.
pub mod Sent
pub mod Fill
mod Window
pub mod Invariant
pub mod Operations
mod Acks
mod Tests
use nju_networking_lab.Base.{
  ℕ, zero, suc, ◌+◌, ◌-◌, ◌*◌, ◌%◌, ◌^◌, List, [], ◌∷◌, ◌++◌, Bool, true, false, not, ◌&&◌, ◌||◌,
}
use nju_networking_lab.Base.{
  Option, none, some, ◌>>=◌, ltb, leb, ◌==◌, if◌then◌else◌, length, add64, sub64, add32, u32_mod,
}
use nju_networking_lab.Wrap.{WrappingInt32, wrap, unwrap}
use nju_networking_lab.Stream
use nju_networking_lab.Stream.{ByteStream}
use nju_networking_lab.Wire.TcpSegment
use nju_networking_lab.Wire.TcpSegment.{TcpSegment, length_in_sequence_space}

abbrev pub max_payload_size : ℕ
max_payload_size = 1452

-- The queues are lists, the front first.
pub record TcpSender : Type 0 where
  pub isn : WrappingInt32
  pub segments_out : List TcpSegment
  pub initial_rto : ℕ
  pub stream : ByteStream
  pub next_seqno : ℕ
  pub outstanding : List TcpSegment
  pub rto : ℕ
  pub bytes_in_flight : ℕ
  pub consecutive_retransmission : ℕ
  pub timer_running : Bool
  pub back_off : Bool
  pub time_elapsed : ℕ
  pub receiver_window_size : ℕ
  pub rcv_base : ℕ
  pub free_bytes : ℕ
  pub syn_sent : Bool
  pub fin_sent : Bool

-- `TCPSender(capacity, retx_timeout, isn)`, where `isn` is the fixed one or a random one.
abbrev pub fresh : ℕ → ℕ → WrappingInt32 → TcpSender
fresh capacity retx_timeout isn = record {
  isn = isn;
  segments_out = [];
  initial_rto = retx_timeout;
  stream = Stream.fresh capacity;
  next_seqno = 0;
  outstanding = [];
  rto = retx_timeout;
  bytes_in_flight = 0;
  consecutive_retransmission = 0;
  timer_running = false;
  back_off = true;
  time_elapsed = 0;
  receiver_window_size = 1;
  rcv_base = 0;
  free_bytes = 0;
  syn_sent = false;
  fin_sent = false;
}

abbrev pub with_seqno : TcpSegment → ℕ → TcpSegment
with_seqno seg n = record seg { header = record (seg.header) { seqno = n } }

-- `_segment_handler`: number the segment, send it, keep it, and start the timer.
unfoldable pub segment_handler : TcpSegment → TcpSender → TcpSender
segment_handler seg s =
    let sent = with_seqno seg (wrap s.next_seqno s.isn) in
    record s {
      bytes_in_flight = add64 s.bytes_in_flight (length_in_sequence_space seg);
      next_seqno = add64 s.next_seqno (length_in_sequence_space seg);
      outstanding = s.outstanding ++ (sent ∷ []);
      segments_out = s.segments_out ++ (sent ∷ []);
      time_elapsed = if s.timer_running then s.time_elapsed else 0;
      timer_running = true;
    }

abbrev pub syn_segment : TcpSegment
syn_segment = record (TcpSegment.blank) { header = record (TcpSegment.blank.header) { syn = true } }

abbrev pub fin_segment : TcpSegment
fin_segment = record (TcpSegment.blank) { header = record (TcpSegment.blank.header) { fin = true } }

-- `header().fin` set on a segment with a payload.
abbrev pub data_segment : List ℕ → Bool → TcpSegment
data_segment payload fin = record {
  header = record (TcpSegment.blank.header) { fin = fin };
  payload = payload;
}

-- `_free_bytes = _win_right_edge - _next_seqno`: computed at 64 bits and cut to 32.
unfoldable pub free_space : ℕ → TcpSender → ℕ
free_space win_right_edge s = sub64 win_right_edge s.next_seqno % u32_mod

-- One round of the sending loop, with `_free_bytes` set by its test.
unfoldable pub send_data : TcpSender → Option TcpSender
send_data s =
    let payload_size =
      if ltb max_payload_size s.free_bytes then max_payload_size else s.free_bytes in
    Stream.read payload_size s.stream >>= λ r.
    (let bare = data_segment r.0 false in
      let last = Stream.eof r.1 && ltb (length_in_sequence_space bare) s.receiver_window_size in
      some (
        segment_handler (data_segment r.0 last)
          (record s { stream = r.1; fin_sent = if last then true else s.fin_sent })))

-- The loop's test, which also sets `_free_bytes`.
unfoldable pub may_send : ℕ → TcpSender → Bool
unfolding free_space
may_send edge s =
    not (free_space edge s == 0) && (not s.fin_sent && not (Stream.buffer_empty s.stream))

-- The sending loop. A round reads a byte at least, so as many rounds as the stream holds bytes, and
-- one, are enough.
unfoldable pub send_loop : ℕ → ℕ → TcpSender → Option TcpSender
send_loop zero edge s = none
send_loop (suc fuel) edge s =
    let s' = record s { free_bytes = free_space edge s } in
    elim (may_send edge s) [ true ↦ send_data s' >>= send_loop fuel edge | false ↦ some s' ]

-- A FIN of its own, when the stream is at its end and the window has room.
unfoldable pub send_fin : ℕ → TcpSender → TcpSender
send_fin edge s =
    if Stream.eof s.stream && ltb s.next_seqno edge
    then segment_handler fin_segment (record s { fin_sent = true })
    else s

-- `fill_window` past its border cases.
unfoldable pub fill : TcpSender → Option TcpSender
fill s0 =
    let s = record s0 {
      receiver_window_size = if s0.receiver_window_size == 0 then 1 else s0.receiver_window_size;
    } in
    let edge = add32 s.rcv_base s.receiver_window_size in
    let s' = send_fin edge s in send_loop (suc (Stream.buffer_size s'.stream)) edge s'

-- `!_outstanding_segments.empty() && _outstanding_segments.front().header().syn`
unfoldable pub awaits_syn : List TcpSegment → Bool
awaits_syn [] = false
awaits_syn (seg ∷ segs) = seg.header.syn

unfoldable pub fill_window : TcpSender → Option TcpSender
fill_window s =
    if not s.syn_sent
    then some (segment_handler syn_segment (record s { syn_sent = true }))
    else if awaits_syn s.outstanding
    then some s
    else if s.fin_sent
    then some s
    else fill s

-- The loop over the outstanding segments: those that `seqno_abs` covers whole leave the queue, and
-- the flag says whether any did. `end_of_front` is cut to 32 bits.
unfoldable pub acknowledge :
    ℕ → WrappingInt32 → List TcpSegment → ℕ → Bool → List TcpSegment × ℕ × Bool
acknowledge seqno_abs isn [] in_flight new_data = ([], in_flight, new_data)
acknowledge seqno_abs isn (front ∷ segs) in_flight new_data =
    let end_of_front =
      add64 (unwrap front.header.seqno isn (seqno_abs % u32_mod)) (length_in_sequence_space front)
      % u32_mod in
    let rest =
      acknowledge seqno_abs isn segs (sub64 in_flight (length_in_sequence_space front)) true in
    if leb end_of_front seqno_abs then rest else (front ∷ segs, in_flight, new_data)

abbrev is_empty : List TcpSegment → Bool
is_empty [] = true
is_empty (seg ∷ segs) = false

-- What new data does to the timer, and what an empty queue does.
unfoldable pub reset_timer : Bool → TcpSender → TcpSender
reset_timer new_data s =
    let none_left = is_empty s.outstanding in
    record s {
      rto = if new_data then s.initial_rto else s.rto;
      consecutive_retransmission = if new_data then 0 else s.consecutive_retransmission;
      time_elapsed = if none_left || (new_data && not none_left) then 0 else s.time_elapsed;
      timer_running = if none_left then false else s.timer_running;
    }

-- `ack_received` for an ackno that is new, the window already noted.
unfoldable pub advance : ℕ → TcpSender → TcpSender
unfolding reset_timer acknowledge
advance seqno_abs s =
    let (left, in_flight, new_data) =
      acknowledge seqno_abs s.isn s.outstanding s.bytes_in_flight false in
    reset_timer new_data
      (record s { rcv_base = seqno_abs % u32_mod; outstanding = left; bytes_in_flight = in_flight })

unfoldable pub ack_received : WrappingInt32 → ℕ → TcpSender → Option TcpSender
ack_received ackno window_size s =
    let seqno_abs = unwrap ackno s.isn s.rcv_base in
    let noted = record s {
      receiver_window_size = window_size;
      back_off = not (window_size == 0);
    } in
    if ltb s.next_seqno seqno_abs
    then some s
    else if leb seqno_abs s.rcv_base
    then some noted
    else fill_window (advance seqno_abs noted)

-- The retransmission of the oldest segment; `none` is the front of an empty queue.
unfoldable pub retransmit : TcpSender → Option TcpSender
retransmit s = elim s.outstanding [
  | [] ↦ none
  | front ∷ segs ↦ some (record s {
    segments_out = s.segments_out ++ (front ∷ []);
    rto = if s.back_off then s.rto * 2 % u32_mod else s.rto;
    consecutive_retransmission =
        if s.back_off then add32 s.consecutive_retransmission 1 else s.consecutive_retransmission;
    time_elapsed = 0;
  })
]

unfoldable pub tick : ℕ → TcpSender → Option TcpSender
unfolding retransmit
tick ms s =
    let later = record s { time_elapsed = add64 s.time_elapsed ms % u32_mod } in
    if s.timer_running
    then (if leb later.rto later.time_elapsed then retransmit later else some later)
    else some s

unfoldable pub send_empty_segment : TcpSender → TcpSender
send_empty_segment s = record s {
  segments_out = s.segments_out ++ (with_seqno TcpSegment.blank (wrap s.next_seqno s.isn) ∷ []);
}
