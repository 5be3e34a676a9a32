-- ===== src/Connection.antt =====
-- libsponge/tcp_connection: a receiver and a sender made into one endpoint of a connection.
-- `none` is an exception, or the front of an empty queue.
pub mod Parts
pub mod Events
pub mod Ticks
pub mod Everything
mod Tests
use nju_networking_lab.Base.{
  ℕ, ◌*◌, ◌%◌, ◌^◌, List, [], ◌∷◌, ◌++◌, Bool, true, false, not, ◌&&◌, ◌||◌,
}
use nju_networking_lab.Base.{
  Option, none, some, ◌>>=◌, ltb, leb, ◌==◌, if◌then◌else◌, length, add64,
}
use nju_networking_lab.Wrap.{WrappingInt32}
use nju_networking_lab.Stream
use nju_networking_lab.Stream.{ByteStream}
use nju_networking_lab.Wire.TcpSegment.{TcpSegment, length_in_sequence_space}
use nju_networking_lab.Receiver
use nju_networking_lab.Receiver.{TcpReceiver}
use nju_networking_lab.Sender
use nju_networking_lab.Sender.{TcpSender}

abbrev pub max_retx_attempts : ℕ
max_retx_attempts = 8

pub record TcpConfig : Type 0 where
  pub rt_timeout : ℕ
  pub recv_capacity : ℕ
  pub send_capacity : ℕ
  pub isn : WrappingInt32

pub record TcpConnection : Type 0 where
  pub cfg : TcpConfig
  pub receiver : TcpReceiver
  pub sender : TcpSender
  pub segments_out : List TcpSegment
  pub linger : Bool
  pub time_since_last_segment : ℕ
  pub active : Bool

-- `TCPConnection(cfg)`
abbrev pub fresh : TcpConfig → TcpConnection
fresh cfg = record {
  cfg = cfg;
  receiver = Receiver.fresh cfg.recv_capacity;
  sender = Sender.fresh cfg.send_capacity cfg.rt_timeout cfg.isn;
  segments_out = [];
  linger = true;
  time_since_last_segment = 0;
  active = true;
}

abbrev pub has_value : Option WrappingInt32 → Bool
has_value none = false
has_value (some a) = true

-- `set_seg`: the receiver's ackno and window, when it has an ackno. The window is cut to 16 bits.
unfoldable pub set_seg : TcpReceiver → TcpSegment → TcpSegment
set_seg r seg = elim (Receiver.ackno r) [
  | none ↦ seg
  | some a ↦ record seg {
    header = record (seg.header) { ack = true; ackno = a; win = Receiver.window_size r % 2 ^ 16 };
  }
]

-- The loop of `send_segs_from_sender`: what it adds to `_segments_out`.
unfoldable pub set_all : TcpReceiver → List TcpSegment → List TcpSegment
set_all r [] = []
set_all r (seg ∷ segs) = set_seg r seg ∷ set_all r segs

unfoldable pub clean_shutdown : TcpConnection → TcpConnection
clean_shutdown c =
    let out_done = Stream.eof c.sender.stream in
    let in_done = Stream.input_ended (Receiver.stream_out c.receiver) in
    let linger = if not out_done && in_done then false else c.linger in
    let finished = out_done && (in_done && (c.sender.bytes_in_flight == 0)) in
    let waited = leb (10 * c.cfg.rt_timeout) c.time_since_last_segment in
    record c {
      linger = linger;
      active = if finished && (not linger || waited) then false else c.active;
    }

unfoldable pub send_segs_from_sender : TcpConnection → TcpConnection
send_segs_from_sender c = clean_shutdown (record c {
  segments_out = c.segments_out ++ set_all c.receiver c.sender.segments_out;
  sender = record (c.sender) { segments_out = [] };
})

-- Both streams to the error state, and the connection down.
unfoldable pub set_errors : TcpConnection → TcpConnection
set_errors c = record c {
  sender = record (c.sender) { stream = Stream.set_error c.sender.stream };
  receiver = record (c.receiver) {
    reassembler = record (c.receiver.reassembler) {
      output = Stream.set_error c.receiver.reassembler.output;
    };
  };
  active = false;
}

-- The front of the sender's queue goes out with the RST flag.
reset_front : TcpConnection → List TcpSegment → Option TcpConnection
reset_front c [] = none
reset_front c (front ∷ segs) =
    let seg = set_seg c.receiver front in
    some (record c {
      sender = record (c.sender) { segments_out = segs };
      segments_out =
          c.segments_out ++ (record seg { header = record (seg.header) { rst = true } } ∷ []);
    })

unfoldable pub unclean_shutdown : TcpConnection → Option TcpConnection
unfolding reset_front
unclean_shutdown c = reset_front (set_errors c) (set_errors c).sender.segments_out

abbrev with_sender : TcpConnection → TcpSender → TcpConnection
with_sender c s = record c { sender = s }

abbrev with_receiver : TcpConnection → TcpReceiver → TcpConnection
with_receiver c r = record c { receiver = r }

unfoldable pub connect : TcpConnection → Option TcpConnection
connect c = Sender.fill_window c.sender >>= λ s. some (send_segs_from_sender (with_sender c s))

-- A segment in state LISTEN.
unfoldable pub receive_listening : TcpSegment → TcpConnection → Option TcpConnection
receive_listening seg c =
    if not seg.header.syn
    then some c
    else (Receiver.segment_received c.receiver seg >>= λ r. connect (with_receiver c r))

-- A segment that does not acknowledge the SYN, in state SYN_SENT: a simultaneous open, or ignored.
unfoldable pub receive_unacked : TcpSegment → TcpConnection → Option TcpConnection
receive_unacked seg c =
    if not seg.header.ack && seg.header.syn
    then (Receiver.segment_received c.receiver seg >>= λ r.
        some (with_sender (with_receiver c r) (Sender.send_empty_segment c.sender)))
    else some c

-- After both parts have the segment: a reset, or the answers.
unfoldable pub respond : TcpSegment → TcpConnection → Option TcpConnection
respond seg c =
    let must_ack =
      (length c.sender.segments_out == 0)
      && (has_value (Receiver.ackno c.receiver) && not (length_in_sequence_space seg == 0)) in
    let empty_sent = with_sender c (Sender.send_empty_segment c.sender) in
    if seg.header.rst
    then unclean_shutdown empty_sent
    else some (send_segs_from_sender (if must_ack then empty_sent else c))

-- A segment for both parts.
unfoldable pub receive_open : TcpSegment → TcpConnection → Option TcpConnection
receive_open seg c = Receiver.segment_received c.receiver seg >>= λ r.
    Sender.ack_received seg.header.ackno seg.header.win c.sender >>= λ s.
    respond seg (with_sender (with_receiver c r) s)

unfoldable pub is_listening : TcpConnection → Bool
is_listening c = not (has_value (Receiver.ackno c.receiver)) && (c.sender.next_seqno == 0)

unfoldable pub is_syn_sent : TcpConnection → Bool
is_syn_sent c =
    (ltb 0 c.sender.next_seqno && (c.sender.next_seqno == c.sender.bytes_in_flight))
    && not (has_value (Receiver.ackno c.receiver))

unfoldable pub segment_received : TcpSegment → TcpConnection → Option TcpConnection
segment_received seg c0 =
    let c = record c0 { time_since_last_segment = 0 } in
    if not c0.active
    then some c0
    else if is_listening c
    then receive_listening seg c
    else if is_syn_sent c
    then (if ltb 0 (length seg.payload) || not seg.header.ack
        then receive_unacked seg c
        else if seg.header.rst
        then some (set_errors c)
        else receive_open seg c)
    else receive_open seg c

-- The number of bytes written, and the connection after it.
unfoldable pub write : List ℕ → TcpConnection → Option (ℕ × TcpConnection)
write bytes c =
    let (n, stream) = Stream.write bytes c.sender.stream in
    let filled = Sender.fill_window (record (c.sender) { stream = stream }) >>= λ s.
    some (n, send_segs_from_sender (with_sender c s)) in
    if length bytes == 0 then some (0, c) else filled

unfoldable pub tick : ℕ → TcpConnection → Option TcpConnection
tick ms c =
    let go = Sender.tick ms c.sender >>= λ s.
    (let c' = record c {
      sender = s;
      time_since_last_segment = add64 c.time_since_last_segment ms;
    } in
      if ltb max_retx_attempts s.consecutive_retransmission
      then (unclean_shutdown c' >>= λ c''. some (send_segs_from_sender c''))
      else some (send_segs_from_sender c')) in
    if not c.active then some c else go

unfoldable pub end_input_stream : TcpConnection → Option TcpConnection
end_input_stream c =
    Sender.fill_window (record (c.sender) { stream = Stream.end_input c.sender.stream }) >>= λ s.
    some (send_segs_from_sender (with_sender c s))

-- The destructor: an active connection is reset.
unfoldable pub destroy : TcpConnection → Option TcpConnection
destroy c =
    if c.active
    then unclean_shutdown (with_sender c (Sender.send_empty_segment c.sender))
    else some c

-- A read by the application from `inbound_stream()`: the bytes, and the connection after it.
unfoldable pub read_inbound : ℕ → TcpConnection → Option (List ℕ × TcpConnection)
read_inbound n c = Stream.read n (Receiver.stream_out c.receiver) >>= λ r. some (
  r.0,
  record c {
    receiver = record (c.receiver) {
      reassembler = record (c.receiver.reassembler) { output = r.1 };
    };
  },
)

unfoldable pub remaining_outbound_capacity : TcpConnection → ℕ
remaining_outbound_capacity c = Stream.remaining_capacity c.sender.stream

unfoldable pub bytes_in_flight : TcpConnection → ℕ
bytes_in_flight c = c.sender.bytes_in_flight

unfoldable pub unassembled_bytes : TcpConnection → ℕ
unassembled_bytes c = Receiver.unassembled_bytes c.receiver

unfoldable pub time_since_last_segment_received : TcpConnection → ℕ
time_since_last_segment_received c = c.time_since_last_segment

-- `inbound_stream()`, and the connection after a change of it.
unfoldable pub inbound_stream : TcpConnection → ByteStream
inbound_stream c = Receiver.stream_out c.receiver

unfoldable pub with_inbound : TcpConnection → ByteStream → TcpConnection
with_inbound c st = record c {
  receiver = record (c.receiver) { reassembler = record (c.receiver.reassembler) { output = st } };
}
