-- ===== src/Transfer.antt =====
-- A sender (libsponge/tcp_sender) and the receiver of its stream (libsponge/tcp_receiver), with a
-- network between them that loses, repeats and reorders segments and acknowledgments.
mod Placed
mod Sending
mod Hearing
mod Receiving
mod Invariant
mod Delivery
mod Recovery
mod Tests
use nju_networking_lab.Base.{ℕ, List, [], ◌∷◌, ◌++◌, Option, none, some, ◌>>=◌, get_elem?}
use nju_networking_lab.Wrap.{WrappingInt32}
use nju_networking_lab.Wire.TcpSegment.{TcpSegment}
use nju_networking_lab.Stream
use nju_networking_lab.Stream.{ByteStream}
use nju_networking_lab.Sender
use nju_networking_lab.Sender.{TcpSender}
use nju_networking_lab.Receiver
use nju_networking_lab.Receiver.{TcpReceiver}

-- The wire has every segment that was ever transmitted, oldest first. `arrived` is what the
-- receiving application has read.
pub record World : Type 0 where
  pub sender : TcpSender
  pub wire : List TcpSegment
  pub receiver : TcpReceiver
  pub arrived : List ℕ

-- A sender and a receiver as they are constructed.
abbrev pub start : ℕ → ℕ → WrappingInt32 → ℕ → World
start send_capacity rto isn recv_capacity = record {
  sender = Sender.fresh send_capacity rto isn;
  wire = [];
  receiver = Receiver.fresh recv_capacity;
  arrived = [];
}

-- The applications write, end and read the stream; the sender fills its window, its timer ticks, it
-- hears an ackno and a window, and its queue goes on the wire; and a segment of the wire, any and
-- any number of times, is delivered.
pub data Event : Type 0 where
  writes : List ℕ → Event
  ends_input : Event
  fills_window : Event
  ticks : ℕ → Event
  hears : WrappingInt32 → ℕ → Event
  transmits : Event
  delivers : ℕ → Event
  reads : ℕ → Event

abbrev with_sender : World → TcpSender → World
with_sender w s = record w { sender = s }

-- The `i`-th segment of the wire, when there is one.
unfoldable pub deliver : Option TcpSegment → World → Option World
deliver none w = some w
deliver (some seg) w =
    Receiver.segment_received w.receiver seg >>= λ r. some (record w { receiver = r })

abbrev with_output : TcpReceiver → ByteStream → TcpReceiver
with_output r st = record r { reassembler = record (r.reassembler) { output = st } }

unfoldable pub step : Event → World → Option World
step (writes bytes) w =
    some (with_sender w (record (w.sender) { stream = (Stream.write bytes w.sender.stream).1 }))
step ends_input w =
    some (with_sender w (record (w.sender) { stream = Stream.end_input w.sender.stream }))
step fills_window w = Sender.fill_window w.sender >>= λ s. some (with_sender w s)
step (ticks ms) w = Sender.tick ms w.sender >>= λ s. some (with_sender w s)
step (hears ackno window) w =
    Sender.ack_received ackno window w.sender >>= λ s. some (with_sender w s)
step transmits w = some (record w {
  wire = w.wire ++ w.sender.segments_out;
  sender = record (w.sender) { segments_out = [] };
})
step (delivers i) w = deliver (get_elem? w.wire i) w
step (reads n) w = Stream.read n w.receiver.reassembler.output >>= λ r.
    some (record w { arrived = w.arrived ++ r.0; receiver = with_output w.receiver r.1 })

-- One event after the other.
unfoldable pub run : List Event → World → Option World
run [] w = some w
run (e ∷ es) w = step e w >>= run es
