-- ===== src/Receiver.antt =====
-- libsponge/tcp_receiver: from segments to the reassembled stream, the ackno and the window.
pub mod Accept
pub mod Handle
mod Tests
use nju_networking_lab.Base.{ℕ, ◌+◌, ◌-◌, Bool, true, false, not, ◌&&◌, Option, none, some, ◌>>=◌}
use nju_networking_lab.Base.{if◌then◌else◌, add64, sub64, u32_mod, ◌%◌}
use nju_networking_lab.Wrap.{WrappingInt32, wrap, unwrap}
use nju_networking_lab.Stream
use nju_networking_lab.Stream.{ByteStream}
use nju_networking_lab.Reassembler
use nju_networking_lab.Reassembler.{StreamReassembler}
use nju_networking_lab.Wire.TcpSegment.{TcpSegment}

pub record TcpReceiver : Type 0 where
  pub reassembler : StreamReassembler
  pub syn : Bool
  pub fin : Bool
  pub isn : ℕ
  pub rcv_base : ℕ
  pub capacity : ℕ

-- `TCPReceiver(capacity)`
abbrev pub fresh : ℕ → TcpReceiver
fresh capacity = record {
  reassembler = Reassembler.fresh capacity;
  syn = false;
  fin = false;
  isn = 0;
  rcv_base = 0;
  capacity = capacity;
}

unfoldable pub stream_out : TcpReceiver → ByteStream
stream_out r = r.reassembler.output

-- The index in the stream of the segment's first byte. `_isn` is a `size_t`, cut to 32 bits.
unfoldable pub stream_index : TcpReceiver → TcpSegment → ℕ
stream_index r seg =
    let abs_seqno =
      if seg.header.syn then 1 else unwrap seg.header.seqno (r.isn % u32_mod) r.reassembler.cur in
    sub64 abs_seqno 1

-- The end of `segment_received`, for a segment that is let in.
unfoldable pub take_in : TcpReceiver → TcpSegment → Option TcpReceiver
unfolding stream_index
take_in r seg =
    Reassembler.push_substring seg.payload (stream_index r seg) seg.header.fin r.reassembler
    >>= λ re.
        (let base = add64 re.cur 1 in
          let done = Reassembler.input_ended re && r.fin in
          some (record r { reassembler = re; rcv_base = if done then add64 base 1 else base }))

-- The flag of a first FIN; a second one is refused.
unfoldable pub note_fin : TcpReceiver → TcpSegment → Option TcpReceiver
unfolding take_in
note_fin r seg =
    let seen = record r { fin = true } in
    if seg.header.fin then (if r.fin then some r else take_in seen seg) else take_in r seg

unfoldable pub segment_received : TcpReceiver → TcpSegment → Option TcpReceiver
unfolding note_fin
segment_received r seg =
    let started = record r { syn = true; isn = seg.header.seqno } in
    if not seg.header.syn && not r.syn
    then some r
    else if seg.header.syn
    then (if r.syn then some r else note_fin started seg)
    else note_fin r seg

unfoldable pub ackno : TcpReceiver → Option WrappingInt32
ackno r = if r.syn then some (wrap r.rcv_base (r.isn % u32_mod)) else none

unfoldable pub window_size : TcpReceiver → ℕ
window_size r = sub64 r.capacity (Stream.buffer_size r.reassembler.output)

unfoldable pub unassembled_bytes : TcpReceiver → ℕ
unassembled_bytes r = r.reassembler.unassembled
