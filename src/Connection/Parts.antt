-- ===== src/Connection/Parts.antt =====
-- The connection's invariant, and the steps that its operations share.
use nju_networking_lab.Base.{ℕ, ◌≤◌, ◌≡◌, refl, ap, arith, List, [], ◌∷◌, ◌++◌}
use nju_networking_lab.Base.{Option, some, Bool, true, false, if◌then◌else◌}
use nju_networking_lab.Wrap.{WrappingInt32}
use nju_networking_lab.Stream
use nju_networking_lab.Stream.{ByteStream}
use nju_networking_lab.Stream.Contents
use nju_networking_lab.Wire.TcpSegment.{TcpSegment}
use nju_networking_lab.Reassembler
use nju_networking_lab.Receiver.{TcpReceiver}
use nju_networking_lab.Receiver.Accept
use nju_networking_lab.Sender.{TcpSender, fill_window}
use nju_networking_lab.Sender.Invariant
use nju_networking_lab.Sender.Operations.{fill_window-IsValid}
use nju_networking_lab.Connection.{
  TcpConnection, clean_shutdown, send_segs_from_sender, set_errors, unclean_shutdown, reset_front,
  set_seg, connect, max_retx_attempts,
}

-- Both parts are valid, and while the connection is active no more retransmissions are counted than
-- are allowed.
pub record IsValid (source : ℕ → ℕ) (isn : WrappingInt32) (c : TcpConnection) : Type 0 where
  pub receiver : Accept.IsValid source isn c.receiver
  pub sender : Invariant.IsValid c.sender
  pub few : c.active ≡ true → c.sender.consecutive_retransmission ≤ max_retx_attempts

-- The operation returns, and the invariant holds.
abbrev pub Safe : (ℕ → ℕ) → WrappingInt32 → Option TcpConnection → Type 0
Safe source isn o = (c : TcpConnection) × (o ≡ some c) × IsValid source isn c

-- A sender with another stream.
pub with_stream-IsValid :
    (st : ByteStream) {s : TcpSender}
    → Contents.IsValid st
    → Invariant.IsValid s
    → Invariant.IsValid (record s { stream = st })
with_stream-IsValid st {s} h v = record {
  ready = record {
    stream = h;
    next_small = v.ready.next_small;
    flight_small = v.ready.flight_small;
  };
  chained = v.chained;
  flight = v.flight;
  timer = v.timer;
}

set_error-IsValid : {st : ByteStream} → Contents.IsValid st → Contents.IsValid (Stream.set_error st)
unfolding Stream.set_error Contents.contents
set_error-IsValid {st} h = record { cap_fits = h.cap_fits; held = h.held; counted = h.counted }

pub end_input-IsValid :
    {st : ByteStream} → Contents.IsValid st → Contents.IsValid (Stream.end_input st)
unfolding Stream.end_input Contents.contents
end_input-IsValid {st} h = record { cap_fits = h.cap_fits; held = h.held; counted = h.counted }

module _ (source : ℕ → ℕ) (isn : WrappingInt32) where
  -- The receiver with an error in its stream.
  errored-IsValid :
      {r : TcpReceiver}
      → Accept.IsValid source isn r
      → Accept.IsValid source isn (record r {
        reassembler = record (r.reassembler) { output = Stream.set_error r.reassembler.output };
      })
  unfolding Stream.set_error Contents.contents Reassembler.input_ended Stream.input_ended
  errored-IsValid {r} v = record {
    stream = record {
      stream = record {
        cap_fits = v.stream.stream.cap_fits;
        held = v.stream.stream.held;
        counted = v.stream.stream.counted;
      };
      same_capacity = v.stream.same_capacity;
      small = v.stream.small;
      written = v.stream.written;
      delivered = v.stream.delivered;
      chain = v.stream.chain;
      counted = v.stream.counted;
    };
    same_capacity = v.same_capacity;
    isn_known = v.isn_known;
    fin_after_syn = v.fin_after_syn;
    base_is = v.base_is;
  }

  -- The sender's queue, emptied or cut.
  queue_set-IsValid :
      (segs : List TcpSegment) {s : TcpSender}
      → Invariant.IsValid s
      → Invariant.IsValid (record s { segments_out = segs })
  queue_set-IsValid segs {s} v = record {
    ready = record {
      stream = v.ready.stream;
      next_small = v.ready.next_small;
      flight_small = v.ready.flight_small;
    };
    chained = v.chained;
    flight = v.flight;
    timer = v.timer;
  }

  still_active : (a b : Bool) → (if a then false else b) ≡ true → b ≡ true
  still_active true b h = absurd (ground arith)
  still_active false b h = h

  -- Sending what the sender has keeps the invariant; a connection that is not active stays so.
  pub send_segs-IsValid :
      (c : TcpConnection)
      → (c.active ≡ true → c.sender.consecutive_retransmission ≤ max_retx_attempts)
      → Accept.IsValid source isn c.receiver
      → Invariant.IsValid c.sender
      → IsValid source isn (send_segs_from_sender c)
  unfolding send_segs_from_sender clean_shutdown
  send_segs-IsValid c few r s = record {
    receiver = r;
    sender = queue_set-IsValid [] s;
    few = λ t. few (still_active _ c.active t);
  }

  pub set_errors-IsValid :
      (c : TcpConnection)
      → Accept.IsValid source isn c.receiver
      → Invariant.IsValid c.sender
      → IsValid source isn (set_errors c)
  unfolding set_errors
  set_errors-IsValid c r s = record {
    receiver = errored-IsValid r;
    sender =
        with_stream-IsValid (Stream.set_error c.sender.stream) (set_error-IsValid s.ready.stream) s;
    few = λ t. absurd (ground arith);
  }

  -- The last segment out resets the peer, and the connection is not active.
  pub record Reset (c c' : TcpConnection) : Type 0 where
    pub valid : IsValid source isn c'
    pub last : TcpSegment
    pub sent : c'.segments_out ≡ c.segments_out ++ (last ∷ [])
    pub resets : last.header.rst ≡ true
    pub inactive : c'.active ≡ false

  -- A shutdown returns when the sender has a segment to send.
  pub unclean_shutdown_lem :
      (c : TcpConnection) (front : TcpSegment) (segs : List TcpSegment)
      → c.sender.segments_out ≡ front ∷ segs
      → Accept.IsValid source isn c.receiver
      → Invariant.IsValid c.sender
      → (c' : TcpConnection) × (unclean_shutdown c ≡ some c') × Reset c c'
  unfolding unclean_shutdown set_errors reset_front
  unclean_shutdown_lem c front segs e r s = (
    record down {
      sender = record (down.sender) { segments_out = segs };
      segments_out = c.segments_out ++ (rst ∷ []);
    },
    ap (reset_front down) e,
    record {
      valid = record {
        receiver = (set_errors-IsValid c r s).receiver;
        sender = queue_set-IsValid segs (set_errors-IsValid c r s).sender;
        few = λ t. absurd (ground arith);
      };
      last = rst;
      sent = refl;
      resets = refl;
      inactive = refl;
    },
  )
    where
      down : TcpConnection
      down = set_errors c

      rst : TcpSegment
      rst =
          let seg = set_seg down.receiver front in
          record seg { header = record (seg.header) { rst = true } }

  -- A queue that something was appended to has a front.
  pub front_of_append :
      (xs : List TcpSegment) (y : TcpSegment)
      → (z : TcpSegment) × (zs : List TcpSegment) × (xs ++ (y ∷ []) ≡ z ∷ zs)
  front_of_append [] y = (y, [], refl)
  front_of_append (x ∷ xs) y = (x, xs ++ (y ∷ []), refl)

  -- `connect`, and what `write` and `end_input_stream` do after the stream changed.
  pub connect-IsValid :
      (c : TcpConnection)
      → (c.active ≡ true → c.sender.consecutive_retransmission ≤ max_retx_attempts)
      → Accept.IsValid source isn c.receiver
      → Invariant.IsValid c.sender
      → Safe source isn (connect c)
  unfolding connect
  connect-IsValid c few r s = go (fill_window-IsValid c.sender s)
    where
      go :
          ((s' : TcpSender) × (fill_window c.sender ≡ some s')
            × Invariant.IsValid s'
            × (s'.consecutive_retransmission ≡ c.sender.consecutive_retransmission))
          → Safe source isn (connect c)
      go (s', run, v, e) = (
        send_segs_from_sender (record c { sender = s' }),
        rw (run) refl,
        send_segs-IsValid (record c { sender = s' }) (λ t. omega (arith, few t, e)) r v,
      )
