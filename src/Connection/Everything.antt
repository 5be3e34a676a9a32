-- ===== src/Connection/Everything.antt =====
-- Any sequence of what the application, the peer and the clock do to a connection.
use mathlib.Core.Path.{subst}
use nju_networking_lab.Base.{ℕ, ◌^◌, ◌<◌, ◌≡◌, refl, sym, ◌∙◌, arith, List}
use nju_networking_lab.Base.{
  length, take, IsU32, Option, none, some, ◌>>=◌, Bool, true, false, if◌then◌else◌, ◌==◌, u64_mod,
}
use nju_networking_lab.Wrap.{WrappingInt32}
use nju_networking_lab.Stream
use nju_networking_lab.Stream.{ByteStream}
use nju_networking_lab.Stream.Contents
use nju_networking_lab.Stream.Contents.{contents, Popped, read_lem}
use nju_networking_lab.Wire.TcpSegment.{TcpSegment}
use nju_networking_lab.Reassembler
use nju_networking_lab.Reassembler.Reading.{Popped-Within}
use nju_networking_lab.Reassembler.Start
use nju_networking_lab.Receiver
use nju_networking_lab.Sender.{TcpSender, fill_window}
use nju_networking_lab.Sender.Operations.{fill_window-IsValid}
use nju_networking_lab.Sender.Invariant
use nju_networking_lab.Connection.{
  TcpConfig, TcpConnection, fresh, connect, segment_received, write, read_inbound, tick,
  end_input_stream, send_segs_from_sender,
}
use nju_networking_lab.Connection.Parts.{
  IsValid, Safe, send_segs-IsValid, with_stream-IsValid, end_input-IsValid, connect-IsValid,
}
use nju_networking_lab.Connection.Events.{Arrives, segment_received-Safe}
use nju_networking_lab.Connection.Ticks.{tick-Safe}

-- The calls on a connection.
pub data Event : Type 0 where
  connects : Event
  receives : TcpSegment → Event
  writes : List ℕ → Event
  reads : ℕ → Event
  ticks : ℕ → Event
  ends_input : Event

-- The connection after a call, without the result.
second : Option (ℕ × TcpConnection) → Option TcpConnection
second none = none
second (some (n, c)) = some c

second_of_bytes : Option (List ℕ × TcpConnection) → Option TcpConnection
second_of_bytes none = none
second_of_bytes (some (bs, c)) = some c

unfoldable pub handle : Event → TcpConnection → Option TcpConnection
unfolding second second_of_bytes
handle connects c = connect c
handle (receives seg) c = segment_received seg c
handle (writes bytes) c = second (write bytes c)
handle (reads n) c = second_of_bytes (read_inbound n c)
handle (ticks ms) c = tick ms c
handle ends_input c = end_input_stream c

-- The segments that arrive are the peer's; everything else may happen at any time.
abbrev pub Admissible : (ℕ → ℕ) → WrappingInt32 → TcpConnection → Event → Type 0
Admissible source isn c connects = Unit
Admissible source isn c (receives seg) = Arrives source isn c seg
Admissible source isn c (writes bytes) = Unit
Admissible source isn c (reads n) = Unit
Admissible source isn c (ticks ms) = Unit
Admissible source isn c ends_input = Unit

-- A new connection satisfies the invariant.
pub fresh-IsValid :
    (source : ℕ → ℕ) (isn : WrappingInt32) (cfg : TcpConfig)
    → cfg.recv_capacity < 2 ^ 62
    → cfg.send_capacity < u64_mod
    → IsValid source isn (fresh cfg)
fresh-IsValid source isn cfg hr hs = record {
  receiver = record {
    stream = Start.fresh-IsValid source cfg.recv_capacity hr;
    same_capacity = refl;
    isn_known = λ t. absurd (ground arith);
    fin_after_syn = λ t. absurd (ground arith);
    base_is = λ t. absurd (ground arith);
  };
  sender = Invariant.fresh-IsValid cfg.send_capacity cfg.rt_timeout cfg.isn hs;
  few = λ t. omega arith;
}

module _ (source : ℕ → ℕ) (isn : WrappingInt32) (hi : IsU32 isn) where
  write-Safe :
      (bytes : List ℕ) (c : TcpConnection)
      → IsValid source isn c
      → Safe source isn (second (write bytes c))
  unfolding write second
  write-Safe bytes c v = go (length bytes == 0) (fill_window-IsValid filled.sender filled_valid)
    where
      filled : TcpConnection
      filled = record c {
        sender = record (c.sender) { stream = (Stream.write bytes c.sender.stream).1 };
      }

      filled_valid : Invariant.IsValid filled.sender
      filled_valid =
          with_stream-IsValid (Stream.write bytes c.sender.stream).1
            (Contents.write-IsValid bytes v.sender.ready.stream) v.sender

      go :
          (b : Bool)
          → ((s : TcpSender) × (fill_window filled.sender ≡ some s)
              × Invariant.IsValid s
              × (s.consecutive_retransmission ≡ c.sender.consecutive_retransmission))
          → Safe source isn (
              second (
                if b
                then some (0, c)
                else (fill_window filled.sender >>= λ s. some (
                  (Stream.write bytes c.sender.stream).0,
                  send_segs_from_sender (record c { sender = s }),
                ))))
      go true f = (c, refl, v)
      go false (s, run, vs, e) = rw (run) (
        send_segs_from_sender (record c { sender = s }),
        refl,
        send_segs-IsValid source isn (record c { sender = s }) (λ t. omega (arith, v.few t, e))
            v.receiver vs,
      )

  read-Safe :
      (n : ℕ) (c : TcpConnection)
      → IsValid source isn c
      → Safe source isn (second_of_bytes (read_inbound n c))
  unfolding read_inbound second_of_bytes Receiver.stream_out Reassembler.input_ended
      Stream.input_ended
  read-Safe n c v = go (read_lem n c.receiver.reassembler.output)
    where
      go :
          ((st : ByteStream) × (Stream.read n c.receiver.reassembler.output
              ≡ some (take n (contents c.receiver.reassembler.output), st))
            × Popped n c.receiver.reassembler.output st)
          → Safe source isn (second_of_bytes (read_inbound n c))
      go (st, run, p) = rw (run) (
        _,
        refl,
        record {
          receiver = record {
            stream = Popped-Within source n st v.receiver.stream p;
            same_capacity = v.receiver.same_capacity;
            isn_known = v.receiver.isn_known;
            fin_after_syn = v.receiver.fin_after_syn;
            base_is = λ t. v.receiver.base_is t ∙ rw (p.same_end) refl;
          };
          sender = v.sender;
          few = v.few;
        },
      )

  pub end_input-Safe :
      (c : TcpConnection) → IsValid source isn c → Safe source isn (end_input_stream c)
  unfolding end_input_stream connect
  end_input-Safe c v =
      connect-IsValid source isn
        (record c { sender = record (c.sender) { stream = Stream.end_input c.sender.stream } })
        v.few v.receiver
        (with_stream-IsValid (Stream.end_input c.sender.stream)
          (end_input-IsValid v.sender.ready.stream) v.sender)

  -- Whatever is called on a valid connection, it returns and the connection stays valid.
  pub handle-Safe :
      (e : Event) (c : TcpConnection)
      → IsValid source isn c
      → Admissible source isn c e
      → Safe source isn (handle e c)
  unfolding handle
  handle-Safe connects c v a = connect-IsValid source isn c v.few v.receiver v.sender
  handle-Safe (receives seg) c v a = segment_received-Safe source isn hi seg c v a
  handle-Safe (writes bytes) c v a = write-Safe bytes c v
  handle-Safe (reads n) c v a = read-Safe n c v
  handle-Safe (ticks ms) c v a = tick-Safe source isn hi ms c v
  handle-Safe ends_input c v a = end_input-Safe c v

-- The states that calls lead to from `c`, the segments among them being the peer's.
pub data Reaches (source : ℕ → ℕ) (isn : WrappingInt32) (c : TcpConnection)
    : TcpConnection → Type 0 where
  here : Reaches source isn c c
  next :
      {d d' : TcpConnection} (e : Event)
      → Reaches source isn c d
      → Admissible source isn d e
      → handle e d ≡ some d'
      → Reaches source isn c d'

Safe-IsValid :
    {source : ℕ → ℕ} {isn : WrappingInt32} {o : Option TcpConnection} {d : TcpConnection}
    → Safe source isn o
    → o ≡ some d
    → IsValid source isn d
Safe-IsValid {source} {isn} (c, run, v) e =
    subst (λ o. if_some o (IsValid source isn)) (sym run ∙ e) v
  where
    if_some : Option TcpConnection → (TcpConnection → Type 0) → Type 0
    if_some none P = Unit
    if_some (some c) P = P c

Reaches-IsValid :
    (source : ℕ → ℕ) (isn : WrappingInt32) {c d : TcpConnection}
    → IsU32 isn
    → IsValid source isn c
    → Reaches source isn c d
    → IsValid source isn d
Reaches-IsValid source isn hi v here = v
Reaches-IsValid source isn hi v (next {d} {d'} e r a run) =
    Safe-IsValid (handle-Safe source isn hi e d (Reaches-IsValid source isn hi v r) a) run

-- A connection never fails: in every state that a new connection, with capacities that fit in
-- memory, can reach by calls of the application, ticks and segments of one peer, every further
-- such call returns, and the invariant of receiver and sender holds after it. The segments carry
-- the peer's stream at indices below 2 ^ 62, numbered within 2 GiB of the receiver's place.
pub never_fails :
    (source : ℕ → ℕ) (isn : WrappingInt32) (cfg : TcpConfig) (c : TcpConnection) (e : Event)
    → IsU32 isn
    → cfg.recv_capacity < 2 ^ 62
    → cfg.send_capacity < u64_mod
    → Reaches source isn (fresh cfg) c
    → Admissible source isn c e
    → Safe source isn (handle e c)
never_fails source isn cfg c e hi hr hs r a =
    handle-Safe source isn hi e c
      (Reaches-IsValid source isn hi (fresh-IsValid source isn cfg hr hs) r) a
