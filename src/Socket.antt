-- ===== src/Socket.antt =====
-- libsponge/tcp_helpers/tcp_sponge_socket: a connection, an adapter and a pipe to the application,
-- driven by an event loop. `none` is an exception, or the use of a connection that is not
-- there, where the interest in an event is false. What is printed for debugging is left out.
pub mod Running
mod Outgoing
mod Incoming
mod Opening
mod Served
mod Tests
use nju_networking_lab.Base.{
  ℕ, List, [], ◌∷◌, ◌++◌, min, Option, none, some, ◌>>=◌, Bool, true, false, not, ◌&&◌, ◌||◌,
}
use nju_networking_lab.Base.{ltb, ◌==◌, if◌then◌else◌, length, take, sub64}
use nju_networking_lab.Stream
use nju_networking_lab.Wire.TcpSegment.{TcpSegment}
use nju_networking_lab.Connection
use nju_networking_lab.Connection.{
  TcpConfig, TcpConnection, remaining_outbound_capacity, bytes_in_flight, inbound_stream,
  with_inbound,
}
use nju_networking_lab.Adapter.{FdAdapterConfig}
use nju_networking_lab.Descriptor
use nju_networking_lab.Descriptor.{FileDescriptor}
use nju_networking_lab.Loop.{Rule, Direction, input, output, Result, Poll, add_rule}

-- What the socket uses of its adapter `A`, which reads a `D` from its device.
pub record AdapterOps (A D : Type 0) : Type 0 where
  pub descriptor : A → FileDescriptor
  pub read : D → A → Option (Option TcpSegment × A)
  pub write : TcpSegment → A → Option A
  pub tick : ℕ → A → A
  pub set_config : FdAdapterConfig → A → A
  pub set_listening : Bool → A → A

-- What the system gives to a callback: a datagram, the bytes in the pipe for a number that is asked
-- for, and how many of a number of bytes the pipe takes.
pub record Given (D : Type 0) : Type 0 where
  pub datagram : D
  pub pipe_read : ℕ → List ℕ
  pub pipe_write : ℕ → ℕ

-- `delivered` is what was written into the pipe for the application.
pub record TcpSpongeSocket (A : Type 0) : Type 0 where
  pub thread_data : FileDescriptor
  pub adapter : A
  pub tcp : Option TcpConnection
  pub delivered : List ℕ
  pub abort : Bool
  pub inbound_shutdown : Bool
  pub outbound_shutdown : Bool
  pub fully_acked : Bool

-- The constructor.
abbrev pub fresh : {A : Type 0} → A → TcpSpongeSocket A
fresh adapter = record {
  thread_data = Descriptor.fresh;
  adapter = adapter;
  tcp = none;
  delivered = [];
  abort = false;
  inbound_shutdown = false;
  outbound_shutdown = false;
  fully_acked = false;
}

module _ {A D : Type 0} (ops : AdapterOps A D) where
  -- Rule 1: a datagram.
  give : Option TcpSegment → TcpConnection → Option TcpConnection
  give none c = some c
  give (some seg) c = Connection.segment_received seg c

  unfoldable pub receive_datagram : Given D → TcpSpongeSocket A → Option (TcpSpongeSocket A)
  unfolding give
  receive_datagram given s = s.tcp >>= λ c. ops.read given.datagram s.adapter >>= λ r.
      give r.0 c >>= λ c'.
      (let acked = s.thread_data.eof && ((bytes_in_flight c' == 0) && not s.fully_acked) in
        some (record s { adapter = r.1; tcp = some c'; fully_acked = acked || s.fully_acked }))

  unfoldable pub wants_datagram : TcpSpongeSocket A → Bool
  wants_datagram s = elim s.tcp [ none ↦ false | some c ↦ c.active ]

  -- Rule 2: bytes from the application.
  unfoldable pub end_outgoing : TcpSpongeSocket A → Option (TcpSpongeSocket A)
  end_outgoing s = s.tcp >>= λ c. Connection.end_input_stream c >>= λ c'.
      some (record s { tcp = some c'; outbound_shutdown = true })

  unfoldable pub send_bytes : Given D → TcpSpongeSocket A → Option (TcpSpongeSocket A)
  unfolding end_outgoing
  send_bytes given s = s.tcp >>= λ c.
      Descriptor.read given.pipe_read (remaining_outbound_capacity c) s.thread_data >>= λ r.
      Connection.write r.0 c >>= λ w.
      (let s' = record s { tcp = some w.1; thread_data = r.1 } in
        if not (w.0 == length r.0) then none else if r.1.eof then end_outgoing s' else some s')

  unfoldable pub wants_bytes : TcpSpongeSocket A → Bool
  wants_bytes s = elim s.tcp [
    | none ↦ false
    | some c ↦ c.active && (not s.outbound_shutdown && ltb 0 (remaining_outbound_capacity c))
  ]

  -- Rule 3: bytes for the application.
  shut_inbound : TcpSpongeSocket A → TcpSpongeSocket A
  shut_inbound s = record s {
    thread_data = Descriptor.shutdown Descriptor.shut_wr s.thread_data;
    inbound_shutdown = true;
  }

  unfoldable pub deliver_bytes : Given D → TcpSpongeSocket A → Option (TcpSpongeSocket A)
  unfolding shut_inbound
  deliver_bytes given s = s.tcp >>= λ c.
      (let buffer =
          Stream.peek_output (min 65536 (Stream.buffer_size (inbound_stream c)))
            (inbound_stream c) in
        Descriptor.write (λ round n. given.pipe_write n) false buffer s.thread_data >>= λ w.
        Stream.pop_output w.0 (inbound_stream c) >>= λ st.
        (let s' = record s {
          tcp = some (with_inbound c st);
          thread_data = w.1;
          delivered = s.delivered ++ take w.0 buffer;
        } in
          some (if Stream.eof st || st.error then shut_inbound s' else s')))

  unfoldable pub wants_delivery : TcpSpongeSocket A → Bool
  wants_delivery s = elim s.tcp [
    | none ↦ false
    | some c ↦
        let st = inbound_stream c in
        not (Stream.buffer_empty st) || ((Stream.eof st || st.error) && not s.inbound_shutdown)
  ]

  -- Rule 4: segments for the peer.
  write_all : List TcpSegment → A → Option A
  write_all [] a = some a
  write_all (seg ∷ segs) a = ops.write seg a >>= write_all segs

  unfoldable pub send_segments : Given D → TcpSpongeSocket A → Option (TcpSpongeSocket A)
  unfolding write_all
  send_segments given s = s.tcp >>= λ c. write_all c.segments_out s.adapter >>= λ a.
      some (record s { tcp = some (record c { segments_out = [] }); adapter = a })

  abbrev has_segments : List TcpSegment → Bool
  has_segments [] = false
  has_segments (seg ∷ segs) = true

  unfoldable pub wants_segments : TcpSpongeSocket A → Bool
  wants_segments s = elim s.tcp [ none ↦ false | some c ↦ has_segments c.segments_out ]

  -- The four rules of `_initialize_TCP`, which it adds to those of the loop.
  abbrev pub datagram_rule : Rule (TcpSpongeSocket A) (Given D)
  datagram_rule = record {
    fd = λ s. ops.descriptor s.adapter;
    direction = input;
    callback = receive_datagram;
    interest = wants_datagram;
    cancel = λ s. some s;
  }

  abbrev pub bytes_rule : Rule (TcpSpongeSocket A) (Given D)
  bytes_rule = record {
    fd = λ s. s.thread_data;
    direction = input;
    callback = send_bytes;
    interest = wants_bytes;
    cancel = end_outgoing;
  }

  abbrev pub delivery_rule : Rule (TcpSpongeSocket A) (Given D)
  delivery_rule = record {
    fd = λ s. s.thread_data;
    direction = output;
    callback = deliver_bytes;
    interest = wants_delivery;
    cancel = λ s. some s;
  }

  abbrev pub segments_rule : Rule (TcpSpongeSocket A) (Given D)
  segments_rule = record {
    fd = λ s. ops.descriptor s.adapter;
    direction = output;
    callback = send_segments;
    interest = wants_segments;
    cancel = λ s. some s;
  }

  unfoldable pub add_rules :
      List (Rule (TcpSpongeSocket A) (Given D)) → List (Rule (TcpSpongeSocket A) (Given D))
  add_rules rs =
      add_rule segments_rule
        (add_rule delivery_rule (add_rule bytes_rule (add_rule datagram_rule rs)))
