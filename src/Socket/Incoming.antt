-- ===== src/Socket/Incoming.antt =====
-- The peer's bytes go to the application, each once and in their order.
use nju_networking_lab.Base.{
  ℕ, zero, suc, ◌+◌, ◌≤◌, ◌<◌, ◌≡◌, refl, ◌∙◌, ap, arith, List, [], ◌∷◌, ◌++◌, length, take, drop,
  take-append-drop, append_assoc, min, Option, some, Bool, true, false, not, ◌&&◌, ◌||◌, ◌==◌, ltb,
  if◌then◌else◌, add32,
}
use nju_networking_lab.Wrap.{WrappingInt32}
use nju_networking_lab.Stream
use nju_networking_lab.Stream.{ByteStream}
use nju_networking_lab.Stream.Contents.{contents, pop_output_lem, peek_output_lem, Popped}
use nju_networking_lab.Reassembler.Reading.{Popped-Within}
use nju_networking_lab.Receiver
use nju_networking_lab.Reassembler
use nju_networking_lab.Connection.{TcpConnection, inbound_stream, with_inbound}
use nju_networking_lab.Connection.Parts.{IsValid}
use nju_networking_lab.Descriptor
use nju_networking_lab.Descriptor.{FileDescriptor}
use nju_networking_lab.Socket.{AdapterOps, Given, TcpSpongeSocket, deliver_bytes, shut_inbound}

take-take_lem :
    {A : Type 0} (k m : ℕ) (xs : List A) → k ≤ length (take m xs) → take k (take m xs) ≡ take k xs
take-take_lem zero m xs h = refl
take-take_lem (suc k) zero xs h = absurd (omega (arith, h))
take-take_lem (suc k) (suc m) [] h = refl
take-take_lem (suc k) (suc m) (x ∷ xs) h =
    ap (λ ys. x ∷ ys) (take-take_lem k m xs (omega (arith, h)))

-- One round writes what the system takes.
write_once :
    (takes : ℕ → ℕ) (buffer : List ℕ) (fd : FileDescriptor)
    → ((n : ℕ) → takes n ≤ n)
    → ((n : ℕ) → 0 < n → 0 < takes n)
    → Descriptor.write (λ round n. takes n) false buffer fd
      ≡ some (takes (length buffer), Descriptor.register_write fd)
unfolding Descriptor.write Descriptor.write_loop
write_once takes buffer fd few some_taken =
    let long : ltb (length buffer) (takes (length buffer)) ≡ false =
      ground (arith, few (length buffer)) in
    let none_taken : ((takes (length buffer) == 0) && not (length buffer == 0)) ≡ false =
      ground (arith, some_taken (length buffer)) in
    let count : 0 + takes (length buffer) ≡ takes (length buffer) = omega arith in
    simp (none_taken, long, count) refl

module _ (source : ℕ → ℕ) (isn : WrappingInt32) where
  with_inbound-IsValid :
      (n : ℕ) (st : ByteStream) (c : TcpConnection)
      → IsValid source isn c
      → Popped n (inbound_stream c) st
      → IsValid source isn (with_inbound c st)
  unfolding with_inbound inbound_stream Receiver.stream_out Reassembler.input_ended
      Stream.input_ended
  with_inbound-IsValid n st c v p = record {
    receiver = record {
      stream = Popped-Within source n st v.receiver.stream p;
      same_capacity = v.receiver.same_capacity;
      isn_known = v.receiver.isn_known;
      fin_after_syn = v.receiver.fin_after_syn;
      base_is = λ t. v.receiver.base_is t ∙ rw (p.same_end) refl;
    };
    sender = v.sender;
    few = v.few;
  }

  module _ {A D : Type 0} (ops : AdapterOps A D) where
    -- What the application has of the peer's stream, and what waits for it.
    abbrev pub handed : TcpSpongeSocket A → TcpConnection → List ℕ
    handed s c = s.delivered ++ contents (inbound_stream c)

    abbrev pub Delivered : ℕ → List ℕ → Option (TcpSpongeSocket A) → Type 0
    Delivered writes bytes o =
        (s : TcpSpongeSocket A) × (c : TcpConnection) × (o ≡ some s)
        × (s.tcp ≡ some c)
        × IsValid source isn c
        × (handed s c ≡ bytes)
        × ((writes == s.thread_data.write_count) ≡ false)

    shut :
        (b : Bool) (writes : ℕ) (bytes : List ℕ) (s : TcpSpongeSocket A) (c : TcpConnection)
        → s.tcp ≡ some c
        → IsValid source isn c
        → handed s c ≡ bytes
        → s.thread_data.write_count ≡ add32 writes 1
        → Delivered writes bytes (some (if b then shut_inbound ops s else s))
    unfolding shut_inbound Descriptor.shutdown Descriptor.register_write
    shut true writes bytes s c e v h n = (shut_inbound ops s, c, refl, e, v, h, ground (arith, n))
    shut false writes bytes s c e v h n = (s, c, refl, e, v, h, ground (arith, n))

    moved :
        (n m : ℕ) (before : List ℕ) (c : TcpConnection) (st : ByteStream)
        → n ≤ length (Stream.peek_output m (inbound_stream c))
        → Popped n (inbound_stream c) st
        → (before ++ take n (Stream.peek_output m (inbound_stream c)))
            ++ contents (inbound_stream (with_inbound c st))
          ≡ before ++ contents (inbound_stream c)
    unfolding with_inbound inbound_stream Receiver.stream_out
    moved n m before c st h p =
        let held = contents (inbound_stream c) in
        let h' : n ≤ length (take m held) = rw (peek_output_lem m (inbound_stream c)) at h in
        rw (peek_output_lem m (inbound_stream c), take-take_lem n m held h', p.rest)
          (append_assoc before (take n held) (drop n held)
            ∙ ap (λ bs. before ++ bs) (take-append-drop n held))

    -- On a socket with a valid connection, the callback that writes to the application never throws,
    -- where the pipe takes no more bytes than it is offered and a byte at least when it is offered
    -- any: the bytes that were delivered, followed by those that the inbound stream holds, are the
    -- same before and after, so no byte is lost, repeated or moved; the connection stays valid, and
    -- the descriptor's number of writes changes.
    pub deliver_bytes_lem :
        (given : Given D) (s : TcpSpongeSocket A) (c : TcpConnection)
        → s.tcp ≡ some c
        → IsValid source isn c
        → ((n : ℕ) → given.pipe_write n ≤ n)
        → ((n : ℕ) → 0 < n → 0 < given.pipe_write n)
        → Delivered s.thread_data.write_count (handed s c) (deliver_bytes ops given s)
    unfolding deliver_bytes Descriptor.register_write
    deliver_bytes_lem given s c e v few some_taken =
        let m = min 65536 (Stream.buffer_size (inbound_stream c)) in
        let buffer = Stream.peek_output m (inbound_stream c) in
        let n = given.pipe_write (length buffer) in
        let (st, run, p) = pop_output_lem n (inbound_stream c) in
        let fd = Descriptor.register_write s.thread_data in
        rw (e) (
          rw (write_once given.pipe_write buffer s.thread_data few some_taken) (
            rw (run) (
              shut (Stream.eof st || st.error) s.thread_data.write_count (handed s c)
                (record s {
                  tcp = some (with_inbound c st);
                  thread_data = fd;
                  delivered = s.delivered ++ take n buffer;
                })
                (with_inbound c st) refl (with_inbound-IsValid n st c v p)
                (moved n m s.delivered c st (few (length buffer)) p) refl)))
