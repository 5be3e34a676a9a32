-- ===== src/Socket/Outgoing.antt =====
-- The bytes of the application go to the connection, all of them.
use nju_networking_lab.Base.{
  ℕ, ◌≤◌, ◌≡◌, refl, inl, inr, arith, List, length, min, Option, some, Bool, true, false, ◌&&◌,
  ◌||◌, ◌==◌, ltb, if◌then◌else◌, Bool-cases, add32, IsU32,
}
use nju_networking_lab.Wrap.{WrappingInt32}
use nju_networking_lab.Stream
use nju_networking_lab.Stream.Contents
use nju_networking_lab.Sender.{TcpSender, fill_window}
use nju_networking_lab.Sender.Invariant
use nju_networking_lab.Sender.Operations.{fill_window-IsValid}
use nju_networking_lab.Connection.{
  TcpConnection, write, send_segs_from_sender, remaining_outbound_capacity,
}
use nju_networking_lab.Connection.Parts.{IsValid, send_segs-IsValid, with_stream-IsValid}
use nju_networking_lab.Connection.Everything.{end_input-Safe}
use nju_networking_lab.Descriptor
use nju_networking_lab.Descriptor.{FileDescriptor}
use nju_networking_lab.Socket.{AdapterOps, Given, TcpSpongeSocket, send_bytes, end_outgoing}

-- A read gives at most what it asks for, once the system does.
read_lem :
    (system_read : ℕ → List ℕ) (limit : ℕ) (fd : FileDescriptor)
    → ((n : ℕ) → length (system_read n) ≤ n)
    → (bytes : List ℕ) × (fd' : FileDescriptor) × (Descriptor.read system_read limit fd
        ≡ some (bytes, fd'))
      × (length bytes ≤ limit)
      × (fd'.read_count ≡ add32 fd.read_count 1)
unfolding Descriptor.read Descriptor.register_read
read_lem system_read limit fd few =
    let n = min Descriptor.buffer_size limit in
    let short : ltb n (length (system_read n)) ≡ false = ground (arith, few n) in
    (
      system_read n,
      Descriptor.register_read
          (record fd { eof = (ltb 0 limit && (length (system_read n) == 0)) || fd.eof }),
      rw (short) refl,
      omega (arith, few n),
      refl,
    )

module _ (source : ℕ → ℕ) (isn : WrappingInt32) where
  -- What fits is written whole.
  write_whole :
      (bytes : List ℕ) (c : TcpConnection)
      → IsValid source isn c
      → length bytes ≤ remaining_outbound_capacity c
      → (c' : TcpConnection) × (write bytes c ≡ some (length bytes, c')) × IsValid source isn c'
  unfolding write remaining_outbound_capacity
  write_whole bytes c v fits = elim (Bool-cases (length bytes == 0)) [
    | inl e ↦ let z : 0 ≡ length bytes = ground (arith, e) in (c, rw (e) (rw (z) refl), v)
    | inr e ↦ go e (fill_window-IsValid filled filled_valid)
  ]
    where
      filled : TcpSender
      filled = record (c.sender) { stream = (Stream.write bytes c.sender.stream).1 }

      filled_valid : Invariant.IsValid filled
      filled_valid =
          with_stream-IsValid (Stream.write bytes c.sender.stream).1
            (Contents.write-IsValid bytes v.sender.ready.stream) v.sender

      count : (Stream.write bytes c.sender.stream).0 ≡ length bytes
      count = omega (arith, Contents.write-count bytes c.sender.stream)

      go :
          (length bytes == 0) ≡ false
          → ((s : TcpSender) × (fill_window filled ≡ some s)
              × Invariant.IsValid s
              × (s.consecutive_retransmission ≡ c.sender.consecutive_retransmission))
          → (c' : TcpConnection) × (write bytes c ≡ some (length bytes, c')) × IsValid source isn c'
      go e (s, run, vs, same) = (
        send_segs_from_sender (record c { sender = s }),
        rw (e) (rw (run) (rw (count) refl)),
        send_segs-IsValid source isn (record c { sender = s }) (λ t. omega (arith, v.few t, same))
            v.receiver vs,
      )

  module _ (hi : IsU32 isn) {A D : Type 0} (ops : AdapterOps A D) where
    -- What the callback leaves: a socket with a valid connection, and one read more.
    abbrev pub Sent : ℕ → Option (TcpSpongeSocket A) → Type 0
    Sent reads o =
        (s : TcpSpongeSocket A) × (c : TcpConnection) × (o ≡ some s)
        × (s.tcp ≡ some c)
        × IsValid source isn c
        × (s.thread_data.read_count ≡ add32 reads 1)

    ended :
        (b : Bool) (reads : ℕ) (s : TcpSpongeSocket A) (c : TcpConnection)
        → s.tcp ≡ some c
        → IsValid source isn c
        → s.thread_data.read_count ≡ add32 reads 1
        → Sent reads (if b then end_outgoing ops s else some s)
    unfolding end_outgoing
    ended true reads s c e v h =
        let (c', run, v') = end_input-Safe source isn hi c v in
        (
          record s { tcp = some c'; outbound_shutdown = true },
          c',
          rw (e) (rw (run) refl),
          refl,
          v',
          h,
        )
    ended false reads s c e v h = (s, c, refl, e, v, h)

    -- On a socket with a valid connection, the callback that reads the application's bytes never
    -- throws, where a system read gives no more than it is asked for: the connection takes every
    -- byte that the pipe gives for the capacity that it advertises, and stays valid, also when the
    -- pipe is at its end, and the descriptor counts one read more.
    pub send_bytes_lem :
        (given : Given D) (s : TcpSpongeSocket A) (c : TcpConnection)
        → s.tcp ≡ some c
        → IsValid source isn c
        → ((n : ℕ) → length (given.pipe_read n) ≤ n)
        → Sent s.thread_data.read_count (send_bytes ops given s)
    unfolding send_bytes
    send_bytes_lem given s c e v few =
        let (bytes, fd, run, fits, count) =
          read_lem given.pipe_read (remaining_outbound_capacity c) s.thread_data few in
        let (c', run', v') = write_whole bytes c v fits in
        let same : (length bytes == length bytes) ≡ true = ground arith in
        rw (e) (
          rw (run) (
            rw (run') (
              rw (same) (
                ended fd.eof s.thread_data.read_count (record s { tcp = some c'; thread_data = fd })
                  c' refl v' count))))
