-- ===== src/Socket/Served.antt =====
-- The rules of the application's descriptor under the event loop.
use nju_networking_lab.Base.{ℕ, ◌≤◌, ◌<◌, ◌≡◌, refl, arith, length, some, false, ◌==◌, IsU32}
use nju_networking_lab.Wrap.{WrappingInt32}
use nju_networking_lab.Connection.{TcpConnection}
use nju_networking_lab.Connection.Parts.{IsValid}
use nju_networking_lab.Loop.{service_count, serve}
use nju_networking_lab.Socket.{AdapterOps, Given, TcpSpongeSocket, bytes_rule, delivery_rule}
use nju_networking_lab.Socket.Outgoing.{Sent, send_bytes_lem}
use nju_networking_lab.Socket.Incoming.{Delivered, handed, deliver_bytes_lem}

module _ (source : ℕ → ℕ) (isn : WrappingInt32) (hi : IsU32 isn) {A D : Type 0}
    (ops : AdapterOps A D) where
  -- When the descriptor of the application is ready, the event loop serves both of its rules
  -- without an exception, on a socket with a valid connection, where a system read gives no more
  -- than it is asked for, and the pipe takes no more bytes than it is offered and a byte at least
  -- when it is offered any: the loop never reports a busy wait. The connection stays valid after
  -- both, and the rule that delivers keeps the peer's bytes, delivered and waiting, as they are.
  pub application_rules-serve :
      (given : Given D) (s : TcpSpongeSocket A) (c : TcpConnection)
      → s.tcp ≡ some c
      → IsValid source isn c
      → ((n : ℕ) → length (given.pipe_read n) ≤ n)
      → ((n : ℕ) → given.pipe_write n ≤ n)
      → ((n : ℕ) → 0 < n → 0 < given.pipe_write n)
      → Sent source isn hi ops s.thread_data.read_count (serve (bytes_rule ops) given s)
        × Delivered source isn ops s.thread_data.write_count
            (handed source isn ops s c)
            (serve (delivery_rule ops) given s)
  unfolding serve service_count
  application_rules-serve given s c e v reads takes some_taken =
      let (s1, c1, run1, e1, v1, n1) = send_bytes_lem source isn hi ops given s c e v reads in
      let (s2, c2, run2, e2, v2, h2, n2) =
        deliver_bytes_lem source isn ops given s c e v takes some_taken in
      let read : (s.thread_data.read_count == s1.thread_data.read_count) ≡ false =
        ground (arith, n1) in
      (
        (s1, c1, rw (run1) (rw (read) refl), e1, v1, n1),
        (s2, c2, rw (run2) (rw (n2) refl), e2, v2, h2, n2),
      )
