-- ===== src/Connection/Events.antt =====
-- Segments that arrive at a connection are handled and keep the invariant.
use nju_networking_lab.Base.{ℕ, ◌+◌, ◌^◌, ◌≤◌, ◌<◌, ◌≡◌, refl, inl, inr, arith, List, ◌∷◌}
use nju_networking_lab.Base.{
  length, IsU32, Option, some, ◌>>=◌, Bool, true, false, not, ◌&&◌, ◌||◌, if◌then◌else◌, ltb,
  Bool-cases,
}
use nju_networking_lab.Wrap.{WrappingInt32}
use nju_networking_lab.Wire.TcpSegment.{TcpSegment}
use nju_networking_lab.Reassembler.Invariant.{window_end}
use nju_networking_lab.Receiver
use nju_networking_lab.Receiver.{TcpReceiver}
use nju_networking_lab.Receiver.Accept
use nju_networking_lab.Receiver.Handle.{segment_received_lem}
use nju_networking_lab.Receiver.Accept.{Genuine, Outcome}
use nju_networking_lab.Sender
use nju_networking_lab.Sender.{TcpSender, send_empty_segment}
use nju_networking_lab.Sender.Invariant
use nju_networking_lab.Sender.Operations.{ack_received-IsValid, send_empty_segment-IsValid}
use nju_networking_lab.Connection.{
  TcpConnection, connect, receive_listening, receive_unacked, respond, receive_open, is_listening,
  is_syn_sent, segment_received, set_errors, send_segs_from_sender, unclean_shutdown,
}
use nju_networking_lab.Connection.Parts.{
  IsValid, Safe, Reset, send_segs-IsValid, set_errors-IsValid, unclean_shutdown_lem,
  front_of_append, connect-IsValid,
}

-- A segment of the peer that the receiver can place.
abbrev pub Arrives : (ℕ → ℕ) → WrappingInt32 → TcpConnection → TcpSegment → Type 0
Arrives source isn c seg =
    (k : ℕ) × (k + length seg.payload < 2 ^ 62)
    × (window_end c.receiver.reassembler < 2 ^ 62)
    × Genuine source isn c.receiver seg k

module _ (source : ℕ → ℕ) (isn : WrappingInt32) (hi : IsU32 isn) where
  -- The receiver takes the segment, and the connection goes on.
  receiver_first :
      (c : TcpConnection) (seg : TcpSegment) (go : TcpReceiver → Option TcpConnection)
      → Accept.IsValid source isn c.receiver
      → Arrives source isn c seg
      → ((r : TcpReceiver) → Accept.IsValid source isn r → Safe source isn (go r))
      → Safe source isn (Receiver.segment_received c.receiver seg >>= go)
  receiver_first c seg go v (k, fits, window, g) next =
      after (segment_received_lem source isn hi c.receiver seg k v window fits g)
    where
      after :
          ((r : TcpReceiver) × (Receiver.segment_received c.receiver seg ≡ some r)
            × Accept.IsValid source isn r
            × Outcome source k seg c.receiver r)
          → Safe source isn (Receiver.segment_received c.receiver seg >>= go)
      after (r, run, v', o) = rw (run) (next r v')

  respond-Safe :
      (seg : TcpSegment) (c : TcpConnection)
      → IsValid source isn c
      → Safe source isn (respond seg c)
  unfolding respond send_empty_segment
  respond-Safe seg c v = elim (Bool-cases seg.header.rst) [
    | inl t ↦ simp (t) (reset (front_of_append source isn c.sender.segments_out _))
    | inr f ↦ simp (f) (_, refl, answers _)
  ]
    where
      empty_sent : TcpConnection
      empty_sent = record c { sender = send_empty_segment c.sender }

      reset :
          ((front : TcpSegment) × (segs : List TcpSegment) × (empty_sent.sender.segments_out
              ≡ front ∷ segs))
          → Safe source isn (unclean_shutdown empty_sent)
      reset (front, segs, e) = ends (
          unclean_shutdown_lem source isn empty_sent front segs e v.receiver
            (send_empty_segment-IsValid c.sender v.sender))
        where
          ends :
              ((c' : TcpConnection) × (unclean_shutdown empty_sent ≡ some c')
                × Reset source isn empty_sent c')
              → Safe source isn (unclean_shutdown empty_sent)
          ends (c', run, r) = (c', run, r.valid)

      answers :
          (b : Bool) → IsValid source isn (send_segs_from_sender (if b then empty_sent else c))
      answers true =
          send_segs-IsValid source isn empty_sent v.few v.receiver
            (send_empty_segment-IsValid c.sender v.sender)
      answers false = send_segs-IsValid source isn c v.few v.receiver v.sender

  receive_open-Safe :
      (seg : TcpSegment) (c : TcpConnection)
      → IsValid source isn c
      → Arrives source isn c seg
      → Safe source isn (receive_open seg c)
  unfolding receive_open
  receive_open-Safe seg c v a =
      receiver_first c seg _ v.receiver a (λ r vr.
        acked r vr (ack_received-IsValid seg.header.ackno seg.header.win c.sender v.sender))
    where
      acked :
          (r : TcpReceiver)
          → Accept.IsValid source isn r
          → ((s : TcpSender) × (Sender.ack_received seg.header.ackno seg.header.win c.sender
                ≡ some s)
              × Invariant.IsValid s
              × (s.consecutive_retransmission ≤ c.sender.consecutive_retransmission))
          → Safe source isn (
              Sender.ack_received seg.header.ackno seg.header.win c.sender >>= λ s.
              respond seg (record c { receiver = r; sender = s }))
      acked r vr (s, run, vs, le) = rw (run) (
          respond-Safe seg (record c { receiver = r; sender = s })
            (record { receiver = vr; sender = vs; few = λ t. omega (arith, v.few t, le) }))

  -- A test of which one knows the outcome, and one of which one does not.
  pub on_true :
      (b : Bool) (o p : Option TcpConnection)
      → b ≡ true
      → Safe source isn o
      → Safe source isn (if b then o else p)
  on_true b o p e h = rw (e) h

  pub on_false :
      (b : Bool) (o p : Option TcpConnection)
      → b ≡ false
      → Safe source isn p
      → Safe source isn (if b then o else p)
  on_false b o p e h = rw (e) h

  on_either :
      (b : Bool) (o p : Option TcpConnection)
      → Safe source isn o
      → Safe source isn p
      → Safe source isn (if b then o else p)
  on_either true o p ho hp = ho
  on_either false o p ho hp = hp

  receive_listening-Safe :
      (seg : TcpSegment) (c : TcpConnection)
      → IsValid source isn c
      → Arrives source isn c seg
      → Safe source isn (receive_listening seg c)
  unfolding receive_listening
  receive_listening-Safe seg c v a =
      on_either (not seg.header.syn) _ _ (c, refl, v)
        (receiver_first c seg (λ r. connect (record c { receiver = r })) v.receiver a
          (λ r vr. connect-IsValid source isn (record c { receiver = r }) v.few vr v.sender))

  receive_unacked-Safe :
      (seg : TcpSegment) (c : TcpConnection)
      → IsValid source isn c
      → Arrives source isn c seg
      → Safe source isn (receive_unacked seg c)
  unfolding receive_unacked send_empty_segment
  receive_unacked-Safe seg c v a =
      on_either (not seg.header.ack && seg.header.syn) _ _
        (receiver_first c seg
          (λ r. some (record c { receiver = r; sender = send_empty_segment c.sender })) v.receiver a
          (λ r vr. (_, refl, unacked r vr)))
        (c, refl, v)
    where
      unacked :
          (r : TcpReceiver)
          → Accept.IsValid source isn r
          → IsValid source isn (record c { receiver = r; sender = send_empty_segment c.sender })
      unacked r vr = record {
        receiver = vr;
        sender = send_empty_segment-IsValid c.sender v.sender;
        few = v.few;
      }

  pub segment_received-Safe :
      (seg : TcpSegment) (c : TcpConnection)
      → IsValid source isn c
      → Arrives source isn c seg
      → Safe source isn (segment_received seg c)
  unfolding segment_received
  segment_received-Safe seg c0 v0 a =
      on_either (not c0.active) _ _ (c0, refl, v0)
        (on_either (is_listening c) _ _ (receive_listening-Safe seg c v a) (
          on_either (is_syn_sent c) _ _
            (on_either (ltb 0 (length seg.payload) || not seg.header.ack) _ _
              (receive_unacked-Safe seg c v a)
              (on_either seg.header.rst _ _
                (set_errors c, refl, set_errors-IsValid source isn c v.receiver v.sender)
                (receive_open-Safe seg c v a)))
            (receive_open-Safe seg c v a)))
    where
      c : TcpConnection
      c = record c0 { time_since_last_segment = 0 }

      v : IsValid source isn c
      v = record { receiver = v0.receiver; sender = v0.sender; few = v0.few }
