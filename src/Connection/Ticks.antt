-- ===== src/Connection/Ticks.antt =====
-- The passing of time at a connection is handled and keeps the invariant.
use nju_networking_lab.Base.{ℕ, ◌≡◌, refl, ◌∙◌, inl, inr, arith, List, ◌∷◌}
use nju_networking_lab.Base.{
  IsU32, Option, some, ◌>>=◌, true, not, if◌then◌else◌, ltb, Bool-cases, add64,
}
use nju_networking_lab.Wrap.{WrappingInt32}
use nju_networking_lab.Wire.TcpSegment.{TcpSegment}
use nju_networking_lab.Sender
use nju_networking_lab.Sender.{TcpSender, send_empty_segment}
use nju_networking_lab.Sender.Invariant
use nju_networking_lab.Sender.Operations.{
  tick_lem, SameQueue, Ticked, Retransmitted, Waited, expired,
}
use nju_networking_lab.Connection.{
  TcpConnection, max_retx_attempts, tick, send_segs_from_sender, unclean_shutdown,
}
use nju_networking_lab.Connection.Parts.{
  IsValid, Safe, Reset, send_segs-IsValid, unclean_shutdown_lem, front_of_append,
}
use nju_networking_lab.Connection.Events.{on_true, on_false}

module _ (source : ℕ → ℕ) (isn : WrappingInt32) (hi : IsU32 isn) where
  -- A tick gives up only with a segment at hand for the reset: more retransmissions than allowed are
  -- counted only when one has just been made.
  gives_up :
      (ms : ℕ) (c : TcpConnection) (s : TcpSender)
      → IsValid source isn c
      → c.active ≡ true
      → Ticked ms c.sender s
      → ltb max_retx_attempts s.consecutive_retransmission ≡ true
      → (front : TcpSegment) × (segs : List TcpSegment) × (s.segments_out ≡ front ∷ segs)
  gives_up ms c s v on t many = elim (Bool-cases (expired ms c.sender)) [
    | inl e ↦
        let r : Retransmitted c.sender s = rw (e) at t in
        let (front, segs, is) = front_of_append source isn c.sender.segments_out r.oldest in
        (front, segs, r.sent ∙ is)
    | inr e ↦
        let w : Waited ms c.sender s = rw (e) at t in
        let few = v.few on in absurd (ground (arith, w.same_count, few))
  ]

  pub tick-Safe : (ms : ℕ) (c : TcpConnection) → IsValid source isn c → Safe source isn (tick ms c)
  unfolding tick
  tick-Safe ms c v = elim (Bool-cases c.active) [
    | inr f ↦ on_true source isn hi (not c.active) _ _ (rw (f) refl) (c, refl, v)
    | inl on ↦
        on_false source isn hi (not c.active) _ _ (rw (on) refl)
          (ticked on (tick_lem ms c.sender v.sender))
  ]
    where
      later : TcpSender → TcpConnection
      later s = record c {
        sender = s;
        time_since_last_segment = add64 c.time_since_last_segment ms;
      }

      next : TcpSender → Option TcpConnection
      next s =
          if ltb max_retx_attempts s.consecutive_retransmission
          then (unclean_shutdown (later s) >>= λ c''. some (send_segs_from_sender c''))
          else some (send_segs_from_sender (later s))

      down :
          (s : TcpSender)
          → ((c' : TcpConnection) × (unclean_shutdown (later s) ≡ some c')
              × Reset source isn (later s) c')
          → Safe source isn (unclean_shutdown (later s) >>= λ c''. some (send_segs_from_sender c''))
      down s (c', run, r) = rw (run) (
        send_segs_from_sender c',
        refl,
        send_segs-IsValid source isn c' r.valid.few r.valid.receiver r.valid.sender,
      )

      reset :
          (s : TcpSender)
          → Invariant.IsValid s
          → ((front : TcpSegment) × (segs : List TcpSegment) × (s.segments_out ≡ front ∷ segs))
          → Safe source isn (unclean_shutdown (later s) >>= λ c''. some (send_segs_from_sender c''))
      reset s vs (front, segs, e) =
          down s (unclean_shutdown_lem source isn (later s) front segs e v.receiver vs)

      ticked :
          c.active ≡ true
          → ((s : TcpSender) × (Sender.tick ms c.sender ≡ some s)
              × Invariant.IsValid s
              × SameQueue c.sender s
              × Ticked ms c.sender s)
          → Safe source isn (Sender.tick ms c.sender >>= next)
      ticked on (s, run, vs, same, t) =
          rw (run) (elim (Bool-cases (ltb max_retx_attempts s.consecutive_retransmission)) [
            | inl many ↦ on_true source isn hi _ _ _ many (reset s vs (gives_up ms c s v on t many))
            | inr few ↦ on_false source isn hi _ _ _ few (
              send_segs_from_sender (later s),
              refl,
              send_segs-IsValid source isn (later s) (λ on'. ground arith) v.receiver vs,
            )
          ])
