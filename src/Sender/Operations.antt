-- ===== src/Sender/Operations.antt =====
-- The sender's operations on every branch: each returns and keeps the invariant.
use nju_networking_lab.Base.{
  ◌≤◌, ℕ, ◌*◌, ◌%◌, ◌≡◌, refl, sym, ◌∙◌, inl, inr, arith, List, [], ◌∷◌, ◌++◌,
}
use nju_networking_lab.Base.{
  some, Bool, true, false, not, ◌&&◌, if◌then◌else◌, ltb, leb, ◌==◌, Bool-cases, add64, add32,
  u32_mod,
}
use nju_networking_lab.Wrap.{WrappingInt32, unwrap}
use nju_networking_lab.Wire.TcpSegment.{TcpSegment}
use nju_networking_lab.Sender.{
  reset_timer, TcpSender, is_empty, fill_window, advance, ack_received, retransmit, tick,
  send_empty_segment,
}
use nju_networking_lab.Sender.Sent.{Sent}
use nju_networking_lab.Sender.Fill.{fill_window_lem}
use nju_networking_lab.Sender.Invariant.{IsValid, Sent-IsValid, advance_lem}

-- The same queue of outstanding segments and the same counters.
abbrev pub SameQueue : TcpSender → TcpSender → Type 0
SameQueue s s' =
    (s'.outstanding ≡ s.outstanding)
    × (s'.next_seqno ≡ s.next_seqno)
    × (s'.bytes_in_flight ≡ s.bytes_in_flight)
    × (s'.timer_running ≡ s.timer_running)
    × (s'.stream ≡ s.stream)
    × (s'.isn ≡ s.isn)

still-IsValid : {s s' : TcpSender} → SameQueue s s' → IsValid s → IsValid s'
still-IsValid {s} {s'} (a, b, c, d, e, f) v = record {
  ready = record {
    stream = rw (e) v.ready.stream;
    next_small = rw (b) v.ready.next_small;
    flight_small = rw (c) v.ready.flight_small;
  };
  chained = rw (a, b, f) v.chained;
  flight = rw (a, c) v.flight;
  timer = rw (a, d) v.timer;
}

-- `fill_window` keeps the invariant, and always returns.
pub fill_window-IsValid :
    (s : TcpSender)
    → IsValid s
    → (s' : TcpSender) × (fill_window s ≡ some s')
      × IsValid s'
      × (s'.consecutive_retransmission ≡ s.consecutive_retransmission)
fill_window-IsValid s v = go (fill_window_lem s v.ready)
  where
    go :
        ((s' : TcpSender) × (fill_window s ≡ some s') × Sent s s')
        → (s' : TcpSender) × (fill_window s ≡ some s')
          × IsValid s'
          × (s'.consecutive_retransmission ≡ s.consecutive_retransmission)
    go (s', run, sent) = (s', run, Sent-IsValid v sent, sent.retx)

advance-retx :
    (seqno : ℕ) (s : TcpSender)
    → (advance seqno s).consecutive_retransmission ≤ s.consecutive_retransmission
unfolding advance reset_timer
advance-retx seqno s = ground arith

-- On a valid sender, `ack_received` returns for every ackno and every window, whether the ackno is
-- new, old or beyond what was sent, and keeps the invariant: what stays outstanding is contiguous
-- up to the next sequence number, the bytes in flight count it, and the timer runs exactly while
-- there is any. The count of retransmissions does not grow.
pub ack_received-IsValid :
    (ackno : WrappingInt32) (window : ℕ) (s : TcpSender)
    → IsValid s
    → (s' : TcpSender) × (ack_received ackno window s ≡ some s')
      × IsValid s'
      × (s'.consecutive_retransmission ≤ s.consecutive_retransmission)
unfolding ack_received
ack_received-IsValid ackno window s v =
    elim (Bool-cases (ltb s.next_seqno (unwrap ackno s.isn s.rcv_base))) [
      | inl beyond ↦ (s, rw (beyond) refl, v, omega arith)
      | inr sent ↦ elim (Bool-cases (leb (unwrap ackno s.isn s.rcv_base) s.rcv_base)) [
        | inl old ↦ (
          noted,
          rw (sent, old) refl,
          still-IsValid (refl, refl, refl, refl, refl, refl) v,
          omega arith,
        )
        | inr new ↦ go sent new (
            fill_window-IsValid (advance (unwrap ackno s.isn s.rcv_base) noted) (
              advance_lem (unwrap ackno s.isn s.rcv_base) noted
                (still-IsValid (refl, refl, refl, refl, refl, refl) v)))
      ]
    ]
  where
    noted : TcpSender
    noted = record s { receiver_window_size = window; back_off = not (window == 0) }

    go :
        ltb s.next_seqno (unwrap ackno s.isn s.rcv_base) ≡ false
        → leb (unwrap ackno s.isn s.rcv_base) s.rcv_base ≡ false
        → ((s' : TcpSender) × (fill_window (advance (unwrap ackno s.isn s.rcv_base) noted)
              ≡ some s')
            × IsValid s'
            × (s'.consecutive_retransmission
                ≡ (advance (unwrap ackno s.isn s.rcv_base) noted).consecutive_retransmission))
        → (s' : TcpSender) × (ack_received ackno window s ≡ some s')
          × IsValid s'
          × (s'.consecutive_retransmission ≤ s.consecutive_retransmission)
    go sent new (s', run, v', e) = (
      s',
      rw (sent, new) run,
      v',
      omega (arith, e, advance-retx (unwrap ackno s.isn s.rcv_base) noted),
    )

-- The timer has run out once `ms` more have passed.
abbrev pub expired : ℕ → TcpSender → Bool
expired ms s = s.timer_running && leb s.rto (add64 s.time_elapsed ms % u32_mod)

-- The oldest outstanding segment goes out again and the timer starts anew; the timeout doubles, and
-- the retransmissions are counted, unless the window was zero.
pub record Retransmitted (s s' : TcpSender) : Type 0 where
  pub oldest : TcpSegment
  pub others : List TcpSegment
  pub is_oldest : s.outstanding ≡ oldest ∷ others
  pub sent : s'.segments_out ≡ s.segments_out ++ (oldest ∷ [])
  pub restarted : s'.time_elapsed ≡ 0
  pub doubled : s'.rto ≡ (if s.back_off then s.rto * 2 % u32_mod else s.rto)
  pub counted :
      s'.consecutive_retransmission
      ≡ (if s.back_off then add32 s.consecutive_retransmission 1 else s.consecutive_retransmission)

-- Nothing goes out, and the timeout stays; a running timer has counted the time.
pub record Waited (ms : ℕ) (s s' : TcpSender) : Type 0 where
  pub none_sent : s'.segments_out ≡ s.segments_out
  pub same_rto : s'.rto ≡ s.rto
  pub same_count : s'.consecutive_retransmission ≡ s.consecutive_retransmission
  pub elapsed :
      s'.time_elapsed
      ≡ (if s.timer_running then add64 s.time_elapsed ms % u32_mod else s.time_elapsed)

-- What a tick does.
abbrev pub Ticked : ℕ → TcpSender → TcpSender → Type 0
Ticked ms s s' = if expired ms s then Retransmitted s s' else Waited ms s s'

later : ℕ → TcpSender → TcpSender
later ms s = record s { time_elapsed = add64 s.time_elapsed ms % u32_mod }

retransmit_lem :
    (ms : ℕ) (s : TcpSender) (segs : List TcpSegment)
    → s.outstanding ≡ segs
    → true ≡ not (is_empty segs)
    → (s' : TcpSender) × (retransmit (later ms s) ≡ some s') × SameQueue s s' × Retransmitted s s'
unfolding retransmit later
retransmit_lem ms s [] e h = absurd (ground arith)
retransmit_lem ms s (x ∷ xs) e h = (
  record s {
    segments_out = s.segments_out ++ (x ∷ []);
    rto = if s.back_off then s.rto * 2 % u32_mod else s.rto;
    consecutive_retransmission =
        if s.back_off then add32 s.consecutive_retransmission 1 else s.consecutive_retransmission;
    time_elapsed = 0;
  },
  simp (e, retransmit) refl,
  (refl, refl, refl, refl, refl, refl),
  record {
    oldest = x;
    others = xs;
    is_oldest = e;
    sent = refl;
    restarted = refl;
    doubled = refl;
    counted = refl;
  },
)

-- A tick of a valid sender never finds the queue of outstanding segments empty: it returns and
-- keeps the invariant. The oldest outstanding segment goes out again, with the timer started anew
-- and the back-off that the window calls for, exactly when the timer runs and has reached the
-- timeout with the time of this tick added; otherwise nothing goes out, and the time is added to
-- what a running timer has counted. The queue, the counters and the stream stay as they were.
pub tick_lem :
    (ms : ℕ) (s : TcpSender)
    → IsValid s
    → (s' : TcpSender) × (tick ms s ≡ some s') × IsValid s' × SameQueue s s' × Ticked ms s s'
unfolding tick later
tick_lem ms s v = elim (Bool-cases s.timer_running) [
  | inr f ↦ (
    s,
    rw (f) refl,
    v,
    (refl, refl, refl, refl, refl, refl),
    rw (f) (record { none_sent = refl; same_rto = refl; same_count = refl; elapsed = refl }),
  )
  | inl t ↦ elim (Bool-cases (leb s.rto (add64 s.time_elapsed ms % u32_mod))) [
    | inr f ↦ (
      later ms s,
      rw (t, f) refl,
      still-IsValid (refl, refl, refl, refl, refl, refl) v,
      (refl, refl, refl, refl, refl, refl),
      rw (t, f) (record { none_sent = refl; same_rto = refl; same_count = refl; elapsed = refl }),
    )
    | inl out ↦ fires t out (retransmit_lem ms s s.outstanding refl (sym t ∙ v.timer))
  ]
]
  where
    fires :
        s.timer_running ≡ true
        → leb s.rto (add64 s.time_elapsed ms % u32_mod) ≡ true
        → ((s' : TcpSender) × (retransmit (later ms s) ≡ some s')
            × SameQueue s s'
            × Retransmitted s s')
        → (s' : TcpSender) × (tick ms s ≡ some s') × IsValid s' × SameQueue s s' × Ticked ms s s'
    fires t out (s', run, same, r) =
        (s', simp (t, out) run, still-IsValid same v, same, simp (t, out) r)

-- An empty segment is numbered with the next sequence number and is not kept.
pub send_empty_segment-IsValid : (s : TcpSender) → IsValid s → IsValid (send_empty_segment s)
unfolding send_empty_segment
send_empty_segment-IsValid s v = still-IsValid (refl, refl, refl, refl, refl, refl) v
