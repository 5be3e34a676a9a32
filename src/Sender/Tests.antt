-- ===== src/Sender/Tests.antt =====
-- A sender before and after its SYN, and the theorems at concrete inputs.
use nju_networking_lab.Base.{◌≤◌, ◌≡◌, refl, arith, [], ◌∷◌, some, true, false}
use nju_networking_lab.Wrap.{wrap}
use nju_networking_lab.Wire.TcpSegment
use nju_networking_lab.Wire.TcpSegment.{TcpSegment, length_in_sequence_space}
use nju_networking_lab.Sender.{
  TcpSender, fresh, segment_handler, fill_window, ack_received, acknowledge, tick,
}
use nju_networking_lab.Sender.Sent.{Sent, total}
use nju_networking_lab.Sender.Fill.{fill_window_lem}
use nju_networking_lab.Sender.Invariant.{IsValid, fresh-IsValid}
use nju_networking_lab.Sender.Operations.{SameQueue, Ticked, ack_received-IsValid, tick_lem}
use nju_networking_lab.Sender.Window.{IsInside, right_edge, fill_window-IsInside}
use nju_networking_lab.Sender.Acks.{Exact, acknowledge-Exact}

abbrev closed : TcpSender
closed = fresh 100 1000 7

closed-IsValid : IsValid closed
closed-IsValid = fresh-IsValid 100 1000 7 (omega arith)

fill_window_lem_example : (s : TcpSender) × (fill_window closed ≡ some s) × Sent closed s
fill_window_lem_example = fill_window_lem closed closed-IsValid.ready

-- Its SYN is outstanding.
abbrev syn : TcpSegment
syn = record (TcpSegment.blank) {
  header = record (TcpSegment.blank.header) { syn = true; seqno = 7 };
}

abbrev syn_sent : TcpSender
syn_sent = record closed {
  syn_sent = true;
  next_seqno = 1;
  bytes_in_flight = 1;
  outstanding = syn ∷ [];
  segments_out = syn ∷ [];
  timer_running = true;
}

sends_syn : fill_window closed ≡ some syn_sent
unfolding fill_window segment_handler length_in_sequence_space wrap
sends_syn = refl

syn_sent-IsValid : IsValid syn_sent
unfolding total length_in_sequence_space wrap
syn_sent-IsValid = record {
  ready = record {
    stream = closed-IsValid.ready.stream;
    next_small = omega arith;
    flight_small = omega arith;
  };
  chained = record {
    first = 0;
    small = omega arith;
    numbered = (refl, omega arith, omega arith, tt);
    ends = omega arith;
  };
  flight = refl;
  timer = refl;
}

ack_received-IsValid_example :
    (s : TcpSender) × (ack_received 8 1000 syn_sent ≡ some s)
    × IsValid s
    × (s.consecutive_retransmission ≤ 0)
ack_received-IsValid_example = ack_received-IsValid 8 1000 syn_sent syn_sent-IsValid

-- The timeout of 1000 milliseconds is reached.
tick_lem_example :
    (s : TcpSender) × (tick 1000 syn_sent ≡ some s)
    × IsValid s
    × SameQueue syn_sent s
    × Ticked 1000 syn_sent s
tick_lem_example = tick_lem 1000 syn_sent syn_sent-IsValid

acknowledge-Exact_example : Exact 1 0 (syn ∷ []) (acknowledge 1 7 (syn ∷ []) 1 false).0
unfolding total length_in_sequence_space wrap
acknowledge-Exact_example =
    acknowledge-Exact 1 7 0 (syn ∷ []) 1 false (omega arith) (omega arith) (omega arith)
      (refl, omega arith, omega arith, tt) (omega arith) (omega arith)

-- Its SYN is acknowledged, and the window is open.
abbrev opened : TcpSender
opened = record closed {
  syn_sent = true;
  next_seqno = 1;
  rcv_base = 1;
  receiver_window_size = 1000;
}

fill_window-IsInside_example :
    (s : TcpSender) × (fill_window opened ≡ some s) × IsInside (right_edge opened) s
fill_window-IsInside_example =
    fill_window-IsInside opened
      (record {
        stream = closed-IsValid.ready.stream;
        next_small = omega arith;
        flight_small = omega arith;
      })
      refl (omega arith) (omega arith)
