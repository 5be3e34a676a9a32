-- ===== src/Receiver/Tests.antt =====
-- A receiver in LISTEN, and the theorems at concrete inputs.
use nju_networking_lab.Base.{ℕ, ◌≡◌, refl, arith, [], ◌∷◌, some, true}
use nju_networking_lab.Wire.TcpSegment
use nju_networking_lab.Wire.TcpSegment.{TcpSegment}
use nju_networking_lab.Reassembler.Start
use nju_networking_lab.Receiver.{TcpReceiver, fresh, segment_received}
use nju_networking_lab.Receiver.Handle.{segment_received_lem}
use nju_networking_lab.Receiver.Accept.{IsValid, Outcome}

-- The stream 0, 1, 2, ...
abbrev counting : ℕ → ℕ
counting i = i

fresh-IsValid : IsValid counting 99 (fresh 8)
fresh-IsValid = record {
  stream = Start.fresh-IsValid counting 8 (omega arith);
  same_capacity = refl;
  isn_known = λ t. absurd (ground arith);
  fin_after_syn = λ t. absurd (ground arith);
  base_is = λ t. absurd (ground arith);
}

-- A SYN with two bytes.
abbrev opening : TcpSegment
opening = record {
  header = record (TcpSegment.blank.header) { syn = true; seqno = 99 };
  payload = 0 ∷ 1 ∷ [];
}

segment_received_lem_example :
    (r : TcpReceiver) × (segment_received (fresh 8) opening ≡ some r)
    × IsValid counting 99 r
    × Outcome counting 0 opening (fresh 8) r
segment_received_lem_example =
    segment_received_lem counting 99 (omega arith) (fresh 8) opening 0 fresh-IsValid (omega arith)
      (omega arith) ((refl, (refl, tt)), (refl, refl))
