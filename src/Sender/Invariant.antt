-- ===== src/Sender/Invariant.antt =====
-- The sender's invariant, and that every operation returns and keeps it.
use nju_networking_lab.Base.{
  ℕ, ◌%◌, ◌≤◌, ◌<◌, ◌≡◌, refl, ap, ◌∙◌, inl, inr, arith, List, [], ◌∷◌, ◌++◌,
}
use nju_networking_lab.Base.{
  length, Bool, true, false, not, ◌||◌, leb, Bool-cases, add64, sub64, u32_mod, u64_mod,
}
use nju_networking_lab.Wrap.{WrappingInt32, unwrap}
use nju_networking_lab.Stream.Contents
use nju_networking_lab.Wire.TcpSegment.{TcpSegment, length_in_sequence_space}
use nju_networking_lab.Sender.{
  TcpSender, fresh, is_empty, max_payload_size, acknowledge, reset_timer, advance,
}
use nju_networking_lab.Sender.Sent.{total, Numbered, Ready, Sent, total-append, Numbered-append}

-- The outstanding segments are numbered without a gap and end where the next segment begins.
pub record Chained (isn : WrappingInt32) (next : ℕ) (segs : List TcpSegment) : Type 0 where
  pub first : ℕ
  pub small : first < u64_mod
  pub numbered : Numbered isn first segs
  pub ends : next ≡ add64 first (total segs)

-- The counter of bytes in flight is what the outstanding segments take up, and the timer runs
-- exactly while a segment is outstanding.
pub record IsValid (s : TcpSender) : Type 0 where
  pub ready : Ready s
  pub chained : Chained s.isn s.next_seqno s.outstanding
  pub flight : s.bytes_in_flight ≡ total s.outstanding % u64_mod
  pub timer : s.timer_running ≡ not (is_empty s.outstanding)

pub fresh-IsValid :
    (capacity rto : ℕ) (isn : WrappingInt32) → capacity < u64_mod → IsValid (fresh capacity rto isn)
unfolding total
fresh-IsValid capacity rto isn h = record {
  ready = record {
    stream = Contents.fresh-IsValid capacity h;
    next_small = omega arith;
    flight_small = omega arith;
  };
  chained = record { first = 0; small = omega arith; numbered = tt; ends = omega arith };
  flight = omega arith;
  timer = refl;
}

is_empty-append :
    (xs ys : List TcpSegment) → not (is_empty xs) || not (is_empty ys) ≡ not (is_empty (xs ++ ys))
is_empty-append [] ys = refl
is_empty-append (x ∷ xs) ys = refl

-- What is sent extends the chain.
pub Sent-IsValid : {s s' : TcpSender} → IsValid s → Sent s s' → IsValid s'
Sent-IsValid {s} {s'} v p = record {
  ready = p.ready;
  chained = record {
    first = v.chained.first;
    small = v.chained.small;
    numbered =
        rw (p.same_isn, p.outstanding_is)
          (Numbered-append s.isn v.chained.first s.next_seqno s.outstanding p.added
            v.ready.next_small v.chained.ends v.chained.small v.chained.numbered p.numbered);
    ends = omega (
      arith,
      p.next,
      v.chained.ends,
      ap total p.outstanding_is,
      total-append s.outstanding p.added,
    );
  };
  flight =
      omega
        (arith, p.flight, v.flight, ap total p.outstanding_is, total-append s.outstanding p.added);
  timer = p.timer ∙ rw (v.timer, p.outstanding_is) (is_empty-append s.outstanding p.added);
}

-- The acknowledged segments leave from the front; what is left is still chained and counted.
pub record Acked (isn : WrappingInt32) (next : ℕ) (segs left : List TcpSegment) (in_flight : ℕ)
    : Type 0 where
  pub gone : List TcpSegment
  pub split : segs ≡ gone ++ left
  pub chained : Chained isn next left
  pub counted : in_flight ≡ total left % u64_mod

space_le :
    (x : TcpSegment) → length x.payload ≤ max_payload_size → length_in_sequence_space x ≤ 1454
unfolding length_in_sequence_space
space_le x h = ground arith

pub acknowledge_lem :
    (seqno : ℕ) (isn : WrappingInt32) (next : ℕ) (segs : List TcpSegment) (in_flight : ℕ) (b : Bool)
    → Chained isn next segs
    → in_flight ≡ total segs % u64_mod
    → Acked isn next segs
        (acknowledge seqno isn segs in_flight b).0
        (acknowledge seqno isn segs in_flight b).1
unfolding acknowledge total
acknowledge_lem seqno isn next [] in_flight b c h = record {
  gone = [];
  split = refl;
  chained = c;
  counted = h;
}
acknowledge_lem seqno isn next (x ∷ xs) in_flight b c h =
    elim (Bool-cases (
      leb
        (add64 (unwrap x.header.seqno isn (seqno % u32_mod)) (length_in_sequence_space x) % u32_mod)
        seqno)) [
          | inr f ↦ rw (f) (record { gone = []; split = refl; chained = c; counted = h })
          | inl t ↦ rw (t) (
              longer (
                acknowledge_lem seqno isn next xs less true tail
                  (omega (arith, space_le x c.numbered.2))))
        ]
  where
    less : ℕ
    less = sub64 in_flight (length_in_sequence_space x)

    tail : Chained isn next xs
    tail = record {
      first = add64 c.first (length_in_sequence_space x);
      small = omega arith;
      numbered = c.numbered.3;
      ends = omega (arith, c.ends);
    }

    longer :
        Acked isn next xs
          (acknowledge seqno isn xs less true).0
          (acknowledge seqno isn xs less true).1
        → Acked isn next
            (x ∷ xs)
            (acknowledge seqno isn xs less true).0
            (acknowledge seqno isn xs less true).1
    longer a = record {
      gone = x ∷ a.gone;
      split = ap (λ ys. x ∷ ys) a.split;
      chained = a.chained;
      counted = a.counted;
    }

pub advance_lem : (seqno : ℕ) (s : TcpSender) → IsValid s → IsValid (advance seqno s)
unfolding advance reset_timer
advance_lem seqno s v =
    let a =
      acknowledge_lem seqno s.isn s.next_seqno s.outstanding s.bytes_in_flight false v.chained
        v.flight in
    timed (acknowledge seqno s.isn s.outstanding s.bytes_in_flight false) a.chained a.counted
      (λ e. ground (arith, a.split))
  where
    timed :
        (r : List TcpSegment × ℕ × Bool)
        → Chained s.isn s.next_seqno r.0
        → r.1 ≡ total r.0 % u64_mod
        → (is_empty s.outstanding ≡ true → is_empty r.0 ≡ true)
        → IsValid (
            reset_timer r.2
              (record s { rcv_base = seqno % u32_mod; outstanding = r.0; bytes_in_flight = r.1 }))
    timed ([], n, b) c h e = record {
      ready = record {
        stream = v.ready.stream;
        next_small = v.ready.next_small;
        flight_small = omega arith;
      };
      chained = c;
      flight = h;
      timer = refl;
    }
    timed (x ∷ xs, n, b) c h e = record {
      ready = record {
        stream = v.ready.stream;
        next_small = v.ready.next_small;
        flight_small = omega arith;
      };
      chained = c;
      flight = h;
      timer = v.timer ∙ not_empty (is_empty s.outstanding) e;
    }
      where
        not_empty : (b : Bool) → (b ≡ true → false ≡ true) → not b ≡ true
        not_empty true f = absurd (ground (arith, f refl))
        not_empty false f = refl
