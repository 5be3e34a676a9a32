-- ===== src/Transfer/Hearing.antt =====
-- Acknowledgments, ticks and the application leave the sender's segments in their places.
use nju_networking_lab.Base.{ℕ, ◌+◌, ◌≤◌, min, ◌≡◌, refl, ap, ◌∙◌, arith, List, [], ◌∷◌, ◌++◌}
use nju_networking_lab.Base.{
  length, take, All, All-append, All-map, length-take, length-append, none, some, Bool, true, false,
  if◌then◌else◌, ltb, leb, IsU32, add64, u32_mod, Whenever, Whenever-if, ◌%◌, ◌==◌, not, ◌*◌, add32,
}
use nju_networking_lab.Wrap.{WrappingInt32, unwrap}
use nju_networking_lab.Stream
use nju_networking_lab.Stream.{ByteStream, remaining_capacity}
use nju_networking_lab.Stream.Contents.{contents, contents-write, write-count, write-IsValid}
use nju_networking_lab.Wire.TcpSegment.{TcpSegment}
use nju_networking_lab.Reassembler.Source.{Matches, Matches-take, Matches-append}
use nju_networking_lab.Sender.{
  TcpSender, acknowledge, reset_timer, advance, ack_received, retransmit, tick,
}
use nju_networking_lab.Transfer.Placed.{Placed, Placed-weaken, Feeds, Sends, max_written}
use nju_networking_lab.Connection.Parts.{end_input-IsValid}
use nju_networking_lab.Transfer.Sending.{fill_window-Sends}

acknowledge-All :
    (P : TcpSegment → Type 0) (seqno : ℕ) (isn : WrappingInt32) (segs : List TcpSegment) (n : ℕ)
    (b : Bool)
    → All P segs
    → All P (acknowledge seqno isn segs n b).0
unfolding acknowledge
acknowledge-All P seqno isn [] n b h = tt
acknowledge-All P seqno isn (x ∷ xs) n b h = tries _ _ (acknowledge-All P seqno isn xs _ true h.1)
  where
    tries :
        (c : Bool) (rest : List TcpSegment × ℕ × Bool)
        → All P rest.0
        → All P (if c then rest else (x ∷ xs, n, b)).0
    tries true rest r = r
    tries false rest r = h

-- The same stream, numbers and flags; what is kept to send again may have become less.
pub Sends-kept :
    {source : ℕ → ℕ} {isn : WrappingInt32} {written : ℕ} {s : TcpSender} (s' : TcpSender)
    → s'.isn ≡ s.isn
    → s'.stream ≡ s.stream
    → s'.next_seqno ≡ s.next_seqno
    → s'.syn_sent ≡ s.syn_sent
    → s'.fin_sent ≡ s.fin_sent
    → All (Placed source isn written) s'.segments_out
    → All (Placed source isn written) s'.outstanding
    → Sends source isn written s
    → Sends source isn written s'
Sends-kept {source} {isn} {written} {s} s' a b c d e out kept v = record {
  same_isn = a ∙ v.same_isn;
  feeds = rw (b) v.feeds;
  same_written = rw (b) v.same_written;
  next = rw (b, c, d, e) v.next;
  before = rw (b, d, e) v.before;
  out = out;
  kept = kept;
}

module _ (source : ℕ → ℕ) where
  write_counts :
      (bytes : List ℕ) (st : ByteStream)
      → ((Stream.write bytes st).1.write_bytes
          ≡ add64 st.write_bytes (min (length bytes) (remaining_capacity st)))
        × ((Stream.write bytes st).1.read_bytes ≡ st.read_bytes)
  unfolding Stream.write
  write_counts bytes st = (ap (add64 st.write_bytes) (write-count bytes st), refl)

  write-Feeds :
      (bytes : List ℕ) (st : ByteStream)
      → Feeds source st
      → Matches source st.write_bytes bytes
      → st.write_bytes + length bytes ≤ max_written
      → Feeds source (Stream.write bytes st).1
        × (st.write_bytes ≤ (Stream.write bytes st).1.write_bytes)
        × ((Stream.write bytes st).1.read_bytes ≡ st.read_bytes)
  write-Feeds bytes st f m few =
      let (w, r) = write_counts bytes st in
      (
        record {
          valid = write-IsValid bytes f.valid;
          rest =
              rw (contents-write bytes st, r)
                (Matches-append source st.read_bytes st.write_bytes (contents st)
                  (take (remaining_capacity st) bytes) f.counts f.rest
                  (Matches-take source (remaining_capacity st) st.write_bytes bytes m));
          counts = omega (
            arith,
            w,
            r,
            f.counts,
            f.few,
            ap length (contents-write bytes st),
            length-append (contents st) (take (remaining_capacity st) bytes),
            length-take (remaining_capacity st) bytes,
          );
          few = omega (arith, w, f.few);
        },
        omega (arith, w, f.few),
        r,
      )

module _ (source : ℕ → ℕ) (isn : WrappingInt32) (written : ℕ) (hi : IsU32 isn) where
  advance-Sends :
      (seqno : ℕ) (s : TcpSender)
      → Sends source isn written s
      → Sends source isn written (advance seqno s)
  unfolding advance reset_timer
  advance-Sends seqno s v =
      Sends-kept (advance seqno s) refl refl refl refl refl v.out
        (acknowledge-All (Placed source isn written) seqno s.isn s.outstanding s.bytes_in_flight
          false v.kept)
        v

  pub ack_received-Sends :
      (ackno : WrappingInt32) (window : ℕ) (s : TcpSender)
      → Sends source isn written s
      → Whenever (Sends source isn written) (ack_received ackno window s)
  unfolding ack_received
  ack_received-Sends ackno window s v =
      Whenever-if (Sends source isn written) (ltb s.next_seqno (unwrap ackno s.isn s.rcv_base)) _ _
        (λ f. v)
        (λ f.
          Whenever-if (Sends source isn written) (leb (unwrap ackno s.isn s.rcv_base) s.rcv_base)
            (some noted) _ (λ o. noted_Sends)
            (λ o.
              fill_window-Sends source isn written hi
                (advance (unwrap ackno s.isn s.rcv_base) noted)
                (advance-Sends (unwrap ackno s.isn s.rcv_base) noted noted_Sends)))
    where
      noted : TcpSender
      noted = record s { receiver_window_size = window; back_off = not (window == 0) }

      noted_Sends : Sends source isn written noted
      noted_Sends = Sends-kept noted refl refl refl refl refl v.out v.kept v

  retransmit-Sends :
      (s : TcpSender)
      → Sends source isn written s
      → Whenever (Sends source isn written) (retransmit s)
  unfolding retransmit
  retransmit-Sends s v = tries s.outstanding refl
    where
      again : TcpSegment → List TcpSegment → TcpSender
      again front segs = record s {
        segments_out = s.segments_out ++ (front ∷ []);
        rto = if s.back_off then s.rto * 2 % u32_mod else s.rto;
        consecutive_retransmission =
            if s.back_off
            then add32 s.consecutive_retransmission 1
            else s.consecutive_retransmission;
        time_elapsed = 0;
      }

      tries :
          (segs : List TcpSegment)
          → s.outstanding ≡ segs
          → Whenever
              (Sends source isn written)
              (elim segs [ [] ↦ none | front ∷ segs ↦ some (again front segs) ])
      tries [] e = tt
      tries (x ∷ xs) e =
          Sends-kept (again x xs) refl refl refl refl refl
            (All-append (Placed source isn written) s.segments_out (x ∷ []) v.out
              ((rw (e) at v.kept).0, tt))
            v.kept v

  pub tick-Sends :
      (ms : ℕ) (s : TcpSender)
      → Sends source isn written s
      → Whenever (Sends source isn written) (tick ms s)
  unfolding tick
  tick-Sends ms s v =
      Whenever-if (Sends source isn written) s.timer_running _ (some s)
        (λ t.
          Whenever-if (Sends source isn written) (leb s.rto (add64 s.time_elapsed ms % u32_mod)) _ _
            (λ o. retransmit-Sends later later_Sends) (λ o. later_Sends))
        (λ t. v)
    where
      later : TcpSender
      later = record s { time_elapsed = add64 s.time_elapsed ms % u32_mod }

      later_Sends : Sends source isn written later
      later_Sends = Sends-kept later refl refl refl refl refl v.out v.kept v

  -- The application writes the source's next bytes, as many as there is room for.
  pub write-Sends :
      (bytes : List ℕ) (s : TcpSender)
      → Sends source isn written s
      → Matches source s.stream.write_bytes bytes
      → s.stream.write_bytes + length bytes ≤ max_written
      → Sends source isn
          (Stream.write bytes s.stream).1.write_bytes
          (record s { stream = (Stream.write bytes s.stream).1 })
        × (s.stream.write_bytes ≤ (Stream.write bytes s.stream).1.write_bytes)
  write-Sends bytes s v m few = (
    record {
      same_isn = v.same_isn;
      feeds = f.0;
      same_written = refl;
      next = rw (f.2) v.next;
      before = rw (f.2) v.before;
      out =
          All-map (Placed source isn written) (Placed source isn now)
            (Placed-weaken (omega (arith, f.1, v.same_written))) s.segments_out v.out;
      kept =
          All-map (Placed source isn written) (Placed source isn now)
            (Placed-weaken (omega (arith, f.1, v.same_written))) s.outstanding v.kept;
    },
    f.1,
  )
    where
      now : ℕ
      now = (Stream.write bytes s.stream).1.write_bytes

      f :
          Feeds source (Stream.write bytes s.stream).1
          × (s.stream.write_bytes ≤ now)
          × ((Stream.write bytes s.stream).1.read_bytes ≡ s.stream.read_bytes)
      f = write-Feeds source bytes s.stream v.feeds m few

  pub end_input-Sends :
      (s : TcpSender)
      → Sends source isn written s
      → Sends source isn written (record s { stream = Stream.end_input s.stream })
  unfolding Stream.end_input contents
  end_input-Sends s v = record {
    same_isn = v.same_isn;
    feeds = record {
      valid = end_input-IsValid v.feeds.valid;
      rest = v.feeds.rest;
      counts = v.feeds.counts;
      few = v.feeds.few;
    };
    same_written = v.same_written;
    next = v.next;
    before = v.before;
    out = v.out;
    kept = v.kept;
  }
