-- ===== src/Transfer/Invariant.antt =====
-- The invariant of sender, wire and receiver together, kept by every step.
use mathlib.Core.Path.{subst}
use nju_networking_lab.Base.{ℕ, zero, suc, ◌+◌, ◌≤◌, ◌≡◌, refl, sym, arith, List, [], ◌∷◌, ◌++◌}
use nju_networking_lab.Base.{
  length, take, get_elem?, All, All-append, All-map, Option, none, some, ◌>>=◌, IsU32, true,
  Whenever, Whenever-some,
}
use nju_networking_lab.Wrap.{WrappingInt32}
use nju_networking_lab.Wire.TcpSegment.{TcpSegment}
use nju_networking_lab.Stream
use nju_networking_lab.Stream.{ByteStream}
use nju_networking_lab.Stream.Contents.{contents, read_lem, Popped, write-IsValid}
use nju_networking_lab.Reassembler.Source.{Matches}
use nju_networking_lab.Reassembler.Invariant.{held}
use nju_networking_lab.Receiver.{TcpReceiver, segment_received}
use nju_networking_lab.Receiver.Accept.{Outcome}
use nju_networking_lab.Sender.{TcpSender}
use nju_networking_lab.Sender.Invariant
use nju_networking_lab.Sender.Operations.{fill_window-IsValid, ack_received-IsValid, tick_lem}
use nju_networking_lab.Connection.Parts.{with_stream-IsValid, end_input-IsValid}
use nju_networking_lab.Transfer.{
  World, Event, step, deliver, with_sender, with_output, writes, ends_input, fills_window, ticks,
  hears, transmits, delivers, reads,
}
use nju_networking_lab.Transfer.Placed.{Placed, Sends, Placed-weaken, max_written}
use nju_networking_lab.Transfer.Sending.{fill_window-Sends}
use nju_networking_lab.Transfer.Hearing.{
  ack_received-Sends, tick-Sends, write-Sends, end_input-Sends, Sends-kept,
}
use nju_networking_lab.Transfer.Receiving.{Receives, Receives-more, deliver-Receives, read-Receives}

abbrev pub written : World → ℕ
written w = w.sender.stream.write_bytes

pub record IsValid (source : ℕ → ℕ) (isn : WrappingInt32) (w : World) : Type 0 where
  pub sender : Invariant.IsValid w.sender
  pub sends : Sends source isn (written w) w.sender
  pub wire : All (Placed source isn (written w)) w.wire
  pub receives : Receives source isn (written w) w.arrived w.receiver

-- The application writes `source`, piece by piece, up to the bound; all else may happen at any time.
abbrev pub Admissible : (ℕ → ℕ) → World → Event → Type 0
Admissible source w (writes bytes) =
    Matches source (written w) bytes × (written w + length bytes ≤ max_written)
Admissible source w ends_input = Unit
Admissible source w fills_window = Unit
Admissible source w (ticks ms) = Unit
Admissible source w (hears ackno window) = Unit
Admissible source w transmits = Unit
Admissible source w (delivers i) = Unit
Admissible source w (reads n) = Unit

-- The step returns, and the invariant holds.
abbrev pub Safe : (ℕ → ℕ) → WrappingInt32 → Option World → Type 0
Safe source isn o = (w : World) × (o ≡ some w) × IsValid source isn w

pub All-get {ℓ} :
    {A : Type ℓ} (P : A → Type 0) (xs : List A) (i : ℕ)
    → All P xs
    → (a : A) → get_elem? xs i ≡ some a
    → P a
All-get P [] i h a e = absurd (ground arith)
All-get P (x ∷ xs) zero h a e = subst_some (sym e) h.0
  where
    subst_some : some a ≡ some x → P x → P a
    subst_some e h = Whenever-some P h (sym e)
All-get P (x ∷ xs) (suc i) h a e = All-get P xs i h.1 a e

module _ (source : ℕ → ℕ) (isn : WrappingInt32) (hi : IsU32 isn) where
  -- The sender moves on by itself.
  sender-Safe :
      (w : World) (o : Option TcpSender) (s : TcpSender)
      → IsValid source isn w
      → o ≡ some s
      → Invariant.IsValid s
      → Whenever (Sends source isn (written w)) o
      → Safe source isn (o >>= λ s. some (with_sender w s))
  sender-Safe w o s v run valid sends = rw (run) (
    with_sender w s,
    refl,
    record {
      sender = valid;
      sends = subst (λ n. Sends source isn n s) (sym now.same_written) now;
      wire = rw (now.same_written) v.wire;
      receives = rw (now.same_written) v.receives;
    },
  )
    where
      now : Sends source isn (written w) s
      now = Whenever-some (Sends source isn (written w)) sends run

  write-Safe :
      (bytes : List ℕ) (w : World)
      → IsValid source isn w
      → Matches source (written w) bytes × (written w + length bytes ≤ max_written)
      → IsValid source isn
          (with_sender w (record (w.sender) { stream = (Stream.write bytes w.sender.stream).1 }))
  write-Safe bytes w v (m, few) =
      let (sends, more) = write-Sends source isn (written w) hi bytes w.sender v.sends m few in
      record {
        sender =
            with_stream-IsValid (Stream.write bytes w.sender.stream).1
              (write-IsValid bytes v.sender.ready.stream) v.sender;
        sends = sends;
        wire = All-map _ _ (Placed-weaken more) w.wire v.wire;
        receives = Receives-more more v.receives;
      }

  pub deliver-Safe :
      (o : Option TcpSegment) (w : World)
      → IsValid source isn w
      → ((seg : TcpSegment) → o ≡ some seg → Placed source isn (written w) seg)
      → Safe source isn (deliver o w)
  unfolding deliver
  deliver-Safe none w v f = (w, refl, v)
  deliver-Safe (some seg) w v f =
      go (deliver-Receives source isn (written w) seg hi v.sends.feeds.few v.receives (f seg refl))
    where
      go :
          ((r : TcpReceiver) × (segment_received w.receiver seg ≡ some r)
            × Receives source isn (written w) w.arrived r
            × Outcome source (f seg refl).at seg w.receiver r)
          → Safe source isn (deliver (some seg) w)
      go (r, run, receives, o) = rw (run) (
        record w { receiver = r },
        refl,
        record { sender = v.sender; sends = v.sends; wire = v.wire; receives = receives },
      )

  pub transmit-IsValid :
      (w : World)
      → IsValid source isn w
      → IsValid source isn (record w {
        wire = w.wire ++ w.sender.segments_out;
        sender = record (w.sender) { segments_out = [] };
      })
  transmit-IsValid w v = record {
    sender = record {
      ready = record {
        stream = v.sender.ready.stream;
        next_small = v.sender.ready.next_small;
        flight_small = v.sender.ready.flight_small;
      };
      chained = v.sender.chained;
      flight = v.sender.flight;
      timer = v.sender.timer;
    };
    sends =
        Sends-kept (record (w.sender) { segments_out = [] }) refl refl refl refl refl tt
          v.sends.kept v.sends;
    wire =
        All-append (Placed source isn (written w)) w.wire w.sender.segments_out v.wire v.sends.out;
    receives = v.receives;
  }

  read-Safe : (n : ℕ) (w : World) → IsValid source isn w → Safe source isn (step (reads n) w)
  unfolding step
  read-Safe n w v = go (read_lem n w.receiver.reassembler.output)
    where
      go :
          ((st : ByteStream) × (Stream.read n w.receiver.reassembler.output
              ≡ some (take n (contents w.receiver.reassembler.output), st))
            × Popped n w.receiver.reassembler.output st)
          → Safe source isn (step (reads n) w)
      go (st, run, p) = rw (run) (
        record w {
          arrived = w.arrived ++ take n (held w.receiver.reassembler);
          receiver = with_output w.receiver st;
        },
        refl,
        record {
          sender = v.sender;
          sends = v.sends;
          wire = v.wire;
          receives = read-Receives source isn (written w) n st v.receives p;
        },
      )

  end-IsValid :
      (w : World)
      → IsValid source isn w
      → IsValid source isn
          (with_sender w (record (w.sender) { stream = Stream.end_input w.sender.stream }))
  unfolding Stream.end_input
  end-IsValid w v = record {
    sender =
        with_stream-IsValid (record (w.sender.stream) { input_end = true })
          (end_input-IsValid v.sender.ready.stream) v.sender;
    sends = end_input-Sends source isn (written w) hi w.sender v.sends;
    wire = v.wire;
    receives = v.receives;
  }

  -- Whatever happens, it returns, and all stays valid.
  pub step-Safe :
      (e : Event) (w : World)
      → IsValid source isn w
      → Admissible source w e
      → Safe source isn (step e w)
  unfolding step
  step-Safe (writes bytes) w v a = (_, refl, write-Safe bytes w v a)
  step-Safe ends_input w v a = (_, refl, end-IsValid w v)
  step-Safe fills_window w v a =
      let (s, run, valid, same) = fill_window-IsValid w.sender v.sender in
      sender-Safe w _ s v run valid (fill_window-Sends source isn (written w) hi w.sender v.sends)
  step-Safe (ticks ms) w v a =
      let (s, run, valid, same, ticked) = tick_lem ms w.sender v.sender in
      sender-Safe w _ s v run valid (tick-Sends source isn (written w) hi ms w.sender v.sends)
  step-Safe (hears ackno window) w v a =
      let (s, run, valid, same) = ack_received-IsValid ackno window w.sender v.sender in
      sender-Safe w _ s v run valid
        (ack_received-Sends source isn (written w) hi ackno window w.sender v.sends)
  step-Safe transmits w v a = (_, refl, transmit-IsValid w v)
  step-Safe (delivers i) w v a =
      deliver-Safe (get_elem? w.wire i) w v
        (All-get (Placed source isn (written w)) w.wire i v.wire)
  step-Safe (reads n) w v a = read-Safe n w v
