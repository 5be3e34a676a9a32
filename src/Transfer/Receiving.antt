-- ===== src/Transfer/Receiving.antt =====
-- Whatever segments of the sender are delivered, in whatever order, the receiver has the source's
-- bytes, and none that was not written.
use nju_networking_lab.Base.{
  ℕ, zero, suc, ◌+◌, ◌-◌, ◌^◌, ◌≤◌, ◌<◌, ◌≡◌, refl, ap, ◌∙◌, inl, inr, arith, List, ◌++◌,
}
use nju_networking_lab.Base.{
  length, take, length-append, length-take, length-drop, some, Bool, true, false, if◌then◌else◌,
  Bool-cases, IsU32,
}
use nju_networking_lab.Wrap.{WrappingInt32, wrap}
use nju_networking_lab.Wire.TcpSegment.{TcpSegment}
use nju_networking_lab.Stream
use nju_networking_lab.Stream.{ByteStream}
use nju_networking_lab.Stream.Contents.{Popped}
use nju_networking_lab.Reassembler
use nju_networking_lab.Reassembler.{StreamReassembler}
use nju_networking_lab.Reassembler.Source.{Matches, Matches-of, Matches-append, Matches-take}
use nju_networking_lab.Reassembler.Invariant.{held, Got}
use nju_networking_lab.Reassembler.Reading.{Popped-Within}
use nju_networking_lab.Receiver.{TcpReceiver, segment_received}
use nju_networking_lab.Receiver.Accept
use nju_networking_lab.Receiver.Accept.{Genuine, In, Outcome, refused}
use nju_networking_lab.Receiver.Handle.{segment_received_lem}
use nju_networking_lab.Transfer.{with_output}
use nju_networking_lab.Transfer.Placed.{Placed, max_written}

-- The receiver is valid, every byte that it has was written, and the application has read the bytes
-- that come before those it holds.
pub record Receives (source : ℕ → ℕ) (isn : WrappingInt32) (limit : ℕ) (arrived : List ℕ)
    (r : TcpReceiver) : Type 0 where
  pub valid : Accept.IsValid source isn r
  pub roomy : r.capacity < 2 ^ 61
  pub known : (j : ℕ) → Got r.reassembler j → j < limit
  pub read : Matches source 0 arrived
  pub counted : length arrived + length (held r.reassembler) ≡ r.reassembler.cur

pub Receives-more :
    {source : ℕ → ℕ} {isn : WrappingInt32} {m n : ℕ} {arrived : List ℕ} {r : TcpReceiver}
    → m ≤ n
    → Receives source isn m arrived r
    → Receives source isn n arrived r
Receives-more le v = record {
  valid = v.valid;
  roomy = v.roomy;
  known = λ j h. omega (arith, v.known j h);
  read = v.read;
  counted = v.counted;
}

module _ (source : ℕ → ℕ) (isn : WrappingInt32) (limit : ℕ) where
  -- No more is in order than was written.
  pub cur_le :
      {arrived : List ℕ} {r : TcpReceiver}
      → Receives source isn limit arrived r
      → r.reassembler.cur ≤ limit
  cur_le {arrived} {r} v = last r.reassembler.cur (λ j h. v.known j (inl h))
    where
      last : (n : ℕ) → ((j : ℕ) → j < n → j < limit) → n ≤ limit
      last zero f = omega arith
      last (suc n) f = omega (arith, f n (omega arith))

  -- A segment that the sender has sent is one that the receiver's theorem is about.
  pub Placed-Genuine :
      {arrived : List ℕ} {r : TcpReceiver} (seg : TcpSegment)
      → limit ≤ max_written
      → Receives source isn limit arrived r
      → (p : Placed source isn limit seg) → Genuine source isn r seg p.at
  Placed-Genuine {arrived} {r} seg small v p = (p.bytes, numbered seg.header.syn p.seqno_is)
    where
      numbered :
          (b : Bool)
          → (if b
              then (seg.header.seqno ≡ isn) × (p.at ≡ 0)
              else seg.header.seqno ≡ wrap (p.at + 1) isn)
          → (if b
              then (seg.header.seqno ≡ isn) × (p.at ≡ 0)
              else (seg.header.seqno ≡ wrap (p.at + 1) isn)
                × (p.at + 1 < r.reassembler.cur + 2 ^ 31)
                × (r.reassembler.cur ≤ p.at + 1 + 2 ^ 31))
      numbered true h = h
      numbered false h = (h, omega (arith, p.ends), omega (arith, cur_le v))

  -- A delivery.
  pub deliver-Receives :
      {arrived : List ℕ} {r : TcpReceiver} (seg : TcpSegment)
      → IsU32 isn
      → limit ≤ max_written
      → Receives source isn limit arrived r
      → (p : Placed source isn limit seg)
      → (r' : TcpReceiver) × (segment_received r seg ≡ some r')
        × Receives source isn limit arrived r'
        × Outcome source p.at seg r r'
  deliver-Receives {arrived} {r} seg hi small v p = go (
      segment_received_lem source isn hi r seg p.at v.valid
        (omega (arith, cur_le v, v.roomy, v.valid.same_capacity)) (omega (arith, p.ends))
        (Placed-Genuine seg small v p))
    where
      go :
          ((r' : TcpReceiver) × (segment_received r seg ≡ some r')
            × Accept.IsValid source isn r'
            × Outcome source p.at seg r r')
          → (r' : TcpReceiver) × (segment_received r seg ≡ some r')
            × Receives source isn limit arrived r'
            × Outcome source p.at seg r r'
      go (r', run, valid, o) = elim (Bool-cases (refused r seg)) [
        | inl t ↦ (r', run, rw (rw (t) at o) v, o)
        | inr f ↦ (r', run, taken (rw (f) at o).0, o)
      ]
        where
          taken : In source p.at seg r r' → Receives source isn limit arrived r'
          taken i = record {
            valid = valid;
            roomy =
                omega (arith, valid.same_capacity, i.capacity_kept, v.valid.same_capacity, v.roomy);
            known = λ j h. elim ((i.kept j).0 h) [
              | inl old ↦ v.known j old
              | inr new ↦ omega (arith, new.1, p.ends)
            ];
            read = v.read;
            counted = omega (
              arith, i.same_window, i.capacity_kept, i.valid.written, v.valid.stream.written,
              v.counted,
            );
          }

  -- The application reads.
  pub read-Receives :
      {arrived : List ℕ} {r : TcpReceiver} (n : ℕ) (st : ByteStream)
      → Receives source isn limit arrived r
      → Popped n r.reassembler.output st
      → Receives source isn limit (arrived ++ take n (held r.reassembler)) (with_output r st)
  unfolding Reassembler.input_ended Stream.input_ended
  read-Receives {arrived} {r} n st v p = record {
    valid = record {
      stream = Popped-Within source n st v.valid.stream p;
      same_capacity = v.valid.same_capacity;
      isn_known = v.valid.isn_known;
      fin_after_syn = v.valid.fin_after_syn;
      base_is = λ t. v.valid.base_is t ∙ rw (p.same_end) refl;
    };
    roomy = v.roomy;
    known = v.known;
    read =
        Matches-append source 0 (length arrived) arrived (take n (held r.reassembler)) (omega arith)
          v.read
          (Matches-take source n (length arrived) (held r.reassembler) (
            Matches-of source (r.reassembler.cur - length (held r.reassembler)) (length arrived)
              (held r.reassembler) (held r.reassembler) (omega (arith, v.counted)) refl
              v.valid.stream.delivered));
    counted = omega (
      arith,
      v.counted,
      length-append arrived (take n (held r.reassembler)),
      length-take n (held r.reassembler),
      ap length p.rest,
      length-drop n (held r.reassembler),
    );
  }
