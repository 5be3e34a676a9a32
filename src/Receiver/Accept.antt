-- ===== src/Receiver/Accept.antt =====
-- What a segment of the peer's stream does to the receiver.
use nju_networking_lab.Base.{ℕ, ◌+◌, ◌%◌, ◌^◌, ◌≤◌, ◌<◌, ◌≡◌, refl, ◌∙◌, inl, inr, arith}
use nju_networking_lab.Base.{
  length, IsU32, some, Bool, true, not, ◌&&◌, ◌||◌, if◌then◌else◌, Bool-cases, add64, u32_mod,
}
use nju_networking_lab.Wrap.{WrappingInt32, wrap, unwrap}
use nju_networking_lab.Wrap.RoundTrip.{unwrap-wrap}
use nju_networking_lab.Wire.TcpSegment.{TcpSegment}
use nju_networking_lab.Reassembler
use nju_networking_lab.Reassembler.{StreamReassembler}
use nju_networking_lab.Reassembler.Source.{Matches}
use nju_networking_lab.Reassembler.Invariant
use nju_networking_lab.Reassembler.Invariant.{window_end, held}
use nju_networking_lab.Reassembler.Assembled.{Pushed}
use nju_networking_lab.Reassembler.Push.{push_substring_lem}
use nju_networking_lab.Receiver.{TcpReceiver, stream_index, take_in}

-- The stream and its FIN are both in order.
abbrev pub complete : TcpReceiver → Bool
complete r = Reassembler.input_ended r.reassembler && r.fin

-- The invariant, for a peer whose stream is `source` and whose initial sequence number is `isn`.
pub record IsValid (source : ℕ → ℕ) (isn : WrappingInt32) (r : TcpReceiver) : Type 0 where
  pub stream : Invariant.IsValid source r.reassembler
  pub same_capacity : r.reassembler.capacity ≡ r.capacity
  pub isn_known : r.syn ≡ true → r.isn ≡ isn
  pub fin_after_syn : r.fin ≡ true → r.syn ≡ true
  pub base_is : r.syn ≡ true → r.rcv_base ≡ r.reassembler.cur + 1 + (if complete r then 1 else 0)

-- A segment of the peer, whose payload stands at index `k` of the stream. A segment without the SYN
-- flag is numbered by the absolute number `k + 1`, which is within 2 GiB of the receiver's place.
abbrev pub Genuine : (ℕ → ℕ) → WrappingInt32 → TcpReceiver → TcpSegment → ℕ → Type 0
Genuine source isn r seg k =
    Matches source k seg.payload
    × (if seg.header.syn
        then (seg.header.seqno ≡ isn) × (k ≡ 0)
        else (seg.header.seqno ≡ wrap (k + 1) isn)
          × (k + 1 < r.reassembler.cur + 2 ^ 31)
          × (r.reassembler.cur ≤ k + 1 + 2 ^ 31))

-- A segment before the SYN, a second SYN, and a second FIN.
abbrev pub refused : TcpReceiver → TcpSegment → Bool
refused r seg =
    (not seg.header.syn && not r.syn) || (seg.header.syn && r.syn) || (seg.header.fin && r.fin)

-- The reassembler before and after a segment that is let in.
abbrev pub In : (ℕ → ℕ) → ℕ → TcpSegment → TcpReceiver → TcpReceiver → Type 0
In source k seg r r' = Pushed source k (length seg.payload) r.reassembler r'.reassembler

-- What a segment leaves: one that is refused changes nothing; the payload of another is put into
-- the stream, and its flags are noted.
abbrev pub Outcome : (ℕ → ℕ) → ℕ → TcpSegment → TcpReceiver → TcpReceiver → Type 0
Outcome source k seg r r' =
    if refused r seg
    then r' ≡ r
    else In source k seg r r' × (r'.syn ≡ true) × (r'.fin ≡ (r.fin || seg.header.fin))

module _ (source : ℕ → ℕ) (isn : WrappingInt32) (hi : IsU32 isn) where
  -- The index that the code computes is the segment's place in the stream.
  index_lem :
      (r : TcpReceiver) (seg : TcpSegment) (k : ℕ)
      → r.isn ≡ isn
      → k + length seg.payload < 2 ^ 62
      → Genuine source isn r seg k
      → stream_index r seg ≡ k
  unfolding stream_index
  index_lem r seg k e small (m, g) = elim (Bool-cases seg.header.syn) [
    | inl t ↦ let z = (rw (t) at g).1 in rw (t) (omega (arith, z))
    | inr f ↦
        let (num, lo, hi') = rw (f) at g in
        let same : r.isn % u32_mod ≡ isn = omega (arith, e) in
        let u : unwrap (wrap (k + 1) isn) isn r.reassembler.cur ≡ k + 1 =
          unwrap-wrap (k + 1) isn r.reassembler.cur hi (omega arith) (omega arith) (omega arith) in
        simp (f, num, same, u) (omega arith)
  ]

  -- A segment that is let in, its flags noted in `r`.
  pub take_in_lem :
      (r : TcpReceiver) (seg : TcpSegment) (k : ℕ)
      → Invariant.IsValid source r.reassembler
      → r.reassembler.capacity ≡ r.capacity
      → r.syn ≡ true
      → r.isn ≡ isn
      → window_end r.reassembler < 2 ^ 62
      → k + length seg.payload < 2 ^ 62
      → Genuine source isn r seg k
      → (r' : TcpReceiver) × (take_in r seg ≡ some r')
        × IsValid source isn r'
        × In source k seg r r'
        × (r'.syn ≡ true)
        × (r'.fin ≡ r.fin)
  unfolding take_in
  take_in_lem r seg k v cap syn known small fits g =
      go (push_substring_lem source seg.payload k seg.header.fin v g.0 (omega arith) (omega arith))
    where
      go :
          ((re : StreamReassembler) × (Reassembler.push_substring seg.payload k seg.header.fin
                r.reassembler
              ≡ some re)
            × Pushed source k (length seg.payload) r.reassembler re)
          → (r' : TcpReceiver) × (take_in r seg ≡ some r')
            × IsValid source isn r'
            × In source k seg r r'
            × (r'.syn ≡ true)
            × (r'.fin ≡ r.fin)
      go (re, run, p) = (
        record r {
          reassembler = re;
          rcv_base =
              if Reassembler.input_ended re && r.fin
              then add64 (add64 re.cur 1) 1
              else add64 re.cur 1;
        },
        rw (index_lem r seg k known fits g, run) refl,
        record {
          stream = p.valid;
          same_capacity = p.capacity_kept ∙ cap;
          isn_known = λ t. known;
          fin_after_syn = λ t. syn;
          base_is = λ t.
              ground
                (arith, p.same_window, p.valid.written, p.valid.stream.held, p.valid.same_capacity);
        },
        p,
        syn,
        refl,
      )
