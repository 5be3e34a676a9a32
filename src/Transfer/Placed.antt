-- ===== src/Transfer/Placed.antt =====
-- Where a segment stands in the stream, and what the sender has to do with the stream.
use nju_networking_lab.Base.{ℕ, ◌+◌, ◌-◌, ◌^◌, ◌≤◌, ◌≡◌, arith, [], ◌∷◌}
use nju_networking_lab.Base.{length, All, All-append, Bool, true, false, if◌then◌else◌, IsU32}
use nju_networking_lab.Wrap.{WrappingInt32, wrap}
use nju_networking_lab.Stream.{ByteStream}
use nju_networking_lab.Stream.Contents
use nju_networking_lab.Stream.Contents.{contents}
use nju_networking_lab.Wire.TcpSegment.{TcpSegment, length_in_sequence_space}
use nju_networking_lab.Reassembler.Source.{Matches}
use nju_networking_lab.Sender.{TcpSender, segment_handler, with_seqno}

-- The bytes written stay below this many, so that sequence numbers do not come round.
abbrev pub max_written : ℕ
max_written = 2 ^ 31 - 8

-- The payload stands at index `at` of the stream, below index `limit`, and the sequence number says
-- so.
pub record Placed (source : ℕ → ℕ) (isn : WrappingInt32) (limit : ℕ) (seg : TcpSegment)
    : Type 0 where
  pub at : ℕ
  pub bytes : Matches source at seg.payload
  pub ends : at + length seg.payload ≤ limit
  pub seqno_is :
      if seg.header.syn
      then (seg.header.seqno ≡ isn) × (at ≡ 0)
      else seg.header.seqno ≡ wrap (at + 1) isn

pub Placed-weaken :
    {source : ℕ → ℕ} {isn : WrappingInt32} {m n : ℕ}
    → m ≤ n
    → (seg : TcpSegment) → Placed source isn m seg
    → Placed source isn n seg
Placed-weaken le seg p = record {
  at = p.at;
  bytes = p.bytes;
  ends = omega (arith, p.ends);
  seqno_is = p.seqno_is;
}

-- The stream holds the source's bytes from the count of bytes read on, and the counts are exact.
pub record Feeds (source : ℕ → ℕ) (st : ByteStream) : Type 0 where
  pub valid : Contents.IsValid st
  pub rest : Matches source st.read_bytes (contents st)
  pub counts : st.read_bytes + length (contents st) ≡ st.write_bytes
  pub few : st.write_bytes ≤ max_written

-- What the sender has sent, and keeps to send again, are pieces of the source in their places; the
-- next sequence number counts the bytes taken off the stream and the two flags.
pub record Sends (source : ℕ → ℕ) (isn : WrappingInt32) (written : ℕ) (s : TcpSender) : Type 0 where
  pub same_isn : s.isn ≡ isn
  pub feeds : Feeds source s.stream
  pub same_written : s.stream.write_bytes ≡ written
  pub next :
      s.next_seqno
      ≡ (if s.syn_sent then 1 + s.stream.read_bytes + (if s.fin_sent then 1 else 0) else 0)
  pub before : s.syn_sent ≡ false → (s.stream.read_bytes ≡ 0) × (s.fin_sent ≡ false)
  pub out : All (Placed source isn written) s.segments_out
  pub kept : All (Placed source isn written) s.outstanding

module _ (source : ℕ → ℕ) (isn : WrappingInt32) (written : ℕ) where
  -- A segment, placed and counted, is numbered and sent.
  pub segment_handler-Sends :
      (seg : TcpSegment) (s : TcpSender) (k : ℕ)
      → s.isn ≡ isn
      → IsU32 isn
      → Feeds source s.stream
      → s.stream.write_bytes ≡ written
      → s.syn_sent ≡ true
      → Matches source k seg.payload
      → k + length seg.payload ≤ s.stream.read_bytes
      → (if seg.header.syn then (k ≡ 0) × (s.next_seqno ≡ 0) else s.next_seqno ≡ k + 1)
      → s.next_seqno + length_in_sequence_space seg
        ≡ 1 + s.stream.read_bytes + (if s.fin_sent then 1 else 0)
      → All (Placed source isn written) s.segments_out
      → All (Placed source isn written) s.outstanding
      → Sends source isn written (segment_handler seg s)
  unfolding segment_handler
  segment_handler-Sends seg s k e hi f w t m ends number next out kept = record {
    same_isn = e;
    feeds = f;
    same_written = w;
    next = ground (arith, f.counts, f.few);
    before = λ g. absurd (ground (arith, t));
    out = All-append here s.segments_out (sent ∷ []) out (placed, tt);
    kept = All-append here s.outstanding (sent ∷ []) kept (placed, tt);
  }
    where
      here : TcpSegment → Type 0
      here = Placed source isn written

      sent : TcpSegment
      sent = with_seqno seg (wrap s.next_seqno s.isn)

      numbered :
          (b : Bool)
          → (if b then (k ≡ 0) × (s.next_seqno ≡ 0) else s.next_seqno ≡ k + 1)
          → if b
            then (wrap s.next_seqno s.isn ≡ isn) × (k ≡ 0)
            else wrap s.next_seqno s.isn ≡ wrap (k + 1) isn
      numbered true (z, n) = (rw (n, e) (unfold wrap in omega arith), z)
      numbered false n = rw (n, e)

      placed : Placed source isn written sent
      placed = record {
        at = k;
        bytes = m;
        ends = omega (arith, w, f.counts, ends);
        seqno_is = numbered seg.header.syn number;
      }
