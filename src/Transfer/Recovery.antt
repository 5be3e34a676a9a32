-- ===== src/Transfer/Recovery.antt =====
-- A segment that was lost gets through once its timer runs out.
use nju_networking_lab.Base.{
  ℕ, suc, ◌+◌, ◌^◌, ◌≤◌, ◌<◌, ◌≡◌, ◌⊎◌, inl, inr, refl, sym, ap, ◌∙◌, arith, List, [], ◌∷◌, ◌++◌,
}
use nju_networking_lab.Base.{
  length, get_elem?, length-append, append_assoc, Option, some, true, false, IsU32, u64_mod, ◌||◌,
  ◌>>=◌, Whenever-some,
}
use native.Mathlib.Decide.{dec_lt}
use nju_networking_lab.Wrap.{WrappingInt32}
use nju_networking_lab.Wire.TcpSegment.{TcpSegment}
use nju_networking_lab.Reassembler.{StreamReassembler, Node}
use nju_networking_lab.Reassembler.Merge.{fin}
use nju_networking_lab.Reassembler.Chain.{Has, Chain}
use nju_networking_lab.Reassembler.Invariant.{window_end}
use nju_networking_lab.Reassembler.Assembled.{Pushed}
use nju_networking_lab.Receiver.{TcpReceiver, segment_received}
use nju_networking_lab.Receiver.Accept.{Outcome, refused}
use nju_networking_lab.Sender.{TcpSender, tick}
use nju_networking_lab.Sender.Invariant as SenderInvariant
use nju_networking_lab.Sender.Operations.{SameQueue, Ticked, Retransmitted, expired, tick_lem}
use nju_networking_lab.Transfer.{
  World, Event, start, step, deliver, run, with_sender, ticks, transmits, delivers,
}
use nju_networking_lab.Transfer.Placed.{Placed}
use nju_networking_lab.Transfer.Receiving.{Receives, deliver-Receives}
use nju_networking_lab.Transfer.Invariant.{IsValid, Safe, step-Safe, transmit-IsValid, written}
use nju_networking_lab.Transfer.Delivery.{Reaches, Reaches-IsValid, start-IsValid}

get_elem?-length {ℓ} :
    {A : Type ℓ} (xs : List A) (a : A) → get_elem? (xs ++ (a ∷ [])) (length xs) ≡ some a
get_elem?-length [] a = refl
get_elem?-length (x ∷ xs) a = get_elem?-length xs a

-- A piece from the first missing index on, or before, is in order as soon as it is let in.
gets_through :
    (source : ℕ → ℕ) (k len : ℕ) {r r' : StreamReassembler}
    → Pushed source k len r r'
    → k ≤ r.cur
    → k + len ≤ window_end r
    → k + len ≤ r'.cur
gets_through source k len {r} {r'} p from fits = elim (dec_lt r'.cur (k + len)) [
  | no h ↦ omega (arith, h)
  | yes h ↦ absurd (
      gap r'.nodes p.valid.chain
        ((p.kept r'.cur).1 (inr (omega (arith, p.forward), h, omega arith))))
]
  where
    later :
        (a : ℕ) (ns : List Node)
        → r'.cur < a
        → Chain source a (suc (window_end r')) ns
        → Has ns r'.cur
        → ⊥
    later a [] lt c h = h
    later a (n ∷ ns) lt c (inl h) = omega (arith, h.0, c.0)
    later a (n ∷ ns) lt c (inr h) = later (suc (fin n)) ns (omega arith) c.2 h

    gap :
        (ns : List Node)
        → Chain source (suc r'.cur) (suc (window_end r')) ns
        → (r'.cur < r'.cur) ⊎ Has ns r'.cur
        → ⊥
    gap ns c (inl h) = omega arith
    gap ns c (inr h) = later (suc r'.cur) ns (omega arith) c h

-- Timeout, retransmission and delivery of what then stands at the end of the wire.
abbrev pub recovery : ℕ → World → List Event
recovery ms w = ticks ms ∷ transmits ∷ delivers (length w.wire + length w.sender.segments_out) ∷ []

abbrev transmitted : World → World
transmitted w = record w {
  wire = w.wire ++ w.sender.segments_out;
  sender = record (w.sender) { segments_out = [] };
}

-- The segment is in: its bytes are in order and its flags are noted.
abbrev pub Arrived : TcpSegment → ℕ → World → World → Type 0
Arrived seg end w w' =
    (end ≤ w'.receiver.reassembler.cur)
    × (w'.receiver.syn ≡ true)
    × (w'.receiver.fin ≡ (w.receiver.fin || seg.header.fin))

module _ (source : ℕ → ℕ) (isn : WrappingInt32) (hi : IsU32 isn) where
  -- A delivery of a segment that is next.
  delivered :
      (w : World) (seg : TcpSegment) (o : Option TcpSegment)
      → IsValid source isn w
      → (p : Placed source isn (written w) seg) → o ≡ some seg
      → refused w.receiver seg ≡ false
      → p.at ≤ w.receiver.reassembler.cur
      → p.at + length seg.payload ≤ window_end w.receiver.reassembler
      → (w' : World) × (deliver o w ≡ some w') × Arrived seg (p.at + length seg.payload) w w'
  unfolding deliver
  delivered w seg o v p e let_in from fits =
      rw (e) (go (deliver-Receives source isn (written w) seg hi v.sends.feeds.few v.receives p))
    where
      go :
          ((r : TcpReceiver) × (segment_received w.receiver seg ≡ some r)
            × Receives source isn (written w) w.arrived r
            × Outcome source p.at seg w.receiver r)
          → (w' : World) × (deliver (some seg) w ≡ some w')
            × Arrived seg (p.at + length seg.payload) w w'
      go (r, runs, receives, o) =
          let (i, syn, same_fin) = rw (let_in) at o in
          (
            record w { receiver = r },
            rw (runs) refl,
            (gets_through source p.at (length seg.payload) i from fits, syn, same_fin),
          )

  ticked :
      (w : World) (ms : ℕ)
      → IsValid source isn w
      → expired ms w.sender ≡ true
      → (s : TcpSender) × (step (ticks ms) w ≡ some (with_sender w s))
        × IsValid source isn (with_sender w s)
        × SameQueue w.sender s
        × Retransmitted w.sender s
  unfolding step
  ticked w ms v out = go (tick_lem ms w.sender v.sender) (step-Safe source isn hi (ticks ms) w v tt)
    where
      go :
          ((s : TcpSender) × (tick ms w.sender ≡ some s)
            × SenderInvariant.IsValid s
            × SameQueue w.sender s
            × Ticked ms w.sender s)
          → Safe source isn (step (ticks ms) w)
          → (s : TcpSender) × (step (ticks ms) w ≡ some (with_sender w s))
            × IsValid source isn (with_sender w s)
            × SameQueue w.sender s
            × Retransmitted w.sender s
      go (s, run, valid, same, t) (w', run', v') = (
        s,
        steps,
        Whenever-some (IsValid source isn) {o = some w'} v' (sym run' ∙ steps),
        same,
        rw (out) at t,
      )
        where
          steps : step (ticks ms) w ≡ some (with_sender w s)
          steps = rw (run) refl

  runs_three :
      (a b c : Event) (w u v : World) (o : Option World)
      → step a w ≡ some u
      → step b u ≡ some v
      → step c v ≡ o
      → run (a ∷ b ∷ c ∷ []) w ≡ (o >>= λ x. some x)
  unfolding run
  runs_three a b c w u v o p q r = rw (p, q, r) refl

  recovers_from :
      (w : World) (seg : TcpSegment) (segs : List TcpSegment) (ms : ℕ)
      → IsValid source isn w
      → (p : Placed source isn (written w) seg) → w.sender.outstanding ≡ seg ∷ segs
      → expired ms w.sender ≡ true
      → refused w.receiver seg ≡ false
      → p.at ≤ w.receiver.reassembler.cur
      → p.at + length seg.payload ≤ window_end w.receiver.reassembler
      → (w' : World) × (run (recovery ms w) w ≡ some w')
        × Arrived seg (p.at + length seg.payload) w w'
  unfolding step
  recovers_from w seg segs ms v p oldest out let_in from fits = go (ticked w ms v out)
    where
      Goal : Type 0
      Goal =
          (w' : World) × (run (recovery ms w) w ≡ some w')
          × Arrived seg (p.at + length seg.payload) w w'

      go :
          ((s : TcpSender) × (step (ticks ms) w ≡ some (with_sender w s))
            × IsValid source isn (with_sender w s)
            × SameQueue w.sender s
            × Retransmitted w.sender s)
          → Goal
      go (s, first, v1, same, r) = last (
          delivered u seg (get_elem? u.wire place)
            (transmit-IsValid source isn hi (with_sender w s) v1) placed found let_in from fits)
        where
          u : World
          u = transmitted (with_sender w s)

          place : ℕ
          place = length w.wire + length w.sender.segments_out

          again : r.oldest ≡ seg
          again =
              Whenever-some (λ x. r.oldest ≡ x) {o = some r.oldest} refl
                (ap (λ xs. get_elem? xs 0) (sym r.is_oldest ∙ oldest))

          on_wire : u.wire ≡ (w.wire ++ w.sender.segments_out) ++ (seg ∷ [])
          on_wire = rw (r.sent, again) (sym (append_assoc w.wire w.sender.segments_out (seg ∷ [])))

          found : get_elem? u.wire place ≡ some seg
          found =
              ap (λ xs. get_elem? xs place) on_wire
              ∙ ap (get_elem? ((w.wire ++ w.sender.segments_out) ++ (seg ∷ []))) {x = place}
                  {y = length (w.wire ++ w.sender.segments_out)}
                  (omega (arith, length-append w.wire w.sender.segments_out))
              ∙ get_elem?-length (w.wire ++ w.sender.segments_out) seg

          placed : Placed source isn (written u) seg
          placed = record {
            at = p.at;
            bytes = p.bytes;
            ends = omega (arith, p.ends, ap (λ st. st.write_bytes) same.4);
            seqno_is = p.seqno_is;
          }

          last :
              ((w' : World) × (deliver (get_elem? u.wire place) u ≡ some w')
                × Arrived seg (p.at + length seg.payload) u w')
              → Goal
          last (w', third, arrived) = (
            w',
            runs_three (ticks ms) transmits (delivers place) w (with_sender w s) u
                  (deliver (get_elem? u.wire place) u) first refl refl
                ∙ rw (third) refl,
            arrived,
          )

-- Take any state that a sender and a receiver reach over the network while less than 2 GiB are
-- written, with a segment as the oldest outstanding one that the receiver does not refuse (no SYN
-- is missing or repeated, no FIN repeated), whose place is not behind the first byte that the
-- receiver misses and whose end is inside its window. Once the timer has run out, a tick, the
-- emptying of the sender's queue and the delivery of what then stands last on the wire all return,
-- and the receiver has in order everything up to the segment's end, and knows its flags.
pub recovers :
    (source : ℕ → ℕ) (isn : WrappingInt32) (send_capacity rto recv_capacity : ℕ) (w : World)
    (seg : TcpSegment) (segs : List TcpSegment) (ms : ℕ)
    → IsU32 isn
    → send_capacity < u64_mod
    → recv_capacity < 2 ^ 61
    → Reaches source (start send_capacity rto isn recv_capacity) w
    → (p : Placed source isn (written w) seg) → w.sender.outstanding ≡ seg ∷ segs
    → expired ms w.sender ≡ true
    → refused w.receiver seg ≡ false
    → p.at ≤ w.receiver.reassembler.cur
    → p.at + length seg.payload ≤ window_end w.receiver.reassembler
    → (w' : World) × (run (recovery ms w) w ≡ some w')
      × Arrived seg (p.at + length seg.payload) w w'
recovers source isn send_capacity rto recv_capacity w seg segs ms hi hs hr r p =
    recovers_from source isn hi w seg segs ms
      (Reaches-IsValid source isn hi
        (start-IsValid source isn send_capacity rto recv_capacity hi hs hr) r)
      p
