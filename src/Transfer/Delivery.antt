-- ===== src/Transfer/Delivery.antt =====
-- What the receiving application gets is what the sending one wrote.
use nju_networking_lab.Base.{ℕ, ◌-◌, ◌^◌, ◌≤◌, ◌<◌, ◌≡◌, ◌⊎◌, inl, inr, refl, arith, ◌++◌}
use nju_networking_lab.Base.{length, length-append, some, IsU32, u64_mod, Whenever-some}
use nju_networking_lab.Wrap.{WrappingInt32}
use nju_networking_lab.Buffer.Contents.{bytes}
use nju_networking_lab.Stream.Contents
use nju_networking_lab.Reassembler.Source.{Matches, Matches-of, Matches-append}
use nju_networking_lab.Reassembler.Invariant.{held}
use nju_networking_lab.Reassembler.Start
use nju_networking_lab.Sender.Invariant as SenderInvariant
use nju_networking_lab.Transfer.{World, Event, start, step}
use nju_networking_lab.Transfer.Invariant.{IsValid, Admissible, step-Safe, written}
use nju_networking_lab.Transfer.Receiving.{cur_le}

-- What has arrived, read or not, is the front part of the source, and was written.
abbrev pub Faithful : (ℕ → ℕ) → World → Type 0
Faithful source w =
    Matches source 0 (w.arrived ++ held w.receiver.reassembler)
    × (length (w.arrived ++ held w.receiver.reassembler) ≤ written w)

-- The states that steps lead to from `w`.
pub data Reaches (source : ℕ → ℕ) (w : World) : World → Type 0 where
  here : Reaches source w w
  next :
      {u u' : World} (e : Event)
      → Reaches source w u
      → Admissible source u e
      → step e u ≡ some u'
      → Reaches source w u'

pub start-IsValid :
    (source : ℕ → ℕ) (isn : WrappingInt32) (send_capacity rto recv_capacity : ℕ)
    → IsU32 isn
    → send_capacity < u64_mod
    → recv_capacity < 2 ^ 61
    → IsValid source isn (start send_capacity rto isn recv_capacity)
unfolding Contents.contents bytes
start-IsValid source isn send_capacity rto recv_capacity hi hs hr = record {
  sender = SenderInvariant.fresh-IsValid send_capacity rto isn hs;
  sends = record {
    same_isn = refl;
    feeds = record {
      valid = Contents.fresh-IsValid send_capacity hs;
      rest = tt;
      counts = refl;
      few = omega arith;
    };
    same_written = refl;
    next = refl;
    before = λ f. (refl, refl);
    out = tt;
    kept = tt;
  };
  wire = tt;
  receives = record {
    valid = record {
      stream = Start.fresh-IsValid source recv_capacity (omega arith);
      same_capacity = refl;
      isn_known = λ t. absurd (ground arith);
      fin_after_syn = λ t. absurd (ground arith);
      base_is = λ t. absurd (ground arith);
    };
    roomy = hr;
    known = λ j h. nothing j h;
    read = tt;
    counted = refl;
  };
}
  where
    nothing : (j : ℕ) → (j < 0) ⊎ ⊥ → j < 0
    nothing j (inl h) = h
    nothing j (inr h) = absurd h

module _ (source : ℕ → ℕ) (isn : WrappingInt32) (hi : IsU32 isn) where
  pub Reaches-IsValid :
      {w u : World} → IsValid source isn w → Reaches source w u → IsValid source isn u
  Reaches-IsValid v here = v
  Reaches-IsValid v (next {u} {u'} e r a run) =
      let (u2, run2, v2) = step-Safe source isn hi e u (Reaches-IsValid v r) a in
      Whenever-some (IsValid source isn) (rw (run2) v2) run

  IsValid-Faithful : (w : World) → IsValid source isn w → Faithful source w
  IsValid-Faithful w v = (
    Matches-append source 0 (length w.arrived) w.arrived (held w.receiver.reassembler) (omega arith)
        v.receives.read
        (Matches-of source (w.receiver.reassembler.cur - length (held w.receiver.reassembler))
          (length w.arrived) (held w.receiver.reassembler) (held w.receiver.reassembler)
          (omega (arith, v.receives.counted)) refl v.receives.valid.stream.delivered),
    omega (
      arith,
      length-append w.arrived (held w.receiver.reassembler),
      v.receives.counted,
      cur_le source isn (written w) v.receives,
    ),
  )

-- A sender and a receiver over a network that loses, repeats and reorders, from their construction
-- on, with capacities that fit in memory: in every state they reach while the application writes
-- less than 2 GiB in all, every further step returns (a write up to that bound, an end of input, a
-- fill of the window, a tick, any acknowledgment and window, a delivery of any segment ever
-- transmitted, a read), and what the receiving application has got by then, with what waits for it
-- in order, is the front part of what was written.
pub delivers_in_order :
    (source : ℕ → ℕ) (isn : WrappingInt32) (send_capacity rto recv_capacity : ℕ) (w : World)
    (e : Event)
    → IsU32 isn
    → send_capacity < u64_mod
    → recv_capacity < 2 ^ 61
    → Reaches source (start send_capacity rto isn recv_capacity) w
    → Admissible source w e
    → (w' : World) × (step e w ≡ some w') × Faithful source w'
delivers_in_order source isn send_capacity rto recv_capacity w e hi hs hr r a =
    let (w', run, v) =
      step-Safe source isn hi e w
        (Reaches-IsValid source isn hi
          (start-IsValid source isn send_capacity rto recv_capacity hi hs hr) r)
        a in
    (w', run, IsValid-Faithful source isn hi w' v)
