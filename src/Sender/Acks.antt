-- ===== src/Sender/Acks.antt =====
-- Which segments an acknowledgment takes off the queue.
use mathlib.Core.Path.{subst}
use nju_networking_lab.Base.{
  ℕ, ◌+◌, ◌%◌, ◌^◌, ◌≤◌, ◌<◌, ◌≡◌, refl, ap, inl, inr, arith, List, [], ◌∷◌, ◌++◌,
}
use nju_networking_lab.Base.{IsU32, Bool, true, leb, leb→le, Bool-cases, add64, sub64, u32_mod}
use nju_networking_lab.Wrap.{WrappingInt32, wrap, unwrap}
use nju_networking_lab.Wrap.RoundTrip.{unwrap-wrap}
use nju_networking_lab.Wire.TcpSegment.{TcpSegment, length_in_sequence_space}
use nju_networking_lab.Sender.{acknowledge}
use nju_networking_lab.Sender.Sent.{total, Numbered}

-- The first segment left is not covered by the acknowledged number.
abbrev pub Stops : ℕ → ℕ → List TcpSegment → Type 0
Stops seqno n [] = Unit
Stops seqno n (x ∷ xs) = seqno < n + length_in_sequence_space x

-- The segments gone are the longest front part of the queue that the number covers whole.
pub record Exact (seqno n : ℕ) (segs left : List TcpSegment) : Type 0 where
  pub gone : List TcpSegment
  pub split : segs ≡ gone ++ left
  pub covered : n + total gone ≤ seqno
  pub stops : Stops seqno (n + total gone) left

end_of_front :
    (seqno : ℕ) (isn : WrappingInt32) (n : ℕ) (x : TcpSegment)
    → IsU32 isn
    → IsU32 (n + length_in_sequence_space x)
    → n ≤ seqno
    → seqno ≤ n + 2 ^ 31
    → IsU32 seqno
    → x.header.seqno ≡ wrap n isn
    → add64 (unwrap x.header.seqno isn (seqno % u32_mod)) (length_in_sequence_space x) % u32_mod
      ≡ n + length_in_sequence_space x
end_of_front seqno isn n x hi hn lo hc hs e =
    let u : unwrap (wrap n isn) isn (seqno % u32_mod) ≡ n =
      unwrap-wrap n isn (seqno % u32_mod) hi (omega arith) (omega arith) (omega arith) in
    simp (e, u) (omega arith)

-- While the sequence numbers stay below 2 ^ 32 and at most 2 ^ 31 of them are outstanding, an
-- acknowledged number within a contiguous queue removes exactly the longest front part of the
-- queue that it covers whole.
pub acknowledge-Exact :
    (seqno : ℕ) (isn : WrappingInt32) (n : ℕ) (segs : List TcpSegment) (in_flight : ℕ) (b : Bool)
    → IsU32 isn
    → IsU32 (n + total segs)
    → total segs ≤ 2 ^ 31
    → Numbered isn n segs
    → n ≤ seqno
    → seqno ≤ n + total segs
    → Exact seqno n segs (acknowledge seqno isn segs in_flight b).0
unfolding acknowledge total
acknowledge-Exact seqno isn n [] in_flight b hi hn hl num lo hc = record {
  gone = [];
  split = refl;
  covered = omega arith;
  stops = tt;
}
acknowledge-Exact seqno isn n (x ∷ xs) in_flight b hi hn hl (e, pos, short, num) lo hc =
    elim (Bool-cases (leb (n + length_in_sequence_space x) seqno)) [
      | inr f ↦
          rw (ends, f)
            (record { gone = []; split = refl; covered = omega arith; stops = ground arith })
      | inl t ↦
          let le = leb→le (n + length_in_sequence_space x) seqno t in
          rw (ends, t)
            (longer (
              acknowledge-Exact seqno isn (n + length_in_sequence_space x) xs
                (sub64 in_flight (length_in_sequence_space x)) true hi (omega arith) (omega arith)
                (subst (λ k. Numbered isn k xs) small num) le (omega arith)))
    ]
  where
    small : add64 n (length_in_sequence_space x) ≡ n + length_in_sequence_space x
    small = omega arith

    ends :
        add64 (unwrap x.header.seqno isn (seqno % u32_mod)) (length_in_sequence_space x) % u32_mod
        ≡ n + length_in_sequence_space x
    ends = end_of_front seqno isn n x hi (omega arith) lo (omega arith) (omega arith) e

    longer :
        {left : List TcpSegment}
        → Exact seqno (n + length_in_sequence_space x) xs left
        → Exact seqno n (x ∷ xs) left
    longer {left} a = record {
      gone = x ∷ a.gone;
      split = ap (λ ys. x ∷ ys) a.split;
      covered = omega (arith, a.covered);
      stops =
          subst (λ k. Stops seqno k left)
            (let e : n + length_in_sequence_space x + total a.gone
                  ≡ n + (length_in_sequence_space x + total a.gone) =
                omega arith in
              e)
            a.stops;
    }
