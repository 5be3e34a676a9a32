-- ===== src/Reassembler/Reading.antt =====
-- The application reads from the reassembled stream, and the window moves on.
use nju_networking_lab.Base.{
  ℕ, suc, ◌+◌, ◌-◌, ◌≤◌, min, ◌≡◌, sym, ap, ◌∙◌, arith, List, [], ◌∷◌, length, drop, length-drop,
  drop-min,
}
use nju_networking_lab.Stream.{ByteStream}
use nju_networking_lab.Stream.Contents.{contents, Popped, Popped-IsValid}
use nju_networking_lab.Reassembler.{Node, StreamReassembler}
use nju_networking_lab.Reassembler.Source.{Matches-of, Matches-drop}
use nju_networking_lab.Reassembler.Merge.{fin}
use nju_networking_lab.Reassembler.Chain.{Chain}
use nju_networking_lab.Reassembler.Invariant.{IsValid, held, window_end}

Chain-longer :
    (source : ℕ → ℕ) (a b b' : ℕ) (ns : List Node)
    → b ≤ b'
    → Chain source a b ns
    → Chain source a b' ns
Chain-longer source a b b' [] le h = omega arith
Chain-longer source a b b' (n ∷ ns) le h =
    (h.0, h.1, Chain-longer source (suc (fin n)) b b' ns le h.2)

-- A read keeps the invariant.
pub Popped-Within :
    (source : ℕ → ℕ) (n : ℕ) (st : ByteStream) {r : StreamReassembler}
    → IsValid source r
    → Popped n r.output st
    → IsValid source (record r { output = st })
Popped-Within source n st {r} v p = record {
  stream = Popped-IsValid p v.stream;
  same_capacity = p.same_capacity ∙ v.same_capacity;
  small = v.small;
  written = omega (arith, shorter, v.written);
  delivered =
      Matches-of source (r.cur - length (held r) + min n (length (held r)))
        (r.cur - length (contents st)) (drop (min n (length (held r))) (held r)) (contents st)
        (omega (arith, shorter, v.written)) (drop-min n (held r) ∙ sym p.rest)
        (Matches-drop source (min n (length (held r))) (r.cur - length (held r)) (held r)
          v.delivered);
  chain =
      Chain-longer source (suc r.cur) (suc (window_end r))
        (suc (r.cur - length (contents st) + r.capacity)) r.nodes
        (omega (arith, shorter, v.written)) v.chain;
  counted = v.counted;
}
  where
    shorter : length (contents st) ≡ length (held r) - n
    shorter = ap length p.rest ∙ length-drop n (held r)
