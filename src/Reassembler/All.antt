-- ===== src/Reassembler/All.antt =====
-- Both merging loops together: a block joined to all that it touches.
use nju_networking_lab.Base.{
  ℕ, suc, ◌+◌, ◌≤◌, ◌<◌, ◌≡◌, ◌⊎◌, ◌↔◌, inl, inr, refl, sym, ap, ◌∙◌, arith, List, [], ◌∷◌, ◌++◌,
}
use nju_networking_lab.Base.{length, length-append, Option, some, append_assoc, u64_mod}
use mathlib.Core.Path.{subst}
use nju_networking_lab.Reassembler.{Node, merge_succ, merge_prev, merge_all, Merging}
use nju_networking_lab.Reassembler.Merge.{fin, IsNode}
use nju_networking_lab.Reassembler.Chain.{
  total, Has, Chain, Chain-All, total-append, Has-append, append-Has, Cut, cut, front, behind,
}
use nju_networking_lab.Reassembler.Succ.{SuccDone, merge_succ_lem}
use nju_networking_lab.Reassembler.Prev.{PrevDone, prev_stops, merge_prev_behind, All-snoc, at}

-- Two exchanges of nodes, one behind the block and one before it, put together.
module _ (before ps rest hi : List Node) (block b1 b2 : Node) (j : ℕ)
    (succ : Has (b1 ∷ rest) j ↔ Has (block ∷ hi) j)
    (prev : (Has before j ⊎ Has (b2 ∷ []) j) ↔ (Has ps j ⊎ Has (b1 ∷ []) j)) where
  from_right : Has (block ∷ hi) j → Has (block ∷ (ps ++ hi)) j
  from_right (inl h) = inl h
  from_right (inr h) = inr (append-Has ps hi j (inr h))

  from_middle : Has ps j ⊎ Has (b1 ∷ []) j → Has (block ∷ (ps ++ hi)) j
  from_middle (inl h) = inr (append-Has ps hi j (inl h))
  from_middle (inr (inl h)) = from_right (succ.0 (inl h))
  from_middle (inr (inr h)) = absurd h

  to_left : Has before j ⊎ Has (b2 ∷ []) j → Has (before ++ (b2 ∷ rest)) j
  to_left (inl h) = append-Has before (b2 ∷ rest) j (inl h)
  to_left (inr (inl h)) = append-Has before (b2 ∷ rest) j (inr (inl h))
  to_left (inr (inr h)) = absurd h

  to_middle : Has (b1 ∷ rest) j → Has (before ++ (b2 ∷ rest)) j
  to_middle (inl h) = to_left (prev.1 (inr (inl h)))
  to_middle (inr h) = append-Has before (b2 ∷ rest) j (inr (inr h))

  kept_both : Has (before ++ (b2 ∷ rest)) j ↔ Has (block ∷ (ps ++ hi)) j
  kept_both = (there, back)
    where
      there : Has (before ++ (b2 ∷ rest)) j → Has (block ∷ (ps ++ hi)) j
      there h = elim (Has-append before (b2 ∷ rest) j h) [
        | inl x ↦ from_middle (prev.0 (inl x))
        | inr (inl x) ↦ from_middle (prev.0 (inr (inl x)))
        | inr (inr x) ↦ from_right (succ.0 (inr x))
      ]

      back : Has (block ∷ (ps ++ hi)) j → Has (before ++ (b2 ∷ rest)) j
      back (inl h) = to_middle (succ.1 (inl h))
      back (inr h) = elim (Has-append ps hi j h) [
        | inl x ↦ to_left (prev.1 (inl x))
        | inr x ↦ to_middle (succ.1 (inr x))
      ]

merge_all_then :
    (m0 m1 m2 : Merging) (fuel : ℕ) (lo hi : List Node)
    → merge_succ (suc (length m0.set)) m0 ≡ some m1
    → m1.set ≡ lo ++ hi
    → length (lo ++ hi) ≡ fuel
    → merge_prev (suc fuel) (record { count = m1.count; block = m1.block; set = lo ++ hi })
      ≡ some m2
    → merge_all m0 ≡ some m2
unfolding merge_all
merge_all_then m0 m1 m2 fuel lo hi run e f run' = rw run (same ∙ rw f run')
  where
    at_set : List Node → Option Merging
    at_set s = merge_prev (suc (length s)) (record { count = m1.count; block = m1.block; set = s })

    same : at_set m1.set ≡ at_set (lo ++ hi)
    same = ap at_set e

module _ (source : ℕ → ℕ) where
  -- The block stands free between the nodes before it and those behind it, and nothing is lost.
  pub record MergeDone (a b : ℕ) (block : Node) (ns : List Node) (m : Merging) : Type 0 where
    pub before : List Node
    pub after : List Node
    pub set_is : m.set ≡ before ++ after
    pub is_node : IsNode source m.block
    pub low : Chain source a m.block.idx before
    pub high : Chain source (suc (fin m.block)) b after
    pub counted : m.count ≡ total before + (length m.block.bytes + total after)
    pub kept : (j : ℕ) → Has (before ++ (m.block ∷ after)) j ↔ Has (block ∷ ns) j

  merge_all_front :
      (a b count : ℕ) (block : Node) (ns : List Node)
      → IsNode source block
      → fin block < b
      → Chain source block.idx b ns
      → count ≡ length block.bytes + total ns
      → count < u64_mod
      → a ≤ block.idx
      → (m : Merging) × (merge_all (record { count = count; block = block; set = ns }) ≡ some m)
        × MergeDone a b block ns m
  merge_all_front a b count block ns is_node below chain counted small from = go (
      merge_succ_lem source (suc (length ns)) 0 b count block [] ns (omega arith) is_node below tt
        chain (omega arith) small)
    where
      start : Merging
      start = record { count = count; block = block; set = ns }

      go :
          ((m : Merging) × (merge_succ (suc (length ns)) start ≡ some m)
            × SuccDone source 0 b count block [] ns m)
          → (m : Merging) × (merge_all start ≡ some m) × MergeDone a b block ns m
      go (m, run, d) = (
        record { count = m.count; block = m.block; set = d.rest },
        merge_all_then start m _ (length d.rest) [] d.rest run d.set_is refl (
            prev_stops source (length d.rest) a b m.count m.block [] d.rest d.is_node
              (omega (arith, d.start)) d.above),
        record {
          before = [];
          after = d.rest;
          set_is = refl;
          is_node = d.is_node;
          low = omega (arith, d.start);
          high = d.above;
          counted = omega (arith, d.counted);
          kept = d.kept;
        },
      )

  merge_all_behind :
      (a b count : ℕ) (block p : Node) (lo hi : List Node)
      → IsNode source block
      → IsNode source p
      → fin block < b
      → p.idx < block.idx
      → Chain source a p.idx lo
      → Chain source (suc (fin p)) b hi
      → Chain source block.idx b hi
      → count ≡ length block.bytes + total ((lo ++ (p ∷ [])) ++ hi)
      → count < u64_mod
      → (m : Merging) × (merge_all
            (record { count = count; block = block; set = (lo ++ (p ∷ [])) ++ hi })
          ≡ some m)
        × MergeDone a b block ((lo ++ (p ∷ [])) ++ hi) m
  merge_all_behind a b count block p lo hi is_node p_node below lt low over chain counted small =
      go_succ (
        merge_succ_lem source (suc (length (ps ++ hi))) (total ps) b count block ps hi
          (omega (arith, length-append ps hi)) is_node below
          (All-snoc source block.idx lo p lt
            (Chain-All source a p.idx block.idx lo (omega arith) low))
          chain (omega (arith, total-append ps hi)) small)
    where
      ps : List Node
      ps = lo ++ (p ∷ [])

      start : Merging
      start = record { count = count; block = block; set = ps ++ hi }

      Goal : Type 0
      Goal = (m : Merging) × (merge_all start ≡ some m) × MergeDone a b block (ps ++ hi) m

      go_prev :
          (m : Merging)
          → merge_succ (suc (length (ps ++ hi))) start ≡ some m
          → (d : SuccDone source (total ps) b count block ps hi m)
          → ((m' : Merging) × (merge_prev
                  (suc (suc (length (lo ++ d.rest))))
                  (at source m.count m.block ps d.rest)
                ≡ some m')
              × PrevDone source (total d.rest) a b m.block ps d.rest m')
          → Goal
      go_prev m run d (m', run', d') = (
        m',
        merge_all_then start m m' (suc (length (lo ++ d.rest))) ps d.rest run d.set_is
            (omega
              (arith, length-append ps d.rest, length-append lo (p ∷ []), length-append lo d.rest))
            run',
        record {
          before = d'.before;
          after = d.rest;
          set_is = d'.set_is;
          is_node = d'.is_node;
          low = d'.low;
          high = d'.high;
          counted = omega (arith, d'.counted);
          kept =
              λ j. kept_both d'.before ps d.rest hi block m.block m'.block j (d.kept j) (d'.kept j);
        },
      )

      go_succ :
          ((m : Merging) × (merge_succ (suc (length (ps ++ hi))) start ≡ some m)
            × SuccDone source (total ps) b count block ps hi m)
          → Goal
      go_succ (m, run, d) = go_prev m run d (
          merge_prev_behind source (length (lo ++ d.rest)) (total d.rest) a b m.count m.block p lo
            d.rest d.is_node p_node (omega (arith, d.start)) low (d.suffix _ over) d.above
            (omega (arith, d.counted)) (omega (arith, d.fewer)))

  -- Whatever ordered nodes there are, the merging loops end without a fault, and the block comes out
  -- as the union of itself and all nodes that it touches, between those that it does not.
  pub merge_all_lem :
      (a b count : ℕ) (block : Node) (ns : List Node)
      → IsNode source block
      → a ≤ block.idx
      → fin block < b
      → Chain source a b ns
      → count ≡ length block.bytes + total ns
      → count < u64_mod
      → (m : Merging) × (merge_all (record { count = count; block = block; set = ns }) ≡ some m)
        × MergeDone a b block ns m
  merge_all_lem a b count block ns is_node from below chain counted small =
      go (cut source block.idx a b ns (omega arith) chain)
    where
      Goal : List Node → Type 0
      Goal xs =
          (m : Merging) × (merge_all (record { count = count; block = block; set = xs }) ≡ some m)
          × MergeDone a b block xs m

      go : Cut source block.idx a b ns → Goal ns
      go (front c) = merge_all_front a b count block ns is_node below c counted small from
      go (behind lo p hi e low p_node lt over c) =
          let e' : ns ≡ (lo ++ (p ∷ [])) ++ hi = e ∙ sym (append_assoc lo (p ∷ []) hi) in
          subst Goal (sym e') (
            merge_all_behind a b count block p lo hi is_node p_node below lt low over c
              (counted ∙ ap (λ xs. length block.bytes + total xs) e') small)
