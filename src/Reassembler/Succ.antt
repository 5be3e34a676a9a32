-- ===== src/Reassembler/Succ.antt =====
-- The loop of `push_substring` over the nodes from the block on.
use nju_networking_lab.Base.{
  ℕ, zero, suc, ◌+◌, ◌≤◌, ◌<◌, ◌≡◌, ◌⊎◌, ◌↔◌, inl, inr, refl, ◌∙◌, arith, List, [], ◌∷◌, ◌++◌,
}
use nju_networking_lab.Base.{length, All, some, true, false, ltb, Bool-cases, sub64, u64_mod}
use nju_networking_lab.Reassembler.{
  Node, lower_bound, merge_to, merge_succ, Merging, is_merged, keep_merging,
}
use nju_networking_lab.Reassembler.Merge.{fin, IsNode, Joined, merge_to_succ}
use nju_networking_lab.Reassembler.Chain.{
  total, Has, IsBefore, Chain, Chain-weaken, Chain-le, lower_bound-append, lower_bound-Chain,
}

-- One round of the loop, in its three ways.
module _ (fuel : ℕ) (m : Merging) {lo : List Node} where
  succ_end : lower_bound m.block.idx m.set ≡ (lo, []) → merge_succ (suc fuel) m ≡ some m
  unfolding merge_succ
  succ_end e = rw (e, merge_succ) refl

  module _ {hi : List Node} {n : Node} {w : ℕ} {b : Node} where
    succ_apart :
        lower_bound m.block.idx m.set ≡ (lo, n ∷ hi)
        → merge_to m.block n ≡ some (w, b)
        → is_merged w ≡ false
        → merge_succ (suc fuel) m ≡ some m
    unfolding merge_succ keep_merging
    succ_apart e run t = rw (e, run, merge_succ) (rw (t, keep_merging) refl)

    succ_join :
        lower_bound m.block.idx m.set ≡ (lo, n ∷ hi)
        → merge_to m.block n ≡ some (w, b)
        → is_merged w ≡ true
        → merge_succ (suc fuel) m
          ≡ merge_succ fuel (record { count = sub64 m.count w; block = b; set = lo ++ hi })
    unfolding merge_succ keep_merging
    succ_join e run t = rw (e, run, merge_succ) (rw (t, e, keep_merging) refl)

module _ (source : ℕ → ℕ) where
  pub Joined-Has :
      {d1 d2 b : Node} {m : ℕ} (ns : List Node) (j : ℕ)
      → Joined source d1 d2 m b
      → d1.idx ≤ d2.idx
      → Has (b ∷ ns) j ↔ Has (d1 ∷ d2 ∷ ns) j
  Joined-Has {d1} {d2} {b} {m} ns j jd le = (there jd.no_more, back)
    where
      there : (fin b ≤ fin d1) ⊎ (fin b ≤ fin d2) → Has (b ∷ ns) j → Has (d1 ∷ d2 ∷ ns) j
      there s (inr h) = inr (inr h)
      there (inl s) (inl h) = inl (omega (arith, jd.start), omega arith)
      there (inr s) (inl h) = elim (Bool-cases (ltb j d2.idx)) [
        | inl e ↦ inl (omega (arith, jd.start), ground (arith, jd.touch))
        | inr e ↦ inr (inl (ground arith, omega arith))
      ]

      back : Has (d1 ∷ d2 ∷ ns) j → Has (b ∷ ns) j
      back (inl h) = inl (omega (arith, jd.start), omega (arith, jd.covers_left))
      back (inr (inl h)) = inl (omega (arith, jd.start), omega (arith, jd.covers_right))
      back (inr (inr h)) = inr h

  -- What the loop leaves, from the block `block` with the nodes `hi` from it on: the block reaches
  -- over no node any more, and the same bytes are held and counted.
  pub record SuccDone (x b count : ℕ) (block : Node) (lo hi : List Node) (m : Merging)
      : Type 0 where
    pub rest : List Node
    pub set_is : m.set ≡ lo ++ rest
    pub start : m.block.idx ≡ block.idx
    pub is_node : IsNode source m.block
    pub above : Chain source (suc (fin m.block)) b rest
    pub grown : fin block ≤ fin m.block
    pub below : fin m.block < b
    pub counted : m.count ≡ x + (length m.block.bytes + total rest)
    pub fewer : m.count ≤ count
    pub suffix : (c : ℕ) → Chain source c b hi → Chain source c b rest
    pub kept : (j : ℕ) → Has (m.block ∷ rest) j ↔ Has (block ∷ hi) j

  pub merge_succ_lem :
      (fuel x b count : ℕ) (block : Node) (lo hi : List Node)
      → length hi < fuel
      → IsNode source block
      → fin block < b
      → All (IsBefore block.idx) lo
      → Chain source block.idx b hi
      → count ≡ x + (length block.bytes + total hi)
      → count < u64_mod
      → (m : Merging) × (merge_succ fuel (record { count = count; block = block; set = lo ++ hi })
          ≡ some m)
        × SuccDone x b count block lo hi m
  merge_succ_lem zero x b count block lo hi f is_node below before chain counted small =
      absurd (omega arith)
  merge_succ_lem (suc fuel) x b count block lo [] f is_node below before chain counted small = (
    record { count = count; block = block; set = lo ++ [] },
    succ_end fuel _ (lower_bound-append block.idx lo [] before (unfold lower_bound in refl)),
    record {
      rest = [];
      set_is = refl;
      start = refl;
      is_node = is_node;
      above = omega arith;
      grown = omega arith;
      below = below;
      counted = counted;
      fewer = omega arith;
      suffix = λ c h. h;
      kept = λ j. (λ h. h, λ h. h);
    },
  )
  merge_succ_lem (suc fuel) x b count block lo (n ∷ hi) f is_node below before chain counted small =
      elim (merge_to_succ source is_node chain.1 chain.0) [
        | inl (gap, run) ↦ (
          record { count = count; block = block; set = lo ++ (n ∷ hi) },
          succ_apart fuel _ found run refl,
          record {
            rest = n ∷ hi;
            set_is = refl;
            start = refl;
            is_node = is_node;
            above = (omega arith, chain.1, chain.2);
            grown = omega arith;
            below = below;
            counted = counted;
            fewer = omega arith;
            suffix = λ c h. h;
            kept = λ j. (λ h. h, λ h. h);
          },
        )
        | inr (w, b', run, jd) ↦
            let (m, run', d) =
              merge_succ_lem fuel x b (sub64 count w) b' lo hi (omega arith) jd.is_node
                (room jd.no_more) (rw (jd.start) before)
                (Chain-weaken source (suc (fin n)) b'.idx b hi (omega (arith, jd.start)) chain.2)
                (omega (arith, jd.shared, jd.within)) (omega (arith, jd.shared, jd.within)) in
            (
              m,
              succ_join fuel _ found run (ground (arith, jd.within, chain.1)) ∙ run',
              record {
                rest = d.rest;
                set_is = d.set_is;
                start = d.start ∙ jd.start;
                is_node = d.is_node;
                above = d.above;
                grown = omega (arith, d.grown, jd.covers_left);
                below = d.below;
                counted = d.counted;
                fewer = omega (arith, d.fewer, jd.shared, jd.within);
                suffix = λ c h.
                    d.suffix c (Chain-weaken source (suc (fin n)) c b hi (omega (arith, h.0)) h.2);
                kept = λ j. (
                  (λ h. (Joined-Has hi j jd chain.0).0 ((d.kept j).0 h)),
                  (λ h. (d.kept j).1 ((Joined-Has hi j jd chain.0).1 h)),
                );
              },
            )
      ]
    where
      found : lower_bound block.idx (lo ++ (n ∷ hi)) ≡ (lo, n ∷ hi)
      found =
          lower_bound-append block.idx lo (n ∷ hi) before
            (lower_bound-Chain source block.idx block.idx b (n ∷ hi) (omega arith) chain)

      room : {k : ℕ} → (k ≤ fin block) ⊎ (k ≤ fin n) → k < b
      room (inl h) = omega arith
      room (inr h) = omega (arith, Chain-le source (suc (fin n)) b hi chain.2)
