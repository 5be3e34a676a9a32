-- ===== src/Reassembler/Prev.antt =====
-- The loop of `push_substring` over the nodes before the block.
use nju_networking_lab.Base.{
  ℕ, suc, ◌+◌, ◌≤◌, ◌<◌, ◌≡◌, ◌⊎◌, ◌↔◌, inl, inr, refl, ap, ◌∙◌, arith, List, [], ◌∷◌, ◌++◌,
}
use nju_networking_lab.Base.{length, All, none, some, true, false, sub64, u64_mod}
use nju_networking_lab.Reassembler.{
  Node, lower_bound, step_back, merge_to, merge_prev, Merging, is_merged, keep_merging,
}
use nju_networking_lab.Reassembler.Merge.{fin, IsNode, Joined, merge_to_prev}
use nju_networking_lab.Reassembler.Chain.{
  total, Has, IsBefore, Chain, Chain-weaken, Chain-All, Chain-append, lower_bound-append,
  lower_bound-Chain, step_back-append, total-append, Has-append, append-Has,
}
use nju_networking_lab.Reassembler.Succ.{Joined-Has}

-- One round of the loop, in its three ways.
module _ (fuel : ℕ) (m : Merging) {lo hi : List Node} where
  prev_end :
      lower_bound m.block.idx m.set ≡ (lo, hi)
      → step_back lo ≡ none
      → merge_prev (suc fuel) m ≡ some m
  unfolding merge_prev
  prev_end e s = rw (e, s, merge_prev) refl

  module _ {ns : List Node} {p : Node} {w : ℕ} {b : Node} where
    prev_apart :
        lower_bound m.block.idx m.set ≡ (lo, hi)
        → step_back lo ≡ some (ns, p)
        → merge_to m.block p ≡ some (w, b)
        → is_merged w ≡ false
        → merge_prev (suc fuel) m ≡ some m
    unfolding merge_prev keep_merging
    prev_apart e s run t = rw (e, s, run, merge_prev) (rw (t, keep_merging) refl)

    prev_join :
        lower_bound m.block.idx m.set ≡ (lo, hi)
        → step_back lo ≡ some (ns, p)
        → merge_to m.block p ≡ some (w, b)
        → is_merged w ≡ true
        → merge_prev (suc fuel) m
          ≡ merge_prev fuel (record { count = sub64 m.count w; block = b; set = ns ++ hi })
    unfolding merge_prev keep_merging
    prev_join e s run t = rw (e, s, run, merge_prev) (rw (t, e, keep_merging) refl)

module _ (source : ℕ → ℕ) where
  pub All-snoc :
      (k : ℕ) (lo : List Node) (p : Node)
      → p.idx < k
      → All (IsBefore k) lo
      → All (IsBefore k) (lo ++ (p ∷ []))
  All-snoc k [] p h a = (h, tt)
  All-snoc k (n ∷ lo) p h a = (a.0, All-snoc k lo p h a.1)

  -- What the loop leaves: the block stands free between the nodes `front` before it and the
  -- nodes `hi` behind it, which the loop does not touch.
  pub record PrevDone (x a b : ℕ) (block : Node) (lo hi : List Node) (m : Merging) : Type 0 where
    pub before : List Node
    pub set_is : m.set ≡ before ++ hi
    pub is_node : IsNode source m.block
    pub low : Chain source a m.block.idx before
    pub high : Chain source (suc (fin m.block)) b hi
    pub counted : m.count ≡ x + (total before + length m.block.bytes)
    pub kept : (j : ℕ) → (Has before j ⊎ Has (m.block ∷ []) j) ↔ (Has lo j ⊎ Has (block ∷ []) j)

  -- A list is empty, or it has a last node.
  snoc_view : (ns : List Node) → (ns ≡ []) ⊎ ((lo : List Node) × (p : Node) × (ns ≡ lo ++ (p ∷ [])))
  snoc_view [] = inl refl
  snoc_view (n ∷ ns) = elim (snoc_view ns) [
    | inl e ↦ inr ([], n, ap (λ xs. n ∷ xs) e)
    | inr (lo, p, e) ↦ inr (n ∷ lo, p, ap (λ xs. n ∷ xs) e)
  ]

  Chain-last :
      (a b : ℕ) (lo : List Node) (p : Node)
      → Chain source a b (lo ++ (p ∷ []))
      → IsNode source p × (fin p < b)
  Chain-last a b [] p h = (h.1, h.2)
  Chain-last a b (n ∷ lo) p h = Chain-last (suc (fin n)) b lo p h.2

  abbrev pub at : ℕ → Node → List Node → List Node → Merging
  at count block lo hi = record { count = count; block = block; set = lo ++ hi }

  cut_at :
      (a b : ℕ) (block : Node) (lo hi : List Node)
      → Chain source a block.idx lo
      → Chain source (suc (fin block)) b hi
      → lower_bound block.idx (lo ++ hi) ≡ (lo, hi)
  cut_at a b block lo hi low high =
      lower_bound-append block.idx lo hi
        (Chain-All source a block.idx block.idx lo (omega arith) low)
        (lower_bound-Chain source block.idx (suc (fin block)) b hi (omega arith) high)

  -- Where the nodes before the block leave a gap, the loop stops at once.
  pub prev_stops :
      (fuel a b count : ℕ) (block : Node) (lo hi : List Node)
      → IsNode source block
      → Chain source a block.idx lo
      → Chain source (suc (fin block)) b hi
      → merge_prev (suc fuel) (at count block lo hi) ≡ some (at count block lo hi)
  prev_stops fuel a b count block lo hi is_node low high = elim (snoc_view lo) [
    | inl e ↦ prev_end fuel _ (cut_at a b block lo hi low high) (rw e (unfold step_back in refl))
    | inr (ns, p, e) ↦
        let (p_node, gap) = Chain-last a block.idx ns p (rw e at low) in
        elim (merge_to_prev source is_node p_node (omega arith)) [
          | inl (_, run) ↦
              prev_apart fuel _ {ns = ns} (cut_at a b block lo hi low high)
                (rw e (step_back-append ns p)) run refl
          | inr (w, b', run, jd) ↦ absurd (omega (arith, jd.touch))
        ]
  ]

  -- With a last node `p` before the block, which may touch it.
  pub merge_prev_behind :
      (fuel x a b count : ℕ) (block p : Node) (lo hi : List Node)
      → IsNode source block
      → IsNode source p
      → p.idx < block.idx
      → Chain source a p.idx lo
      → Chain source (suc (fin p)) b hi
      → Chain source (suc (fin block)) b hi
      → count ≡ x + (total (lo ++ (p ∷ [])) + length block.bytes)
      → count < u64_mod
      → (m : Merging) × (merge_prev (suc (suc fuel)) (at count block (lo ++ (p ∷ [])) hi) ≡ some m)
        × PrevDone x a b block (lo ++ (p ∷ [])) hi m
  merge_prev_behind fuel x a b count block p lo hi is_node p_node lt low over high counted small =
      elim (merge_to_prev source is_node p_node lt) [
        | inl (gap, run) ↦ (
          at count block (lo ++ (p ∷ [])) hi,
          prev_apart (suc fuel) _ found (step_back-append lo p) run refl,
          record {
            before = lo ++ (p ∷ []);
            set_is = refl;
            is_node = is_node;
            low =
                Chain-append source a p.idx block.idx lo (p ∷ []) low
                  (omega arith, p_node, omega arith);
            high = high;
            counted = counted;
            kept = λ j. (λ h. h, λ h. h);
          },
        )
        | inr (w, b', run, jd) ↦
            let over' : Chain source (suc (fin b')) b hi = above b' jd.no_more in
            let low' : Chain source a b'.idx lo = rw jd.start low in
            (
              at (sub64 count w) b' lo hi,
              prev_join (suc fuel) _ found (step_back-append lo p) run
                    (ground (arith, jd.within, is_node.fits))
                  ∙ prev_stops fuel a b (sub64 count w) b' lo hi jd.is_node low' over',
              record {
                before = lo;
                set_is = refl;
                is_node = jd.is_node;
                low = low';
                high = over';
                counted = omega (arith, jd.shared, jd.within, total-append lo (p ∷ []));
                kept = joined_kept b' w jd;
              },
            )
      ]
    where
      before : All (IsBefore block.idx) (lo ++ (p ∷ []))
      before = All-snoc block.idx lo p lt (Chain-All source a p.idx block.idx lo (omega arith) low)

      found : lower_bound block.idx ((lo ++ (p ∷ [])) ++ hi) ≡ (lo ++ (p ∷ []), hi)
      found =
          lower_bound-append block.idx (lo ++ (p ∷ [])) hi before
            (lower_bound-Chain source block.idx (suc (fin block)) b hi (omega arith) high)

      above :
          (b' : Node) → (fin b' ≤ fin p) ⊎ (fin b' ≤ fin block) → Chain source (suc (fin b')) b hi
      above b' (inl h) = Chain-weaken source (suc (fin p)) (suc (fin b')) b hi (omega arith) over
      above b' (inr h) =
          Chain-weaken source (suc (fin block)) (suc (fin b')) b hi (omega arith) high

      joined_kept :
          (b' : Node) (w : ℕ)
          → Joined source p block w b'
          → (j : ℕ) → (Has lo j ⊎ Has (b' ∷ []) j) ↔ (Has (lo ++ (p ∷ [])) j ⊎ Has (block ∷ []) j)
      joined_kept b' w jd j = (there, back)
        where
          same : Has (b' ∷ []) j ↔ Has (p ∷ block ∷ []) j
          same = Joined-Has source [] j jd (omega arith)

          there_one : Has (p ∷ block ∷ []) j → Has (lo ++ (p ∷ [])) j ⊎ Has (block ∷ []) j
          there_one (inl h) = inl (append-Has lo (p ∷ []) j (inr (inl h)))
          there_one (inr h) = inr h

          there : Has lo j ⊎ Has (b' ∷ []) j → Has (lo ++ (p ∷ [])) j ⊎ Has (block ∷ []) j
          there (inl h) = inl (append-Has lo (p ∷ []) j (inl h))
          there (inr h) = there_one (same.0 h)

          back_one : Has lo j ⊎ Has (p ∷ []) j → Has lo j ⊎ Has (b' ∷ []) j
          back_one (inl h) = inl h
          back_one (inr (inl h)) = inr (same.1 (inl h))
          back_one (inr (inr h)) = absurd h

          back : Has (lo ++ (p ∷ [])) j ⊎ Has (block ∷ []) j → Has lo j ⊎ Has (b' ∷ []) j
          back (inl h) = back_one (Has-append lo (p ∷ []) j h)
          back (inr h) = inr (same.1 (inr h))
