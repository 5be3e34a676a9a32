-- ===== src/Reassembler/Merge.antt =====
-- `merge_to` on two nodes: apart they stay, and otherwise the result is their union.
use nju_networking_lab.Base.{ℕ, ◌+◌, ◌-◌, ◌^◌, ◌≤◌, ◌<◌, ◌≡◌, ◌⊎◌, inl, inr, refl, arith, ◌++◌}
use nju_networking_lab.Base.{length, drop, Option, some, true, false, leb, ltb, sub64, u64_mod}
use nju_networking_lab.Base.{length-append, length-drop, Bool-cases}
use nju_networking_lab.Reassembler.Source.{Matches, Matches-append, Matches-drop}
use nju_networking_lab.Reassembler.{Node, node, merge_to, merge_ordered}

-- The index after a node's last byte.
abbrev pub fin : Node → ℕ
fin n = n.idx + length n.bytes

module _ (source : ℕ → ℕ) where
  -- A node of the source's bytes, below the range of `long`.
  pub record IsNode (n : Node) : Type 0 where
    pub len_ok : n.len ≡ length n.bytes
    pub right : Matches source n.idx n.bytes
    pub fits : fin n < 2 ^ 63

  -- The node `b` is the union of `d1` and `d2`, which share `m` bytes.
  pub record Joined (d1 d2 : Node) (m : ℕ) (b : Node) : Type 0 where
    pub start : b.idx ≡ d1.idx
    pub is_node : IsNode b
    pub shared : m + length b.bytes ≡ length d1.bytes + length d2.bytes
    pub within : m ≤ length d2.bytes
    pub touch : d2.idx ≤ fin d1
    pub covers_left : fin d1 ≤ fin b
    pub covers_right : fin d2 ≤ fin b
    pub no_more : (fin b ≤ fin d1) ⊎ (fin b ≤ fin d2)

  overlap-Joined :
      {d1 d2 : Node}
      → IsNode d1
      → IsNode d2
      → d1.idx ≤ d2.idx
      → d2.idx ≤ fin d1
      → fin d1 < fin d2
      → let m = fin d1 - d2.idx in Joined d1 d2 m (node d1.idx (d1.bytes ++ drop m d2.bytes))
  overlap-Joined {d1} {d2} n1 n2 le touch lt =
      let m : ℕ = fin d1 - d2.idx in
      let joined : length (d1.bytes ++ drop m d2.bytes) + m ≡ length d1.bytes + length d2.bytes =
        omega (arith, length-append d1.bytes (drop m d2.bytes), length-drop m d2.bytes) in
      record {
        start = refl;
        is_node = record {
          len_ok = refl;
          right =
              Matches-append source d1.idx (d2.idx + m) d1.bytes (drop m d2.bytes) (omega arith)
                n1.right (Matches-drop source m d2.idx d2.bytes n2.right);
          fits = omega (arith, n1.fits, n2.fits);
        };
        shared = omega arith;
        within = omega arith;
        touch = touch;
        covers_left = omega arith;
        covers_right = omega arith;
        no_more = inr (omega arith);
      }

  -- The two ways of `merge_ordered`.
  abbrev pub Merges : Node → Node → Node → Option (ℕ × Node) → Type 0
  Merges a d1 d2 r =
      (fin d1 < d2.idx) × (r ≡ some (u64_mod - 1, a))
      ⊎ ((m : ℕ) × (b : Node) × (r ≡ some (m, b)) × Joined d1 d2 m b)

  merge_ordered-Merges :
      (a : Node) {d1 d2 : Node}
      → IsNode d1
      → IsNode d2
      → d1.idx ≤ d2.idx
      → Merges a d1 d2 (merge_ordered a d1 d2)
  unfolding merge_ordered
  merge_ordered-Merges a {d1} {d2} n1 n2 le = elim (Bool-cases (leb (fin d2) (fin d1))) [
    | inl e ↦ inr (
      d2.len,
      d1,
      ground (arith, n1.len_ok, n2.len_ok, n1.fits, n2.fits),
      record {
        start = refl;
        is_node = n1;
        shared = omega (arith, n2.len_ok);
        within = omega (arith, n2.len_ok);
        touch = ground arith;
        covers_left = omega arith;
        covers_right = ground arith;
        no_more = inl (omega arith);
      },
    )
    | inr e ↦ elim (Bool-cases (ltb (fin d1) d2.idx)) [
      | inl f ↦ inl (ground arith, ground (arith, n1.len_ok, n2.len_ok, n1.fits, n2.fits))
      | inr f ↦ inr (
        fin d1 - d2.idx,
        node d1.idx (d1.bytes ++ drop (fin d1 - d2.idx) d2.bytes),
        ground (arith, n1.len_ok, n2.len_ok, n1.fits, n2.fits, moved),
        overlap-Joined n1 n2 le (ground arith) (ground arith),
      )
    ]
  ]
    where
      moved : d2.idx ≤ fin d1 → sub64 (fin d1) d2.idx ≡ fin d1 - d2.idx
      moved h = omega (arith, n1.fits)

  -- `merge_to` with a node that starts no earlier.
  pub merge_to_succ :
      {b n : Node} → IsNode b → IsNode n → b.idx ≤ n.idx → Merges b b n (merge_to b n)
  unfolding merge_to
  merge_to_succ {b} {n} hb hn le =
      let e : leb b.idx n.idx ≡ true = ground arith in rw e (merge_ordered-Merges b hb hn le)

  -- `merge_to` with a node that starts earlier.
  pub merge_to_prev :
      {b p : Node} → IsNode b → IsNode p → p.idx < b.idx → Merges b p b (merge_to b p)
  unfolding merge_to
  merge_to_prev {b} {p} hb hp lt =
      let e : leb b.idx p.idx ≡ false = ground arith in
      rw e (merge_ordered-Merges b hp hb (omega arith))
