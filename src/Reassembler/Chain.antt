-- ===== src/Reassembler/Chain.antt =====
-- Nodes in order with a gap between any two, and how `lower_bound`, `step_back` and `insert` act.
use nju_networking_lab.Base.{
  ℕ, suc, ◌+◌, ◌≤◌, ◌<◌, ◌≡◌, ◌⊎◌, inl, inr, refl, ap, arith, List, [], ◌∷◌, ◌++◌,
}
use nju_networking_lab.Base.{length, All, some, true, false, ltb, Bool-cases}
use nju_networking_lab.Reassembler.{Node, lower_bound, step_back}
use nju_networking_lab.Reassembler.Merge.{fin, IsNode}

-- The bytes that the nodes hold.
abbrev pub total : List Node → ℕ
total [] = 0
total (n ∷ ns) = length n.bytes + total ns

-- Some node holds the byte at index `j`.
abbrev pub Has : List Node → ℕ → Type 0
Has [] j = ⊥
Has (n ∷ ns) j = (n.idx ≤ j) × (j < fin n) ⊎ Has ns j

abbrev pub IsBefore : ℕ → Node → Type 0
IsBefore k n = n.idx < k

pub total-append : (xs ys : List Node) → total (xs ++ ys) ≡ total xs + total ys
total-append [] ys = omega arith
total-append (x ∷ xs) ys = omega (arith, total-append xs ys)

pub Has-append : (xs ys : List Node) (j : ℕ) → Has (xs ++ ys) j → Has xs j ⊎ Has ys j
Has-append [] ys j h = inr h
Has-append (x ∷ xs) ys j (inl h) = inl (inl h)
Has-append (x ∷ xs) ys j (inr h) = elim (Has-append xs ys j h) [
  | inl l ↦ inl (inr l)
  | inr r ↦ inr r
]

pub append-Has : (xs ys : List Node) (j : ℕ) → Has xs j ⊎ Has ys j → Has (xs ++ ys) j
append-Has [] ys j (inl h) = absurd h
append-Has [] ys j (inr h) = h
append-Has (x ∷ xs) ys j (inl (inl h)) = inl h
append-Has (x ∷ xs) ys j (inl (inr h)) = inr (append-Has xs ys j (inl h))
append-Has (x ∷ xs) ys j (inr h) = inr (append-Has xs ys j (inr h))

-- `lower_bound` on a list that is cut at the index.
pub lower_bound-append :
    (k : ℕ) (lo hi : List Node)
    → All (IsBefore k) lo
    → lower_bound k hi ≡ ([], hi)
    → lower_bound k (lo ++ hi) ≡ (lo, hi)
unfolding lower_bound
lower_bound-append k [] hi h e = e
lower_bound-append k (n ∷ lo) hi h e =
    let here : ltb n.idx k ≡ true = ground arith in rw (lower_bound-append k lo hi h.1 e, here) refl

pub step_back-append : (lo : List Node) (p : Node) → step_back (lo ++ (p ∷ [])) ≡ some (lo, p)
unfolding step_back
step_back-append [] p = refl
step_back-append (n ∷ []) p = refl
step_back-append (n ∷ m ∷ lo) p = rw (step_back-append (m ∷ lo) p)

module _ (source : ℕ → ℕ) where
  -- The nodes lie in order between `a` and `b`, with an index free behind each.
  abbrev pub Chain : ℕ → ℕ → List Node → Type 0
  Chain a b [] = a ≤ b
  Chain a b (n ∷ ns) = (a ≤ n.idx) × IsNode source n × Chain (suc (fin n)) b ns

  pub Chain-le : (a b : ℕ) (ns : List Node) → Chain a b ns → total ns + a ≤ b
  Chain-le a b [] h = omega arith
  Chain-le a b (n ∷ ns) h = omega (arith, Chain-le (suc (fin n)) b ns h.2)

  pub Chain-weaken : (a a' b : ℕ) (ns : List Node) → a' ≤ a → Chain a b ns → Chain a' b ns
  Chain-weaken a a' b [] le h = omega arith
  Chain-weaken a a' b (n ∷ ns) le h = (omega arith, h.1, h.2)

  pub Chain-at : (a a' b b' : ℕ) (ns : List Node) → a ≡ a' → b ≡ b' → Chain a b ns → Chain a' b' ns
  Chain-at a a' b b' ns p q h = rw (p, q) at h

  pub Chain-append :
      (a b c : ℕ) (xs ys : List Node) → Chain a b xs → Chain b c ys → Chain a c (xs ++ ys)
  Chain-append a b c [] ys hx hy = Chain-weaken b a c ys hx hy
  Chain-append a b c (x ∷ xs) ys hx hy = (hx.0, hx.1, Chain-append (suc (fin x)) b c xs ys hx.2 hy)

  pub Chain-All : (a b k : ℕ) (ns : List Node) → b ≤ k → Chain a b ns → All (IsBefore k) ns
  Chain-All a b k [] le h = tt
  Chain-All a b k (n ∷ ns) le h =
      (omega (arith, Chain-le (suc (fin n)) b ns h.2), Chain-All (suc (fin n)) b k ns le h.2)

  pub lower_bound-Chain :
      (k a b : ℕ) (ns : List Node) → k ≤ a → Chain a b ns → lower_bound k ns ≡ ([], ns)
  unfolding lower_bound
  lower_bound-Chain k a b [] le h = refl
  lower_bound-Chain k a b (n ∷ ns) le h = let past : ltb n.idx k ≡ false = ground arith in rw past

  -- A chain cut at the index `k`: either all of it lies from `k` on, or there is a last node
  -- before `k`.
  pub data Cut (k a b : ℕ) (ns : List Node) : Type 0 where
    front : Chain k b ns → Cut k a b ns
    behind :
        (lo : List Node) (p : Node) (hi : List Node)
        → ns ≡ lo ++ (p ∷ hi)
        → Chain a p.idx lo
        → IsNode source p
        → p.idx < k
        → Chain (suc (fin p)) b hi
        → Chain k b hi
        → Cut k a b ns

  pub cut : (k a b : ℕ) (ns : List Node) → k ≤ b → Chain a b ns → Cut k a b ns
  cut k a b [] le h = front le
  cut k a b (n ∷ ns) le h = elim (Bool-cases (ltb n.idx k)) [
    | inl e ↦ further (ground arith) (cut k (suc (fin n)) b ns le h.2)
    | inr e ↦ front (ground arith, h.1, h.2)
  ]
    where
      further : n.idx < k → Cut k (suc (fin n)) b ns → Cut k a b (n ∷ ns)
      further lt (front c) = behind [] n ns refl h.0 h.1 lt h.2 c
      further lt (behind lo p hi e lows is_node before above highs) =
          behind (n ∷ lo) p hi (ap (λ xs. n ∷ xs) e) (h.0, h.1, lows) is_node before above highs
