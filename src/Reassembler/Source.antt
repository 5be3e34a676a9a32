-- ===== src/Reassembler/Source.antt =====
-- The stream that the substrings are cut from: the byte at each index.
use nju_networking_lab.Base.{ℕ, zero, suc, ◌+◌, ◌≡◌, arith, List, [], ◌∷◌, ◌++◌, length, take, drop}

-- The list holds the source's bytes from index `i` on.
abbrev pub Matches : (ℕ → ℕ) → ℕ → List ℕ → Type 0
Matches source i [] = Unit
Matches source i (x ∷ xs) = (x ≡ source i) × Matches source (i + 1) xs

module _ (source : ℕ → ℕ) where
  Matches-at : {i j : ℕ} (xs : List ℕ) → i ≡ j → Matches source i xs → Matches source j xs
  Matches-at xs e h = rw e at h

  pub Matches-append :
      (i j : ℕ) (xs ys : List ℕ)
      → i + length xs ≡ j
      → Matches source i xs
      → Matches source j ys
      → Matches source i (xs ++ ys)
  Matches-append i j [] ys e hx hy = Matches-at ys (omega arith) hy
  Matches-append i j (x ∷ xs) ys e hx hy =
      (hx.0, Matches-append (i + 1) j xs ys (omega arith) hx.1 hy)

  pub Matches-take : (n i : ℕ) (xs : List ℕ) → Matches source i xs → Matches source i (take n xs)
  Matches-take zero i xs h = tt
  Matches-take (suc n) i [] h = tt
  Matches-take (suc n) i (x ∷ xs) h = (h.0, Matches-take n (i + 1) xs h.1)

  pub Matches-drop :
      (n i : ℕ) (xs : List ℕ) → Matches source i xs → Matches source (i + n) (drop n xs)
  Matches-drop zero i xs h = Matches-at xs (omega arith) h
  Matches-drop (suc n) i [] h = tt
  Matches-drop (suc n) i (x ∷ xs) h =
      Matches-at (drop n xs) (omega arith) (Matches-drop n (i + 1) xs h.1)

  pub Matches-of :
      (i j : ℕ) (xs ys : List ℕ) → i ≡ j → xs ≡ ys → Matches source i xs → Matches source j ys
  Matches-of i j xs ys p q h = rw (p, q) at h
