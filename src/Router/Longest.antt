-- ===== src/Router/Longest.antt =====
-- The loop over the routing table finds the entry that the route is to take.
use nju_networking_lab.Base.{
  ℕ, ◌≤◌, ◌<◌, ◌≡◌, refl, sym, inl, inr, arith, List, [], ◌∷◌, ◌++◌, append-nil, append_assoc,
}
use nju_networking_lab.Base.{
  IsU32, true, false, ◌&&◌, Option, none, some, if◌then◌else◌, ltb, All, All-append, All-map,
  Bool-cases,
}
use nju_networking_lab.Router.{RouteEntry, matches, longer, best_match}
use nju_networking_lab.Router.Covers.{IsRoute, covers, matches-covers}

-- `e` stands in the table, it covers the address, all that cover it before are shorter, and none
-- that cover it after is longer.
pub record Longest (dst : ℕ) (table : List RouteEntry) (e : RouteEntry) : Type 0 where
  pub before : List RouteEntry
  pub after : List RouteEntry
  pub stands : table ≡ before ++ (e ∷ after)
  pub it_covers : covers dst e ≡ true
  pub longer_than_before : All (λ o. covers dst o ≡ true → o.prefix_length < e.prefix_length) before
  pub not_shorter : All (λ o. covers dst o ≡ true → o.prefix_length ≤ e.prefix_length) after

-- What the search says of the table that it went through.
abbrev pub Answer : ℕ → List RouteEntry → Option RouteEntry → Type 0
Answer dst table none = All (λ o. covers dst o ≡ false) table
Answer dst table (some e) = Longest dst table e

All-joined :
    (dst n : ℕ) (xs : List RouteEntry) (e : RouteEntry) (ys : List RouteEntry)
    → All (λ o. covers dst o ≡ true → o.prefix_length < n) xs
    → (covers dst e ≡ true → e.prefix_length < n)
    → All (λ o. covers dst o ≡ true → o.prefix_length < n) ys
    → All (λ o. covers dst o ≡ true → o.prefix_length < n) (xs ++ (e ∷ ys))
All-joined dst n xs e ys hx he hy =
    All-append (λ o. covers dst o ≡ true → o.prefix_length < n) xs (e ∷ ys) hx (he, hy)

-- An entry that does not replace the best one.
keep :
    (dst : ℕ) (done : List RouteEntry) (b e : RouteEntry)
    → Longest dst done b
    → (covers dst e ≡ true → e.prefix_length ≤ b.prefix_length)
    → Longest dst (done ++ (e ∷ [])) b
keep dst done b e l h = record {
  before = l.before;
  after = l.after ++ (e ∷ []);
  stands = rw l.stands (append_assoc l.before (b ∷ l.after) (e ∷ []));
  it_covers = l.it_covers;
  longer_than_before = l.longer_than_before;
  not_shorter =
      All-append (λ o. covers dst o ≡ true → o.prefix_length ≤ b.prefix_length) l.after (e ∷ [])
        l.not_shorter (h, tt);
}

-- An entry that does.
replace_by :
    (dst : ℕ) (done : List RouteEntry) (e : RouteEntry)
    → covers dst e ≡ true
    → All (λ o. covers dst o ≡ true → o.prefix_length < e.prefix_length) done
    → Longest dst (done ++ (e ∷ [])) e
replace_by dst done e m h = record {
  before = done;
  after = [];
  stands = refl;
  it_covers = m;
  longer_than_before = h;
  not_shorter = tt;
}

none_match :
    (dst n : ℕ) (xs : List RouteEntry)
    → All (λ o. covers dst o ≡ false) xs
    → All (λ o. covers dst o ≡ true → o.prefix_length < n) xs
none_match dst n xs h = All-map _ _ (λ o f t. absurd (ground arith)) xs h

All-shorter :
    (dst : ℕ) (done : List RouteEntry) (b e : RouteEntry)
    → Longest dst done b
    → b.prefix_length < e.prefix_length
    → All (λ o. covers dst o ≡ true → o.prefix_length < e.prefix_length) done
All-shorter dst done b e l lt = rw (l.stands) (
    All-joined dst e.prefix_length l.before b l.after
      (All-map _ _ (λ o f t. let g = f t in omega arith) l.before l.longer_than_before) (λ t. lt)
      (All-map _ _ (λ o f t. let g = f t in omega arith) l.after l.not_shorter))

abbrev choose : ℕ → Option RouteEntry → RouteEntry → Option RouteEntry
choose dst best e = if matches dst e && longer best e then some e else best

step :
    (dst : ℕ) (done : List RouteEntry) (best : Option RouteEntry) (e : RouteEntry)
    → matches dst e ≡ covers dst e
    → Answer dst done best
    → Answer dst (done ++ (e ∷ [])) (choose dst best e)
step dst done none e m h = rw (m) (elim (Bool-cases (covers dst e)) [
  | inl t ↦ rw (t) (replace_by dst done e t (none_match dst e.prefix_length done h))
  | inr f ↦ rw (f) (All-append (λ o. covers dst o ≡ false) done (e ∷ []) h (f, tt))
])
step dst done (some b) e m l = rw (m) (elim (Bool-cases (covers dst e)) [
  | inr f ↦ rw (f) (keep dst done b e l (λ t. absurd (ground arith)))
  | inl t ↦ elim (Bool-cases (ltb b.prefix_length e.prefix_length)) [
    | inl lt ↦ rw (t, lt) (replace_by dst done e t (All-shorter dst done b e l (ground arith)))
    | inr ge ↦ rw (t, ge) (keep dst done b e l (λ t'. ground arith))
  ]
])

best_match_from :
    (dst : ℕ) (done : List RouteEntry) (best : Option RouteEntry) (rest : List RouteEntry)
    → IsU32 dst
    → All IsRoute rest
    → Answer dst done best
    → Answer dst (done ++ rest) (best_match dst best rest)
unfolding best_match
best_match_from dst done best [] small v h = rw (append-nil done) h
best_match_from dst done best (e ∷ es) small (ve, v) h = rw (sym (append_assoc done (e ∷ []) es)) (
    best_match_from dst (done ++ (e ∷ [])) (choose dst best e) es small v
      (step dst done best e (matches-covers dst e small ve) h))

-- The search over a whole table of routes finds the first of the longest entries whose prefix the
-- address has, in its high-order bits, and finds none only when no entry's prefix is had. The
-- address and the prefixes have 32 bits, no length is above 32, and no prefix has a bit set behind
-- its length.
pub best_match_lem :
    (dst : ℕ) (table : List RouteEntry)
    → IsU32 dst
    → All IsRoute table
    → Answer dst table (best_match dst none table)
best_match_lem dst table small v = best_match_from dst [] none table small v tt
