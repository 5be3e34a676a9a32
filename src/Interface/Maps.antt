-- ===== src/Interface/Maps.antt =====
-- The maps of the network interface: what is found after an insertion, a removal and a tick.
use mathlib.Core.Path.{subst}
use nju_networking_lab.Base.{ℕ, ◌≡◌, refl, inl, inr, arith, [], ◌∷◌, Option, none, some, ◌>>=◌}
use nju_networking_lab.Base.{false, leb, ◌==◌, if◌then◌else◌, add64, Bool-cases}
use nju_networking_lab.Interface.{
  CacheEntry, IpMap, find, put, erase, age_cache, tick, NetworkInterface,
}

-- Every key stands once, as in a `std::map`.
abbrev pub IsMap : {V : Type 0} → IpMap V → Type 0
IsMap [] = Unit
IsMap ((k, v) ∷ m) = (find k m ≡ none) × IsMap m

module _ {V : Type 0} where
  pub find-put : (k : ℕ) (v : V) (m : IpMap V) → find k (put k v m) ≡ some v
  unfolding find put
  find-put k v [] = ground arith
  find-put k v ((j, w) ∷ m) = elim (Bool-cases (j == k)) [
    | inl t ↦ rw (t) (ground arith)
    | inr f ↦ rw (f, f) (find-put k v m)
  ]

  pub find-put_other :
      (j k : ℕ) (v : V) (m : IpMap V) → (k == j) ≡ false → find j (put k v m) ≡ find j m
  unfolding find put
  find-put_other j k v [] h = rw (h) refl
  find-put_other j k v ((i, w) ∷ m) h = elim (Bool-cases (i == k)) [
    | inl t ↦ let e : (i == j) ≡ false = ground arith in rw (t, h, e) refl
    | inr f ↦ rw (f, find-put_other j k v m h) refl
  ]

  pub find-erase : (k : ℕ) (m : IpMap V) → find k (erase k m) ≡ none
  unfolding find erase
  find-erase k [] = refl
  find-erase k ((j, w) ∷ m) = elim (Bool-cases (j == k)) [
    | inl t ↦ rw (t) (find-erase k m)
    | inr f ↦ rw (f, f) (find-erase k m)
  ]

  pub find-erase_other : (j k : ℕ) (m : IpMap V) → (k == j) ≡ false → find j (erase k m) ≡ find j m
  unfolding find erase
  find-erase_other j k [] h = refl
  find-erase_other j k ((i, w) ∷ m) h = elim (Bool-cases (i == k)) [
    | inl t ↦ let e : (i == j) ≡ false = ground arith in rw (t, e) (find-erase_other j k m h)
    | inr f ↦ rw (f, find-erase_other j k m h) refl
  ]

  pub find-put_if :
      (j k : ℕ) (v : V) (m : IpMap V) → find j (put k v m) ≡ (if k == j then some v else find j m)
  find-put_if j k v m = elim (Bool-cases (k == j)) [
    | inl t ↦
        let e : k ≡ j = ground arith in
        rw (t) (subst (λ i. find i (put k v m) ≡ some v) e (find-put k v m))
    | inr f ↦ rw (f) (find-put_other j k v m f)
  ]

  pub find-erase_if :
      (j k : ℕ) (m : IpMap V) → find j (erase k m) ≡ (if k == j then none else find j m)
  find-erase_if j k m = elim (Bool-cases (k == j)) [
    | inl t ↦
        let e : k ≡ j = ground arith in
        rw (t) (subst (λ i. find i (erase k m) ≡ none) e (find-erase k m))
    | inr f ↦ rw (f) (find-erase_other j k m f)
  ]

  -- A key that is not there need not be taken out.
  pub find-missing :
      (j k : ℕ) (m : IpMap V) → find k m ≡ none → find j m ≡ (if k == j then none else find j m)
  find-missing j k m h = elim (Bool-cases (k == j)) [
    | inl t ↦ let e : k ≡ j = ground arith in rw (t) (subst (λ i. find i m ≡ none) e h)
    | inr f ↦ rw (f) refl
  ]

  pub put-IsMap : (k : ℕ) (v : V) (m : IpMap V) → IsMap m → IsMap (put k v m)
  unfolding find put
  put-IsMap k v [] h = (refl, tt)
  put-IsMap k v ((j, w) ∷ m) h = elim (Bool-cases (j == k)) [
    | inl t ↦ let e : j ≡ k = ground arith in rw (t) (rw e at h)
    | inr f ↦
        let f' : (k == j) ≡ false = ground arith in
        rw (f) (rw (find-put_other j k v m f') h.0, put-IsMap k v m h.1)
  ]

-- What a tick of `ms` makes of an entry.
abbrev pub aged : ℕ → CacheEntry → Option CacheEntry
aged ms e =
    if leb 30000 (add64 e.time_caching ms)
    then none
    else some (record e { time_caching = add64 e.time_caching ms })

age_cache-none :
    (ms k : ℕ) (m : IpMap CacheEntry) → find k m ≡ none → find k (age_cache ms m) ≡ none
unfolding find age_cache
age_cache-none ms k [] h = refl
age_cache-none ms k ((j, e) ∷ m) h = elim (Bool-cases (j == k)) [
  | inl t ↦ absurd (ground arith)
  | inr f ↦ elim (Bool-cases (leb 30000 (add64 e.time_caching ms))) [
    | inl old ↦ rw (old) (age_cache-none ms k m (rw (f) at h))
    | inr new ↦ rw (new, f) (age_cache-none ms k m (rw (f) at h))
  ]
]

find-age_cache :
    (ms k : ℕ) (m : IpMap CacheEntry) → IsMap m → find k (age_cache ms m) ≡ (find k m >>= aged ms)
unfolding find age_cache
find-age_cache ms k [] h = refl
find-age_cache ms k ((j, e) ∷ m) h = elim (Bool-cases (leb 30000 (add64 e.time_caching ms))) [
  | inl old ↦ elim (Bool-cases (j == k)) [
    | inl t ↦
        let same : j ≡ k = ground arith in rw (old, t, old) (age_cache-none ms k m (rw same at h.0))
    | inr f ↦ rw (old, f) (find-age_cache ms k m h.1)
  ]
  | inr new ↦ elim (Bool-cases (j == k)) [
    | inl t ↦ rw (new, t, new) refl
    | inr f ↦ rw (new, f) (find-age_cache ms k m h.1)
  ]
]

-- In a cache that holds every address at most once, a tick ages what is cached for an address, and
-- forgets it from 30 seconds on.
pub find-tick :
    (ms ip : ℕ) (i : NetworkInterface)
    → IsMap i.cache
    → find ip (tick ms i).cache ≡ (find ip i.cache >>= aged ms)
unfolding tick
find-tick ms ip i h = find-age_cache ms ip i.cache h
