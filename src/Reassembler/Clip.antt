-- ===== src/Reassembler/Clip.antt =====
-- The block cut to the window of `push_substring`.
use nju_networking_lab.Base.{
  ℕ, ◌+◌, ◌-◌, ◌^◌, ◌≤◌, ◌<◌, min, ◌≡◌, ◌⊎◌, ◌↔◌, inl, inr, refl, arith, List,
}
use nju_networking_lab.Base.{
  length, drop, length-take, length-drop, some, true, false, ltb, Bool-cases, add64, sub64,
}
use nju_networking_lab.Reassembler.{Node, node, clip_right, clip_left}
use nju_networking_lab.Reassembler.Source.{Matches, Matches-take, Matches-drop}
use nju_networking_lab.Reassembler.Merge.{fin, IsNode}

module _ (source : ℕ → ℕ) where
  -- What is left of the `len` bytes from `index` on between `cur` and `limit`.
  pub record Clipped (index len cur limit : ℕ) (b : Node) : Type 0 where
    pub is_node : IsNode source b
    pub from : cur ≤ b.idx
    pub upto : fin b ≤ limit
    pub kept :
        (j : ℕ)
        → (b.idx ≤ j) × (j < fin b) ↔ (index ≤ j) × (j < index + len) × (cur ≤ j) × (j < limit)

  clip_right_lem :
      (limit : ℕ) {b : Node}
      → IsNode source b
      → b.idx ≤ limit
      → let b' = clip_right limit b in
        IsNode source b' × (b'.idx ≡ b.idx) × (fin b' ≡ min (fin b) limit)
  unfolding clip_right
  clip_right_lem limit {b} n le = elim (Bool-cases (ltb limit (fin b))) [
    | inl e ↦
        let e' : ltb limit (add64 b.idx b.len) ≡ true = ground (arith, n.len_ok, n.fits) in
        let cut : sub64 limit b.idx ≡ limit - b.idx = ground (arith, n.fits) in
        rw (e', cut)
          (
            record {
              len_ok = refl;
              right = Matches-take source (limit - b.idx) b.idx b.bytes n.right;
              fits = ground (arith, n.fits, length-take (limit - b.idx) b.bytes);
            },
            refl,
            ground (arith, length-take (limit - b.idx) b.bytes),
          )
    | inr e ↦
        let e' : ltb limit (add64 b.idx b.len) ≡ false = ground (arith, n.len_ok, n.fits) in
        rw e' (n, refl, ground arith)
  ]

  clip_left_lem :
      (cur : ℕ) {b : Node}
      → IsNode source b
      → cur ≤ fin b
      → (b' : Node) × (clip_left cur b ≡ some b')
        × IsNode source b'
        × (cur ≤ b'.idx)
        × (b.idx ≤ b'.idx)
        × ((b'.idx ≡ b.idx) ⊎ (b'.idx ≡ cur))
        × (fin b' ≡ fin b)
  unfolding clip_left
  clip_left_lem cur {b} n le = elim (Bool-cases (ltb b.idx cur)) [
    | inl e ↦
        let off : sub64 cur b.idx ≡ cur - b.idx = ground (arith, n.fits) in
        let at : b.idx + (cur - b.idx) ≡ cur = ground arith in
        (
          node cur (drop (cur - b.idx) b.bytes),
          ground (arith, off, at, n.fits),
          record {
            len_ok = refl;
            right = rw at at (Matches-drop source (cur - b.idx) b.idx b.bytes n.right);
            fits = ground (arith, n.fits, length-drop (cur - b.idx) b.bytes);
          },
          omega arith,
          ground arith,
          inr refl,
          ground (arith, length-drop (cur - b.idx) b.bytes),
        )
    | inr e ↦ (b, rw e refl, n, ground arith, omega arith, inl refl, refl)
  ]

  pub clip_lem :
      (index cur limit : ℕ) (bytes : List ℕ)
      → Matches source index bytes
      → index + length bytes < 2 ^ 63
      → index ≤ limit
      → cur < index + length bytes
      → cur ≤ limit
      → (b : Node) × (clip_left cur (clip_right limit (node index bytes)) ≡ some b)
        × Clipped index (length bytes) cur limit b
  clip_lem index cur limit bytes right fits le past room = go (
      clip_right_lem limit {b = node index bytes}
        (record { len_ok = refl; right = right; fits = fits }) le)
    where
      b1 : Node
      b1 = clip_right limit (node index bytes)

      go :
          IsNode source b1 × (b1.idx ≡ index) × (fin b1 ≡ min (index + length bytes) limit)
          → (b : Node) × (clip_left cur b1 ≡ some b) × Clipped index (length bytes) cur limit b
      go (n1, start, end1) =
          let (b, run, n, from, from', which, end2) = clip_left_lem cur n1 (omega arith) in
          (
            b,
            run,
            record {
              is_node = n;
              from = from;
              upto = omega arith;
              kept = λ j. (λ h. omega arith, λ h. omega arith);
            },
          )
