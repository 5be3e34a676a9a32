-- ===== src/Wire/Checksum/Verify.antt =====
-- The checksum as a sum of words, and why a packet with its checksum filled in verifies.
use nju_networking_lab.Base.{
  ℕ, zero, suc, ◌+◌, ◌*◌, ◌/◌, ◌%◌, ◌^◌, ◌≤◌, ◌<◌, ◌≡◌, refl, arith, List, [], ◌∷◌, ◌++◌, Bool,
  false, not,
}
use nju_networking_lab.Base.{if◌then◌else◌, length, All, IsByte, IsU32, u32_mod}
use nju_networking_lab.Wire.Checksum.{
  InternetChecksum, checksum, add_byte, add, has_carry, fold_carries, value,
}

two_rounds : (n : ℕ) → IsU32 n → has_carry (fold_carries 2 n) ≡ false
unfolding fold_carries
two_rounds n h = ground arith

further_rounds : (fuel n : ℕ) → IsU32 n → fold_carries (2 + fuel) n ≡ fold_carries 2 n
unfolding fold_carries
further_rounds zero n h = refl
further_rounds (suc fuel) n h = ground arith

-- The loop ends after two rounds at most, from every 32-bit sum: its own test is then false. So
-- further rounds change nothing.
pub fold_carries_ends :
    (n : ℕ)
    → IsU32 n
    → (has_carry (fold_carries 2 n) ≡ false)
      × ((fuel : ℕ) → fold_carries (2 + fuel) n ≡ fold_carries 2 n)
fold_carries_ends n h = (two_rounds n h, λ fuel. further_rounds fuel n h)

-- The sum of the bytes at their places in 16-bit words.
unfoldable pub words : Bool → List ℕ → ℕ
words odd [] = 0
words odd (b ∷ bs) = (if odd then b else b * 256) + words (not odd) bs

pub words_bound : (odd : Bool) (bs : List ℕ) → All IsByte bs → words odd bs ≤ 0xff00 * length bs
unfolding words
words_bound odd [] h = omega arith
words_bound odd (b ∷ bs) h = ground (arith, words_bound (not odd) bs h.1)

pub add-sum :
    (c : InternetChecksum) (bs : List ℕ)
    → IsU32 c.sum
    → (add c bs).sum ≡ (c.sum + words c.parity bs) % u32_mod
unfolding add add_byte words
add-sum c [] h = omega arith
add-sum c (b ∷ bs) h = ground (arith, add-sum (add_byte c b) bs (omega arith))

value_verifies : (c d : InternetChecksum) → c.sum < 2 ^ 31 → d.sum ≡ c.sum + value c → value d ≡ 0
unfolding value fold_carries
value_verifies c d h e = ground arith

-- The next byte is a low half, after the bytes.
unfoldable pub odd_after : Bool → List ℕ → Bool
odd_after odd [] = odd
odd_after odd (b ∷ bs) = odd_after (not odd) bs

words-append :
    (odd : Bool) (xs ys : List ℕ)
    → words odd (xs ++ ys) ≡ words odd xs + words (odd_after odd xs) ys
unfolding words odd_after
words-append odd [] ys = omega arith
words-append odd (x ∷ xs) ys = omega (arith, words-append (not odd) xs ys)

-- A packet whose checksum field stands at an even offset.
abbrev pub packet : List ℕ → ℕ → List ℕ → List ℕ
packet front v rest = front ++ (v / 256 ∷ v % 256 ∷ rest)

packet-sum :
    (initial v : ℕ) (front rest : List ℕ)
    → odd_after false front ≡ false
    → IsU32 initial
    → (add (checksum initial) (packet front v rest)).sum
      ≡ (initial + words false front + v + words false rest) % u32_mod
unfolding words
packet-sum initial v front rest even small =
    let s = add-sum (checksum initial) (packet front v rest) small in
    let w = words-append false front (v / 256 ∷ v % 256 ∷ rest) in
    let e : words (odd_after false front) (v / 256 ∷ v % 256 ∷ rest) ≡ v + words false rest =
      rw (even) (omega arith) in
    omega (arith, s, w, e)

pub value_le : (c : InternetChecksum) → value c ≤ 0xffff
unfolding value
value_le c = omega arith

-- A packet of bytes verifies once its checksum, computed with the field at zero, is written into
-- the field at an even offset: the checksum over the whole packet is 0. The sum is to stay below 2
-- ^ 31, which 32 KiB of bytes do.
pub checksum_verifies :
    (initial : ℕ) (front rest : List ℕ)
    → odd_after false front ≡ false
    → All IsByte front
    → All IsByte rest
    → initial + 0xff00 * (length front + length rest) < 2 ^ 31
    → value (
        add
          (checksum initial)
          (packet front (value (add (checksum initial) (packet front 0 rest))) rest))
      ≡ 0
checksum_verifies initial front rest even hf hr small =
    value_verifies (add (checksum initial) (packet front 0 rest))
      (add (checksum initial) (packet front v rest)) (omega (arith, before, wf, wr))
      (omega (arith, before, after, wf, wr, v_small))
  where
    v : ℕ
    v = value (add (checksum initial) (packet front 0 rest))

    v_small : v ≤ 0xffff
    v_small = value_le (add (checksum initial) (packet front 0 rest))

    before :
        (add (checksum initial) (packet front 0 rest)).sum
        ≡ (initial + words false front + 0 + words false rest) % u32_mod
    before = packet-sum initial 0 front rest even (omega arith)

    after :
        (add (checksum initial) (packet front v rest)).sum
        ≡ (initial + words false front + v + words false rest) % u32_mod
    after = packet-sum initial v front rest even (omega arith)

    wf : words false front ≤ 0xff00 * length front
    wf = words_bound false front hf

    wr : words false rest ≤ 0xff00 * length rest
    wr = words_bound false rest hr
