-- ===== src/Wire/Checksum/Rfc.antt =====
-- The checksum of RFC 1071, word by word with an end-around carry, and that of libsponge/util/util.
use nju_networking_lab.Base.{
  ℕ, ◌+◌, ◌-◌, ◌*◌, ◌%◌, ◌^◌, ◌≤◌, ◌<◌, ◌≡◌, refl, sym, ◌∙◌, ap, arith, List, [], ◌∷◌, false, ltb,
  ◌==◌, if◌then◌else◌, length, All, IsByte, IsU32,
}
use nju_networking_lab.Wire.Checksum.{checksum, add, fold_carries, value}
use nju_networking_lab.Wire.Checksum.Verify.{words, words_bound, add-sum}

-- The 16-bit words of a sequence of bytes; a last byte that is left over is a high half.
unfoldable pub as_words : List ℕ → List ℕ
as_words [] = []
as_words (a ∷ []) = (a * 256) ∷ []
as_words (a ∷ b ∷ bs) = (a * 256 + b) ∷ as_words bs

-- The ones' complement sum of two words: a carry is added back at the low end.
abbrev pub ones_add : ℕ → ℕ → ℕ
ones_add a b = if ltb 0xffff (a + b) then a + b - 0xffff else a + b

unfoldable pub ones_sum : ℕ → List ℕ → ℕ
ones_sum acc [] = acc
ones_sum acc (w ∷ ws) = ones_sum (ones_add acc w) ws

total_words : List ℕ → ℕ
total_words [] = 0
total_words (w ∷ ws) = w + total_words ws

-- The one word that a sum of words comes to.
abbrev folded : ℕ → ℕ
folded n = if n == 0 then 0 else (n - 1) % 0xffff + 1

ones_add-folded : (n w : ℕ) → w ≤ 0xffff → ones_add (folded n) w ≡ folded (n + w)
ones_add-folded n w h = ground arith

ones_sum-folded :
    (n : ℕ) (ws : List ℕ)
    → All (λ w. w ≤ 0xffff) ws
    → ones_sum (folded n) ws ≡ folded (n + total_words ws)
unfolding ones_sum total_words
ones_sum-folded n [] h = ap folded (omega arith)
ones_sum-folded n (w ∷ ws) (small, h) =
    rw (ones_add-folded n w small) (ones_sum-folded (n + w) ws h ∙ ap folded (omega arith))

as_words_fit : (bs : List ℕ) → All IsByte bs → All (λ w. w ≤ 0xffff) (as_words bs)
unfolding as_words
as_words_fit [] h = tt
as_words_fit (a ∷ []) (ha, h) = (omega arith, tt)
as_words_fit (a ∷ b ∷ bs) (ha, (hb, h)) = (omega arith, as_words_fit bs h)

total-as_words : (bs : List ℕ) → total_words (as_words bs) ≡ words false bs
unfolding total_words as_words words
total-as_words [] = refl
total-as_words (a ∷ []) = omega arith
total-as_words (a ∷ b ∷ bs) = omega (arith, total-as_words bs)

fold_carries-folded : (n : ℕ) → IsU32 n → fold_carries 2 n % 2 ^ 16 ≡ folded n
unfolding fold_carries
fold_carries-folded n h = ground arith

-- The checksum of a sequence of bytes that is short enough for its sum to fit in 32 bits, which 64
-- KiB are, is the complement of the sum of RFC 1071, which adds 16-bit words one by one and each
-- time adds the carry back at the low end.
pub value-ones_sum :
    (bs : List ℕ)
    → All IsByte bs
    → 0xff00 * length bs < 2 ^ 32
    → value (add (checksum 0) bs) ≡ 0xffff - ones_sum 0 (as_words bs)
unfolding value
value-ones_sum bs h short =
    let total = total_words (as_words bs) in
    let sum : (add (checksum 0) bs).sum ≡ 0 + total =
      omega
        (arith, add-sum (checksum 0) bs (omega arith), total-as_words bs, words_bound false bs h) in
    let small : IsU32 (0 + total) = omega (arith, total-as_words bs, words_bound false bs h) in
    rw (sum) (
      ap (λ n. 0xffff - n)
        (fold_carries-folded (0 + total) small
          ∙ sym (ones_sum-folded 0 (as_words bs) (as_words_fit bs h))))
