-- ===== src/Wire/Checksum.antt =====
-- `InternetChecksum` of libsponge/util/util: the ones' complement sum of 16-bit words.
pub mod Verify
pub mod Rfc
use nju_networking_lab.Base.{
  ℕ, zero, suc, ◌+◌, ◌-◌, ◌*◌, ◌/◌, ◌%◌, ◌^◌, List, [], ◌∷◌, Bool, true, false, not,
}
use nju_networking_lab.Base.{ltb, if◌then◌else◌, add32}

pub record InternetChecksum : Type 0 where
  pub sum : ℕ
  pub parity : Bool

abbrev pub checksum : ℕ → InternetChecksum
checksum initial_sum = record { sum = initial_sum; parity = false }

-- One byte: the high half of a word, or the low half.
unfoldable pub add_byte : InternetChecksum → ℕ → InternetChecksum
add_byte c b =
    let val = if c.parity then b else b * 256 in
    record { sum = add32 c.sum val; parity = not c.parity }

unfoldable pub add : InternetChecksum → List ℕ → InternetChecksum
add c [] = c
add c (b ∷ bs) = add (add_byte c b) bs

-- The test of the loop that folds the carries.
abbrev pub has_carry : ℕ → Bool
has_carry ret = ltb 0xffff ret

-- `while (ret > 0xffff) ret = (ret >> 16) + (ret & 0xffff);` on fuel.
unfoldable pub fold_carries : ℕ → ℕ → ℕ
fold_carries zero ret = ret
fold_carries (suc fuel) ret =
    let rest = fold_carries fuel (add32 (ret / 2 ^ 16) (ret % 2 ^ 16)) in
    if has_carry ret then rest else ret

-- `~ret` as a `uint16_t`. Two rounds are always enough.
unfoldable pub value : InternetChecksum → ℕ
unfolding fold_carries
value c = 0xffff - fold_carries 2 c.sum % 2 ^ 16
