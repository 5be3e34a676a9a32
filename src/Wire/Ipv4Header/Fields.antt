-- ===== src/Wire/Ipv4Header/Fields.antt =====
-- The fields that share a byte or a word are read back from it.
use Prim.Native.Nat.{bit_and, bit_or}
use nju_networking_lab.Base.{
  ℕ, ◌+◌, ◌*◌, ◌/◌, ◌%◌, ◌^◌, ◌<◌, ◌≡◌, refl, ◌∙◌, arith, Bool, true, false, not, ◌==◌,
  if◌then◌else◌,
}
use nju_networking_lab.Wire.Bits.{shift, ones, low, high, or_low, and_ones, and_bit}
use nju_networking_lab.Wire.TcpHeader.{flag}
use nju_networking_lab.Wire.Ipv4Header.{Ipv4Header, fragment_word}

low_four : (a : ℕ) → bit_and a 0x0f ≡ a % 16
unfolding ones low
low_four a = omega (arith, and_ones 4 a)

low_thirteen : (a : ℕ) → bit_and a 0x1fff ≡ a % 0x2000
unfolding ones low
low_thirteen a = omega (arith, and_ones 13 a)

-- The first byte, of version 4.
pub first_byte_lem :
    (ver hlen : ℕ)
    → ver ≡ 4
    → hlen < 16
    → (bit_or (ver * 16 % 256) (bit_and hlen 0x0f) < 2 ^ 8)
      × (bit_or (ver * 16 % 256) (bit_and hlen 0x0f) / 16 ≡ ver)
      × (bit_and (bit_or (ver * 16 % 256) (bit_and hlen 0x0f)) 0x0f ≡ hlen)
unfolding shift ones
first_byte_lem ver hlen four h =
    let e : bit_or 64 (bit_and hlen 0x0f) ≡ 64 + hlen =
      rw (low_four hlen) (or_low 4 4 (hlen % 16) (omega arith) ∙ omega arith) in
    rw (four) (rw (e) (omega arith, omega arith, low_four (64 + hlen) ∙ omega arith))

-- The two flags, as a number of two bits.
abbrev flag_pair : Bool → Bool → ℕ
flag_pair df mf = (if df then 2 else 0) + (if mf then 1 else 0)

flags_lem :
    (df mf : Bool)
    → bit_or (if df then 0x4000 else 0) (if mf then 0x2000 else 0) ≡ 0x2000 * flag_pair df mf
flags_lem true true = refl
flags_lem true false = refl
flags_lem false true = refl
flags_lem false false = refl

fragment_word_lem :
    (h : Ipv4Header) → h.offset < 0x2000 → fragment_word h ≡ 0x2000 * flag_pair h.df h.mf + h.offset
unfolding fragment_word shift ones
fragment_word_lem h small =
    rw (flags_lem h.df h.mf, low_thirteen h.offset)
      (or_thirteen (flag_pair h.df h.mf) (h.offset % 0x2000) (omega arith) ∙ omega arith)
  where
    or_thirteen : (a b : ℕ) → b < 0x2000 → bit_or (0x2000 * a) b ≡ 0x2000 * a + b
    or_thirteen a b h =
        let e : shift 13 a ≡ 0x2000 * a = omega arith in
        let r : bit_or (shift 13 a) b ≡ shift 13 a + b = or_low 13 a b (omega arith) in rw (e) at r

-- The two flags and the offset.
pub record ReadBack (h : Ipv4Header) : Type 0 where
  pub fits : fragment_word h < 2 ^ 16
  pub df : flag (fragment_word h) 0x4000 ≡ h.df
  pub mf : flag (fragment_word h) 0x2000 ≡ h.mf
  pub offset : bit_and (fragment_word h) 0x1fff ≡ h.offset

-- A single bit of a word.
bit_fourteen : (a : ℕ) → flag a 0x4000 ≡ not (a / 0x4000 % 2 == 0)
unfolding flag shift high
bit_fourteen a =
    let e : bit_and a 0x4000 ≡ shift 14 (high 14 a % 2) = and_bit 14 a in
    let s : shift 14 (high 14 a % 2) ≡ 0x4000 * (a / 0x4000 % 2) = omega arith in
    ground (arith, e, s)

bit_thirteen : (a : ℕ) → flag a 0x2000 ≡ not (a / 0x2000 % 2 == 0)
unfolding flag shift high
bit_thirteen a =
    let e : bit_and a 0x2000 ≡ shift 13 (high 13 a % 2) = and_bit 13 a in
    let s : shift 13 (high 13 a % 2) ≡ 0x2000 * (a / 0x2000 % 2) = omega arith in
    ground (arith, e, s)

pub fragment_word-ReadBack : (h : Ipv4Header) → h.offset < 0x2000 → ReadBack h
fragment_word-ReadBack h small = rw_all (fragment_word_lem h small)
  where
    rw_all : fragment_word h ≡ 0x2000 * flag_pair h.df h.mf + h.offset → ReadBack h
    rw_all e = record {
      fits = ground (arith, e);
      df = bit_fourteen (fragment_word h) ∙ ground (arith, e);
      mf = bit_thirteen (fragment_word h) ∙ ground (arith, e);
      offset = low_thirteen (fragment_word h) ∙ ground (arith, e);
    }
