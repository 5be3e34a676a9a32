-- ===== src/Router/Covers.antt =====
-- Which addresses a route covers, by arithmetic, and that the test with the mask finds them.
use Prim.Native.Nat.{bit_and}
use nju_networking_lab.Base.{
  ℕ, zero, suc, ◌+◌, ◌-◌, ◌*◌, ◌/◌, ◌^◌, ◌≤◌, ◌<◌, ◌≡◌, refl, sym, ap, ◌∙◌, inl, inr, arith, Bool,
  true, false, ◌&&◌, ◌==◌, IsU32, Bool-cases,
}
use nju_networking_lab.Wire.Bits.{shift, ones, and_high, shift-injective, shift_lem, high_lem}
use nju_networking_lab.Router.{RouteEntry, mask, matches}

-- The bits behind the prefix of an entry.
abbrev pub host_bits : RouteEntry → ℕ
host_bits e = 32 - e.prefix_length

-- A route as a table has it: 32-bit, of at most 32 bits, and without a bit behind the prefix.
pub record IsRoute (e : RouteEntry) : Type 0 where
  pub fits : IsU32 e.route_prefix
  pub short : e.prefix_length ≤ 32
  pub aligned : e.route_prefix / 2 ^ host_bits e * 2 ^ host_bits e ≡ e.route_prefix

-- The address has the high-order bits of the prefix.
unfoldable pub covers : ℕ → RouteEntry → Bool
covers dst e = dst / 2 ^ host_bits e == e.route_prefix / 2 ^ host_bits e

-- A Boolean test that holds for every number below a bound.
every : ℕ → (ℕ → Bool) → Bool
every zero p = true
every (suc n) p = p n && every n p

every_lem : (n : ℕ) (p : ℕ → Bool) (k : ℕ) → every n p ≡ true → k < n → p k ≡ true
unfolding every
every_lem zero p k all h = absurd (omega (arith, h))
every_lem (suc n) p k all h = ground (arith, every_lem n p k)

-- For each of the 33 lengths, the mask is as many ones as the length says, and it and the bits
-- behind it are all of the 32 bits.
mask_table : every 33 (λ len. mask len == shift (32 - len) (ones len)) ≡ true
unfolding every mask shift ones
mask_table = refl

full_table : every 33 (λ len. shift (32 - len) (ones len) + ones (32 - len) == 0xffff_ffff) ≡ true
unfolding every shift ones
full_table = refl

mask_lem : (len : ℕ) → len ≤ 32 → mask len ≡ shift (32 - len) (ones len)
mask_lem len h =
    let t : (mask len == shift (32 - len) (ones len)) ≡ true =
      every_lem 33 (λ len. mask len == shift (32 - len) (ones len)) len mask_table
        (omega (arith, h)) in
    ground (arith, t)

full_lem : (len : ℕ) → len ≤ 32 → shift (32 - len) (ones len) + ones (32 - len) ≡ 0xffff_ffff
full_lem len h =
    let t : (shift (32 - len) (ones len) + ones (32 - len) == 0xffff_ffff) ≡ true =
      every_lem 33 (λ len. shift (32 - len) (ones len) + ones (32 - len) == 0xffff_ffff) len
        full_table (omega (arith, h)) in
    ground (arith, t)

masked_lem :
    (dst len : ℕ)
    → IsU32 dst
    → len ≤ 32
    → bit_and dst (mask len) ≡ shift (32 - len) (dst / 2 ^ (32 - len))
masked_lem dst len small h = rw (mask_lem len h) (
    and_high (32 - len) len dst (omega (arith, small, full_lem len h))
    ∙ ap (shift (32 - len)) (high_lem (32 - len) dst))

pub matches-covers :
    (dst : ℕ) (e : RouteEntry) → IsU32 dst → IsRoute e → matches dst e ≡ covers dst e
unfolding matches covers
matches-covers dst e small v =
    let k = host_bits e in
    let there : bit_and dst (mask e.prefix_length) ≡ shift k (dst / 2 ^ k) =
      masked_lem dst e.prefix_length small v.short in
    let here : shift k (e.route_prefix / 2 ^ k) ≡ e.route_prefix =
      shift_lem k (e.route_prefix / 2 ^ k) ∙ v.aligned in
    let back = shift-injective k (dst / 2 ^ k) (e.route_prefix / 2 ^ k) in
    elim (Bool-cases (dst / 2 ^ k == e.route_prefix / 2 ^ k)) [
      | inl t ↦
          let same : dst / 2 ^ k ≡ e.route_prefix / 2 ^ k = ground (arith, t) in
          let m : bit_and dst (mask e.prefix_length) ≡ e.route_prefix =
            there ∙ ap (shift k) same ∙ here in
          let y : (bit_and dst (mask e.prefix_length) == e.route_prefix) ≡ true =
            ground (arith, m) in
          y ∙ sym t
      | inr f ↦
          let n : (bit_and dst (mask e.prefix_length) == e.route_prefix) ≡ false =
            elim (Bool-cases (bit_and dst (mask e.prefix_length) == e.route_prefix)) [
              | inr n ↦ n
              | inl y ↦
                  let m : bit_and dst (mask e.prefix_length) ≡ e.route_prefix = ground (arith, y) in
                  let same = back (sym there ∙ m ∙ sym here) in absurd (ground (arith, f, same))
            ] in
          n ∙ sym f
    ]
