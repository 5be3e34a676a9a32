-- ===== src/Wrap.antt =====
-- libsponge/wrapping_integers: 32-bit sequence numbers and 64-bit absolute ones.
-- A `WrappingInt32` is its raw value, a number below 2 ^ 32.
pub mod RoundTrip
pub mod Closest
mod Tests
use nju_networking_lab.Base.{ℕ, ◌+◌, ◌-◌, ◌%◌, ◌^◌, u64_mod, u32_mod, add32, sub32, add64}
use nju_networking_lab.Base.{ltb, if◌then◌else◌}

abbrev pub WrappingInt32 : Type 0
WrappingInt32 = ℕ

-- `static_cast<uint32_t>(n) + isn.raw_value()`
unfoldable pub wrap : ℕ → WrappingInt32 → WrappingInt32
wrap n isn = add32 (n % u32_mod) isn

-- An `int32_t`, given by its bit pattern, as the `uint64_t` that it converts to.
unfoldable pub sign_extend : ℕ → ℕ
sign_extend d = if ltb d (2 ^ 31) then d else d + (u64_mod - u32_mod)

-- `operator-` on two sequence numbers: the bit pattern of the `int32_t`.
unfoldable pub offset : WrappingInt32 → WrappingInt32 → ℕ
offset a b = sub32 a b

-- `res < 0` is the top bit of the 64-bit pattern.
unfoldable pub unwrap : WrappingInt32 → WrappingInt32 → ℕ → ℕ
unfolding wrap sign_extend offset
unwrap n isn checkpoint =
    let res = add64 checkpoint (sign_extend (offset n (wrap checkpoint isn))) in
    if ltb res (2 ^ 63) then res else add64 res u32_mod
