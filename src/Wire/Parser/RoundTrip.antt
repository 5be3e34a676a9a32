-- ===== src/Wire/Parser/RoundTrip.antt =====
-- The integers that the parser reads are those that were written.
use nju_networking_lab.Base.{
  ℕ, zero, suc, ◌^◌, ◌/◌, ◌%◌, ◌<◌, ◌≡◌, refl, arith, List, [], ◌∷◌, ◌++◌,
}
use nju_networking_lab.Base.{
  ltb, All, IsByte, replicate, length, length-append, drop-append_length, false,
}
use nju_networking_lab.Wire.Parser.{
  parser, has_error, check_size, shift_in, parse_int, remove_prefix, u8, u16, u32, unparse_int,
}

pub u8_lem :
    (v : ℕ) (rest : List ℕ) → v < 2 ^ 8 → u8 (parser (unparse_int 1 v ++ rest)) ≡ (v, parser rest)
unfolding u8 parse_int has_error check_size shift_in unparse_int
u8_lem v rest h = ground arith

pub u16_lem :
    (v : ℕ) (rest : List ℕ) → v < 2 ^ 16 → u16 (parser (unparse_int 2 v ++ rest)) ≡ (v, parser rest)
unfolding u16 parse_int has_error check_size shift_in unparse_int
u16_lem v rest h = ground arith

pub u32_lem :
    (v : ℕ) (rest : List ℕ) → v < 2 ^ 32 → u32 (parser (unparse_int 4 v ++ rest)) ≡ (v, parser rest)
unfolding u32 parse_int has_error check_size shift_in unparse_int
u32_lem v rest h = ground arith

pub u8_byte : (b : ℕ) (rest : List ℕ) → b < 2 ^ 8 → u8 (parser (b ∷ rest)) ≡ (b, parser rest)
unfolding u8 parse_int has_error check_size shift_in
u8_byte b rest h = ground arith

pub length-unparse_int : (n v : ℕ) → length (unparse_int n v) ≡ n
unfolding unparse_int
length-unparse_int zero v = refl
length-unparse_int (suc n) v = omega (arith, length-unparse_int n v)

pub remove_prefix_lem :
    (n : ℕ) (xs rest : List ℕ) → n ≡ length xs → remove_prefix n (parser (xs ++ rest)) ≡ parser rest
unfolding remove_prefix has_error check_size
remove_prefix_lem n xs rest h =
    let long : ltb (length (xs ++ rest)) n ≡ false = ground (arith, length-append xs rest, h) in
    rw (long, h) (rw (drop-append_length xs rest) refl)

pub unparse_int-bytes : (n v : ℕ) → All IsByte (unparse_int n v)
unfolding unparse_int
unparse_int-bytes zero v = tt
unparse_int-bytes (suc n) v = (omega arith, unparse_int-bytes n v)

-- A 16-bit number by its two bytes.
pub unparse_two : (v : ℕ) → v < 2 ^ 16 → unparse_int 2 v ≡ v / 256 ∷ v % 256 ∷ []
unfolding unparse_int
unparse_two v h =
    let high : v / 256 ^ 1 % 256 ≡ v / 256 = omega arith in
    let low : v / 256 ^ 0 % 256 ≡ v % 256 = omega arith in rw (high, low) refl

pub replicate-bytes : (n : ℕ) → All IsByte (replicate n 0)
replicate-bytes zero = tt
replicate-bytes (suc n) = (omega arith, replicate-bytes n)
