-- ===== src/Wire/Ethernet/Addresses.antt =====
-- Hardware addresses written and read, a byte at a time.
use nju_networking_lab.Base.{
  ℕ, ◌/◌, ◌%◌, ◌≡◌, refl, sym, ap, ◌∙◌, arith, List, [], ◌∷◌, ◌++◌, append-nil, append_assoc,
  length, All, IsByte,
}
use nju_networking_lab.Wire.Parser.{parser, put_u8, unparse_int}
use nju_networking_lab.Wire.Parser.RoundTrip.{u8_byte}
use nju_networking_lab.Wire.Ethernet.{EthernetAddress, parse_bytes, put_bytes}

-- An address of six bytes.
abbrev pub IsAddress : EthernetAddress → Type 0
IsAddress a = (length a ≡ 6) × All IsByte a

pub put_bytes_lem : (s bs : List ℕ) → All IsByte bs → put_bytes s bs ≡ s ++ bs
unfolding put_bytes put_u8 unparse_int
put_bytes_lem s [] h = sym (append-nil s)
put_bytes_lem s (b ∷ bs) h =
    let e : b / 1 % 256 ≡ b = omega (arith, h.0) in
    rw (e, put_bytes_lem (s ++ (b ∷ [])) bs h.1) (append_assoc s (b ∷ []) bs)

parse_bytes_lem :
    (bs rest : List ℕ)
    → All IsByte bs
    → parse_bytes (length bs) (parser (bs ++ rest)) ≡ (bs, parser rest)
unfolding parse_bytes
parse_bytes_lem [] rest h = refl
parse_bytes_lem (b ∷ bs) rest h = rw (u8_byte b (bs ++ rest) h.0, parse_bytes_lem bs rest h.1) refl

pub address_lem :
    (a : EthernetAddress) (rest : List ℕ)
    → IsAddress a
    → parse_bytes 6 (parser (a ++ rest)) ≡ (a, parser rest)
address_lem a rest h =
    ap (λ n. parse_bytes n (parser (a ++ rest))) (sym h.0) ∙ parse_bytes_lem a rest h.1
