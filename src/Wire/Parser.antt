-- ===== src/Wire/Parser.antt =====
-- libsponge/util/parser: big-endian integers read from and written to bytes.
-- The parser's `Buffer` is given by the bytes that it views; see Buffer/Contents.antt.
pub mod RoundTrip
use nju_networking_lab.Base.{
  ℕ, zero, suc, ◌+◌, ◌-◌, ◌*◌, ◌/◌, ◌%◌, ◌^◌, List, [], ◌∷◌, ◌++◌, Bool, true, false, not,
}
use nju_networking_lab.Base.{ltb, if◌then◌else◌, length, take, drop}

pub data ParseResult : Type 0 where
  no_error bad_checksum packet_too_short wrong_ip_version : ParseResult
  header_too_short truncated_packet unsupported : ParseResult

pub record NetParser : Type 0 where
  pub buffer : List ℕ
  pub error : ParseResult

-- `NetParser(buffer)`
abbrev pub parser : List ℕ → NetParser
parser bytes = record { buffer = bytes; error = no_error }

unfoldable pub has_error : NetParser → Bool
has_error p = elim p.error [ no_error ↦ false | _ ↦ true ]

unfoldable pub check_size : ℕ → NetParser → NetParser
check_size size p = if ltb (length p.buffer) size then record p { error = packet_too_short } else p

-- `ret <<= 8; ret += byte` at a type of `modulus` values.
unfoldable pub shift_in : ℕ → ℕ → List ℕ → ℕ
shift_in modulus ret [] = ret
shift_in modulus ret (b ∷ bs) = shift_in modulus ((ret * 256 % modulus + b) % modulus) bs

-- `_parse_int` at a type of `len` bytes: the value, and the parser after it.
unfoldable pub parse_int : ℕ → NetParser → ℕ × NetParser
unfolding has_error check_size shift_in
parse_int len p =
    let p' = check_size len p in
    if has_error p'
    then (0, p')
    else (shift_in (256 ^ len) 0 (take len p'.buffer), record p' { buffer = drop len p'.buffer })

unfoldable pub u8 : NetParser → ℕ × NetParser
unfolding parse_int
u8 p = parse_int 1 p

unfoldable pub u16 : NetParser → ℕ × NetParser
unfolding parse_int
u16 p = parse_int 2 p

unfoldable pub u32 : NetParser → ℕ × NetParser
unfolding parse_int
u32 p = parse_int 4 p

unfoldable pub remove_prefix : ℕ → NetParser → NetParser
unfolding has_error check_size
remove_prefix n p =
    let p' = check_size n p in if has_error p' then p' else record p' { buffer = drop n p'.buffer }

-- `_unparse_int`: the bytes that it pushes, the highest first.
unfoldable pub unparse_int : ℕ → ℕ → List ℕ
unparse_int zero val = []
unparse_int (suc k) val = (val / 256 ^ k % 256) ∷ unparse_int k val

unfoldable pub put_u8 : List ℕ → ℕ → List ℕ
unfolding unparse_int
put_u8 s val = s ++ unparse_int 1 val

unfoldable pub put_u16 : List ℕ → ℕ → List ℕ
unfolding unparse_int
put_u16 s val = s ++ unparse_int 2 val

unfoldable pub put_u32 : List ℕ → ℕ → List ℕ
unfolding unparse_int
put_u32 s val = s ++ unparse_int 4 val
