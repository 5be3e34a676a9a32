-- ===== src/Wire/TcpHeader/RoundTrip.antt =====
-- A TCP header is read back from the bytes that it is written as.
use nju_networking_lab.Base.{
  ℕ, ◌-◌, ◌%◌, ◌/◌, ◌*◌, ◌≤◌, ◌<◌, ◌≡◌, refl, ap, ◌∙◌, arith, List, [], ◌++◌, append_assoc,
}
use nju_networking_lab.Base.{
  length, length-append, length-replicate, replicate, take_of_le, IsU16, IsU32, some, ltb, false,
}
use nju_networking_lab.Wire.Parser.{
  parser, no_error, has_error, unparse_int, put_u8, put_u16, put_u32,
}
use nju_networking_lab.Wire.Parser.RoundTrip.{u8_lem, u16_lem, u32_lem, remove_prefix_lem}
use nju_networking_lab.Wire.TcpHeader.{
  TcpHeader, header_length, flag_byte, resize, parse, serialize,
}
use nju_networking_lab.Wire.TcpHeader.Flags.{flags-ReadBack}

-- A header whose fields are in range.
pub record IsHeader (h : TcpHeader) : Type 0 where
  pub sport : IsU16 h.sport
  pub dport : IsU16 h.dport
  pub seqno : IsU32 h.seqno
  pub ackno : IsU32 h.ackno
  pub enough : 5 ≤ h.doff
  pub doff : h.doff < 16
  pub win : IsU16 h.win
  pub cksum : IsU16 h.cksum
  pub uptr : IsU16 h.uptr

-- What stands behind each field, the last first; `layout` is all of it.
abbrev pub from_uptr : TcpHeader → List ℕ → List ℕ
from_uptr h rest = unparse_int 2 h.uptr ++ rest

abbrev pub from_cksum : TcpHeader → List ℕ → List ℕ
from_cksum h rest = unparse_int 2 h.cksum ++ from_uptr h rest

abbrev pub from_win : TcpHeader → List ℕ → List ℕ
from_win h rest = unparse_int 2 h.win ++ from_cksum h rest

abbrev pub from_flags : TcpHeader → List ℕ → List ℕ
from_flags h rest = unparse_int 1 (flag_byte h) ++ from_win h rest

abbrev pub from_doff : TcpHeader → List ℕ → List ℕ
from_doff h rest = unparse_int 1 (h.doff * 16 % 256) ++ from_flags h rest

abbrev pub from_ackno : TcpHeader → List ℕ → List ℕ
from_ackno h rest = unparse_int 4 h.ackno ++ from_doff h rest

abbrev pub from_seqno : TcpHeader → List ℕ → List ℕ
from_seqno h rest = unparse_int 4 h.seqno ++ from_ackno h rest

abbrev pub from_dport : TcpHeader → List ℕ → List ℕ
from_dport h rest = unparse_int 2 h.dport ++ from_seqno h rest

unfoldable pub layout : TcpHeader → List ℕ → List ℕ
layout h rest = unparse_int 2 h.sport ++ from_dport h rest

pub length-layout : (h : TcpHeader) → length (layout h []) ≡ 20
unfolding layout unparse_int
length-layout h = refl

-- The options, which are zero bytes.
abbrev pub options : TcpHeader → List ℕ
options h = replicate (4 * h.doff - 20) 0

pub serialize_lem : (h : TcpHeader) → IsHeader h → serialize h ≡ some (layout h [] ++ options h)
unfolding serialize layout resize put_u8 put_u16 put_u32 unparse_int
serialize_lem h v =
    let d : ltb h.doff 5 ≡ false = ground (arith, v.enough) in
    rw (d, take_of_le (4 * h.doff) (layout h []) (omega (arith, length-layout h, v.enough))) refl

pub parse_lem :
    (h : TcpHeader) (rest : List ℕ)
    → IsHeader h
    → parse (parser (layout h (options h ++ rest))) ≡ (no_error, h, parser rest)
unfolding parse layout has_error
parse_lem h rest v =
    let f = flags-ReadBack h in
    let d : ltb h.doff 5 ≡ false = ground (arith, v.enough) in
    let o : h.doff * 16 % 256 / 16 ≡ h.doff = omega (arith, v.doff) in
    rw
      (
        u16_lem h.sport (from_dport h (options h ++ rest)) v.sport,
        u16_lem h.dport (from_seqno h (options h ++ rest)) v.dport,
        u32_lem h.seqno (from_ackno h (options h ++ rest)) v.seqno,
        u32_lem h.ackno (from_doff h (options h ++ rest)) v.ackno,
        u8_lem (h.doff * 16 % 256) (from_flags h (options h ++ rest)) (omega arith),
        u8_lem (flag_byte h) (from_win h (options h ++ rest)) f.fits,
        u16_lem h.win (from_cksum h (options h ++ rest)) v.win,
        u16_lem h.cksum (from_uptr h (options h ++ rest)) v.cksum,
        u16_lem h.uptr (options h ++ rest) v.uptr,
        o,
        d,
        f.urg,
        f.ack,
        f.psh,
        f.rst,
        f.syn,
        f.fin,
        remove_prefix_lem (h.doff * 4 - header_length) (options h) rest
            (omega (arith, length-replicate {A = ℕ} (4 * h.doff - 20) 0)),
      )
      refl

pub layout-append : (h : TcpHeader) (xs : List ℕ) → layout h [] ++ xs ≡ layout h xs
unfolding layout unparse_int
layout-append h xs = refl

-- Every header with its fields in range and a data offset of at least 5 is written as 4 bytes for
-- each unit of the offset, and is read back as it was from those bytes, whatever follows them; the
-- parser then stands behind the header.
pub header-parse-serialize :
    (h : TcpHeader) (rest : List ℕ)
    → IsHeader h
    → (bytes : List ℕ) × (serialize h ≡ some bytes)
      × (length bytes ≡ 4 * h.doff)
      × (parse (parser (bytes ++ rest)) ≡ (no_error, h, parser rest))
header-parse-serialize h rest v = (
  layout h [] ++ options h,
  serialize_lem h v,
  omega (
    arith,
    length-append (layout h []) (options h),
    length-layout h,
    length-replicate {A = ℕ} (4 * h.doff - 20) 0,
    v.enough,
  ),
  ap (λ bs. parse (parser bs))
        (append_assoc (layout h []) (options h) rest ∙ layout-append h (options h ++ rest))
      ∙ parse_lem h rest v,
)
