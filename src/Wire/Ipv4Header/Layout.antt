-- ===== src/Wire/Ipv4Header/Layout.antt =====
-- The bytes that the header of an Internet datagram is written as.
use Prim.Native.Nat.{bit_and, bit_or}
use nju_networking_lab.Base.{ℕ, ◌-◌, ◌%◌, ◌*◌, ◌≤◌, ◌<◌, ◌≡◌, refl, arith, List, [], ◌++◌}
use nju_networking_lab.Base.{
  length, length-append, length-replicate, replicate, take_of_le, IsU16, IsU32, some, ltb, ◌==◌,
  true, false, IsByte,
}
use nju_networking_lab.Wire.Parser.{unparse_int, put_u8, put_u16, put_u32}
use nju_networking_lab.Wire.Parser.RoundTrip.{}
use nju_networking_lab.Wire.TcpHeader.{resize}
use nju_networking_lab.Wire.Ipv4Header.{Ipv4Header, header_length, fragment_word, serialize}

-- A header whose fields are in range.
pub record IsHeader (h : Ipv4Header) : Type 0 where
  pub ver : h.ver ≡ 4
  pub enough : 5 ≤ h.hlen
  pub hlen : h.hlen < 16
  pub tos : IsByte h.tos
  pub len : IsU16 h.len
  pub id : IsU16 h.id
  pub offset : h.offset < 0x2000
  pub ttl : IsByte h.ttl
  pub proto : IsByte h.proto
  pub cksum : IsU16 h.cksum
  pub src : IsU32 h.src
  pub dst : IsU32 h.dst

abbrev pub first_byte : Ipv4Header → ℕ
first_byte h = bit_or (h.ver * 16 % 256) (bit_and h.hlen 0x0f)

-- What stands behind each field, the last first; `layout` is all of it.
abbrev pub from_dst : Ipv4Header → List ℕ → List ℕ
from_dst h rest = unparse_int 4 h.dst ++ rest

abbrev pub from_src : Ipv4Header → List ℕ → List ℕ
from_src h rest = unparse_int 4 h.src ++ from_dst h rest

abbrev pub from_cksum : Ipv4Header → List ℕ → List ℕ
from_cksum h rest = unparse_int 2 h.cksum ++ from_src h rest

abbrev pub from_proto : Ipv4Header → List ℕ → List ℕ
from_proto h rest = unparse_int 1 h.proto ++ from_cksum h rest

abbrev pub from_ttl : Ipv4Header → List ℕ → List ℕ
from_ttl h rest = unparse_int 1 h.ttl ++ from_proto h rest

abbrev pub from_fragment : Ipv4Header → List ℕ → List ℕ
from_fragment h rest = unparse_int 2 (fragment_word h) ++ from_ttl h rest

abbrev pub from_id : Ipv4Header → List ℕ → List ℕ
from_id h rest = unparse_int 2 h.id ++ from_fragment h rest

abbrev pub from_len : Ipv4Header → List ℕ → List ℕ
from_len h rest = unparse_int 2 h.len ++ from_id h rest

abbrev pub from_tos : Ipv4Header → List ℕ → List ℕ
from_tos h rest = unparse_int 1 h.tos ++ from_len h rest

unfoldable pub layout : Ipv4Header → List ℕ → List ℕ
layout h rest = unparse_int 1 (first_byte h) ++ from_tos h rest

pub length-layout : (h : Ipv4Header) → length (layout h []) ≡ 20
unfolding layout unparse_int
length-layout h = refl

pub layout-append : (h : Ipv4Header) (xs : List ℕ) → layout h [] ++ xs ≡ layout h xs
unfolding layout unparse_int
layout-append h xs = refl

-- The options, which are zero bytes.
abbrev pub options : Ipv4Header → List ℕ
options h = replicate (4 * h.hlen - 20) 0

-- The bytes of a header.
unfoldable pub header_bytes : Ipv4Header → List ℕ
header_bytes h = layout h [] ++ options h

pub length-header_bytes : (h : Ipv4Header) → IsHeader h → length (header_bytes h) ≡ 4 * h.hlen
unfolding header_bytes
length-header_bytes h v = omega (
  arith,
  length-append (layout h []) (options h),
  length-layout h,
  length-replicate {A = ℕ} (4 * h.hlen - 20) 0,
  v.enough,
)

pub serialize_lem : (h : Ipv4Header) → IsHeader h → serialize h ≡ some (header_bytes h)
unfolding serialize header_bytes layout resize put_u8 put_u16 put_u32 unparse_int
serialize_lem h v =
    let d : ltb (4 * h.hlen) header_length ≡ false = ground (arith, v.enough) in
    let n : (h.ver == 4) ≡ true = ground (arith, v.ver) in
    rw (n, d, take_of_le (4 * h.hlen) (layout h []) (omega (arith, length-layout h, v.enough))) refl

abbrev pub with_cksum : Ipv4Header → ℕ → Ipv4Header
with_cksum h v = record h { cksum = v }

pub with_cksum-IsHeader :
    {h : Ipv4Header} {v : ℕ} → IsU16 v → IsHeader h → IsHeader (with_cksum h v)
with_cksum-IsHeader {h} {v} small f = record {
  ver = f.ver;
  enough = f.enough;
  hlen = f.hlen;
  tos = f.tos;
  len = f.len;
  id = f.id;
  offset = f.offset;
  ttl = f.ttl;
  proto = f.proto;
  cksum = small;
  src = f.src;
  dst = f.dst;
}
