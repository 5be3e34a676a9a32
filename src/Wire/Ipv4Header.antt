-- ===== src/Wire/Ipv4Header.antt =====
-- libsponge/tcp_helpers/ipv4_header: the header of an Internet datagram.
mod Fields
pub mod Layout
pub mod Check
pub mod RoundTrip
use Prim.Native.Nat.{bit_and, bit_or}
use nju_networking_lab.Base.{
  ℕ, ◌+◌, ◌-◌, ◌*◌, ◌/◌, ◌%◌, ◌^◌, List, [], Bool, true, false, not, Option, none, some,
}
use nju_networking_lab.Base.{ltb, ◌==◌, if◌then◌else◌, length, take, add32}
use nju_networking_lab.Wire.Parser.{
  ParseResult, no_error, packet_too_short, wrong_ip_version, header_too_short, truncated_packet,
  bad_checksum, NetParser, has_error, u8, u16, u32, remove_prefix, put_u8, put_u16, put_u32,
}
use nju_networking_lab.Wire.Checksum
use nju_networking_lab.Wire.TcpHeader.{resize, flag}

abbrev pub header_length : ℕ
header_length = 20

abbrev pub proto_tcp : ℕ
proto_tcp = 6

pub record Ipv4Header : Type 0 where
  pub ver : ℕ
  pub hlen : ℕ
  pub tos : ℕ
  pub len : ℕ
  pub id : ℕ
  pub df : Bool
  pub mf : Bool
  pub offset : ℕ
  pub ttl : ℕ
  pub proto : ℕ
  pub cksum : ℕ
  pub src : ℕ
  pub dst : ℕ

-- `IPv4Header{}`
abbrev pub blank : Ipv4Header
blank = record {
  ver = 4;
  hlen = 5;
  tos = 0;
  len = 0;
  id = 0;
  df = true;
  mf = false;
  offset = 0;
  ttl = 128;
  proto = proto_tcp;
  cksum = 0;
  src = 0;
  dst = 0;
}

-- The tests on the fields, in the order of the code; `p` stands behind the 20 bytes.
unfoldable pub check_fields : List ℕ → Ipv4Header → NetParser → ParseResult × Ipv4Header × NetParser
check_fields original h p =
    let p' = remove_prefix (h.hlen * 4 - header_length) p in
    let check = Checksum.value (Checksum.add (Checksum.checksum 0) (take (4 * h.hlen) original)) in
    if ltb (length original) (4 * h.hlen)
    then (packet_too_short, h, p)
    else if not (h.ver == 4)
    then (wrong_ip_version, h, p)
    else if ltb h.hlen 5
    then (header_too_short, h, p)
    else if not (length original == h.len)
    then (truncated_packet, h, p)
    else if has_error p'
    then (p'.error, h, p')
    else if check == 0
    then (no_error, h, p')
    else (bad_checksum, h, p')

-- The result, the header and the parser after it.
unfoldable pub parse : NetParser → ParseResult × Ipv4Header × NetParser
parse p =
    let (first_byte, p1) = u8 p in
    let (tos, p2) = u8 p1 in
    let (len, p3) = u16 p2 in
    let (id, p4) = u16 p3 in
    let (fo_val, p5) = u16 p4 in
    let (ttl, p6) = u8 p5 in
    let (proto, p7) = u8 p6 in
    let (cksum, p8) = u16 p7 in
    let (src, p9) = u32 p8 in
    let (dst, p10) = u32 p9 in
    let h : Ipv4Header = record {
      ver = first_byte / 16;
      hlen = bit_and first_byte 0x0f;
      tos = tos;
      len = len;
      id = id;
      df = flag fo_val 0x4000;
      mf = flag fo_val 0x2000;
      offset = bit_and fo_val 0x1fff;
      ttl = ttl;
      proto = proto;
      cksum = cksum;
      src = src;
      dst = dst;
    } in
    if ltb (length p.buffer) header_length
    then (packet_too_short, blank, p)
    else check_fields p.buffer h p10

-- The 16 bits of flags and fragment offset.
unfoldable pub fragment_word : Ipv4Header → ℕ
fragment_word h =
    bit_or (bit_or (if h.df then 0x4000 else 0) (if h.mf then 0x2000 else 0))
      (bit_and h.offset 0x1fff)

-- `none` is one of the two exceptions.
unfoldable pub serialize : Ipv4Header → Option (List ℕ)
serialize h =
    let first_byte = bit_or (h.ver * 16 % 256) (bit_and h.hlen 0x0f) in
    let s1 = put_u8 (put_u8 [] first_byte) h.tos in
    let s2 = put_u16 (put_u16 (put_u16 s1 h.len) h.id) (fragment_word h) in
    let s3 = put_u16 (put_u8 (put_u8 s2 h.ttl) h.proto) h.cksum in
    let s4 = put_u32 (put_u32 s3 h.src) h.dst in
    if not (h.ver == 4)
    then none
    else if ltb (4 * h.hlen) header_length
    then none
    else some (resize (4 * h.hlen) s4)

-- `len - 4 * hlen` as a `uint16_t`.
unfoldable pub payload_length : Ipv4Header → ℕ
payload_length h = (h.len + 2 ^ 16 - 4 * h.hlen % 2 ^ 16) % 2 ^ 16

unfoldable pub pseudo_cksum : Ipv4Header → ℕ
unfolding payload_length
pseudo_cksum h =
    let s = add32 (h.src / 2 ^ 16) (h.src % 2 ^ 16) in
    let d = add32 (h.dst / 2 ^ 16) (h.dst % 2 ^ 16) in
    add32 (add32 (add32 s d) h.proto) (payload_length h)
