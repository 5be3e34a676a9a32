-- ===== src/Wire/Ethernet.antt =====
-- libsponge/tcp_helpers/ethernet_header and ethernet_frame.
pub mod Addresses
pub mod RoundTrip
use nju_networking_lab.Base.{
  ℕ, List, [], ◌∷◌, ltb, ◌==◌, if◌then◌else◌, length, Bool, true, false, ◌&&◌, zero, suc,
}
use nju_networking_lab.Buffer
use nju_networking_lab.Buffer.{BufferList}
use nju_networking_lab.Wire.Parser.{
  ParseResult, packet_too_short, NetParser, parser, u8, u16, put_u8, put_u16,
}

-- `std::array<uint8_t, 6>`
abbrev pub EthernetAddress : Type 0
EthernetAddress = List ℕ

abbrev pub broadcast : EthernetAddress
broadcast = 0xff ∷ 0xff ∷ 0xff ∷ 0xff ∷ 0xff ∷ 0xff ∷ []

-- `operator==` on the arrays.
unfoldable pub same_address : EthernetAddress → EthernetAddress → Bool
same_address [] [] = true
same_address [] (y ∷ ys) = false
same_address (x ∷ xs) [] = false
same_address (x ∷ xs) (y ∷ ys) = (x == y) && same_address xs ys

abbrev pub header_length : ℕ
header_length = 14

abbrev pub type_ipv4 : ℕ
type_ipv4 = 0x800

abbrev pub type_arp : ℕ
type_arp = 0x806

pub record EthernetHeader : Type 0 where
  pub dst : EthernetAddress
  pub src : EthernetAddress
  pub type : ℕ

pub record EthernetFrame : Type 0 where
  pub header : EthernetHeader
  pub payload : BufferList

-- `for (auto &byte : dst) byte = p.u8();`
unfoldable pub parse_bytes : ℕ → NetParser → List ℕ × NetParser
unfolding u8
parse_bytes zero p = ([], p)
parse_bytes (suc n) p = let (b, p1) = u8 p in let (bs, p2) = parse_bytes n p1 in (b ∷ bs, p2)

-- `for (auto &byte : dst) NetUnparser::u8(ret, byte);`
unfoldable pub put_bytes : List ℕ → List ℕ → List ℕ
unfolding put_u8
put_bytes s [] = s
put_bytes s (b ∷ bs) = put_bytes (put_u8 s b) bs

-- `EthernetHeader{}`
abbrev pub zero_header : EthernetHeader
zero_header = record {
  dst = 0 ∷ 0 ∷ 0 ∷ 0 ∷ 0 ∷ 0 ∷ [];
  src = 0 ∷ 0 ∷ 0 ∷ 0 ∷ 0 ∷ 0 ∷ [];
  type = 0;
}

unfoldable pub parse_header : NetParser → ParseResult × EthernetHeader × NetParser
parse_header p =
    let (dst, p1) = parse_bytes 6 p in
    let (src, p2) = parse_bytes 6 p1 in
    let (type, p3) = u16 p2 in
    if ltb (length p.buffer) header_length
    then (packet_too_short, zero_header, p)
    else (p3.error, record { dst = dst; src = src; type = type }, p3)

unfoldable pub serialize_header : EthernetHeader → List ℕ
serialize_header h = put_u16 (put_bytes (put_bytes [] h.dst) h.src) h.type

-- `EthernetFrame::parse`: the result is the parser's own error, not that of the header's test.
unfoldable pub parse_frame : List ℕ → ParseResult × EthernetFrame
parse_frame buffer =
    let (res, h, p) = parse_header (parser buffer) in
    (p.error, record { header = h; payload = Buffer.of_string p.buffer ∷ [] })

unfoldable pub serialize_frame : EthernetFrame → BufferList
unfolding serialize_header
serialize_frame f =
    Buffer.append (Buffer.append [] (Buffer.of_string (serialize_header f.header) ∷ [])) f.payload
