-- ===== src/Wire/Arp.antt =====
-- libsponge/tcp_helpers/arp_message.
pub mod RoundTrip
use nju_networking_lab.Base.{
  ℕ, List, [], ◌∷◌, ◌++◌, Option, none, some, ltb, ◌==◌, if◌then◌else◌, length, Bool, true, false,
  ◌&&◌, ◌||◌,
}
use nju_networking_lab.Wire.Parser.{
  ParseResult, packet_too_short, unsupported, NetParser, parser, u8, u16, u32, put_u8, put_u16,
  put_u32,
}
use nju_networking_lab.Wire.Ethernet.{EthernetAddress, type_ipv4, parse_bytes, put_bytes}

abbrev pub message_length : ℕ
message_length = 28

abbrev pub type_ethernet : ℕ
type_ethernet = 1

abbrev pub opcode_request : ℕ
opcode_request = 1

abbrev pub opcode_reply : ℕ
opcode_reply = 2

abbrev pub zero_address : EthernetAddress
zero_address = 0 ∷ 0 ∷ 0 ∷ 0 ∷ 0 ∷ 0 ∷ []

pub record ArpMessage : Type 0 where
  pub hardware_type : ℕ
  pub protocol_type : ℕ
  pub hardware_address_size : ℕ
  pub protocol_address_size : ℕ
  pub opcode : ℕ
  pub sender_ethernet_address : EthernetAddress
  pub sender_ip_address : ℕ
  pub target_ethernet_address : EthernetAddress
  pub target_ip_address : ℕ

-- `ARPMessage{}`
abbrev pub blank : ArpMessage
blank = record {
  hardware_type = type_ethernet;
  protocol_type = type_ipv4;
  hardware_address_size = 6;
  protocol_address_size = 4;
  opcode = 0;
  sender_ethernet_address = zero_address;
  sender_ip_address = 0;
  target_ethernet_address = zero_address;
  target_ip_address = 0;
}

unfoldable pub supported : ArpMessage → Bool
supported m =
    (m.hardware_type == type_ethernet)
    && (m.protocol_type == type_ipv4)
    && (m.hardware_address_size == 6)
    && (m.protocol_address_size == 4)
    && ((m.opcode == opcode_request) || (m.opcode == opcode_reply))

-- The addresses, behind the eight bytes that say what kind of message it is.
unfoldable pub parse_addresses : ArpMessage → NetParser → ParseResult × ArpMessage
parse_addresses m p =
    let (sender, p1) = parse_bytes 6 p in
    let (sender_ip, p2) = u32 p1 in
    let (target, p3) = parse_bytes 6 p2 in
    let (target_ip, p4) = u32 p3 in
    (
      p4.error,
      record m {
        sender_ethernet_address = sender;
        sender_ip_address = sender_ip;
        target_ethernet_address = target;
        target_ip_address = target_ip;
      },
    )

unfoldable pub parse : List ℕ → ParseResult × ArpMessage
parse buffer =
    let (hardware_type, p1) = u16 (parser buffer) in
    let (protocol_type, p2) = u16 p1 in
    let (hardware_address_size, p3) = u8 p2 in
    let (protocol_address_size, p4) = u8 p3 in
    let (opcode, p5) = u16 p4 in
    let m : ArpMessage = record blank {
      hardware_type = hardware_type;
      protocol_type = protocol_type;
      hardware_address_size = hardware_address_size;
      protocol_address_size = protocol_address_size;
      opcode = opcode;
    } in
    if ltb (length buffer) message_length
    then (packet_too_short, blank)
    else if supported m
    then parse_addresses m p5
    else (unsupported, m)

-- `none` is the exception for a message that is not supported.
unfoldable pub serialize : ArpMessage → Option (List ℕ)
serialize m =
    let s1 = put_u16 (put_u16 [] m.hardware_type) m.protocol_type in
    let s2 = put_u8 (put_u8 s1 m.hardware_address_size) m.protocol_address_size in
    let s3 =
      put_u32 (put_bytes (put_u16 s2 m.opcode) m.sender_ethernet_address) m.sender_ip_address in
    let s4 = put_u32 (put_bytes s3 m.target_ethernet_address) m.target_ip_address in
    if supported m then some s4 else none
