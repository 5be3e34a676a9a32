-- ===== src/Wire/Tests.antt =====
-- Packets written and read, and the theorems at concrete inputs.
use nju_networking_lab.Base.{
  ℕ, ◌+◌, ◌-◌, ◌*◌, ◌≡◌, refl, arith, List, [], ◌∷◌, ◌++◌, length, some, false, true,
}
use nju_networking_lab.Wire.Parser.{no_error, parser}
use nju_networking_lab.Wire.Checksum.{checksum, add, has_carry, fold_carries, value}
use nju_networking_lab.Wire.Checksum.Verify.{
  fold_carries_ends, odd_after, packet, checksum_verifies,
}
use nju_networking_lab.Wire.Checksum.Rfc.{as_words, ones_sum, value-ones_sum}
use nju_networking_lab.Wire.TcpHeader
use nju_networking_lab.Wire.TcpHeader.{TcpHeader}
use nju_networking_lab.Wire.TcpHeader.RoundTrip.{IsHeader, header-parse-serialize}
use nju_networking_lab.Wire.TcpSegment
use nju_networking_lab.Wire.TcpSegment.{TcpSegment}
use nju_networking_lab.Wire.TcpSegment.Check as Segments
use nju_networking_lab.Wire.TcpSegment.RoundTrip.{segment-parse-serialize}
use nju_networking_lab.Wire.TcpSegment.Check.{segment_check}
use nju_networking_lab.Wire.Ipv4Header
use nju_networking_lab.Wire.Ipv4Header.Check.{header_check}
use nju_networking_lab.Wire.Ipv4Datagram
use nju_networking_lab.Wire.Ipv4Datagram.{Ipv4Datagram}
use nju_networking_lab.Wire.Ipv4Datagram.RoundTrip as Datagrams
use nju_networking_lab.Wire.Ipv4Datagram.RoundTrip.{datagram-parse-serialize}
use nju_networking_lab.Buffer.{BufferList, str, of_string}
use nju_networking_lab.Buffer.Contents.{bytes}
use nju_networking_lab.Wire.Ethernet.{
  EthernetFrame, broadcast, type_arp, parse_frame, serialize_frame,
}
use nju_networking_lab.Wire.Ethernet.RoundTrip as Framing
use nju_networking_lab.Wire.Ethernet.RoundTrip.{frame-parse-serialize}
use nju_networking_lab.Wire.Arp
use nju_networking_lab.Wire.Arp.{ArpMessage, supported}
use nju_networking_lab.Wire.Arp.RoundTrip.{IsMessage, parse-serialize}

fold_carries_ends_example :
    (has_carry (fold_carries 2 0xffff_ffff) ≡ false)
    × ((fuel : ℕ) → fold_carries (2 + fuel) 0xffff_ffff ≡ fold_carries 2 0xffff_ffff)
fold_carries_ends_example = fold_carries_ends 0xffff_ffff (omega arith)

checksum_verifies_example :
    value (
      add
        (checksum 7)
        (packet (1 ∷ 2 ∷ []) (value (add (checksum 7) (packet (1 ∷ 2 ∷ []) 0 (3 ∷ [])))) (3 ∷ [])))
    ≡ 0
unfolding odd_after
checksum_verifies_example =
    checksum_verifies 7 (1 ∷ 2 ∷ []) (3 ∷ []) refl (omega arith, (omega arith, tt))
      (omega arith, tt) (omega arith)

value-ones_sum_example :
    value (add (checksum 0) (0xff ∷ 0xff ∷ 0x12 ∷ 0x34 ∷ 0x56 ∷ []))
    ≡ 0xffff - ones_sum 0 (as_words (0xff ∷ 0xff ∷ 0x12 ∷ 0x34 ∷ 0x56 ∷ []))
value-ones_sum_example =
    value-ones_sum (0xff ∷ 0xff ∷ 0x12 ∷ 0x34 ∷ 0x56 ∷ [])
      (omega arith, (omega arith, (omega arith, (omega arith, (omega arith, tt))))) (omega arith)

-- A SYN and ACK with eight bytes of options.
abbrev syn_ack : TcpHeader
syn_ack = record (TcpHeader.blank) {
  sport = 80;
  dport = 0xfffe;
  seqno = 0xdead_beef;
  ackno = 17;
  doff = 7;
  syn = true;
  ack = true;
  win = 4096;
}

syn_ack-IsHeader : IsHeader syn_ack
syn_ack-IsHeader = record {
  sport = omega arith;
  dport = omega arith;
  seqno = omega arith;
  ackno = omega arith;
  enough = omega arith;
  doff = omega arith;
  win = omega arith;
  cksum = omega arith;
  uptr = omega arith;
}

header-parse-serialize_example :
    (bytes : List ℕ) × (TcpHeader.serialize syn_ack ≡ some bytes)
    × (length bytes ≡ 4 * 7)
    × (TcpHeader.parse (parser (bytes ++ (1 ∷ 2 ∷ []))) ≡ (no_error, syn_ack, parser (1 ∷ 2 ∷ [])))
header-parse-serialize_example = header-parse-serialize syn_ack (1 ∷ 2 ∷ []) syn_ack-IsHeader

abbrev request : ArpMessage
request = record (Arp.blank) {
  opcode = Arp.opcode_request;
  sender_ethernet_address = 2 ∷ 0 ∷ 0 ∷ 0 ∷ 0 ∷ 7 ∷ [];
  sender_ip_address = 0x0a00_0001;
  target_ip_address = 0x0a00_0002;
}

request-IsMessage : IsMessage request
unfolding supported
request-IsMessage = record {
  is_supported = refl;
  sender = (
    refl,
    (omega arith, (omega arith, (omega arith, (omega arith, (omega arith, (omega arith, tt)))))),
  );
  sender_ip = omega arith;
  target = (
    refl,
    (omega arith, (omega arith, (omega arith, (omega arith, (omega arith, (omega arith, tt)))))),
  );
  target_ip = omega arith;
}

parse-serialize_example :
    (bytes : List ℕ) × (Arp.serialize request ≡ some bytes)
    × (length bytes ≡ 28)
    × (Arp.parse bytes ≡ (no_error, request))
parse-serialize_example = parse-serialize request request-IsMessage

-- A broadcast frame with a payload in two buffers.
abbrev frame : EthernetFrame
frame = record {
  header = record { dst = broadcast; src = 2 ∷ 0 ∷ 0 ∷ 0 ∷ 0 ∷ 7 ∷ []; type = type_arp };
  payload = of_string (1 ∷ []) ∷ of_string (2 ∷ 3 ∷ []) ∷ [];
}

frame-IsHeader : Framing.IsHeader frame.header
frame-IsHeader = record {
  dst = (
    refl,
    (omega arith, (omega arith, (omega arith, (omega arith, (omega arith, (omega arith, tt)))))),
  );
  src = (
    refl,
    (omega arith, (omega arith, (omega arith, (omega arith, (omega arith, (omega arith, tt)))))),
  );
  type = omega arith;
}

frame-parse-serialize_example :
    parse_frame (bytes (serialize_frame frame))
    ≡ (no_error, record { header = frame.header; payload = of_string (bytes frame.payload) ∷ [] })
frame-parse-serialize_example = frame-parse-serialize frame frame-IsHeader

-- A segment with two bytes, and the datagram that carries it.
abbrev hello : TcpSegment
hello = record { header = TcpHeader.blank; payload = 104 ∷ 105 ∷ [] }

blank-IsHeader : IsHeader TcpHeader.blank
blank-IsHeader = record {
  sport = omega arith;
  dport = omega arith;
  seqno = omega arith;
  ackno = omega arith;
  enough = omega arith;
  doff = omega arith;
  win = omega arith;
  cksum = omega arith;
  uptr = omega arith;
}

segment-parse-serialize_example :
    (out : BufferList) × (TcpSegment.serialize hello 7 ≡ some out)
    × (TcpSegment.parse (bytes out) 7 ≡ (no_error, Segments.received hello (segment_check hello 7)))
    × (length (bytes out) ≡ 20 + 2)
segment-parse-serialize_example =
    segment-parse-serialize hello 7 blank-IsHeader (omega arith, (omega arith, tt)) (omega arith)
      (omega arith)

abbrev datagram : Ipv4Datagram
datagram = record {
  header = record (Ipv4Header.blank) { len = 23; src = 10; dst = 20; offset = 5; mf = true };
  payload = of_string (1 ∷ 2 ∷ []) ∷ of_string (3 ∷ []) ∷ [];
}

datagram-parse-serialize_example :
    (out : BufferList) × (Ipv4Datagram.serialize datagram ≡ some out)
    × (Ipv4Datagram.parse (bytes out)
        ≡ (no_error, Datagrams.received datagram (header_check datagram.header)))
    × (length (bytes out) ≡ 23)
unfolding bytes str
datagram-parse-serialize_example =
    datagram-parse-serialize datagram
      (record {
        ver = refl;
        enough = omega arith;
        hlen = omega arith;
        tos = omega arith;
        len = omega arith;
        id = omega arith;
        offset = omega arith;
        ttl = omega arith;
        proto = omega arith;
        cksum = omega arith;
        src = omega arith;
        dst = omega arith;
      })
      refl
