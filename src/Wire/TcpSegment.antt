-- ===== src/Wire/TcpSegment.antt =====
-- libsponge/tcp_helpers/tcp_segment: a header and its payload.
pub mod Check
pub mod RoundTrip
use nju_networking_lab.Base.{
  ℕ, ◌+◌, List, [], ◌∷◌, Option, some, ◌>>=◌, ◌==◌, if◌then◌else◌, length,
}
use nju_networking_lab.Buffer
use nju_networking_lab.Buffer.{BufferList}
use nju_networking_lab.Wire.Parser.{ParseResult, bad_checksum, parser}
use nju_networking_lab.Wire.Checksum
use nju_networking_lab.Wire.TcpHeader
use nju_networking_lab.Wire.TcpHeader.{TcpHeader}

-- The payload is given by its bytes.
pub record TcpSegment : Type 0 where
  pub header : TcpHeader
  pub payload : List ℕ

-- `TCPSegment{}`
abbrev pub blank : TcpSegment
blank = record { header = TcpHeader.blank; payload = [] }

unfoldable pub length_in_sequence_space : TcpSegment → ℕ
length_in_sequence_space seg =
    length seg.payload + (if seg.header.syn then 1 else 0) + (if seg.header.fin then 1 else 0)

-- The result, and the segment when the checksum is good.
unfoldable pub parse : List ℕ → ℕ → ParseResult × TcpSegment
parse buffer datagram_layer_checksum =
    let check = Checksum.value (Checksum.add (Checksum.checksum datagram_layer_checksum) buffer) in
    let (res, h, p) = TcpHeader.parse (parser buffer) in
    if check == 0
    then (p.error, record { header = h; payload = p.buffer })
    else (bad_checksum, blank)

-- The buffers of the serialized segment: the header with its checksum, and the payload.
unfoldable pub serialize : TcpSegment → ℕ → Option BufferList
serialize seg datagram_layer_checksum =
    TcpHeader.serialize (record (seg.header) { cksum = 0 }) >>= λ zeroed.
    (let check = Checksum.value (
        Checksum.add (Checksum.add (Checksum.checksum datagram_layer_checksum) zeroed)
          seg.payload) in
      TcpHeader.serialize (record (seg.header) { cksum = check }) >>= λ bytes.
      some (Buffer.of_string bytes ∷ Buffer.of_string seg.payload ∷ []))
