-- ===== src/Wire/Ipv4Datagram.antt =====
-- libsponge/tcp_helpers/ipv4_datagram: a header and the buffers of its payload.
pub mod RoundTrip
use nju_networking_lab.Base.{
  ℕ, List, [], ◌∷◌, Option, none, some, ◌>>=◌, ◌==◌, if◌then◌else◌, length, not,
}
use nju_networking_lab.Buffer
use nju_networking_lab.Buffer.{BufferList}
use nju_networking_lab.Wire.Parser.{ParseResult, packet_too_short, parser}
use nju_networking_lab.Wire.Checksum
use nju_networking_lab.Wire.Ipv4Header
use nju_networking_lab.Wire.Ipv4Header.{Ipv4Header}

pub record Ipv4Datagram : Type 0 where
  pub header : Ipv4Header
  pub payload : BufferList

-- `parse`: the error that `_header.parse` returns is not looked at; what counts is the parser's.
unfoldable pub parse : List ℕ → ParseResult × Ipv4Datagram
parse buffer =
    let (res, h, p) = Ipv4Header.parse (parser buffer) in
    let d : Ipv4Datagram = record { header = h; payload = Buffer.of_string p.buffer ∷ [] } in
    if not (length p.buffer == Ipv4Header.payload_length h)
    then (packet_too_short, d)
    else (p.error, d)

-- `none` is an exception: of the size test here, or of the header.
unfoldable pub serialize : Ipv4Datagram → Option BufferList
serialize d = Ipv4Header.serialize (record (d.header) { cksum = 0 }) >>= λ zeroed.
    (let check = Checksum.value (Checksum.add (Checksum.checksum 0) zeroed) in
      let out = Ipv4Header.serialize (record (d.header) { cksum = check }) >>= λ bytes.
      some (Buffer.append (Buffer.of_string bytes ∷ []) d.payload) in
      if Buffer.list_size d.payload == Ipv4Header.payload_length d.header then out else none)
