-- ===== src/Wire/Ipv4Datagram/RoundTrip.antt =====
-- An Internet datagram is read back from the bytes that it is written as.
use nju_networking_lab.Base.{
  ℕ, ◌+◌, ◌*◌, ◌≡◌, refl, ap, ◌∙◌, arith, List, [], ◌∷◌, ◌++◌, append-nil,
}
use nju_networking_lab.Base.{length, length-append, some, ◌==◌, true}
use nju_networking_lab.Buffer
use nju_networking_lab.Buffer.{BufferList}
use nju_networking_lab.Buffer.Contents.{bytes, bytes-append, list_size-bytes}
use nju_networking_lab.Wire.Parser.{no_error, parser}
use nju_networking_lab.Wire.Ipv4Header
use nju_networking_lab.Wire.Ipv4Header.{Ipv4Header}
use nju_networking_lab.Wire.Ipv4Header.Layout.{
  IsHeader, with_cksum, with_cksum-IsHeader, header_bytes, length-header_bytes, serialize_lem,
}
use nju_networking_lab.Wire.Ipv4Header.Check.{header_check, header_check-IsU16}
use nju_networking_lab.Wire.Ipv4Header.RoundTrip.{parse_lem}
use nju_networking_lab.Wire.Ipv4Datagram.{Ipv4Datagram, parse, serialize}

-- What is read back: the checksum is filled in, and the payload is one buffer.
abbrev pub received : Ipv4Datagram → ℕ → Ipv4Datagram
received d check = record {
  header = with_cksum d.header check;
  payload = Buffer.of_string (bytes d.payload) ∷ [];
}

payload_length_lem :
    (d : Ipv4Datagram)
    → IsHeader d.header
    → 4 * d.header.hlen + length (bytes d.payload) ≡ d.header.len
    → Ipv4Header.payload_length d.header ≡ length (bytes d.payload)
unfolding Ipv4Header.payload_length
payload_length_lem d v total = omega (arith, v.hlen, v.len)

buffer_bytes :
    (xs : List ℕ) (bs : BufferList)
    → bytes (Buffer.append (Buffer.of_string xs ∷ []) bs) ≡ xs ++ bytes bs
unfolding bytes Buffer.str
buffer_bytes xs bs =
    bytes-append (Buffer.of_string xs ∷ []) bs ∙ ap (λ ys. ys ++ bytes bs) (append-nil xs)

serialized_as :
    (d : Ipv4Datagram)
    → IsHeader d.header
    → Ipv4Header.payload_length d.header ≡ length (bytes d.payload)
    → serialize d
      ≡ some (
          Buffer.append
            (Buffer.of_string (header_bytes (with_cksum d.header (header_check d.header))) ∷ [])
            d.payload)
unfolding serialize
serialized_as d v n =
    let size : (Buffer.list_size d.payload == Ipv4Header.payload_length d.header) ≡ true =
      ground (arith, list_size-bytes d.payload, n) in
    rw
      (
        size,
        serialize_lem (with_cksum d.header 0) (with_cksum-IsHeader (omega arith) v),
        serialize_lem (with_cksum d.header (header_check d.header))
            (with_cksum-IsHeader (header_check-IsU16 d.header) v),
      )
      refl

parsed_as :
    (d : Ipv4Datagram) (check : ℕ) (head : List ℕ)
    → Ipv4Header.parse (parser (head ++ bytes d.payload))
      ≡ (no_error, with_cksum d.header check, parser (bytes d.payload))
    → Ipv4Header.payload_length d.header ≡ length (bytes d.payload)
    → parse (head ++ bytes d.payload) ≡ (no_error, received d check)
unfolding parse Ipv4Header.payload_length
parsed_as d check head run n =
    let same : (length (bytes d.payload) == Ipv4Header.payload_length (with_cksum d.header check))
        ≡ true =
      ground (arith, n) in
    rw (run) (rw (same) refl)

-- Every datagram whose header fields are in range, and whose length field says how long it is, is
-- serialized without an exception, and its bytes are parsed without an error into the same header,
-- with the checksum filled in, and the same payload.
pub datagram-parse-serialize :
    (d : Ipv4Datagram)
    → IsHeader d.header
    → 4 * d.header.hlen + length (bytes d.payload) ≡ d.header.len
    → (out : BufferList) × (serialize d ≡ some out)
      × (parse (bytes out) ≡ (no_error, received d (header_check d.header)))
      × (length (bytes out) ≡ d.header.len)
datagram-parse-serialize d v total = (
  out,
  serialized,
  ap parse all_bytes ∙ parsed,
  omega (arith, ap length all_bytes, length-append head (bytes d.payload), length-head),
)
  where
    full : Ipv4Header
    full = with_cksum d.header (header_check d.header)

    head : List ℕ
    head = header_bytes full

    length-head : length head ≡ 4 * d.header.hlen
    length-head = length-header_bytes full (with_cksum-IsHeader (header_check-IsU16 d.header) v)

    out : BufferList
    out = Buffer.append (Buffer.of_string head ∷ []) d.payload

    all_bytes : bytes out ≡ head ++ bytes d.payload
    all_bytes = buffer_bytes head d.payload

    serialized : serialize d ≡ some out
    serialized = serialized_as d v (payload_length_lem d v total)

    parsed : parse (head ++ bytes d.payload) ≡ (no_error, received d (header_check d.header))
    parsed =
        parsed_as d (header_check d.header) head (parse_lem d.header (bytes d.payload) v total)
          (payload_length_lem d v total)
