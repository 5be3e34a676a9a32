-- ===== src/Wire/TcpSegment/RoundTrip.antt =====
-- A TCP segment is read back from the bytes that it is written as.
use nju_networking_lab.Base.{
  ℕ, ◌+◌, ◌-◌, ◌*◌, ◌^◌, ◌≤◌, ◌≡◌, refl, ap, ◌∙◌, arith, List, [], ◌∷◌, ◌++◌, append-nil,
  append_assoc,
}
use nju_networking_lab.Base.{length, length-append, length-replicate, some, All, IsByte}
use nju_networking_lab.Buffer
use nju_networking_lab.Buffer.{BufferList}
use nju_networking_lab.Buffer.Contents.{bytes}
use nju_networking_lab.Wire.Parser.{no_error, parser}
use nju_networking_lab.Wire.Checksum
use nju_networking_lab.Wire.Checksum.{InternetChecksum, add_byte}
use nju_networking_lab.Wire.TcpHeader
use nju_networking_lab.Wire.TcpHeader.{TcpHeader, flag_byte}
use nju_networking_lab.Wire.TcpHeader.RoundTrip.{
  IsHeader, layout, options, serialize_lem, parse_lem, layout-append, length-layout,
}
use nju_networking_lab.Wire.TcpSegment.{TcpSegment, parse, serialize}
use nju_networking_lab.Wire.TcpSegment.Check.{
  with_cksum, with_cksum-IsHeader, segment_bytes, segment_check, segment_check-IsU16,
  segment_verifies, received,
}

parsed_as :
    (seg : TcpSegment) (initial : ℕ)
    → IsHeader seg.header
    → Checksum.value
        (Checksum.add (Checksum.checksum initial) (segment_bytes seg (segment_check seg initial)))
      ≡ 0
    → parse (segment_bytes seg (segment_check seg initial)) initial
      ≡ (no_error, received seg (segment_check seg initial))
unfolding parse
parsed_as seg initial v good =
    let full = with_cksum seg.header (segment_check seg initial) in
    let run : TcpHeader.parse (parser (segment_bytes seg (segment_check seg initial)))
        ≡ (no_error, full, parser seg.payload) =
      ap (λ bs. TcpHeader.parse (parser bs))
        (append_assoc (layout full []) (options full) seg.payload
          ∙ layout-append full (options full ++ seg.payload))
      ∙ parse_lem full seg.payload (with_cksum-IsHeader (segment_check-IsU16 seg initial) v) in
    rw (good, run) refl

serialized_as :
    (seg : TcpSegment) (initial : ℕ)
    → IsHeader seg.header
    → serialize seg initial
      ≡ some (
          Buffer.of_string (
            layout (with_cksum seg.header (segment_check seg initial)) []
            ++ options (with_cksum seg.header (segment_check seg initial)))
          ∷ Buffer.of_string seg.payload
          ∷ [])
unfolding serialize
serialized_as seg initial v =
    rw
      (
        serialize_lem (with_cksum seg.header 0) (with_cksum-IsHeader (omega arith) v),
        serialize_lem (with_cksum seg.header (segment_check seg initial))
            (with_cksum-IsHeader (segment_check-IsU16 seg initial) v),
      )
      refl

two_buffers : (xs ys : List ℕ) → bytes (Buffer.of_string xs ∷ Buffer.of_string ys ∷ []) ≡ xs ++ ys
unfolding bytes Buffer.str
two_buffers xs ys = ap (λ zs. xs ++ zs) (append-nil ys)

-- Every segment whose header fields are in range, whose payload is bytes, and which is at most 32
-- KiB long, is serialized without an exception, and the bytes are parsed, with the same sum for the
-- datagram's header (of at most 2 ^ 22), without an error into the same segment with its checksum
-- filled in.
pub segment-parse-serialize :
    (seg : TcpSegment) (initial : ℕ)
    → IsHeader seg.header
    → All IsByte seg.payload
    → initial ≤ 2 ^ 22
    → 4 * seg.header.doff + length seg.payload ≤ 2 ^ 15
    → (out : BufferList) × (serialize seg initial ≡ some out)
      × (parse (bytes out) initial ≡ (no_error, received seg (segment_check seg initial)))
      × (length (bytes out) ≡ 4 * seg.header.doff + length seg.payload)
segment-parse-serialize seg initial v b small short = (
  Buffer.of_string head ∷ Buffer.of_string seg.payload ∷ [],
  serialized,
  ap (λ bs. parse bs initial) all_bytes
      ∙ parsed_as seg initial v (segment_verifies seg initial v b small short),
  omega (
    arith,
    ap length all_bytes,
    length-append head seg.payload,
    length-append (layout full []) (options full),
    length-layout full,
    length-replicate {A = ℕ} (4 * seg.header.doff - 20) 0,
    v.enough,
  ),
)
  where
    full : TcpHeader
    full = with_cksum seg.header (segment_check seg initial)

    head : List ℕ
    head = layout full [] ++ options full

    serialized :
        serialize seg initial ≡ some (Buffer.of_string head ∷ Buffer.of_string seg.payload ∷ [])
    serialized = serialized_as seg initial v

    all_bytes :
        bytes (Buffer.of_string head ∷ Buffer.of_string seg.payload ∷ [])
        ≡ segment_bytes seg (segment_check seg initial)
    all_bytes = two_buffers head seg.payload
