-- ===== src/Wire/Ethernet/RoundTrip.antt =====
-- An Ethernet frame is read back from the bytes that it is written as.
use nju_networking_lab.Base.{
  ℕ, ◌≡◌, refl, ◌∙◌, arith, List, [], ◌∷◌, ◌++◌, append-nil, append_assoc, length, length-append,
  IsU16, ltb, false,
}
use nju_networking_lab.Buffer
use nju_networking_lab.Buffer.{BufferList}
use nju_networking_lab.Buffer.Contents
use nju_networking_lab.Wire.Parser.{no_error, parser, put_u16, unparse_int}
use nju_networking_lab.Wire.Parser.RoundTrip.{u16_lem, length-unparse_int}
use nju_networking_lab.Wire.Ethernet.{
  EthernetHeader, EthernetFrame, header_length, put_bytes, parse_header, serialize_header,
  parse_frame, serialize_frame,
}
use nju_networking_lab.Wire.Ethernet.Addresses.{IsAddress, put_bytes_lem, address_lem}

-- A header whose fields are in range.
pub record IsHeader (h : EthernetHeader) : Type 0 where
  pub dst : IsAddress h.dst
  pub src : IsAddress h.src
  pub type : IsU16 h.type

serialize_header_lem :
    (h : EthernetHeader)
    → IsHeader h
    → serialize_header h ≡ h.dst ++ (h.src ++ (unparse_int 2 h.type ++ []))
unfolding serialize_header put_u16
serialize_header_lem h v = simp (put_dst, put_src, append_assoc, append-nil) refl
  where
    put_dst : (s : List ℕ) → put_bytes s h.dst ≡ s ++ h.dst
    put_dst s = put_bytes_lem s h.dst v.dst.1

    put_src : (s : List ℕ) → put_bytes s h.src ≡ s ++ h.src
    put_src s = put_bytes_lem s h.src v.src.1

parse_header_lem :
    (h : EthernetHeader) (rest : List ℕ)
    → IsHeader h
    → parse_header (parser (h.dst ++ (h.src ++ (unparse_int 2 h.type ++ rest))))
      ≡ (no_error, h, parser rest)
unfolding parse_header
parse_header_lem h rest v =
    rw
      (
        address_lem h.dst (h.src ++ (unparse_int 2 h.type ++ rest)) v.dst,
        address_lem h.src (unparse_int 2 h.type ++ rest) v.src,
        u16_lem h.type rest v.type,
        long,
      )
      refl
  where
    long : ltb (length (h.dst ++ (h.src ++ (unparse_int 2 h.type ++ rest)))) header_length ≡ false
    long = ground (
      arith,
      length-append h.dst (h.src ++ (unparse_int 2 h.type ++ rest)),
      length-append h.src (unparse_int 2 h.type ++ rest),
      length-append (unparse_int 2 h.type) rest,
      length-unparse_int 2 h.type,
      v.dst.0,
      v.src.0,
    )

-- A frame is its header and its payload.
bytes-serialize_frame :
    (f : EthernetFrame)
    → IsHeader f.header
    → Contents.bytes (serialize_frame f)
      ≡ f.header.dst ++ (f.header.src ++ (unparse_int 2 f.header.type ++ Contents.bytes f.payload))
unfolding serialize_frame Buffer.append Contents.bytes Buffer.str
bytes-serialize_frame f v =
    Contents.bytes-append (Buffer.of_string (serialize_header f.header) ∷ []) f.payload
    ∙ simp (serialize_header_lem f.header v, append_assoc, append-nil) refl

-- Every frame with its header's fields in range is read back from the bytes that it is written as,
-- whatever buffers its payload is in: the header as it was, and the payload's bytes in one buffer.
pub frame-parse-serialize :
    (f : EthernetFrame)
    → IsHeader f.header
    → parse_frame (Contents.bytes (serialize_frame f)) ≡ (
      no_error,
      record { header = f.header; payload = Buffer.of_string (Contents.bytes f.payload) ∷ [] },
    )
unfolding parse_frame
frame-parse-serialize f v =
    rw (bytes-serialize_frame f v, parse_header_lem f.header (Contents.bytes f.payload) v) refl
