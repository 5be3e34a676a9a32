-- ===== src/Wire/Ipv4Header/RoundTrip.antt =====
-- A header of an Internet datagram, with its checksum filled in, is read back from its bytes.
use nju_networking_lab.Base.{
  ℕ, ◌+◌, ◌-◌, ◌*◌, ◌≡◌, refl, sym, ap, ◌∙◌, arith, List, [], ◌++◌, append_assoc,
}
use nju_networking_lab.Base.{
  length, length-append, length-replicate, take, take-append_length, ltb, ◌==◌, true, false,
}
use nju_networking_lab.Wire.Parser.{parser, no_error, has_error}
use nju_networking_lab.Wire.Parser.RoundTrip.{u8_lem, u16_lem, u32_lem, remove_prefix_lem}
use nju_networking_lab.Wire.Checksum
use nju_networking_lab.Wire.Ipv4Header.{
  Ipv4Header, header_length, fragment_word, check_fields, parse,
}
use nju_networking_lab.Wire.Ipv4Header.Fields.{first_byte_lem, fragment_word-ReadBack}
use nju_networking_lab.Wire.Ipv4Header.Layout.{
  IsHeader, first_byte, from_dst, from_src, from_cksum, from_proto, from_ttl, from_fragment,
  from_id, from_len, from_tos, layout, length-layout, layout-append, options, header_bytes,
  length-header_bytes, with_cksum, with_cksum-IsHeader,
}
use nju_networking_lab.Wire.Ipv4Header.Check.{header_check, header_check-IsU16, header_verifies}

-- The tests that follow the fields are passed.
check_fields_lem :
    (h : Ipv4Header) (rest : List ℕ)
    → IsHeader h
    → 4 * h.hlen + length rest ≡ h.len
    → Checksum.value (Checksum.add (Checksum.checksum 0) (header_bytes h)) ≡ 0
    → check_fields (header_bytes h ++ rest) h (parser (options h ++ rest))
      ≡ (no_error, h, parser rest)
unfolding check_fields has_error
check_fields_lem h rest v total good =
    let n : length (header_bytes h ++ rest) ≡ h.len =
      omega (arith, length-append (header_bytes h) rest, length-header_bytes h v) in
    let long : ltb (length (header_bytes h ++ rest)) (4 * h.hlen) ≡ false = ground (arith, n) in
    let version : (h.ver == 4) ≡ true = ground (arith, v.ver) in
    let enough : ltb h.hlen 5 ≡ false = ground (arith, v.enough) in
    let whole : (length (header_bytes h ++ rest) == h.len) ≡ true = ground (arith, n) in
    let front : take (4 * h.hlen) (header_bytes h ++ rest) ≡ header_bytes h =
      ap (λ k. take k (header_bytes h ++ rest)) (sym (length-header_bytes h v))
      ∙ take-append_length (header_bytes h) rest in
    rw
      (
        long,
        version,
        enough,
        whole,
        front,
        good,
        remove_prefix_lem (h.hlen * 4 - header_length) (options h) rest
            (omega (arith, length-replicate {A = ℕ} (4 * h.hlen - 20) 0)),
      )
      refl

parse_fields :
    (h : Ipv4Header) (rest : List ℕ)
    → IsHeader h
    → ltb (length (layout h rest)) header_length ≡ false
    → parse (parser (layout h rest)) ≡ check_fields (layout h rest) h (parser rest)
unfolding parse layout
parse_fields h rest v long =
    let f = fragment_word-ReadBack h v.offset in
    let b = first_byte_lem h.ver h.hlen v.ver v.hlen in
    rw
      (
        u8_lem (first_byte h) (from_tos h rest) b.0,
        u8_lem h.tos (from_len h rest) v.tos,
        u16_lem h.len (from_id h rest) v.len,
        u16_lem h.id (from_fragment h rest) v.id,
        u16_lem (fragment_word h) (from_ttl h rest) f.fits,
        u8_lem h.ttl (from_proto h rest) v.ttl,
        u8_lem h.proto (from_cksum h rest) v.proto,
        u16_lem h.cksum (from_src h rest) v.cksum,
        u32_lem h.src (from_dst h rest) v.src,
        u32_lem h.dst rest v.dst,
        b.1,
        b.2,
        f.df,
        f.mf,
        f.offset,
        long,
      )
      refl

-- A header with its checksum, and as many bytes behind it as its length says, is read back.
pub parse_lem :
    (h : Ipv4Header) (rest : List ℕ)
    → IsHeader h
    → 4 * h.hlen + length rest ≡ h.len
    → parse (parser (header_bytes (with_cksum h (header_check h)) ++ rest))
      ≡ (no_error, with_cksum h (header_check h), parser rest)
unfolding header_bytes
parse_lem h rest v total =
    let full = with_cksum h (header_check h) in
    let v' = with_cksum-IsHeader (header_check-IsU16 h) v in
    ap (λ bs. parse (parser bs)) (joined full rest)
    ∙ parse_fields full (options full ++ rest) v' (long full (options full ++ rest))
    ∙ ap (λ bs. check_fields bs full (parser (options full ++ rest))) (sym (joined full rest))
    ∙ check_fields_lem full rest v' total (header_verifies h v.hlen)
  where
    long : (g : Ipv4Header) (xs : List ℕ) → ltb (length (layout g xs)) header_length ≡ false
    long g xs =
        ground
          (arith, ap length (layout-append g xs), length-append (layout g []) xs, length-layout g)

    joined :
        (g : Ipv4Header) (rest : List ℕ) → header_bytes g ++ rest ≡ layout g (options g ++ rest)
    joined g rest =
        append_assoc (layout g []) (options g) rest ∙ layout-append g (options g ++ rest)
