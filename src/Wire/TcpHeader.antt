-- ===== src/Wire/TcpHeader.antt =====
-- libsponge/tcp_helpers/tcp_header: the header of a TCP segment.
-- `none` is the exception that `serialize` throws.
pub mod Flags
pub mod RoundTrip
use Prim.Native.Nat.{bit_and, bit_or}
use nju_networking_lab.Base.{
  ℕ, ◌+◌, ◌-◌, ◌*◌, ◌/◌, ◌%◌, List, [], ◌∷◌, ◌++◌, Bool, true, false, not, ◌&&◌, Option, none, some,
}
use nju_networking_lab.Base.{ltb, ◌==◌, if◌then◌else◌, length, take, replicate}
use nju_networking_lab.Wrap.{WrappingInt32}
use nju_networking_lab.Wire.Parser.{
  ParseResult, no_error, header_too_short, NetParser, has_error, u8, u16, u32, remove_prefix,
  put_u8, put_u16, put_u32,
}

abbrev pub header_length : ℕ
header_length = 20

pub record TcpHeader : Type 0 where
  pub sport : ℕ
  pub dport : ℕ
  pub seqno : WrappingInt32
  pub ackno : WrappingInt32
  pub doff : ℕ
  pub urg : Bool
  pub ack : Bool
  pub psh : Bool
  pub rst : Bool
  pub syn : Bool
  pub fin : Bool
  pub win : ℕ
  pub cksum : ℕ
  pub uptr : ℕ

-- `TCPHeader{}`
abbrev pub blank : TcpHeader
blank = record {
  sport = 0;
  dport = 0;
  seqno = 0;
  ackno = 0;
  doff = 5;
  urg = false;
  ack = false;
  psh = false;
  rst = false;
  syn = false;
  fin = false;
  win = 0;
  cksum = 0;
  uptr = 0;
}

-- `static_cast<bool>(fl_b & mask)`
unfoldable pub flag : ℕ → ℕ → Bool
flag fl_b mask = not (bit_and fl_b mask == 0)

-- The result, the header and the parser after it.
unfoldable pub parse : NetParser → ParseResult × TcpHeader × NetParser
parse p =
    let (sport, p1) = u16 p in
    let (dport, p2) = u16 p1 in
    let (seqno, p3) = u32 p2 in
    let (ackno, p4) = u32 p3 in
    let (off_b, p5) = u8 p4 in
    let (fl_b, p6) = u8 p5 in
    let (win, p7) = u16 p6 in
    let (cksum, p8) = u16 p7 in
    let (uptr, p9) = u16 p8 in
    let doff = off_b / 16 in
    let h : TcpHeader = record {
      sport = sport;
      dport = dport;
      seqno = seqno;
      ackno = ackno;
      doff = doff;
      urg = flag fl_b 0x20;
      ack = flag fl_b 0x10;
      psh = flag fl_b 0x08;
      rst = flag fl_b 0x04;
      syn = flag fl_b 0x02;
      fin = flag fl_b 0x01;
      win = win;
      cksum = cksum;
      uptr = uptr;
    } in
    let p10 = remove_prefix (doff * 4 - header_length) p9 in
    if ltb doff 5
    then (header_too_short, h, p9)
    else if has_error p10
    then (p10.error, h, p10)
    else (no_error, h, p10)

bit : Bool → ℕ → ℕ
bit b mask = if b then mask else 0

-- The byte of flags.
unfoldable pub flag_byte : TcpHeader → ℕ
unfolding bit
flag_byte h =
    bit_or
      (bit_or
        (bit_or (bit_or (bit_or (bit h.urg 0x20) (bit h.ack 0x10)) (bit h.psh 0x08))
          (bit h.rst 0x04))
        (bit h.syn 0x02))
      (bit h.fin 0x01)

-- `ret.resize(n)`: cut, or filled up with zero bytes.
unfoldable pub resize : ℕ → List ℕ → List ℕ
resize n s = take n s ++ replicate (n - length s) 0

unfoldable pub serialize : TcpHeader → Option (List ℕ)
serialize h =
    let s1 = put_u16 (put_u16 [] h.sport) h.dport in
    let s2 = put_u32 (put_u32 s1 h.seqno) h.ackno in
    let s3 = put_u8 (put_u8 s2 (h.doff * 16 % 256)) (flag_byte h) in
    let s4 = put_u16 (put_u16 (put_u16 s3 h.win) h.cksum) h.uptr in
    if ltb h.doff 5 then none else some (resize (4 * h.doff) s4)
