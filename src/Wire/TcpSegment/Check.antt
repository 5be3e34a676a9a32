-- ===== src/Wire/TcpSegment/Check.antt =====
-- A segment with its checksum filled in verifies.
use nju_networking_lab.Base.{
  ℕ, ◌+◌, ◌-◌, ◌*◌, ◌/◌, ◌%◌, ◌^◌, ◌≤◌, ◌≡◌, refl, sym, ap, ◌∙◌, arith, List, [], ◌∷◌, ◌++◌,
}
use nju_networking_lab.Base.{
  length, length-append, length-replicate, false, IsU16, All, All-append, IsByte,
}
use nju_networking_lab.Wire.Parser.{unparse_int}
use nju_networking_lab.Wire.Parser.RoundTrip.{unparse_int-bytes, replicate-bytes}
use nju_networking_lab.Wire.Checksum
use nju_networking_lab.Wire.Checksum.{InternetChecksum, add_byte}
use nju_networking_lab.Wire.Checksum.Verify.{packet, odd_after, value_le, checksum_verifies}
use nju_networking_lab.Wire.TcpHeader.{TcpHeader, flag_byte}
use nju_networking_lab.Wire.TcpHeader.RoundTrip.{IsHeader, layout, options}
use nju_networking_lab.Wire.TcpSegment.{TcpSegment}

abbrev pub with_cksum : TcpHeader → ℕ → TcpHeader
with_cksum h v = record h { cksum = v }

pub with_cksum-IsHeader : {h : TcpHeader} {v : ℕ} → IsU16 v → IsHeader h → IsHeader (with_cksum h v)
with_cksum-IsHeader {h} {v} small f = record {
  sport = f.sport;
  dport = f.dport;
  seqno = f.seqno;
  ackno = f.ackno;
  enough = f.enough;
  doff = f.doff;
  win = f.win;
  cksum = small;
  uptr = f.uptr;
}

-- The bytes before the checksum, and those behind it.
front : TcpHeader → List ℕ
front h =
    unparse_int 2 h.sport
    ++ (unparse_int 2 h.dport
        ++ (unparse_int 4 h.seqno
            ++ (unparse_int 4 h.ackno
                ++ (unparse_int 1 (h.doff * 16 % 256)
                    ++ (unparse_int 1 (flag_byte h) ++ unparse_int 2 h.win)))))

behind : TcpSegment → List ℕ
behind seg = unparse_int 2 seg.header.uptr ++ (options seg.header ++ seg.payload)

abbrev pub segment_bytes : TcpSegment → ℕ → List ℕ
segment_bytes seg v =
    layout (with_cksum seg.header v) [] ++ options (with_cksum seg.header v) ++ seg.payload

segment_packet :
    (seg : TcpSegment) (v : ℕ)
    → IsU16 v
    → segment_bytes seg v ≡ packet (front seg.header) v (behind seg)
unfolding layout front behind unparse_int flag_byte
segment_packet seg v small =
    let high : v / 256 ^ 1 % 256 ≡ v / 256 = omega arith in
    let low : v / 256 ^ 0 % 256 ≡ v % 256 = omega arith in rw (high, low) refl

front-even : (h : TcpHeader) → (odd_after false (front h) ≡ false) × (length (front h) ≡ 16)
unfolding front unparse_int odd_after
front-even h = (refl, refl)

length-behind :
    (seg : TcpSegment) → length (behind seg) ≡ 2 + (4 * seg.header.doff - 20) + length seg.payload
unfolding behind unparse_int
length-behind seg = omega (
  arith,
  length-append (options seg.header) seg.payload,
  length-replicate {A = ℕ} (4 * seg.header.doff - 20) 0,
)

front-bytes : (h : TcpHeader) → All IsByte (front h)
unfolding front
front-bytes h = All-append IsByte _ _ (unparse_int-bytes 2 h.sport) (
    All-append IsByte _ _ (unparse_int-bytes 2 h.dport) (
      All-append IsByte _ _ (unparse_int-bytes 4 h.seqno) (
        All-append IsByte _ _ (unparse_int-bytes 4 h.ackno) (
          All-append IsByte _ _ (unparse_int-bytes 1 (h.doff * 16 % 256)) (
            All-append IsByte _ _ (unparse_int-bytes 1 (flag_byte h))
              (unparse_int-bytes 2 h.win))))))

behind-bytes : (seg : TcpSegment) → All IsByte seg.payload → All IsByte (behind seg)
unfolding behind
behind-bytes seg b =
    All-append IsByte _ _ (unparse_int-bytes 2 seg.header.uptr)
      (All-append IsByte _ _ (replicate-bytes (4 * seg.header.doff - 20)) b)

add-append :
    (c : InternetChecksum) (xs ys : List ℕ)
    → Checksum.add c (xs ++ ys) ≡ Checksum.add (Checksum.add c xs) ys
unfolding Checksum.add
add-append c [] ys = refl
add-append c (x ∷ xs) ys = add-append (add_byte c x) xs ys

-- The checksum that `serialize` computes.
abbrev pub segment_check : TcpSegment → ℕ → ℕ
segment_check seg initial = Checksum.value (
    Checksum.add
      (Checksum.add (Checksum.checksum initial)
        (layout (with_cksum seg.header 0) [] ++ options (with_cksum seg.header 0)))
      seg.payload)

pub segment_check-IsU16 : (seg : TcpSegment) (initial : ℕ) → IsU16 (segment_check seg initial)
segment_check-IsU16 seg initial = omega (
  arith,
  value_le (
      Checksum.add
        (Checksum.add (Checksum.checksum initial)
          (layout (with_cksum seg.header 0) [] ++ options (with_cksum seg.header 0)))
        seg.payload),
)

segment_check-packet :
    (seg : TcpSegment) (initial : ℕ)
    → segment_check seg initial
      ≡ Checksum.value
          (Checksum.add (Checksum.checksum initial) (packet (front seg.header) 0 (behind seg)))
segment_check-packet seg initial =
    ap Checksum.value (sym (add-append (Checksum.checksum initial) _ seg.payload))
    ∙ ap (λ bs. Checksum.value (Checksum.add (Checksum.checksum initial) bs))
        (segment_packet seg 0 (omega arith))

pub segment_verifies :
    (seg : TcpSegment) (initial : ℕ)
    → IsHeader seg.header
    → All IsByte seg.payload
    → initial ≤ 2 ^ 22
    → 4 * seg.header.doff + length seg.payload ≤ 2 ^ 15
    → Checksum.value
        (Checksum.add (Checksum.checksum initial) (segment_bytes seg (segment_check seg initial)))
      ≡ 0
segment_verifies seg initial v b small short =
    rw
      (
        segment_packet seg (segment_check seg initial) (segment_check-IsU16 seg initial),
        segment_check-packet seg initial,
      )
      (checksum_verifies initial (front seg.header) (behind seg) (front-even seg.header).0
        (front-bytes seg.header) (behind-bytes seg b)
        (omega (arith, (front-even seg.header).1, length-behind seg, v.enough)))

-- What is read back: the checksum is filled in.
abbrev pub received : TcpSegment → ℕ → TcpSegment
received seg check = record seg { header = with_cksum seg.header check }
