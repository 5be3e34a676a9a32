-- ===== src/Wire/Ipv4Header/Check.antt =====
-- A header with its checksum filled in verifies.
use nju_networking_lab.Base.{ℕ, ◌+◌, ◌-◌, ◌%◌, ◌/◌, ◌*◌, ◌^◌, ◌<◌, ◌≡◌, refl, arith, List, ◌++◌}
use nju_networking_lab.Base.{length, length-replicate, IsU16, false, All, All-append, IsByte}
use nju_networking_lab.Wire.Parser.{unparse_int}
use nju_networking_lab.Wire.Parser.RoundTrip.{unparse_int-bytes, replicate-bytes}
use nju_networking_lab.Wire.Checksum
use nju_networking_lab.Wire.Checksum.Verify.{packet, odd_after, value_le, checksum_verifies}
use nju_networking_lab.Wire.Ipv4Header.{Ipv4Header, fragment_word}
use nju_networking_lab.Wire.Ipv4Header.Layout.{
  first_byte, layout, options, header_bytes, with_cksum,
}

-- The bytes before the checksum, and those behind it.
front : Ipv4Header → List ℕ
front h =
    unparse_int 1 (first_byte h)
    ++ (unparse_int 1 h.tos
        ++ (unparse_int 2 h.len
            ++ (unparse_int 2 h.id
                ++ (unparse_int 2 (fragment_word h)
                    ++ (unparse_int 1 h.ttl ++ unparse_int 1 h.proto)))))

behind : Ipv4Header → List ℕ
behind h = unparse_int 4 h.src ++ (unparse_int 4 h.dst ++ options h)

header_packet :
    (h : Ipv4Header) (v : ℕ)
    → IsU16 v
    → header_bytes (with_cksum h v) ≡ packet (front h) v (behind h)
unfolding header_bytes layout front behind unparse_int fragment_word
header_packet h v small =
    let high : v / 256 ^ 1 % 256 ≡ v / 256 = omega arith in
    let low : v / 256 ^ 0 % 256 ≡ v % 256 = omega arith in rw (high, low) refl

front-even : (h : Ipv4Header) → (odd_after false (front h) ≡ false) × (length (front h) ≡ 10)
unfolding front unparse_int odd_after
front-even h = (refl, refl)

length-behind : (h : Ipv4Header) → length (behind h) ≡ 8 + (4 * h.hlen - 20)
unfolding behind unparse_int
length-behind h = omega (arith, length-replicate {A = ℕ} (4 * h.hlen - 20) 0)

front-bytes : (h : Ipv4Header) → All IsByte (front h)
unfolding front
front-bytes h = All-append IsByte _ _ (unparse_int-bytes 1 (first_byte h)) (
    All-append IsByte _ _ (unparse_int-bytes 1 h.tos) (
      All-append IsByte _ _ (unparse_int-bytes 2 h.len) (
        All-append IsByte _ _ (unparse_int-bytes 2 h.id) (
          All-append IsByte _ _ (unparse_int-bytes 2 (fragment_word h))
            (All-append IsByte _ _ (unparse_int-bytes 1 h.ttl) (unparse_int-bytes 1 h.proto))))))

behind-bytes : (h : Ipv4Header) → All IsByte (behind h)
unfolding behind
behind-bytes h =
    All-append IsByte _ _ (unparse_int-bytes 4 h.src)
      (All-append IsByte _ _ (unparse_int-bytes 4 h.dst) (replicate-bytes (4 * h.hlen - 20)))

-- The checksum that the datagram's `serialize` computes.
abbrev pub header_check : Ipv4Header → ℕ
header_check h = Checksum.value (Checksum.add (Checksum.checksum 0) (header_bytes (with_cksum h 0)))

pub header_check-IsU16 : (h : Ipv4Header) → IsU16 (header_check h)
header_check-IsU16 h =
    omega (arith, value_le (Checksum.add (Checksum.checksum 0) (header_bytes (with_cksum h 0))))

pub header_verifies :
    (h : Ipv4Header)
    → h.hlen < 16
    → Checksum.value
        (Checksum.add (Checksum.checksum 0) (header_bytes (with_cksum h (header_check h))))
      ≡ 0
header_verifies h small = rw (header_packet h 0 (omega arith)) (
    rw
      (header_packet h
        (Checksum.value (Checksum.add (Checksum.checksum 0) (packet (front h) 0 (behind h))))
        (omega
          (arith, value_le (Checksum.add (Checksum.checksum 0) (packet (front h) 0 (behind h))))))
      (checksum_verifies 0 (front h) (behind h) (front-even h).0 (front-bytes h) (behind-bytes h)
        (omega (arith, (front-even h).1, length-behind h))))
