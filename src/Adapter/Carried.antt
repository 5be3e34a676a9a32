-- ===== src/Adapter/Carried.antt =====
-- What one adapter writes, the adapter at the other end reads.
use nju_networking_lab.Base.{ℕ, ◌+◌, ◌*◌, ◌^◌, ◌≤◌, ◌≡◌, refl, sym, arith, List, [], ◌∷◌}
use nju_networking_lab.Base.{length, some, ◌==◌, true, false, IsU32, All, IsByte}
use nju_networking_lab.Buffer
use nju_networking_lab.Buffer.{BufferList}
use nju_networking_lab.Buffer.Contents.{bytes}
use nju_networking_lab.Wire.Parser.{no_error}
use nju_networking_lab.Wire.TcpHeader.RoundTrip as TcpHeaders
use nju_networking_lab.Wire.TcpSegment
use nju_networking_lab.Wire.TcpSegment.{TcpSegment}
use nju_networking_lab.Wire.TcpSegment.RoundTrip.{segment-parse-serialize}
use nju_networking_lab.Wire.TcpSegment.Check.{segment_check}
use nju_networking_lab.Wire.TcpSegment.Check as Segments
use nju_networking_lab.Wire.Ipv4Header
use nju_networking_lab.Wire.Ipv4Header.{Ipv4Header}
use nju_networking_lab.Wire.Ipv4Header.Layout as IpHeaders
use nju_networking_lab.Wire.Ipv4Header.Check.{header_check}
use nju_networking_lab.Wire.Ipv4Datagram
use nju_networking_lab.Wire.Ipv4Datagram.{Ipv4Datagram}
use nju_networking_lab.Wire.Ipv4Datagram.RoundTrip as Datagrams
use nju_networking_lab.Wire.Ipv4Datagram.RoundTrip.{datagram-parse-serialize}
use nju_networking_lab.Adapter.{Address, FdAdapterBase, FdAdapterConfig, with_ports}
use nju_networking_lab.Adapter.TcpOverIp.{
  ip_header, wrap_tcp_in_ip, unwrap_tcp_in_ip, accept_segment, from_peer,
}
use nju_networking_lab.Adapter.Tun

-- A segment that can be sent: with its ports set, its fields are in range, its payload is bytes, and
-- it is at most 32 KiB long.
pub record IsSendable (seg : TcpSegment) (cfg : FdAdapterConfig) : Type 0 where
  pub header : TcpHeaders.IsHeader (with_ports seg cfg).header
  pub payload : All IsByte seg.payload
  pub short : 4 * seg.header.doff + length seg.payload ≤ 2 ^ 15
  pub source : IsU32 cfg.source.ipv4_numeric
  pub destination : IsU32 cfg.destination.ipv4_numeric

ip_header-IsHeader :
    (seg : TcpSegment) (cfg : FdAdapterConfig)
    → IsSendable seg cfg
    → IpHeaders.IsHeader (ip_header (with_ports seg cfg) cfg)
unfolding ip_header with_ports
ip_header-IsHeader seg cfg v = record {
  ver = refl;
  enough = omega arith;
  hlen = omega arith;
  tos = omega arith;
  len = omega arith;
  id = omega arith;
  offset = omega arith;
  ttl = omega arith;
  proto = omega arith;
  cksum = omega arith;
  src = v.source;
  dst = v.destination;
}

pseudo_cksum-small :
    (seg : TcpSegment) (cfg : FdAdapterConfig)
    → IsSendable seg cfg
    → Ipv4Header.pseudo_cksum (ip_header (with_ports seg cfg) cfg) ≤ 2 ^ 22
unfolding Ipv4Header.pseudo_cksum Ipv4Header.payload_length ip_header with_ports
pseudo_cksum-small seg cfg v = omega (arith, v.source, v.destination)

-- Adapters at the two ends: the one's source is the other's destination.
pub record Faces (a b : FdAdapterBase) : Type 0 where
  pub source_ip : b.cfg.source.ipv4_numeric ≡ a.cfg.destination.ipv4_numeric
  pub source_port : b.cfg.source.port ≡ a.cfg.destination.port
  pub destination_ip : b.cfg.destination.ipv4_numeric ≡ a.cfg.source.ipv4_numeric
  pub destination_port : b.cfg.destination.port ≡ a.cfg.source.port
  pub connected : b.listen ≡ false

-- The tests on a segment that the other end's ports were set on.
accept_segment_lem :
    (numeric : ℕ → ℕ → Address) (ip : Ipv4Header) (seg : TcpSegment) (check : ℕ)
    (a b : FdAdapterBase)
    → Faces a b
    → accept_segment numeric ip (Segments.received (with_ports seg a.cfg) check) b
      ≡ (some (Segments.received (with_ports seg a.cfg) check), b)
unfolding accept_segment from_peer with_ports
accept_segment_lem numeric ip seg check a b f =
    let d : (a.cfg.destination.port == b.cfg.source.port) ≡ true = ground (arith, f.source_port) in
    let s : (a.cfg.source.port == b.cfg.destination.port) ≡ true =
      ground (arith, f.destination_port) in
    simp (d, s, f.connected) refl

-- A datagram from the peer, with one segment that is parsed and accepted.
unwrap_lem :
    (numeric : ℕ → ℕ → Address) (ip : Ipv4Header) (payload : List ℕ) (seg : TcpSegment)
    (b : FdAdapterBase)
    → b.listen ≡ false
    → ip.dst ≡ b.cfg.source.ipv4_numeric
    → ip.src ≡ b.cfg.destination.ipv4_numeric
    → ip.proto ≡ Ipv4Header.proto_tcp
    → TcpSegment.parse payload (Ipv4Header.pseudo_cksum ip) ≡ (no_error, seg)
    → accept_segment numeric ip seg b ≡ (some seg, b)
    → unwrap_tcp_in_ip numeric (record { header = ip; payload = Buffer.of_string payload ∷ [] }) b
      ≡ some (some seg, b)
unfolding unwrap_tcp_in_ip Buffer.to_buffer Buffer.str
unwrap_lem numeric ip payload seg b connected dst src proto run accepted =
    let d : (ip.dst == b.cfg.source.ipv4_numeric) ≡ true = ground (arith, dst) in
    let s : (ip.src == b.cfg.destination.ipv4_numeric) ≡ true = ground (arith, src) in
    let p : (ip.proto == Ipv4Header.proto_tcp) ≡ true = ground (arith, proto) in
    simp (d, s, p, connected, run, accepted) refl

module _ (numeric : ℕ → ℕ → Address) (seg : TcpSegment) (a b : FdAdapterBase)
    (v : IsSendable seg a.cfg) (f : Faces a b) where
  sent : TcpSegment
  sent = with_ports seg a.cfg

  ip : Ipv4Header
  ip = ip_header sent a.cfg

  check : ℕ
  check = segment_check sent (Ipv4Header.pseudo_cksum ip)

  wrapped : BufferList → Ipv4Datagram
  wrapped payload = record { header = ip; payload = payload }

  total :
      (payload : BufferList)
      → length (bytes payload) ≡ 4 * seg.header.doff + length seg.payload
      → 4 * ip.hlen + length (bytes payload) ≡ ip.len
  unfolding ip ip_header sent with_ports
  total payload long = omega (arith, long, v.short)

  check_in : ℕ
  check_in = header_check ip

  received_lem :
      (payload : BufferList)
      → TcpSegment.parse (bytes payload) (Ipv4Header.pseudo_cksum ip)
        ≡ (no_error, Segments.received sent check)
      → unwrap_tcp_in_ip numeric (Datagrams.received (wrapped payload) check_in) b
        ≡ some (some (Segments.received sent check), b)
  unfolding ip ip_header sent wrapped Ipv4Header.pseudo_cksum Ipv4Header.payload_length
  received_lem payload back =
      unwrap_lem numeric (IpHeaders.with_cksum ip check_in) (bytes payload)
        (Segments.received sent check) b f.connected (sym f.source_ip) (sym f.destination_ip) refl
        back (accept_segment_lem numeric (IpHeaders.with_cksum ip check_in) seg check a b f)

  read_lem :
      (payload : BufferList) (out : List ℕ)
      → Ipv4Datagram.parse out ≡ (no_error, Datagrams.received (wrapped payload) check_in)
      → unwrap_tcp_in_ip numeric (Datagrams.received (wrapped payload) check_in) b
        ≡ some (some (Segments.received sent check), b)
      → Tun.read numeric out b ≡ some (some (Segments.received sent check), b)
  unfolding Tun.read
  read_lem payload out run unwrapped = rw (run) (rw (unwrapped) refl)

  write_lem :
      (payload out : BufferList)
      → TcpSegment.serialize sent (Ipv4Header.pseudo_cksum ip) ≡ some payload
      → Ipv4Datagram.serialize (wrapped payload) ≡ some out
      → Tun.write seg a ≡ some (sent, out)
  unfolding Tun.write wrap_tcp_in_ip ip sent wrapped
  write_lem payload out run run' = rw (run) (rw (run') refl)

  -- One segment through both adapters, given what its payload is serialized as.
  through :
      (payload : BufferList)
      → TcpSegment.serialize sent (Ipv4Header.pseudo_cksum ip) ≡ some payload
      → TcpSegment.parse (bytes payload) (Ipv4Header.pseudo_cksum ip)
        ≡ (no_error, Segments.received sent check)
      → length (bytes payload) ≡ 4 * seg.header.doff + length seg.payload
      → (out : BufferList) × (Tun.write seg a ≡ some (sent, out))
        × (Tun.read numeric (bytes out) b ≡ some (some (Segments.received sent check), b))
  unfolding ip sent wrapped check_in
  through payload run back long =
      let (out, run', back', long') =
        datagram-parse-serialize (wrapped payload) (ip_header-IsHeader seg a.cfg v)
          (total payload long) in
      (
        out,
        write_lem payload out run run',
        read_lem payload (bytes out) back' (received_lem payload back),
      )

-- Take two TUN adapters that face each other, of which the reading one is connected: the one's
-- source is the other's destination, in address and port, and the addresses are 32-bit numbers. A
-- segment whose fields, with the ports set, are in range, whose payload is bytes and which is at
-- most 32 KiB long is written without an exception, inside an Internet datagram, and from the bytes
-- of that datagram the other adapter reads the same segment, with the ports set and the checksum
-- filled in, and stays as it was.
pub read-write :
    (numeric : ℕ → ℕ → Address) (seg : TcpSegment) (a b : FdAdapterBase)
    → IsSendable seg a.cfg
    → Faces a b
    → (out : BufferList) × (check : ℕ) × (Tun.write seg a ≡ some (with_ports seg a.cfg, out))
      × (Tun.read numeric (bytes out) b
          ≡ some (some (Segments.received (with_ports seg a.cfg) check), b))
unfolding sent ip check with_ports
read-write numeric seg a b v f =
    let (payload, run, back, long) =
      segment-parse-serialize (with_ports seg a.cfg)
        (Ipv4Header.pseudo_cksum (ip_header (with_ports seg a.cfg) a.cfg)) v.header v.payload
        (pseudo_cksum-small seg a.cfg v) v.short in
    let (out, written, read) = through numeric seg a b v f payload run back long in
    (out, check numeric seg a b v f, written, read)
