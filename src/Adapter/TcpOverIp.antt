-- ===== src/Adapter/TcpOverIp.antt =====
-- libsponge/tcp_helpers/tcp_over_ip: TCP segments in Internet datagrams.
-- The outer `none` is an exception.
use nju_networking_lab.Base.{ℕ, ◌+◌, ◌*◌, ◌%◌, ◌^◌, Option, none, some, ◌>>=◌, false, not, ◌&&◌}
use nju_networking_lab.Base.{◌==◌, if◌then◌else◌, length}
use nju_networking_lab.Buffer
use nju_networking_lab.Wire.TcpSegment
use nju_networking_lab.Wire.TcpSegment.{TcpSegment}
use nju_networking_lab.Wire.Ipv4Header
use nju_networking_lab.Wire.Ipv4Header.{Ipv4Header}
use nju_networking_lab.Wire.Ipv4Datagram.{Ipv4Datagram}
use nju_networking_lab.Interface.{is_ok}
use nju_networking_lab.Adapter.{Address, FdAdapterBase, FdAdapterConfig, with_ports, set_listening}

-- The last test: is the segment from the peer?
unfoldable pub from_peer : TcpSegment → FdAdapterBase → Option TcpSegment × FdAdapterBase
from_peer seg a =
    if not (seg.header.sport == a.cfg.destination.port) then (none, a) else (some seg, a)

-- `numeric ip port` is `Address{inet_ntoa({htobe32(ip)}), port}`, which the C library makes.
module _ (numeric : ℕ → ℕ → Address) where
  -- The peer of the first SYN, when the adapter is listening.
  unfoldable pub target : Ipv4Header → TcpSegment → FdAdapterBase → FdAdapterBase
  target ip seg a = set_listening false (record a {
    cfg = record (a.cfg) {
      source = numeric ip.dst a.cfg.source.port;
      destination = numeric ip.src seg.header.sport;
    };
  })

  -- The tests on a segment that was parsed without an error.
  unfoldable pub accept_segment :
      Ipv4Header → TcpSegment → FdAdapterBase → Option TcpSegment × FdAdapterBase
  accept_segment ip seg a =
      if not (seg.header.dport == a.cfg.source.port)
      then (none, a)
      else if a.listen
      then (if seg.header.syn && not seg.header.rst
          then from_peer seg (target ip seg a)
          else (none, a))
      else from_peer seg a

  unfoldable pub unwrap_tcp_in_ip :
      Ipv4Datagram → FdAdapterBase → Option (Option TcpSegment × FdAdapterBase)
  unwrap_tcp_in_ip ip_dgram a =
      let ip = ip_dgram.header in
      let parsed = Buffer.to_buffer ip_dgram.payload >>= λ b.
      (let (res, seg) = TcpSegment.parse (Buffer.str b) (Ipv4Header.pseudo_cksum ip) in
        some (if not (is_ok res) then (none, a) else accept_segment ip seg a)) in
      if not a.listen && not (ip.dst == a.cfg.source.ipv4_numeric)
      then some (none, a)
      else if not a.listen && not (ip.src == a.cfg.destination.ipv4_numeric)
      then some (none, a)
      else if not (ip.proto == Ipv4Header.proto_tcp)
      then some (none, a)
      else parsed

-- The header that `wrap_tcp_in_ip` fills in. The length is a `uint16_t`.
unfoldable pub ip_header : TcpSegment → FdAdapterConfig → Ipv4Header
ip_header seg cfg = record (Ipv4Header.blank) {
  src = cfg.source.ipv4_numeric;
  dst = cfg.destination.ipv4_numeric;
  len = (Ipv4Header.blank.hlen * 4 + seg.header.doff * 4 + length seg.payload) % 2 ^ 16;
}

-- The segment, whose ports are set, and the datagram.
unfoldable pub wrap_tcp_in_ip : TcpSegment → FdAdapterConfig → Option (TcpSegment × Ipv4Datagram)
wrap_tcp_in_ip seg0 cfg =
    let seg = with_ports seg0 cfg in
    let ip = ip_header seg cfg in
    TcpSegment.serialize seg (Ipv4Header.pseudo_cksum ip) >>= λ bytes.
    some (seg, record { header = ip; payload = bytes })
