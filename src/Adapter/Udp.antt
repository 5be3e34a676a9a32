-- ===== src/Adapter/Udp.antt =====
-- `TCPOverUDPSocketAdapter` of libsponge/tcp_helpers/fd_adapter: segments in UDP payloads.
use nju_networking_lab.Base.{ℕ, List, Option, none, some, ◌>>=◌, false, not, ◌&&◌}
use nju_networking_lab.Base.{if◌then◌else◌}
use nju_networking_lab.Buffer.{BufferList}
use nju_networking_lab.Wire.TcpSegment
use nju_networking_lab.Wire.TcpSegment.{TcpSegment}
use nju_networking_lab.Interface.{is_ok}
use nju_networking_lab.Adapter.{Address, same_address, FdAdapterBase, with_ports, set_listening}

-- What `UDPSocket::recv` returns.
pub record ReceivedDatagram : Type 0 where
  pub source_address : Address
  pub payload : List ℕ

-- `read`, for the datagram that the socket receives.
unfoldable pub read : ReceivedDatagram → FdAdapterBase → Option TcpSegment × FdAdapterBase
read datagram a =
    let (res, seg) = TcpSegment.parse datagram.payload 0 in
    let targeted =
      set_listening false
        (record a { cfg = record (a.cfg) { destination = datagram.source_address } }) in
    if not a.listen && not (same_address datagram.source_address a.cfg.destination)
    then (none, a)
    else if not (is_ok res)
    then (none, a)
    else if a.listen
    then (if seg.header.syn && not seg.header.rst then (some seg, targeted) else (none, a))
    else (some seg, a)

-- `write`: the segment with its ports, and what is sent to which address.
unfoldable pub write : TcpSegment → FdAdapterBase → Option (TcpSegment × Address × BufferList)
write seg0 a =
    let seg = with_ports seg0 a.cfg in
    TcpSegment.serialize seg 0 >>= λ bytes. some (seg, a.cfg.destination, bytes)
