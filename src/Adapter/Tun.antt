-- ===== src/Adapter/Tun.antt =====
-- `TCPOverIPv4OverTunFdAdapter` of libsponge/tcp_helpers/tuntap_adapter: datagrams on a TUN device.
use nju_networking_lab.Base.{ℕ, List, Option, none, some, ◌>>=◌, not}
use nju_networking_lab.Base.{if◌then◌else◌}
use nju_networking_lab.Buffer.{BufferList}
use nju_networking_lab.Wire.TcpSegment.{TcpSegment}
use nju_networking_lab.Wire.Ipv4Datagram
use nju_networking_lab.Interface.{is_ok}
use nju_networking_lab.Adapter.{Address, FdAdapterBase}
use nju_networking_lab.Adapter.TcpOverIp.{unwrap_tcp_in_ip, wrap_tcp_in_ip}

-- `read`, for the bytes that the device gives.
unfoldable pub read :
    (ℕ → ℕ → Address) → List ℕ → FdAdapterBase → Option (Option TcpSegment × FdAdapterBase)
read numeric bytes a =
    let (res, ip_dgram) = Ipv4Datagram.parse bytes in
    if not (is_ok res) then some (none, a) else unwrap_tcp_in_ip numeric ip_dgram a

-- `write`: the segment with its ports, and the buffers that the device gets.
unfoldable pub write : TcpSegment → FdAdapterBase → Option (TcpSegment × BufferList)
write seg a =
    wrap_tcp_in_ip seg a.cfg >>= λ r. Ipv4Datagram.serialize r.1 >>= λ bytes. some (r.0, bytes)
