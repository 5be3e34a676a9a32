-- ===== src/Adapter/Tap.antt =====
-- `TCPOverIPv4OverEthernetAdapter` of libsponge/tcp_helpers/tuntap_adapter: datagrams in frames on a
-- TAP device.
use nju_networking_lab.Base.{ℕ, List, [], ◌∷◌, ◌++◌, Option, none, some, ◌>>=◌, not}
use nju_networking_lab.Base.{if◌then◌else◌}
use nju_networking_lab.Buffer.{BufferList}
use nju_networking_lab.Wire.TcpSegment.{TcpSegment}
use nju_networking_lab.Wire.Ethernet
use nju_networking_lab.Wire.Ethernet.{EthernetAddress, EthernetFrame}
use nju_networking_lab.Wire.Ipv4Datagram.{Ipv4Datagram}
use nju_networking_lab.Interface
use nju_networking_lab.Interface.{NetworkInterface, is_ok, recv_frame, send_datagram}
use nju_networking_lab.Adapter.{Address, FdAdapterBase}
use nju_networking_lab.Adapter.TcpOverIp.{unwrap_tcp_in_ip, wrap_tcp_in_ip}

-- `written` is what the device got, the oldest first.
pub record EthernetAdapter : Type 0 where
  pub base : FdAdapterBase
  pub written : List BufferList
  pub interface : NetworkInterface
  pub next_hop : Address

-- `send_pending`: the loop over the interface's frames.
serialize_all : List EthernetFrame → List BufferList
serialize_all [] = []
serialize_all (f ∷ fs) = Ethernet.serialize_frame f ∷ serialize_all fs

unfoldable pub send_pending : EthernetAdapter → EthernetAdapter
unfolding serialize_all
send_pending a = record a {
  written = a.written ++ serialize_all a.interface.frames_out;
  interface = record (a.interface) { frames_out = [] };
}

-- `EthernetFrame{}`
abbrev dummy_frame : EthernetFrame
dummy_frame = record { header = Ethernet.zero_header; payload = [] }

-- The constructor, which writes a dummy frame.
abbrev pub fresh : FdAdapterBase → EthernetAddress → ℕ → Address → EthernetAdapter
fresh base mac ip next_hop = record {
  base = base;
  written = Ethernet.serialize_frame dummy_frame ∷ [];
  interface = Interface.fresh mac ip;
  next_hop = next_hop;
}

-- The datagram that a frame carried, if it carried one.
unwrap_received :
    (ℕ → ℕ → Address)
    → Option Ipv4Datagram
    → EthernetAdapter
    → Option (Option TcpSegment × EthernetAdapter)
unwrap_received numeric none a = some (none, a)
unwrap_received numeric (some ip_dgram) a =
    unwrap_tcp_in_ip numeric ip_dgram a.base >>= λ r. some (r.0, record a { base = r.1 })

-- `read`, for the bytes that the device gives.
unfoldable pub read :
    (ℕ → ℕ → Address) → List ℕ → EthernetAdapter → Option (Option TcpSegment × EthernetAdapter)
unfolding unwrap_received
read numeric bytes a =
    let (res, frame) = Ethernet.parse_frame bytes in
    if not (is_ok res)
    then some (none, a)
    else (recv_frame frame a.interface >>= λ r.
        unwrap_received numeric r.0 (send_pending (record a { interface = r.1 })))

unfoldable pub tick : ℕ → EthernetAdapter → EthernetAdapter
tick ms a = send_pending (record a { interface = Interface.tick ms a.interface })

-- `write`: the segment with its ports, and the adapter.
unfoldable pub write : TcpSegment → EthernetAdapter → Option (TcpSegment × EthernetAdapter)
write seg a = wrap_tcp_in_ip seg a.base.cfg >>= λ r.
    send_datagram r.1 a.next_hop.ipv4_numeric a.interface >>= λ i.
    some (r.0, send_pending (record a { interface = i }))
