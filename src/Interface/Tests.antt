-- ===== src/Interface/Tests.antt =====
-- An interface that learns an address, and the theorems at concrete inputs.
use nju_networking_lab.Base.{◌≡◌, refl, [], ◌∷◌, some, ◌>>=◌, true, leb, if◌then◌else◌}
use nju_networking_lab.Buffer
use nju_networking_lab.Wire.Ethernet.{EthernetAddress, EthernetFrame, broadcast}
use nju_networking_lab.Wire.Arp
use nju_networking_lab.Wire.Arp.{ArpMessage}
use nju_networking_lab.Wire.Ipv4Header
use nju_networking_lab.Wire.Ipv4Datagram
use nju_networking_lab.Wire.Ipv4Datagram.{Ipv4Datagram}
use nju_networking_lab.Interface.{
  QueuingList, find, NetworkInterface, fresh, push_frame, send_datagram, handle_arp, tick,
}
use nju_networking_lab.Interface.Maps.{aged, find-tick}
use nju_networking_lab.Interface.Frames.{Sendable, Asks}
use nju_networking_lab.Interface.Learn.{Learned, handle_arp_lem}
use nju_networking_lab.Interface.Resolve.{Queued, Delivered, resolve, second_datagram_lost}

abbrev mac : EthernetAddress
mac = 2 ∷ 0 ∷ 0 ∷ 0 ∷ 0 ∷ 1 ∷ []

abbrev peer : EthernetAddress
peer = 2 ∷ 0 ∷ 0 ∷ 0 ∷ 0 ∷ 2 ∷ []

-- An interface that knows no address.
abbrev start : NetworkInterface
start = fresh mac 10

-- A datagram without a payload.
abbrev dgram : Ipv4Datagram
dgram = record { header = record (Ipv4Header.blank) { len = 20; src = 10; dst = 11 }; payload = [] }

abbrev reply : ArpMessage
reply = record (Arp.blank) {
  opcode = Arp.opcode_reply;
  sender_ip_address = 11;
  sender_ethernet_address = peer;
  target_ip_address = 10;
  target_ethernet_address = mac;
}

dgram-Sendable : Sendable dgram
unfolding Ipv4Datagram.serialize Ipv4Header.serialize Ipv4Header.payload_length Buffer.list_size
dgram-Sendable = (_, refl)

resolve_example :
    (i1 : NetworkInterface) × (i2 : NetworkInterface) × (send_datagram dgram 11 start ≡ some i1)
    × Queued dgram 11 start i1
    × (handle_arp reply i1 ≡ some i2)
    × Delivered dgram reply i1 i2
unfolding find
resolve_example = resolve dgram 11 reply start refl refl dgram-Sendable refl

handle_arp_lem_example :
    (i : NetworkInterface) × (handle_arp reply start ≡ some i) × Learned reply start i
unfolding find
handle_arp_lem_example = handle_arp_lem reply start tt

-- An interface that asked for the address 11 two seconds ago.
abbrev waits : QueuingList
waits = record { time_since_last_arp_req = 2000; queuing_datagrams = dgram ∷ [] }

abbrev asking : NetworkInterface
asking = record start { queuing = (11, waits) ∷ [] }

second_datagram_lost_example :
    (i : NetworkInterface) × (send_datagram dgram 11 asking ≡ some i)
    × (i.queuing ≡ asking.queuing)
    × (if leb 5000 2000
        then ((f : EthernetFrame) × (i ≡ push_frame f asking) × Asks true broadcast 11 asking f)
        else (i ≡ asking))
unfolding find
second_datagram_lost_example = second_datagram_lost dgram 11 waits asking refl refl

-- An interface that learned the address 11 some time ago.
abbrev knows : NetworkInterface
knows = record start { cache = (11, record { time_caching = 29000; mac_address = peer }) ∷ [] }

find-tick_example : find 11 (tick 1000 knows).cache ≡ (find 11 knows.cache >>= aged 1000)
unfolding find
find-tick_example = find-tick 1000 11 knows (refl, tt)
