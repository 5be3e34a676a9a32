-- ===== src/Interface.antt =====
-- libsponge/network_interface: IP datagrams over Ethernet, with ARP.
-- `none` is an exception. The IP address of a next hop is its 32-bit number.
mod Maps
pub mod Frames
mod Learn
mod Resolve
pub mod Handed
mod Tests
use nju_networking_lab.Base.{
  ℕ, ◌+◌, List, [], ◌∷◌, ◌++◌, Bool, true, false, not, ◌&&◌, Option, none, some, ◌>>=◌,
}
use nju_networking_lab.Base.{ltb, leb, ◌==◌, if◌then◌else◌, add64}
use nju_networking_lab.Buffer
use nju_networking_lab.Buffer.{BufferList}
use nju_networking_lab.Wire.Parser.{ParseResult, no_error}
use nju_networking_lab.Wire.Ethernet.{
  EthernetAddress, EthernetFrame, broadcast, same_address, type_arp, type_ipv4,
}
use nju_networking_lab.Wire.Arp
use nju_networking_lab.Wire.Arp.{ArpMessage}
use nju_networking_lab.Wire.Ipv4Datagram
use nju_networking_lab.Wire.Ipv4Datagram.{Ipv4Datagram}

pub record CacheEntry : Type 0 where
  pub time_caching : ℕ
  pub mac_address : EthernetAddress

pub record QueuingList : Type 0 where
  pub time_since_last_arp_req : ℕ
  pub queuing_datagrams : List Ipv4Datagram

-- A `std::map` from IP addresses, as an association list.
abbrev pub IpMap : Type 0 → Type 0
IpMap V = List (ℕ × V)

module _ {V : Type 0} where
  unfoldable pub find : ℕ → IpMap V → Option V
  find k [] = none
  find k ((j, v) ∷ m) = if j == k then some v else find k m

  -- `m[k] = v`
  unfoldable pub put : ℕ → V → IpMap V → IpMap V
  put k v [] = (k, v) ∷ []
  put k v ((j, w) ∷ m) = if j == k then (k, v) ∷ m else (j, w) ∷ put k v m

  unfoldable pub erase : ℕ → IpMap V → IpMap V
  erase k [] = []
  erase k ((j, w) ∷ m) = let rest = erase k m in if j == k then rest else (j, w) ∷ rest

pub record NetworkInterface : Type 0 where
  pub ethernet_address : EthernetAddress
  pub ip_address : ℕ
  pub frames_out : List EthernetFrame
  pub cache : IpMap CacheEntry
  pub queuing : IpMap QueuingList

-- `NetworkInterface(ethernet_address, ip_address)`
abbrev pub fresh : EthernetAddress → ℕ → NetworkInterface
fresh mac ip = record {
  ethernet_address = mac;
  ip_address = ip;
  frames_out = [];
  cache = [];
  queuing = [];
}

abbrev pub push_frame : EthernetFrame → NetworkInterface → NetworkInterface
push_frame f i = record i { frames_out = i.frames_out ++ (f ∷ []) }

unfoldable pub send_datagram_handler :
    Ipv4Datagram → EthernetAddress → NetworkInterface → Option NetworkInterface
send_datagram_handler dgram next_hop_mac i = Ipv4Datagram.serialize dgram >>= λ bytes. some (
    push_frame
      (record {
        header = record { dst = next_hop_mac; src = i.ethernet_address; type = type_ipv4 };
        payload = bytes;
      })
      i)

-- The message that `send_ARP` fills in: a request leaves the target's hardware address zero.
unfoldable pub arp_message : Bool → EthernetAddress → ℕ → NetworkInterface → ArpMessage
arp_message is_request next_hop_mac next_hop_ip i = record (Arp.blank) {
  opcode = if is_request then Arp.opcode_request else Arp.opcode_reply;
  sender_ip_address = i.ip_address;
  sender_ethernet_address = i.ethernet_address;
  target_ip_address = next_hop_ip;
  target_ethernet_address = if is_request then Arp.zero_address else next_hop_mac;
}

unfoldable pub send_arp : Bool → EthernetAddress → ℕ → NetworkInterface → Option NetworkInterface
unfolding arp_message
send_arp is_request next_hop_mac next_hop_ip i =
    Arp.serialize (arp_message is_request next_hop_mac next_hop_ip i) >>= λ bytes. some (
      push_frame
        (record {
          header = record { dst = next_hop_mac; src = i.ethernet_address; type = type_arp };
          payload = Buffer.of_string bytes ∷ [];
        })
        i)

-- A datagram for an address that is not cached. The list that the code finds for the address is
-- copied before the datagram is pushed, so the push is lost.
queue_datagram : Ipv4Datagram → ℕ → Option QueuingList → NetworkInterface → Option NetworkInterface
queue_datagram dgram next_hop none i = send_arp true broadcast next_hop (record i {
  queuing =
      put next_hop (record { time_since_last_arp_req = 0; queuing_datagrams = dgram ∷ [] })
        i.queuing;
})
queue_datagram dgram next_hop (some copy) i =
    if leb 5000 copy.time_since_last_arp_req then send_arp true broadcast next_hop i else some i

send_to : Ipv4Datagram → ℕ → Option CacheEntry → NetworkInterface → Option NetworkInterface
unfolding queue_datagram
send_to dgram next_hop none i = queue_datagram dgram next_hop (find next_hop i.queuing) i
send_to dgram next_hop (some entry) i = send_datagram_handler dgram entry.mac_address i

unfoldable pub send_datagram : Ipv4Datagram → ℕ → NetworkInterface → Option NetworkInterface
unfolding send_to
send_datagram dgram next_hop i = send_to dgram next_hop (find next_hop i.cache) i

-- The loop that sends what was queued for an address.
unfoldable pub send_all :
    List Ipv4Datagram → EthernetAddress → NetworkInterface → Option NetworkInterface
send_all [] mac i = some i
send_all (dgram ∷ dgrams) mac i = send_datagram_handler dgram mac i >>= send_all dgrams mac

clear_queue : ArpMessage → Option QueuingList → NetworkInterface → Option NetworkInterface
clear_queue arp none i = some i
clear_queue arp (some list) i =
    send_all list.queuing_datagrams arp.sender_ethernet_address i >>= λ i'.
    some (record i' { queuing = erase arp.sender_ip_address i'.queuing })

-- A message that was read without an error: learn the mapping, send what waits for it, and answer
-- a request for this interface's address.
unfoldable pub handle_arp : ArpMessage → NetworkInterface → Option NetworkInterface
unfolding clear_queue
handle_arp arp i0 =
    let i = record i0 {
      cache =
          put arp.sender_ip_address
            (record { time_caching = 0; mac_address = arp.sender_ethernet_address }) i0.cache;
    } in
    clear_queue arp (find arp.sender_ip_address i.queuing) i >>= λ i'.
    (if (arp.opcode == Arp.opcode_request) && (arp.target_ip_address == i'.ip_address)
      then send_arp false arp.sender_ethernet_address arp.sender_ip_address i'
      else some i')

abbrev pub is_ok : ParseResult → Bool
is_ok no_error = true
is_ok _ = false

receive_arp : List ℕ → NetworkInterface → Option NetworkInterface
receive_arp bytes i =
    let (res, arp) = Arp.parse bytes in if is_ok res then handle_arp arp i else some i

receive_ipv4 : List ℕ → Option Ipv4Datagram
receive_ipv4 bytes =
    let (res, dgram) = Ipv4Datagram.parse bytes in if is_ok res then some dgram else none

-- The datagram to hand up, if there is one, and the interface.
unfoldable pub recv_frame :
    EthernetFrame → NetworkInterface → Option (Option Ipv4Datagram × NetworkInterface)
unfolding receive_arp receive_ipv4
recv_frame frame i =
    let for_us = same_address frame.header.dst i.ethernet_address in
    let to_all = same_address frame.header.dst broadcast in
    if not for_us && not to_all
    then some (none, i)
    else if frame.header.type == type_arp
    then (Buffer.to_buffer frame.payload >>= λ b.
        receive_arp (Buffer.str b) i >>= λ i'. some (none, i'))
    else if frame.header.type == type_ipv4
    then (Buffer.to_buffer frame.payload >>= λ b. some (receive_ipv4 (Buffer.str b), i))
    else some (none, i)

-- The loop over the cache: entries grow older, and those of 30 seconds leave.
unfoldable pub age_cache : ℕ → IpMap CacheEntry → IpMap CacheEntry
age_cache ms [] = []
age_cache ms ((ip, e) ∷ m) =
    let rest = age_cache ms m in
    let age = add64 e.time_caching ms in
    if leb 30000 age then rest else (ip, record e { time_caching = age }) ∷ rest

unfoldable pub age_queues : ℕ → IpMap QueuingList → IpMap QueuingList
age_queues ms [] = []
age_queues ms ((ip, q) ∷ m) =
    (ip, record q { time_since_last_arp_req = add64 q.time_since_last_arp_req ms })
    ∷ age_queues ms m

unfoldable pub tick : ℕ → NetworkInterface → NetworkInterface
unfolding age_cache age_queues
tick ms i = record i { cache = age_cache ms i.cache; queuing = age_queues ms i.queuing }
