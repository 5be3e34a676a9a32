-- ===== src/Interface/Handed.antt =====
-- What sending a datagram does to an interface, whatever it knows of the address.
use nju_networking_lab.Base.{
  ℕ, ◌≡◌, refl, inl, inr, Option, none, some, true, leb, if◌then◌else◌, Option-cases,
}
use nju_networking_lab.Wire.Ethernet.{EthernetFrame, broadcast, type_ipv4}
use nju_networking_lab.Wire.Ipv4Datagram.{Ipv4Datagram}
use nju_networking_lab.Interface.{
  CacheEntry, QueuingList, find, NetworkInterface, push_frame, send_to, send_datagram,
  send_datagram_handler,
}
use nju_networking_lab.Interface.Frames.{Sendable, Carries, Asks}
use nju_networking_lab.Interface.Resolve.{Queued, first_datagram, second_datagram_lost}

-- For an address with an entry in the cache one frame goes out, with the datagram, to the entry's
-- hardware address. Without one the datagram waits behind a request, or, if one waits already, it
-- is lost, with a request more if the last is 5 seconds old.
abbrev pub Handed :
    Option CacheEntry
    → Option QueuingList
    → Ipv4Datagram
    → ℕ
    → NetworkInterface
    → NetworkInterface
    → Type 0
Handed (some entry) q d ip i i' =
    (frame : EthernetFrame) × (i' ≡ push_frame frame i)
    × Carries i.ethernet_address entry.mac_address d frame
Handed none none d ip i i' = Queued d ip i i'
Handed none (some q) d ip i i' =
    (i'.queuing ≡ i.queuing)
    × (if leb 5000 q.time_since_last_arp_req
        then ((f : EthernetFrame) × (i' ≡ push_frame f i) × Asks true broadcast ip i f)
        else (i' ≡ i))

pub send_datagram_lem :
    (d : Ipv4Datagram) (ip : ℕ) (i : NetworkInterface)
    → Sendable d
    → (i' : NetworkInterface) × (send_datagram d ip i ≡ some i')
      × Handed (find ip i.cache) (find ip i.queuing) d ip i i'
unfolding send_datagram send_to send_datagram_handler
send_datagram_lem d ip i (bytes, run) = elim (Option-cases (find ip i.cache)) [
  | inr (entry, e) ↦
      let frame : EthernetFrame = record {
        header = record { dst = entry.mac_address; src = i.ethernet_address; type = type_ipv4 };
        payload = bytes;
      } in
      (push_frame frame i, rw (e) (rw (run) refl), rw (e) (frame, refl, (refl, run)))
  | inl e ↦ elim (Option-cases (find ip i.queuing)) [
    | inl q ↦ let (i', sent, queued) = first_datagram d ip i e q in (i', sent, rw (e, q) queued)
    | inr (q, w) ↦
        let (i', sent, same, lost) = second_datagram_lost d ip q i e w in
        (i', sent, rw (e, w) (same, lost))
  ]
]
