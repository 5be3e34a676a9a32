-- ===== src/Interface/Resolve.antt =====
-- Sending to an address that is not cached.
use nju_networking_lab.Base.{
  ℕ, ◌≡◌, refl, sym, ap, ◌∙◌, arith, List, [], ◌∷◌, ◌++◌, none, some, inl, inr,
}
use nju_networking_lab.Base.{true, false, leb, if◌then◌else◌, All, Bool-cases}
use nju_networking_lab.Wire.Ethernet.{EthernetFrame, broadcast}
use nju_networking_lab.Wire.Arp.{ArpMessage}
use nju_networking_lab.Wire.Ipv4Datagram.{Ipv4Datagram}
use nju_networking_lab.Interface.{
  QueuingList, find, put, NetworkInterface, push_frame, queue_datagram, send_to, send_datagram,
  handle_arp, send_arp, arp_message,
}
use nju_networking_lab.Interface.Maps.{find-put}
use nju_networking_lab.Interface.Frames.{Sendable, Carries, CarryAll, Asks, send_arp_lem}
use nju_networking_lab.Interface.Learn.{Learned, asked, waiting, datagrams_of, handle_arp_lem}
use mathlib.Core.Path.{subst}

-- A request went out and the datagram waits.
pub record Queued (d : Ipv4Datagram) (ip : ℕ) (i i' : NetworkInterface) : Type 0 where
  pub request : EthernetFrame
  pub asks : Asks true broadcast ip i request
  pub sent : i'.frames_out ≡ i.frames_out ++ (request ∷ [])
  pub waits :
      find ip i'.queuing ≡ some (record { time_since_last_arp_req = 0; queuing_datagrams = d ∷ [] })
  pub same_cache : i'.cache ≡ i.cache
  pub same_address : i'.ethernet_address ≡ i.ethernet_address

-- The first datagram to an unknown address always goes to the queue, behind one broadcast request.
pub first_datagram :
    (d : Ipv4Datagram) (ip : ℕ) (i : NetworkInterface)
    → find ip i.cache ≡ none
    → find ip i.queuing ≡ none
    → (i' : NetworkInterface) × (send_datagram d ip i ≡ some i') × Queued d ip i i'
unfolding send_datagram send_to queue_datagram arp_message
first_datagram d ip i no_entry no_queue = go (send_arp_lem true broadcast ip queued)
  where
    queued : NetworkInterface
    queued = record i {
      queuing =
          put ip (record { time_since_last_arp_req = 0; queuing_datagrams = d ∷ [] }) i.queuing;
    }

    go :
        ((f : EthernetFrame) × (send_arp true broadcast ip queued ≡ some (push_frame f queued))
          × Asks true broadcast ip queued f)
        → (i' : NetworkInterface) × (send_datagram d ip i ≡ some i') × Queued d ip i i'
    go (f, run, a) = (
      push_frame f queued,
      rw (no_entry, no_queue) run,
      record {
        request = f;
        asks = a;
        sent = refl;
        waits =
            find-put ip (record { time_since_last_arp_req = 0; queuing_datagrams = d ∷ [] })
              i.queuing;
        same_cache = refl;
        same_address = refl;
      },
    )

-- What a message from `ip` does to an interface where the datagram waits.
pub record Delivered (d : Ipv4Datagram) (arp : ArpMessage) (i i' : NetworkInterface) : Type 0 where
  pub frame : EthernetFrame
  pub reply : List EthernetFrame
  pub carries : Carries i.ethernet_address arp.sender_ethernet_address d frame
  pub sent : i'.frames_out ≡ (i.frames_out ++ (frame ∷ [])) ++ reply
  pub answers :
      All (Asks false arp.sender_ethernet_address arp.sender_ip_address i) reply
      × (if asked arp i then ((f : EthernetFrame) × (reply ≡ f ∷ [])) else (reply ≡ []))
  pub none_waits : find arp.sender_ip_address i'.queuing ≡ none

only_one :
    (d : Ipv4Datagram) (arp : ArpMessage) (i i' : NetworkInterface)
    (sent reply : List EthernetFrame)
    → CarryAll i.ethernet_address arp.sender_ethernet_address (d ∷ []) sent
    → i'.frames_out ≡ (i.frames_out ++ sent) ++ reply
    → All (Asks false arp.sender_ethernet_address arp.sender_ip_address i) reply
      × (if asked arp i then ((f : EthernetFrame) × (reply ≡ f ∷ [])) else (reply ≡ []))
    → find arp.sender_ip_address i'.queuing ≡ none
    → Delivered d arp i i'
only_one d arp i i' [] reply c e a n = absurd c
only_one d arp i i' (f ∷ []) reply c e a n = record {
  frame = f;
  reply = reply;
  carries = c.0;
  sent = e;
  answers = a;
  none_waits = n;
}
only_one d arp i i' (f ∷ g ∷ fs) reply c e a n = absurd (c.1)

-- A datagram that serializes, to an address that is not cached and for which nothing waits, is
-- delivered as soon as the address answers: it is queued behind a request, and any message from
-- that address sends it, once, to the hardware address that the message names. The only other frame
-- is an ARP reply, and only if the message asks for this interface's address.
pub resolve :
    (d : Ipv4Datagram) (ip : ℕ) (arp : ArpMessage) (i : NetworkInterface)
    → find ip i.cache ≡ none
    → find ip i.queuing ≡ none
    → Sendable d
    → arp.sender_ip_address ≡ ip
    → (i1 : NetworkInterface) × (i2 : NetworkInterface) × (send_datagram d ip i ≡ some i1)
      × Queued d ip i i1
      × (handle_arp arp i1 ≡ some i2)
      × Delivered d arp i1 i2
resolve d ip arp i no_entry no_queue can e = go (first_datagram d ip i no_entry no_queue)
  where
    Goal : Type 0
    Goal =
        (i1 : NetworkInterface) × (i2 : NetworkInterface) × (send_datagram d ip i ≡ some i1)
        × Queued d ip i i1
        × (handle_arp arp i1 ≡ some i2)
        × Delivered d arp i1 i2

    go : ((i' : NetworkInterface) × (send_datagram d ip i ≡ some i') × Queued d ip i i') → Goal
    go (i1, run, q) = finish (handle_arp_lem arp i1 (subst (All Sendable) (sym waits) (can, tt)))
      where
        waits : waiting arp.sender_ip_address i1 ≡ d ∷ []
        waits = ap (λ k. waiting k i1) e ∙ ap datagrams_of q.waits

        finish :
            ((i' : NetworkInterface) × (handle_arp arp i1 ≡ some i') × Learned arp i1 i') → Goal
        finish (i2, handled, l) = (
          i1,
          i2,
          run,
          q,
          handled,
          only_one d arp i1 i2 l.sent l.reply
              (subst (λ ds. CarryAll i1.ethernet_address arp.sender_ethernet_address ds l.sent)
                waits l.sent_waiting)
              l.frames l.answers (l.waits arp.sender_ip_address ∙ ground arith),
        )

-- A further datagram to an address that is not cached but waited for is lost: the call returns,
-- the queues are what they were, and the only frame, if 5 seconds have passed, is another request.
pub second_datagram_lost :
    (d : Ipv4Datagram) (ip : ℕ) (q : QueuingList) (i : NetworkInterface)
    → find ip i.cache ≡ none
    → find ip i.queuing ≡ some q
    → (i' : NetworkInterface) × (send_datagram d ip i ≡ some i')
      × (i'.queuing ≡ i.queuing)
      × (if leb 5000 q.time_since_last_arp_req
          then ((f : EthernetFrame) × (i' ≡ push_frame f i) × Asks true broadcast ip i f)
          else (i' ≡ i))
unfolding send_datagram send_to queue_datagram
second_datagram_lost d ip q i no_entry some_queue =
    elim (Bool-cases (leb 5000 q.time_since_last_arp_req)) [
      | inl t ↦ again t (send_arp_lem true broadcast ip i)
      | inr f ↦ (i, rw (no_entry, some_queue, f) refl, refl, rw (f) refl)
    ]
  where
    again :
        leb 5000 q.time_since_last_arp_req ≡ true
        → ((f : EthernetFrame) × (send_arp true broadcast ip i ≡ some (push_frame f i))
            × Asks true broadcast ip i f)
        → (i' : NetworkInterface) × (send_datagram d ip i ≡ some i')
          × (i'.queuing ≡ i.queuing)
          × (if leb 5000 q.time_since_last_arp_req
              then ((f : EthernetFrame) × (i' ≡ push_frame f i) × Asks true broadcast ip i f)
              else (i' ≡ i))
    again t (f, run, a) =
        (push_frame f i, rw (no_entry, some_queue, t) run, refl, rw (t) (f, refl, a))
