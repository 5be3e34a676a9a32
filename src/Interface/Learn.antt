-- ===== src/Interface/Learn.antt =====
-- What an ARP message does to the network interface.
use mathlib.Core.Path.{subst}
use nju_networking_lab.Base.{
  ℕ, ◌≡◌, refl, sym, ap, ◌∙◌, inl, inr, List, [], ◌∷◌, ◌++◌, append-nil, Option, none, some,
}
use nju_networking_lab.Base.{
  Bool, true, false, ◌&&◌, ◌==◌, if◌then◌else◌, All, Bool-cases, Option-cases,
}
use nju_networking_lab.Wire.Ethernet.{EthernetFrame}
use nju_networking_lab.Wire.Arp
use nju_networking_lab.Wire.Arp.{ArpMessage, supported}
use nju_networking_lab.Wire.Ipv4Datagram.{Ipv4Datagram}
use nju_networking_lab.Interface.{
  QueuingList, IpMap, find, put, erase, NetworkInterface, push_frame,
}
use nju_networking_lab.Interface.{arp_message, send_arp, send_all, clear_queue, handle_arp}
use nju_networking_lab.Interface.Maps.{find-put_if, find-erase_if, find-missing}
use nju_networking_lab.Interface.Frames.{
  Sendable, CarryAll, Asks, send_arp_lem, with_frames, send_all_lem,
}

-- The datagrams that wait for the address.
abbrev pub datagrams_of : Option QueuingList → List Ipv4Datagram
datagrams_of none = []
datagrams_of (some q) = q.queuing_datagrams

abbrev pub waiting : ℕ → NetworkInterface → List Ipv4Datagram
waiting ip i = datagrams_of (find ip i.queuing)

-- The message asks for this interface's address.
abbrev pub asked : ArpMessage → NetworkInterface → Bool
asked arp i = (arp.opcode == Arp.opcode_request) && (arp.target_ip_address == i.ip_address)

-- What the interface is after a message: the sender is cached, what waited for it is sent and waits
-- no more, a request is answered, and nothing else changed.
pub record Learned (arp : ArpMessage) (i i' : NetworkInterface) : Type 0 where
  pub caches :
      (ip : ℕ)
      → find ip i'.cache ≡ (
          if arp.sender_ip_address == ip
          then some (record { time_caching = 0; mac_address = arp.sender_ethernet_address })
          else find ip i.cache)
  pub waits :
      (ip : ℕ)
      → find ip i'.queuing ≡ (if arp.sender_ip_address == ip then none else find ip i.queuing)
  pub sent : List EthernetFrame
  pub reply : List EthernetFrame
  pub frames : i'.frames_out ≡ (i.frames_out ++ sent) ++ reply
  pub sent_waiting :
      CarryAll i.ethernet_address arp.sender_ethernet_address (waiting arp.sender_ip_address i) sent
  pub answers :
      All (Asks false arp.sender_ethernet_address arp.sender_ip_address i) reply
      × (if asked arp i then ((f : EthernetFrame) × (reply ≡ f ∷ [])) else (reply ≡ []))
  pub same_address : i'.ethernet_address ≡ i.ethernet_address
  pub same_ip : i'.ip_address ≡ i.ip_address

-- The interface once what waited is sent.
record Cleared (arp : ArpMessage) (i i' : NetworkInterface) : Type 0 where
  sent : List EthernetFrame
  queuing : IpMap QueuingList
  is : i' ≡ record i { frames_out = i.frames_out ++ sent; queuing = queuing }
  waits :
      (ip : ℕ) → find ip queuing ≡ (if arp.sender_ip_address == ip then none else find ip i.queuing)
  sent_waiting :
      CarryAll i.ethernet_address arp.sender_ethernet_address (waiting arp.sender_ip_address i) sent

clear_queue_lem :
    (arp : ArpMessage) (i : NetworkInterface)
    → All Sendable (waiting arp.sender_ip_address i)
    → (i' : NetworkInterface) × (clear_queue arp (find arp.sender_ip_address i.queuing) i ≡ some i')
      × Cleared arp i i'
unfolding clear_queue
clear_queue_lem arp i h = elim (Option-cases (find arp.sender_ip_address i.queuing)) [
  | inl e ↦ (
    i,
    rw (e) refl,
    record {
      sent = [];
      queuing = i.queuing;
      is = rw (append-nil i.frames_out) refl;
      waits = λ ip. find-missing ip arp.sender_ip_address i.queuing e;
      sent_waiting =
          subst (λ o. CarryAll i.ethernet_address arp.sender_ethernet_address (datagrams_of o) [])
            (sym e) tt;
    },
  )
  | inr (q, e) ↦ sends q e (
      send_all_lem q.queuing_datagrams arp.sender_ethernet_address i
        (subst (λ o. All Sendable (datagrams_of o)) e h))
]
  where
    sends :
        (q : QueuingList)
        → find arp.sender_ip_address i.queuing ≡ some q
        → ((fs : List EthernetFrame) × (send_all q.queuing_datagrams arp.sender_ethernet_address i
              ≡ some (with_frames i fs))
            × CarryAll i.ethernet_address arp.sender_ethernet_address q.queuing_datagrams fs)
        → (i' : NetworkInterface) × (clear_queue arp (find arp.sender_ip_address i.queuing) i
            ≡ some i')
          × Cleared arp i i'
    sends q e (fs, run, c) = (
      record (with_frames i fs) { queuing = erase arp.sender_ip_address i.queuing },
      rw (e, run) refl,
      record {
        sent = fs;
        queuing = erase arp.sender_ip_address i.queuing;
        is = refl;
        waits = λ ip. find-erase_if ip arp.sender_ip_address i.queuing;
        sent_waiting =
            subst (λ o. CarryAll i.ethernet_address arp.sender_ethernet_address (datagrams_of o) fs)
              (sym e) c;
      },
    )

abbrev learn : ArpMessage → NetworkInterface → NetworkInterface
learn arp i = record i {
  cache =
      put arp.sender_ip_address
        (record { time_caching = 0; mac_address = arp.sender_ethernet_address }) i.cache;
}

Learned-with :
    (arp : ArpMessage) (i i1 : NetworkInterface) (reply : List EthernetFrame)
    → Cleared arp (learn arp i) i1
    → All (Asks false arp.sender_ethernet_address arp.sender_ip_address i) reply
      × (if asked arp i then ((f : EthernetFrame) × (reply ≡ f ∷ [])) else (reply ≡ []))
    → Learned arp i (with_frames i1 reply)
Learned-with arp i i1 reply c a = record {
  caches = λ ip.
      ap (λ j. find ip j.cache) c.is
      ∙ find-put_if ip arp.sender_ip_address
          (record { time_caching = 0; mac_address = arp.sender_ethernet_address }) i.cache;
  waits = λ ip. ap (λ j. find ip j.queuing) c.is ∙ c.waits ip;
  sent = c.sent;
  reply = reply;
  frames = ap (λ j. j.frames_out ++ reply) c.is;
  sent_waiting = c.sent_waiting;
  answers = a;
  same_address = ap (λ j. j.ethernet_address) c.is;
  same_ip = ap (λ j. j.ip_address) c.is;
}

answer :
    (arp : ArpMessage) (i i1 : NetworkInterface)
    → Cleared arp (learn arp i) i1
    → (i' : NetworkInterface) × ((if asked arp i1
          then send_arp false arp.sender_ethernet_address arp.sender_ip_address i1
          else some i1)
        ≡ some i')
      × Learned arp i i'
unfolding arp_message
answer arp i i1 c = elim (Bool-cases (asked arp i)) [
  | inl t ↦ replies t (send_arp_lem false arp.sender_ethernet_address arp.sender_ip_address i1)
  | inr f ↦ (
    with_frames i1 [],
    rw (same_asked, f, append-nil i1.frames_out) refl,
    Learned-with arp i i1 [] c (tt, rw (f) refl),
  )
]
  where
    same_asked : asked arp i1 ≡ asked arp i
    same_asked = ap (asked arp) c.is

    replies :
        asked arp i ≡ true
        → ((f : EthernetFrame) × (send_arp false arp.sender_ethernet_address arp.sender_ip_address
                i1
              ≡ some (push_frame f i1))
            × Asks false arp.sender_ethernet_address arp.sender_ip_address i1 f)
        → (i' : NetworkInterface) × ((if asked arp i1
              then send_arp false arp.sender_ethernet_address arp.sender_ip_address i1
              else some i1)
            ≡ some i')
          × Learned arp i i'
    replies t (f, run, a) = (
      with_frames i1 (f ∷ []),
      rw (same_asked, t) run,
      Learned-with arp i i1 (f ∷ []) c (
        (subst (λ j. Asks false arp.sender_ethernet_address arp.sender_ip_address j f) c.is a, tt),
        rw (t) (f, refl),
      ),
    )

-- A message is always handled when the datagrams that wait for its sender serialize: the sender is
-- cached with age 0, what waited for it is sent to it in order and waits no more, a request for this
-- interface's address is answered to the sender with one reply, and other entries stay as they were.
pub handle_arp_lem :
    (arp : ArpMessage) (i : NetworkInterface)
    → All Sendable (waiting arp.sender_ip_address i)
    → (i' : NetworkInterface) × (handle_arp arp i ≡ some i') × Learned arp i i'
unfolding handle_arp
handle_arp_lem arp i h = go (clear_queue_lem arp (learn arp i) h)
  where
    go :
        ((i1 : NetworkInterface) × (clear_queue arp
              (find arp.sender_ip_address i.queuing)
              (learn arp i)
            ≡ some i1)
          × Cleared arp (learn arp i) i1)
        → (i' : NetworkInterface) × (handle_arp arp i ≡ some i') × Learned arp i i'
    go (i1, run, c) = finish (answer arp i i1 c)
      where
        finish :
            ((i' : NetworkInterface) × ((if asked arp i1
                  then send_arp false arp.sender_ethernet_address arp.sender_ip_address i1
                  else some i1)
                ≡ some i')
              × Learned arp i i')
            → (i' : NetworkInterface) × (handle_arp arp i ≡ some i') × Learned arp i i'
        finish (i', e, l) = (i', rw (run) e, l)
