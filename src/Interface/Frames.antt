-- ===== src/Interface/Frames.antt =====
-- The frames that the network interface sends.
use nju_networking_lab.Base.{ℕ, ◌≡◌, refl, List, [], ◌∷◌, ◌++◌, append-nil, append_assoc, some}
use nju_networking_lab.Base.{Bool, true, false, All}
use nju_networking_lab.Buffer
use nju_networking_lab.Buffer.{BufferList}
use nju_networking_lab.Wire.Ethernet.{EthernetAddress, EthernetFrame, type_arp, type_ipv4}
use nju_networking_lab.Wire.Arp
use nju_networking_lab.Wire.Arp.{ArpMessage, supported}
use nju_networking_lab.Wire.Ipv4Datagram
use nju_networking_lab.Wire.Ipv4Datagram.{Ipv4Datagram}
use nju_networking_lab.Interface.{NetworkInterface, push_frame}
use nju_networking_lab.Interface.{send_datagram_handler, arp_message, send_arp, send_all}

-- A datagram that serializes without an exception.
abbrev pub Sendable : Ipv4Datagram → Type 0
Sendable d = (bytes : BufferList) × (Ipv4Datagram.serialize d ≡ some bytes)

-- The frame that carries the datagram from the address `src` to `mac`.
abbrev pub Carries : EthernetAddress → EthernetAddress → Ipv4Datagram → EthernetFrame → Type 0
Carries src mac d f =
    (f.header ≡ record { dst = mac; src = src; type = type_ipv4 })
    × (Ipv4Datagram.serialize d ≡ some f.payload)

-- One frame per datagram, in order.
abbrev pub CarryAll :
    EthernetAddress → EthernetAddress → List Ipv4Datagram → List EthernetFrame → Type 0
CarryAll src mac [] [] = Unit
CarryAll src mac [] (f ∷ fs) = ⊥
CarryAll src mac (d ∷ ds) [] = ⊥
CarryAll src mac (d ∷ ds) (f ∷ fs) = Carries src mac d f × CarryAll src mac ds fs

-- The frame that carries an ARP message of this interface.
abbrev pub Asks : Bool → EthernetAddress → ℕ → NetworkInterface → EthernetFrame → Type 0
Asks is_request mac ip i f =
    (f.header ≡ record { dst = mac; src = i.ethernet_address; type = type_arp })
    × ((bytes : List ℕ) × (Arp.serialize (arp_message is_request mac ip i) ≡ some bytes)
        × (f.payload ≡ Buffer.of_string bytes ∷ []))

arp_message-serialize :
    (q : Bool) (mac : EthernetAddress) (ip : ℕ) (i : NetworkInterface)
    → (bytes : List ℕ) × (Arp.serialize (arp_message q mac ip i) ≡ some bytes)
unfolding Arp.serialize supported arp_message
arp_message-serialize true mac ip i = (_, refl)
arp_message-serialize false mac ip i = (_, refl)

pub send_arp_lem :
    (q : Bool) (mac : EthernetAddress) (ip : ℕ) (i : NetworkInterface)
    → (f : EthernetFrame) × (send_arp q mac ip i ≡ some (push_frame f i)) × Asks q mac ip i f
unfolding send_arp
send_arp_lem q mac ip i = go (arp_message-serialize q mac ip i)
  where
    go :
        ((bytes : List ℕ) × (Arp.serialize (arp_message q mac ip i) ≡ some bytes))
        → (f : EthernetFrame) × (send_arp q mac ip i ≡ some (push_frame f i)) × Asks q mac ip i f
    go (bytes, e) = (
      record {
        header = record { dst = mac; src = i.ethernet_address; type = type_arp };
        payload = Buffer.of_string bytes ∷ [];
      },
      rw (e) refl,
      (refl, (bytes, e, refl)),
    )

abbrev pub with_frames : NetworkInterface → List EthernetFrame → NetworkInterface
with_frames i fs = record i { frames_out = i.frames_out ++ fs }

pub send_all_lem :
    (ds : List Ipv4Datagram) (mac : EthernetAddress) (i : NetworkInterface)
    → All Sendable ds
    → (fs : List EthernetFrame) × (send_all ds mac i ≡ some (with_frames i fs))
      × CarryAll i.ethernet_address mac ds fs
unfolding send_all send_datagram_handler
send_all_lem [] mac i h = ([], rw (append-nil i.frames_out) refl, tt)
send_all_lem (d ∷ ds) mac i ((bytes, e), h) = go (send_all_lem ds mac (push_frame first i) h)
  where
    first : EthernetFrame
    first = record {
      header = record { dst = mac; src = i.ethernet_address; type = type_ipv4 };
      payload = bytes;
    }

    go :
        ((fs : List EthernetFrame) × (send_all ds mac (push_frame first i)
            ≡ some (with_frames (push_frame first i) fs))
          × CarryAll i.ethernet_address mac ds fs)
        → (fs : List EthernetFrame) × (send_all (d ∷ ds) mac i ≡ some (with_frames i fs))
          × CarryAll i.ethernet_address mac (d ∷ ds) fs
    go (fs, run, c) =
        (first ∷ fs, rw (e, run, append_assoc i.frames_out (first ∷ []) fs) refl, ((refl, e), c))
