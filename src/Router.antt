-- ===== src/Router.antt =====
-- libsponge/router: longest-prefix-match forwarding between interfaces.
-- `none` is an exception, or an interface number out of range.
mod Covers
mod Longest
mod Forward
mod Tests
use Prim.Native.Nat.{bit_and}
use nju_networking_lab.Base.{
  ℕ, zero, suc, ◌+◌, ◌-◌, ◌*◌, ◌%◌, ◌^◌, List, [], ◌∷◌, ◌++◌, Bool, true, false, ◌&&◌, Option, none,
  some, ◌>>=◌,
}
use nju_networking_lab.Base.{ltb, leb, ◌==◌, if◌then◌else◌, length, get_elem?, set, u32_mod}
use nju_networking_lab.Wire.Ethernet.{EthernetFrame}
use nju_networking_lab.Wire.Ipv4Datagram.{Ipv4Datagram}
use nju_networking_lab.Interface
use nju_networking_lab.Interface.{NetworkInterface}

-- `AsyncNetworkInterface`: an interface that queues the datagrams it receives.
pub record AsyncInterface : Type 0 where
  pub interface : NetworkInterface
  pub datagrams_out : List Ipv4Datagram

enqueue : AsyncInterface → Option Ipv4Datagram → List Ipv4Datagram
enqueue a none = a.datagrams_out
enqueue a (some d) = a.datagrams_out ++ (d ∷ [])

unfoldable pub recv_frame : EthernetFrame → AsyncInterface → Option AsyncInterface
unfolding enqueue
recv_frame frame a = Interface.recv_frame frame a.interface >>= λ r.
    some (record { interface = r.1; datagrams_out = enqueue a r.0 })

-- `prefix_length` is a `uint8_t`.
pub record RouteEntry : Type 0 where
  pub route_prefix : ℕ
  pub prefix_length : ℕ
  pub next_hop : Option ℕ
  pub interface_num : ℕ

pub record Router : Type 0 where
  pub interfaces : List AsyncInterface
  pub routing_table : List RouteEntry

-- The index of the interface, and the router that has it.
unfoldable pub add_interface : AsyncInterface → Router → ℕ × Router
add_interface a r = (length r.interfaces, record r { interfaces = r.interfaces ++ (a ∷ []) })

unfoldable pub add_route : ℕ → ℕ → Option ℕ → ℕ → Router → Router
add_route prefix len next_hop num r = record r {
  routing_table =
      r.routing_table
      ++ (record {
        route_prefix = prefix;
        prefix_length = len;
        next_hop = next_hop;
        interface_num = num;
      }
          ∷ []);
}

-- `_prefix_length == 0 ? 0 : 0xffffffff << (32 - _prefix_length)` at 32 bits.
-- A length above 32 makes the shift's count negative, which is undefined in the source: the model is
-- of lengths up to 32, and the theorems ask for them.
unfoldable pub mask : ℕ → ℕ
mask len = if len == 0 then 0 else 0xffff_ffff * 2 ^ (32 - len) % u32_mod

unfoldable pub matches : ℕ → RouteEntry → Bool
unfolding mask
matches dst e = bit_and dst (mask e.prefix_length) == e.route_prefix

-- The best entry so far: `none` is `match_num == -1`, with `match_len == -1`.
abbrev longer : Option RouteEntry → RouteEntry → Bool
longer none e = true
longer (some best) e = ltb best.prefix_length e.prefix_length

-- The loop over the table.
unfoldable pub best_match : ℕ → Option RouteEntry → List RouteEntry → Option RouteEntry
best_match dst best [] = best
best_match dst best (e ∷ es) =
    best_match dst (if matches dst e && longer best e then some e else best) es

-- `_interfaces[n].send_datagram(dgram, next_hop)`
send_on : ℕ → Ipv4Datagram → ℕ → Option AsyncInterface → Router → Option Router
send_on n dgram next_hop none r = none
send_on n dgram next_hop (some a) r = Interface.send_datagram dgram next_hop a.interface >>= λ i.
    some (record r { interfaces = set r.interfaces n (record a { interface = i }) })

abbrev hop : RouteEntry → ℕ → ℕ
hop e dst = elim e.next_hop [ none ↦ dst | some a ↦ a ]

forward : Ipv4Datagram → Option RouteEntry → Router → Option Router
unfolding send_on
forward dgram none r = some r
forward dgram (some e) r =
    send_on e.interface_num
      (record dgram { header = record (dgram.header) { ttl = dgram.header.ttl - 1 } })
      (hop e dgram.header.dst) (get_elem? r.interfaces e.interface_num) r

unfoldable pub route_one_datagram : Ipv4Datagram → Router → Option Router
unfolding forward
route_one_datagram dgram r =
    if leb dgram.header.ttl 1
    then some r
    else forward dgram (best_match dgram.header.dst none r.routing_table) r

-- The queue of an interface: `route_one_datagram` touches no queue, so it is what it was.
unfoldable pub route_queue : List Ipv4Datagram → Router → Option Router
route_queue [] r = some r
route_queue (d ∷ ds) r = route_one_datagram d r >>= route_queue ds

drain : ℕ → Option AsyncInterface → Router → Option Router
drain k none r = some r
drain k (some a) r = route_queue a.datagrams_out r >>= λ r'. (elim (get_elem? r'.interfaces k) [
  | none ↦ some r'
  | some a' ↦
      some (record r' { interfaces = set r'.interfaces k (record a' { datagrams_out = [] }) })
])

-- The loop over the interfaces from index `k` on.
unfoldable pub route_from : ℕ → ℕ → Router → Option Router
unfolding drain
route_from zero k r = some r
route_from (suc n) k r = drain k (get_elem? r.interfaces k) r >>= route_from n (k + 1)

unfoldable pub route : Router → Option Router
route r = route_from (length r.interfaces) 0 r
