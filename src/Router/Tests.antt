-- ===== src/Router/Tests.antt =====
-- A routing table, a router, and the theorems at a concrete input.
use nju_networking_lab.Base.{arith, All, ℕ, ◌≡◌, refl, List, [], ◌∷◌, none, some}
use nju_networking_lab.Buffer
use nju_networking_lab.Wire.Ethernet.{EthernetAddress}
use nju_networking_lab.Wire.Ipv4Header
use nju_networking_lab.Wire.Ipv4Datagram
use nju_networking_lab.Wire.Ipv4Datagram.{Ipv4Datagram}
use nju_networking_lab.Interface
use nju_networking_lab.Interface.{CacheEntry, find}
use nju_networking_lab.Interface.Frames.{Sendable}
use nju_networking_lab.Router.{
  AsyncInterface, RouteEntry, Router, mask, matches, best_match, route_one_datagram,
}
use nju_networking_lab.Router.Forward.{aged, Routed, routes}
use nju_networking_lab.Router.Covers.{IsRoute}
use nju_networking_lab.Router.Longest.{Answer, best_match_lem}

abbrev entry : ℕ → ℕ → ℕ → RouteEntry
entry prefix len num = record {
  route_prefix = prefix;
  prefix_length = len;
  next_hop = none;
  interface_num = num;
}

-- A default route, and two that are longer.
abbrev table : List RouteEntry
table = entry 0 0 0 ∷ entry 0x0a00_0000 8 1 ∷ entry 0x0a01_0000 16 2 ∷ []

finds_longest : best_match 0x0a01_0203 none table ≡ some (entry 0x0a01_0000 16 2)
unfolding best_match matches mask
finds_longest = refl

table-IsRoute : All IsRoute table
table-IsRoute = (
  record { fits = omega arith; short = omega arith; aligned = refl },
  (
    record { fits = omega arith; short = omega arith; aligned = refl },
    (record { fits = omega arith; short = omega arith; aligned = refl }, tt),
  ),
)

best_match_lem_example : Answer 0x0a01_0203 table (best_match 0x0a01_0203 none table)
best_match_lem_example = best_match_lem 0x0a01_0203 table (omega arith) table-IsRoute

-- A router with a default route, and one to 10.0.0.9, which the second interface knows.
abbrev mac : EthernetAddress
mac = 2 ∷ 0 ∷ 0 ∷ 0 ∷ 0 ∷ 1 ∷ []

abbrev known : CacheEntry
known = record { mac_address = 2 ∷ 0 ∷ 0 ∷ 0 ∷ 0 ∷ 9 ∷ []; time_caching = 0 }

abbrev outside : AsyncInterface
outside = record { interface = Interface.fresh mac 1; datagrams_out = [] }

abbrev inside : AsyncInterface
inside = record {
  interface = record (Interface.fresh mac 2) { cache = (0x0a00_0009, known) ∷ [] };
  datagrams_out = [];
}

abbrev router : Router
router = record {
  interfaces = outside ∷ inside ∷ [];
  routing_table = entry 0 0 0 ∷ record (entry 0x0a00_0000 8 1) { next_hop = some 0x0a00_0009 } ∷ [];
}

abbrev dgram : Ipv4Datagram
dgram = record {
  header = record (Ipv4Header.blank) { len = 20; ttl = 64; dst = 0x0a05_0001 };
  payload = [];
}

dgram-Sendable : Sendable (aged dgram)
unfolding Ipv4Datagram.serialize Ipv4Header.serialize Ipv4Header.payload_length Buffer.list_size
dgram-Sendable = (_, refl)

routes_example :
    (r' : Router) × (route_one_datagram dgram router ≡ some r') × Routed dgram router r'
routes_example =
    routes dgram router (omega arith)
      (
        record { fits = omega arith; short = omega arith; aligned = refl },
        (record { fits = omega arith; short = omega arith; aligned = refl }, tt),
      )
      ((outside, refl), ((inside, refl), tt)) dgram-Sendable
