-- ===== src/Router/Forward.antt =====
-- A datagram goes on to the next hop, or is dropped.
use nju_networking_lab.Base.{
  ℕ, zero, suc, ◌-◌, ◌≤◌, ◌<◌, ◌≡◌, ◌≢◌, ◌⊎◌, inl, inr, refl, ap, arith, List, [], ◌∷◌, ◌++◌, false,
  Option, none, some, leb, get_elem?, set, IsU32, All, All-behind, Bool-cases, Option-cases,
}
use mathlib.Core.Path.{subst}
use nju_networking_lab.Wire.Ipv4Datagram.{Ipv4Datagram}
use nju_networking_lab.Interface.{NetworkInterface, find}
use nju_networking_lab.Interface.Frames.{Sendable}
use nju_networking_lab.Interface.Handed.{Handed, send_datagram_lem}
use nju_networking_lab.Router.{
  AsyncInterface, RouteEntry, Router, best_match, hop, forward, send_on, route_one_datagram,
}
use nju_networking_lab.Router.Covers.{IsRoute, covers}
use nju_networking_lab.Router.Longest.{Longest, Answer, best_match_lem}

get_elem?-set :
    {A : Type 0} (xs : List A) (n : ℕ) (x y : A)
    → get_elem? xs n ≡ some x
    → get_elem? (set xs n y) n ≡ some y
get_elem?-set [] n x y h = absurd (ground (arith, h))
get_elem?-set (z ∷ xs) zero x y h = refl
get_elem?-set (z ∷ xs) (suc n) x y h = get_elem?-set xs n x y h

get_elem?-set_other :
    {A : Type 0} (xs : List A) (n k : ℕ) (y : A) → k ≢ n → get_elem? (set xs n y) k ≡ get_elem? xs k
get_elem?-set_other [] n k y h = refl
get_elem?-set_other (z ∷ xs) zero zero y h = absurd (h refl)
get_elem?-set_other (z ∷ xs) zero (suc k) y h = refl
get_elem?-set_other (z ∷ xs) (suc n) zero y h = refl
get_elem?-set_other (z ∷ xs) (suc n) (suc k) y h = get_elem?-set_other xs n k y (λ e. h (ap suc e))

-- The datagram as it leaves: a hop less to live.
abbrev pub aged : Ipv4Datagram → Ipv4Datagram
aged d = record d { header = record (d.header) { ttl = d.header.ttl - 1 } }

-- Where an entry sends a datagram to `dst`: to the router that it names, or, when it names none, to
-- the destination itself.
abbrev pub NextHop : Option ℕ → ℕ → ℕ → Type 0
NextHop none dst ip = ip ≡ dst
NextHop (some router) dst ip = ip ≡ router

-- The interface of the entry has been handed the datagram for the next hop; the other interfaces,
-- the queues and the routes are what they were.
pub record Forwarded (d : Ipv4Datagram) (e : RouteEntry) (r r' : Router) : Type 0 where
  pub ip : ℕ
  pub next_hop : NextHop e.next_hop d.header.dst ip
  pub before : AsyncInterface
  pub after : NetworkInterface
  pub stood : get_elem? r.interfaces e.interface_num ≡ some before
  pub handed :
      Handed
        (find ip before.interface.cache)
        (find ip before.interface.queuing)
        (aged d)
        ip
        before.interface
        after
  pub stands : get_elem? r'.interfaces e.interface_num ≡ some (record before { interface = after })
  pub others : (k : ℕ) → k ≢ e.interface_num → get_elem? r'.interfaces k ≡ get_elem? r.interfaces k
  pub same_table : r'.routing_table ≡ r.routing_table

-- What becomes of a datagram: at the end of its life, or without a route, nothing happens.
abbrev pub Routed : Ipv4Datagram → Router → Router → Type 0
Routed d r r' =
    (((d.header.ttl ≤ 1) ⊎ All (λ e. covers d.header.dst e ≡ false) r.routing_table) × (r' ≡ r))
    ⊎ ((1 < d.header.ttl)
        × ((e : RouteEntry) × Longest d.header.dst r.routing_table e × Forwarded d e r r'))

-- The interface that the entry names is there.
abbrev pub Leads : Router → RouteEntry → Type 0
Leads r e = (a : AsyncInterface) × (get_elem? r.interfaces e.interface_num ≡ some a)

hop-NextHop : (e : RouteEntry) (dst : ℕ) → NextHop e.next_hop dst (hop e dst)
hop-NextHop e dst = elim (Option-cases e.next_hop) [
  | inl n ↦ rw (n) refl
  | inr (a, n) ↦ rw (n) refl
]

forward_lem :
    (d : Ipv4Datagram) (r : Router) (e : RouteEntry) (a : AsyncInterface)
    → get_elem? r.interfaces e.interface_num ≡ some a
    → Sendable (aged d)
    → (r' : Router) × (forward d (some e) r ≡ some r') × Forwarded d e r r'
unfolding forward send_on
forward_lem d r e a stood can =
    let (i, sent, handed) = send_datagram_lem (aged d) (hop e d.header.dst) a.interface can in
    let a' : AsyncInterface = record a { interface = i } in
    (
      record r { interfaces = set r.interfaces e.interface_num a' },
      rw (stood) (rw (sent) refl),
      record {
        ip = hop e d.header.dst;
        next_hop = hop-NextHop e d.header.dst;
        before = a;
        after = i;
        stood = stood;
        handed = handed;
        stands = get_elem?-set r.interfaces e.interface_num a a' stood;
        others = λ k h. get_elem?-set_other r.interfaces e.interface_num k a' h;
        same_table = refl;
      },
    )

-- Every datagram that can be serialized is routed without a fault, when the table's routes are
-- 32-bit prefixes without a bit behind their length, of at most 32 bits, and name interfaces that
-- there are. One with no hop to live, or whose destination no route covers, is dropped and nothing
-- changes. Any other is handed, with a hop less to live, to the interface of the first of the
-- longest routes that cover its destination, for the router that the route names or for the
-- destination itself: in one frame to its hardware address, if the interface knows that, and else
-- it waits for it or is lost, as the interface does. No other interface, no queue of the router's
-- and no route changes.
pub routes :
    (d : Ipv4Datagram) (r : Router)
    → IsU32 d.header.dst
    → All IsRoute r.routing_table
    → All (Leads r) r.routing_table
    → Sendable (aged d)
    → (r' : Router) × (route_one_datagram d r ≡ some r') × Routed d r r'
unfolding route_one_datagram
routes d r small v there can = elim (Bool-cases (leb d.header.ttl 1)) [
  | inl t ↦ (r, rw (t) refl, inl (inl (ground (arith, t)), refl))
  | inr f ↦ elim (Option-cases (best_match d.header.dst none r.routing_table)) [
    | inl n ↦
        let uncovered : All (λ e. covers d.header.dst e ≡ false) r.routing_table =
          subst (Answer d.header.dst r.routing_table) n found in
        (r, rw (f, n) (unfold forward in refl), inl (inr uncovered, refl))
    | inr (e, m) ↦
        let longest : Longest d.header.dst r.routing_table e =
          subst (Answer d.header.dst r.routing_table) m found in
        let stands : All (Leads r) (longest.before ++ (e ∷ longest.after)) =
          subst (All (Leads r)) longest.stands there in
        let (a, stood) = (All-behind (Leads r) longest.before (e ∷ longest.after) stands).0 in
        let (r', run, done) = forward_lem d r e a stood can in
        (r', rw (f, m) run, inr (ground (arith, f), (e, longest, done)))
  ]
]
  where
    found : Answer d.header.dst r.routing_table (best_match d.header.dst none r.routing_table)
    found = best_match_lem d.header.dst r.routing_table small v
