-- ===== src/Adapter/Accepted.antt =====
-- What an adapter over Internet datagrams hands up, connected or listening.
use nju_networking_lab.Base.{
  ℕ, ◌≡◌, refl, sym, inl, inr, arith, List, [], ◌∷◌, Option, none, some, true, false, not, ◌&&◌,
  if◌then◌else◌, ◌==◌, Bool-cases,
}
use nju_networking_lab.Buffer
use nju_networking_lab.Wire.Parser.{ParseResult}
use nju_networking_lab.Wire.TcpSegment
use nju_networking_lab.Wire.TcpSegment.{TcpSegment}
use nju_networking_lab.Wire.Ipv4Header
use nju_networking_lab.Wire.Ipv4Header.{Ipv4Header}
use nju_networking_lab.Interface.{is_ok}
use nju_networking_lab.Adapter.{Address, FdAdapterBase, set_listening}
use nju_networking_lab.Adapter.TcpOverIp.{target, accept_segment, from_peer, unwrap_tcp_in_ip}

-- The segment belongs to the connection that the adapter is in: its datagram comes from the peer's
-- address to the adapter's, and so do its ports.
pub record Belongs (ip : Ipv4Header) (seg : TcpSegment) (a : FdAdapterBase) : Type 0 where
  pub connected : a.listen ≡ false
  pub tcp : ip.proto ≡ Ipv4Header.proto_tcp
  pub dst : ip.dst ≡ a.cfg.source.ipv4_numeric
  pub src : ip.src ≡ a.cfg.destination.ipv4_numeric
  pub dport : seg.header.dport ≡ a.cfg.source.port
  pub sport : seg.header.sport ≡ a.cfg.destination.port

-- Without a segment the adapter stays as it was. A segment belongs to the adapter's connection
-- afterwards: the one it was in, or, if it was listening, the one that this SYN opens.
abbrev pub Handled : Ipv4Header → FdAdapterBase → Option TcpSegment → FdAdapterBase → Type 0
Handled ip a none a' = a' ≡ a
Handled ip a (some seg) a' =
    Belongs ip seg a'
    × (if a.listen then (seg.header.syn ≡ true) × (seg.header.rst ≡ false) else a' ≡ a)

module _ (numeric : ℕ → ℕ → Address) (same_ip : (ip port : ℕ) → (numeric ip port).ipv4_numeric ≡ ip)
    (same_port : (ip port : ℕ) → (numeric ip port).port ≡ port) where
  abbrev Done : Ipv4Header → FdAdapterBase → Option TcpSegment × FdAdapterBase → Type 0
  Done ip a r = Handled ip a r.0 r.1

  accept_connected :
      (ip : Ipv4Header) (seg : TcpSegment) (a : FdAdapterBase)
      → a.listen ≡ false
      → ip.proto ≡ Ipv4Header.proto_tcp
      → ip.dst ≡ a.cfg.source.ipv4_numeric
      → ip.src ≡ a.cfg.destination.ipv4_numeric
      → Done ip a (accept_segment numeric ip seg a)
  unfolding accept_segment from_peer
  accept_connected ip seg a off tcp dst src =
      elim (Bool-cases (seg.header.dport == a.cfg.source.port)) [
        | inr d ↦ simp (d) refl
        | inl d ↦ elim (Bool-cases (seg.header.sport == a.cfg.destination.port)) [
          | inr s ↦ simp (d, off, s) refl
          | inl s ↦
              simp (d, off, s)
                (
                  record {
                    connected = off;
                    tcp = tcp;
                    dst = dst;
                    src = src;
                    dport = ground (arith, d);
                    sport = ground (arith, s);
                  },
                  refl,
                )
        ]
      ]

  accept_listening :
      (ip : Ipv4Header) (seg : TcpSegment) (a : FdAdapterBase)
      → a.listen ≡ true
      → ip.proto ≡ Ipv4Header.proto_tcp
      → Done ip a (accept_segment numeric ip seg a)
  unfolding accept_segment from_peer target set_listening
  accept_listening ip seg a on tcp = elim (Bool-cases (seg.header.dport == a.cfg.source.port)) [
    | inr d ↦ simp (d) refl
    | inl d ↦ elim (Bool-cases (seg.header.syn && not seg.header.rst)) [
      | inr s ↦ simp (d, on, s) refl
      | inl s ↦
          let p : (seg.header.sport == (numeric ip.src seg.header.sport).port) ≡ true =
            ground (arith, same_port ip.src seg.header.sport) in
          simp (d, on, s, p)
            (
              record {
                connected = refl;
                tcp = tcp;
                dst = sym (same_ip ip.dst a.cfg.source.port);
                src = sym (same_ip ip.src seg.header.sport);
                dport = ground (arith, d, same_port ip.dst a.cfg.source.port);
                sport = sym (same_port ip.src seg.header.sport);
              },
              ground arith,
            )
    ]
  ]

  accept_lem :
      (ip : Ipv4Header) (res : ParseResult) (seg : TcpSegment) (a : FdAdapterBase)
      → ip.proto ≡ Ipv4Header.proto_tcp
      → (a.listen ≡ false
          → (ip.dst ≡ a.cfg.source.ipv4_numeric) × (ip.src ≡ a.cfg.destination.ipv4_numeric))
      → Done ip a (if not (is_ok res) then (none, a) else accept_segment numeric ip seg a)
  accept_lem ip res seg a tcp addresses = elim (Bool-cases (is_ok res)) [
    | inr e ↦ simp (e) refl
    | inl e ↦ simp (e) (elim (Bool-cases a.listen) [
      | inl on ↦ accept_listening ip seg a on tcp
      | inr off ↦ accept_connected ip seg a off tcp (addresses off).0 (addresses off).1
    ])
  ]

  -- Where `numeric` gives an address with the number and the port that it is asked for, an adapter
  -- that is given a datagram with its payload in one buffer, whatever the datagram says, never
  -- throws. It hands up no segment, and stays as it was, or a segment of its own connection, by
  -- protocol, addresses and ports: while connected, of the one that it is in, and it stays as it
  -- was; while listening, of the one that the segment, a SYN without RST, opens, and it is
  -- connected to that peer from then on.
  pub unwrap_tcp_in_ip_lem :
      (ip : Ipv4Header) (payload : List ℕ) (a : FdAdapterBase)
      → (o : Option TcpSegment) × (a' : FdAdapterBase) × (unwrap_tcp_in_ip numeric
            (record { header = ip; payload = Buffer.of_string payload ∷ [] })
            a
          ≡ some (o, a'))
        × Handled ip a o a'
  unfolding unwrap_tcp_in_ip Buffer.to_buffer Buffer.str
  unwrap_tcp_in_ip_lem ip payload a =
      let read = TcpSegment.parse payload (Ipv4Header.pseudo_cksum ip) in
      let last = if not (is_ok read.0) then (none, a) else accept_segment numeric ip read.1 a in
      elim (Bool-cases (not a.listen && not (ip.dst == a.cfg.source.ipv4_numeric))) [
        | inl d ↦ (none, a, simp (d) refl, refl)
        | inr d ↦
            elim (Bool-cases (not a.listen && not (ip.src == a.cfg.destination.ipv4_numeric))) [
              | inl s ↦ (none, a, simp (d, s) refl, refl)
              | inr s ↦ elim (Bool-cases (ip.proto == Ipv4Header.proto_tcp)) [
                | inr p ↦ (none, a, simp (d, s, p) refl, refl)
                | inl p ↦ (
                  last.0,
                  last.1,
                  simp (d, s, p) refl,
                  accept_lem ip read.0 read.1 a (ground (arith, p))
                      (λ off. (ground (arith, d, off), ground (arith, s, off))),
                )
              ]
            ]
      ]
