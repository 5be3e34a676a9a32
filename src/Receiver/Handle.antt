-- ===== src/Receiver/Handle.antt =====
-- `segment_received` on every branch.
use nju_networking_lab.Base.{ℕ, ◌+◌, ◌^◌, ◌<◌, ◌≡◌, refl, sym, ◌∙◌, inl, inr, arith}
use nju_networking_lab.Base.{
  length, IsU32, some, Bool, true, false, not, ◌&&◌, ◌||◌, if◌then◌else◌, Bool-cases,
}
use nju_networking_lab.Wrap.{WrappingInt32}
use nju_networking_lab.Wire.TcpSegment.{TcpSegment}
use nju_networking_lab.Reassembler.Invariant
use nju_networking_lab.Reassembler.Invariant.{window_end, held}
use nju_networking_lab.Receiver.{TcpReceiver, take_in, note_fin, segment_received}
use nju_networking_lab.Receiver.Accept.{IsValid, Genuine, In, Outcome, take_in_lem}

-- A test of two flags, on two of its branches.
choose_second {ℓ} :
    {A : Type ℓ} (a b : Bool) (x y z : A)
    → a ≡ true
    → b ≡ false
    → (if a then (if b then x else y) else z) ≡ y
choose_second a b x y z s t = rw (s, t) refl

choose_third {ℓ} :
    {A : Type ℓ} (a b : Bool) (x y z : A) → a ≡ false → (if a then (if b then x else y) else z) ≡ z
choose_third a b x y z s = rw (s) refl

-- The handler's tests of the two SYN flags, on the branches that go on.
enters_first {ℓ} :
    {A : Type ℓ} (a b : Bool) (x y z : A)
    → a ≡ true
    → b ≡ false
    → (if not a && not b then x else if a then (if b then x else y) else z) ≡ y
enters_first a b x y z s t = rw (s, t) refl

enters_on {ℓ} :
    {A : Type ℓ} (a b : Bool) (x y z : A)
    → a ≡ false
    → b ≡ true
    → (if not a && not b then x else if a then (if b then x else y) else z) ≡ z
enters_on a b x y z s t = rw (s, t) refl

module _ (source : ℕ → ℕ) (isn : WrappingInt32) (hi : IsU32 isn) where
  -- What is left of the handler once the SYN is known.
  note_fin_lem :
      (r : TcpReceiver) (seg : TcpSegment) (k : ℕ)
      → Invariant.IsValid source r.reassembler
      → r.reassembler.capacity ≡ r.capacity
      → r.syn ≡ true
      → r.isn ≡ isn
      → window_end r.reassembler < 2 ^ 62
      → k + length seg.payload < 2 ^ 62
      → Genuine source isn r seg k
      → (seg.header.fin && r.fin) ≡ false
      → (r' : TcpReceiver) × (note_fin r seg ≡ some r')
        × IsValid source isn r'
        × In source k seg r r'
        × (r'.syn ≡ true)
        × (r'.fin ≡ (r.fin || seg.header.fin))
  unfolding note_fin
  note_fin_lem r seg k v cap syn known small fits g first = elim (Bool-cases seg.header.fin) [
    | inl t ↦
        let f : r.fin ≡ false = ground arith in
        flagged t f
          (take_in_lem source isn hi (record r { fin = true }) seg k v cap syn known small fits g)
    | inr f ↦ plain f (take_in_lem source isn hi r seg k v cap syn known small fits g)
  ]
    where
      Goal : Type 0
      Goal =
          (r' : TcpReceiver) × (note_fin r seg ≡ some r')
          × IsValid source isn r'
          × In source k seg r r'
          × (r'.syn ≡ true)
          × (r'.fin ≡ (r.fin || seg.header.fin))

      flagged :
          seg.header.fin ≡ true
          → r.fin ≡ false
          → ((r' : TcpReceiver) × (take_in (record r { fin = true }) seg ≡ some r')
              × IsValid source isn r'
              × In source k seg r r'
              × (r'.syn ≡ true)
              × (r'.fin ≡ true))
          → Goal
      flagged t f (r', run, v', i, s, e) = (
        r',
        choose_second seg.header.fin r.fin (some r) (take_in (record r { fin = true }) seg)
              (take_in r seg) t f
            ∙ run,
        v',
        i,
        s,
        simp (t, f) e,
      )

      plain :
          seg.header.fin ≡ false
          → ((r' : TcpReceiver) × (take_in r seg ≡ some r')
              × IsValid source isn r'
              × In source k seg r r'
              × (r'.syn ≡ true)
              × (r'.fin ≡ r.fin))
          → Goal
      plain f (r', run, v', i, s, e) = (
        r',
        choose_third seg.header.fin r.fin (some r) (take_in (record r { fin = true }) seg)
              (take_in r seg) f
            ∙ run,
        v',
        i,
        s,
        e ∙ or_false r.fin seg.header.fin f,
      )
        where
          or_false : (a b : Bool) → b ≡ false → a ≡ (a || b)
          or_false true b h = refl
          or_false false b h = sym h

  -- A segment of the peer's stream, numbered within 2 GiB of the receiver's place, never makes a
  -- valid receiver fail, while indices stay below 2 ^ 62: what it returns keeps the invariant. A
  -- segment before the SYN, a second SYN and a second FIN change nothing; of any other, exactly
  -- the bytes below the window's end are added to what the receiver has, and its flags are noted.
  pub segment_received_lem :
      (r : TcpReceiver) (seg : TcpSegment) (k : ℕ)
      → IsValid source isn r
      → window_end r.reassembler < 2 ^ 62
      → k + length seg.payload < 2 ^ 62
      → Genuine source isn r seg k
      → (r' : TcpReceiver) × (segment_received r seg ≡ some r')
        × IsValid source isn r'
        × Outcome source k seg r r'
  unfolding segment_received
  segment_received_lem r seg k v small fits g = elim (Bool-cases seg.header.syn) [
    | inl t ↦ elim (Bool-cases r.syn) [
      | inl s ↦ (r, simp (t, s) refl, v, simp (t, s) refl)
      | inr n ↦ opens t n (no_fin n)
    ]
    | inr f ↦ elim (Bool-cases r.syn) [
      | inr n ↦ (r, simp (f, n) refl, v, simp (f, n) refl)
      | inl s ↦ elim (Bool-cases (seg.header.fin && r.fin)) [
        | inl again ↦ (
          r,
          enters_on seg.header.syn r.syn (some r)
                (note_fin (record r { syn = true; isn = seg.header.seqno }) seg) (note_fin r seg) f
                s
              ∙ second again,
          v,
          simp (f, s, again) refl,
        )
        | inr first ↦
            continues f s first
              (note_fin_lem r seg k v.stream v.same_capacity s (v.isn_known s) small fits g first)
      ]
    ]
  ]
    where
      Goal : Type 0
      Goal =
          (r' : TcpReceiver) × (segment_received r seg ≡ some r')
          × IsValid source isn r'
          × Outcome source k seg r r'

      no_fin : r.syn ≡ false → r.fin ≡ false
      no_fin n = elim (Bool-cases r.fin) [
        | inl t ↦ absurd (ground (arith, v.fin_after_syn t))
        | inr f ↦ f
      ]

      second : (seg.header.fin && r.fin) ≡ true → note_fin r seg ≡ some r
      second again = ground arith

      continues :
          seg.header.syn ≡ false
          → r.syn ≡ true
          → (seg.header.fin && r.fin) ≡ false
          → ((r' : TcpReceiver) × (note_fin r seg ≡ some r')
              × IsValid source isn r'
              × In source k seg r r'
              × (r'.syn ≡ true)
              × (r'.fin ≡ (r.fin || seg.header.fin)))
          → Goal
      continues f s first (r', run, v', i, z, e) = (
        r',
        enters_on seg.header.syn r.syn (some r)
              (note_fin (record r { syn = true; isn = seg.header.seqno }) seg) (note_fin r seg) f s
            ∙ run,
        v',
        simp (f, s, first) (i, z, e),
      )

      opens : seg.header.syn ≡ true → r.syn ≡ false → r.fin ≡ false → Goal
      opens t n z = opened (
          note_fin_lem (record r { syn = true; isn = seg.header.seqno }) seg k v.stream
            v.same_capacity refl ((rw (t) at g.1).0) small fits g none_before)
        where
          none_before : (seg.header.fin && r.fin) ≡ false
          none_before = ground arith

          opened :
              ((r' : TcpReceiver) × (note_fin (record r { syn = true; isn = seg.header.seqno }) seg
                  ≡ some r')
                × IsValid source isn r'
                × In source k seg r r'
                × (r'.syn ≡ true)
                × (r'.fin ≡ (r.fin || seg.header.fin)))
              → Goal
          opened (r', run, v', i, y, e) = (
            r',
            enters_first seg.header.syn r.syn (some r)
                  (note_fin (record r { syn = true; isn = seg.header.seqno }) seg) (note_fin r seg)
                  t n
                ∙ run,
            v',
            simp (t, n, none_before) (i, y, e),
          )
