-- ===== src/Wire/TcpHeader/Flags.antt =====
-- The byte of the six flags, for all their values.
use nju_networking_lab.Base.{ℕ, ◌<◌, ◌^◌, ◌≡◌, refl, sym, arith, Bool, true, false, ◌&&◌, not, ltb}
use nju_networking_lab.Wire.TcpHeader.{TcpHeader, blank, flag, flag_byte}

same : Bool → Bool → Bool
same true b = b
same false b = not b

same-eq : (a b : Bool) → same a b ≡ true → a ≡ b
unfolding same
same-eq true b h = sym h
same-eq false true h = h
same-eq false false h = refl

-- A test of both Booleans.
both : (Bool → Bool) → Bool
both f = f true && f false

both-at : (f : Bool → Bool) (b : Bool) → both f ≡ true → f b ≡ true
unfolding both
both-at f true h = ground arith
both-at f false h = ground arith

with_flags : Bool → Bool → Bool → Bool → Bool → Bool → TcpHeader
with_flags u a p r s f = record blank { urg = u; ack = a; psh = p; rst = r; syn = s; fin = f }

read_back : Bool → Bool → Bool → Bool → Bool → Bool → Bool
read_back u a p r s f =
    let b = flag_byte (with_flags u a p r s f) in
    ltb b 256
    && same (flag b 0x20) u
    && same (flag b 0x10) a
    && same (flag b 0x08) p
    && same (flag b 0x04) r
    && same (flag b 0x02) s
    && same (flag b 0x01) f

all_read_back :
    both (λ u. both (λ a. both (λ p. both (λ r. both (λ s. both (λ f. read_back u a p r s f))))))
    ≡ true
unfolding both read_back same with_flags flag flag_byte
all_read_back = refl

-- The byte fits, and each flag is read back.
pub record ReadBack (h : TcpHeader) : Type 0 where
  pub fits : flag_byte h < 2 ^ 8
  pub urg : flag (flag_byte h) 0x20 ≡ h.urg
  pub ack : flag (flag_byte h) 0x10 ≡ h.ack
  pub psh : flag (flag_byte h) 0x08 ≡ h.psh
  pub rst : flag (flag_byte h) 0x04 ≡ h.rst
  pub syn : flag (flag_byte h) 0x02 ≡ h.syn
  pub fin : flag (flag_byte h) 0x01 ≡ h.fin

read_back_all : (u a p r s f : Bool) → read_back u a p r s f ≡ true
read_back_all u a p r s f =
    both-at (λ f. read_back u a p r s f) f
      (both-at (λ s. both (λ f. read_back u a p r s f)) s
        (both-at (λ r. both (λ s. both (λ f. read_back u a p r s f))) r
          (both-at (λ p. both (λ r. both (λ s. both (λ f. read_back u a p r s f)))) p
            (both-at (λ a. both (λ p. both (λ r. both (λ s. both (λ f. read_back u a p r s f))))) a
              (both-at
                (λ u.
                  both (λ a. both (λ p. both (λ r. both (λ s. both (λ f. read_back u a p r s f))))))
                u all_read_back)))))

and-split : (a b : Bool) → (a && b) ≡ true → (a ≡ true) × (b ≡ true)
and-split true b h = (refl, h)
and-split false b h = absurd (ground arith)

tests : TcpHeader → ℕ → Bool
tests h b =
    ltb b 256
    && same (flag b 0x20) h.urg
    && same (flag b 0x10) h.ack
    && same (flag b 0x08) h.psh
    && same (flag b 0x04) h.rst
    && same (flag b 0x02) h.syn
    && same (flag b 0x01) h.fin

read_back-tests : (h : TcpHeader) → tests h (flag_byte h) ≡ true
unfolding read_back tests flag_byte with_flags
read_back-tests h = read_back_all h.urg h.ack h.psh h.rst h.syn h.fin

pub flags-ReadBack : (h : TcpHeader) → ReadBack h
unfolding tests
flags-ReadBack h =
    let f = and-split _ _ (read_back-tests h) in
    let s = and-split _ _ f.0 in
    let r = and-split _ _ s.0 in
    let p = and-split _ _ r.0 in
    let a = and-split _ _ p.0 in
    let u = and-split (ltb (flag_byte h) 256) _ a.0 in
    record {
      fits = ground (arith, u.0);
      urg = same-eq (flag (flag_byte h) 0x20) h.urg u.1;
      ack = same-eq (flag (flag_byte h) 0x10) h.ack a.1;
      psh = same-eq (flag (flag_byte h) 0x08) h.psh p.1;
      rst = same-eq (flag (flag_byte h) 0x04) h.rst r.1;
      syn = same-eq (flag (flag_byte h) 0x02) h.syn s.1;
      fin = same-eq (flag (flag_byte h) 0x01) h.fin f.1;
    }
