-- ===== src/Reassembler/Ending.antt =====
-- The end of the input: marking it touches nothing of the invariant.
use nju_networking_lab.Base.{ℕ, ◌≡◌, refl, arith}
use nju_networking_lab.Base.{Bool, true, false}
use nju_networking_lab.Stream
use nju_networking_lab.Stream.Contents
use nju_networking_lab.Reassembler.{StreamReassembler, end_if, set_end}
use nju_networking_lab.Reassembler.Chain.{}
use nju_networking_lab.Reassembler.Invariant.{IsValid, Flushed}

module _ (source : ℕ → ℕ) where
  -- Marking the end of the input touches nothing of the invariant.
  pub end_if-Flushed :
      (c : Bool) {r r' : StreamReassembler} → Flushed source r r' → Flushed source r (end_if c r')
  unfolding end_if Stream.end_input Contents.contents
  end_if-Flushed true {r} {r'} f = record {
    valid = record {
      stream = record {
        cap_fits = f.valid.stream.cap_fits;
        held = f.valid.stream.held;
        counted = f.valid.stream.counted;
      };
      same_capacity = f.valid.same_capacity;
      small = f.valid.small;
      written = f.valid.written;
      delivered = f.valid.delivered;
      chain = f.valid.chain;
      counted = f.valid.counted;
    };
    same_window = f.same_window;
    forward = f.forward;
    capacity_kept = f.capacity_kept;
    kept = f.kept;
  }
  end_if-Flushed false f = f

  pub set_end-IsValid :
      (eof : Bool) (at : ℕ) {r : StreamReassembler}
      → IsValid source r
      → Flushed source r (set_end eof at r)
  unfolding set_end
  set_end-IsValid true at {r} v = record {
    valid = record {
      stream = v.stream;
      same_capacity = v.same_capacity;
      small = v.small;
      written = v.written;
      delivered = v.delivered;
      chain = v.chain;
      counted = v.counted;
    };
    same_window = refl;
    forward = omega arith;
    capacity_kept = refl;
    kept = λ j. (λ h. h, λ h. h);
  }
  set_end-IsValid false at v = record {
    valid = v;
    same_window = refl;
    forward = omega arith;
    capacity_kept = refl;
    kept = λ j. (λ h. h, λ h. h);
  }

  pub cur-set_end : (eof : Bool) (at : ℕ) (r : StreamReassembler) → (set_end eof at r).cur ≡ r.cur
  unfolding set_end
  cur-set_end true at r = refl
  cur-set_end false at r = refl
