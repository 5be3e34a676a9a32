-- ===== src/Reassembler/Start.antt =====
-- The reassembler as it is constructed.
use nju_networking_lab.Base.{ℕ, ◌^◌, ◌<◌, refl, arith}
use nju_networking_lab.Stream.Contents
use nju_networking_lab.Reassembler.{fresh}
use nju_networking_lab.Buffer.Contents.{bytes}
use nju_networking_lab.Reassembler.Invariant.{IsValid}

pub fresh-IsValid :
    (source : ℕ → ℕ) (capacity : ℕ) → capacity < 2 ^ 62 → IsValid source (fresh capacity)
unfolding Contents.contents bytes
fresh-IsValid source capacity h = record {
  stream = Contents.fresh-IsValid capacity (omega arith);
  same_capacity = refl;
  small = h;
  written = omega arith;
  delivered = tt;
  chain = omega arith;
  counted = refl;
}
