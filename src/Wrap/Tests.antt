-- ===== src/Wrap/Tests.antt =====
-- Runs of `wrap` and `unwrap`, and the theorems at concrete inputs.
use nju_networking_lab.Base.{◌+◌, ◌*◌, ◌^◌, ◌≤◌, ◌≡◌, refl, arith}
use nju_networking_lab.Wrap.{wrap, unwrap}
use nju_networking_lab.Wrap.RoundTrip.{wrap-unwrap, unwrap-wrap}
use nju_networking_lab.Wrap.Closest.{dist, unwrap_closest}

wraps_round : wrap (3 * 2 ^ 32 + 17) 15 ≡ 32
unfolding wrap
wraps_round = refl

unwraps_up : unwrap 1 0 0xffff_ffff ≡ 2 ^ 32 + 1
unfolding unwrap
unwraps_up = refl

-- Nothing is below 0: the result lies 2 ^ 32 higher.
unwraps_from_zero : unwrap 0xffff_ffff 0 0 ≡ 0xffff_ffff
unfolding unwrap
unwraps_from_zero = refl

wrap-unwrap_example : wrap (unwrap 5 7 1000) 7 ≡ 5
wrap-unwrap_example = wrap-unwrap 5 7 1000 (omega arith) (omega arith) (omega arith)

unwrap-wrap_example : unwrap (wrap 0x1_0000_0010 99) 99 0xffff_fff0 ≡ 0x1_0000_0010
unwrap-wrap_example =
    unwrap-wrap 0x1_0000_0010 99 0xffff_fff0 (omega arith) (omega arith) (omega arith) (omega arith)

unwrap_closest_example :
    dist (unwrap (wrap 12 99) 99 0x1_0000_0010) 0x1_0000_0010 ≤ dist 12 0x1_0000_0010
unwrap_closest_example = unwrap_closest 12 99 0x1_0000_0010 (omega arith) (omega arith)
