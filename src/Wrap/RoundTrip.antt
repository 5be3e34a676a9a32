-- ===== src/Wrap/RoundTrip.antt =====
-- `wrap` and `unwrap` undo each other.
use nju_networking_lab.Base.{ℕ, ◌+◌, ◌^◌, ◌≤◌, ◌<◌, ◌≡◌, arith, IsU32, u64_mod}
use nju_networking_lab.Wrap.{WrappingInt32, wrap, unwrap}

-- `unwrap` lands on an absolute number that wraps to the sequence number that it was given,
-- whatever the initial sequence number and the checkpoint.
pub wrap-unwrap :
    (n isn : WrappingInt32) (checkpoint : ℕ)
    → IsU32 n
    → IsU32 isn
    → checkpoint < u64_mod
    → wrap (unwrap n isn checkpoint) isn ≡ n
unfolding wrap unwrap
wrap-unwrap n isn checkpoint hn hi hc = ground arith

-- `unwrap` recovers every absolute number below 2 ^ 63 from its 32-bit form, if the checkpoint is
-- less than 2 ^ 31 below it or at most 2 ^ 31 above it.
pub unwrap-wrap :
    (n isn checkpoint : ℕ)
    → IsU32 isn
    → n < 2 ^ 63
    → n < checkpoint + 2 ^ 31
    → checkpoint ≤ n + 2 ^ 31
    → unwrap (wrap n isn) isn checkpoint ≡ n
unfolding wrap unwrap
unwrap-wrap n isn checkpoint hi hn lo hc = ground arith
