-- ===== src/Wrap/Closest.antt =====
-- Which of the absolute numbers with one 32-bit form `unwrap` chooses.
use nju_networking_lab.Base.{ℕ, ◌+◌, ◌-◌, ◌^◌, ◌≤◌, ◌<◌, arith, IsU32}
use nju_networking_lab.Wrap.{wrap, unwrap}

abbrev pub dist : ℕ → ℕ → ℕ
dist a b = (a - b) + (b - a)

-- No absolute number with the same 32-bit form is nearer to the checkpoint than the result of
-- `unwrap`, for a checkpoint that is 2 ^ 31 below 2 ^ 63 at least.
pub unwrap_closest :
    (m isn checkpoint : ℕ)
    → IsU32 isn
    → checkpoint + 2 ^ 31 < 2 ^ 63
    → dist (unwrap (wrap m isn) isn checkpoint) checkpoint ≤ dist m checkpoint
unfolding wrap unwrap
unwrap_closest m isn checkpoint hi hc = ground arith
