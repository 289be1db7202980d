-- ===== src/Router/Start/Watch.antt =====
-- The first argument of `select` in `schedule` of IRtestWLAN/ir.cc.
use tun_video.Common.{◌≡◌, ◌⊎◌, inl, inr, arith}
use tun_video.Common.Int.{ℤ, pos, ◌+ℤ◌, ◌≤ℤ◌}
use tun_video.Router.Start.{schedule_maxfd}

-- `n` is the least number above the three descriptors.
abbrev pub Watches : ℤ → ℤ → ℤ → ℤ → Type 0
Watches a b c n =
    (a +ℤ pos 1 ≤ℤ n)
    × (b +ℤ pos 1 ≤ℤ n)
    × (c +ℤ pos 1 ≤ℤ n)
    × ((n ≡ a +ℤ pos 1) ⊎ ((n ≡ b +ℤ pos 1) ⊎ (n ≡ c +ℤ pos 1)))

pub schedule_maxfd-Watches : (a b c : ℤ) → Watches a b c (schedule_maxfd a b c)
unfolding schedule_maxfd ◌+ℤ◌
schedule_maxfd-Watches a b c = ground arith

-- No other number is.
pub Watches-schedule_maxfd : (a b c n : ℤ) → Watches a b c n → n ≡ schedule_maxfd a b c
unfolding schedule_maxfd ◌+ℤ◌
Watches-schedule_maxfd a b c n (l, m, r, inl e) = ground arith
Watches-schedule_maxfd a b c n (l, m, r, inr (inl e)) = ground arith
Watches-schedule_maxfd a b c n (l, m, r, inr (inr e)) = ground arith
