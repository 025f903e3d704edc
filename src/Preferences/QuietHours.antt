-- ===== src/Preferences/QuietHours.antt =====
-- The quiet hours of preferencesfilter.go against a window on the circle of a day.
use grnoti.Prelude.{ℕ, ◌+◌, ◌-◌, ◌*◌, ◌%◌, ◌^◌, ◌≡◌, ◌<◌, arith, ltb}
use grnoti.Preferences.{in_window}

-- A day of 24 hours, in nanoseconds.
abbrev pub day : ℕ
day = 86400 * 10 ^ 9

-- How long after `from` the clock next shows `to`.
abbrev pub until : ℕ → ℕ → ℕ
until from to = (to + day - from) % day

-- On a day of 24 hours, with all three times on it, the window has exactly the times that come
-- sooner after its start than its end does, going round past midnight; an empty window has none.
pub in_window-eq-until :
    (midnight start end now : ℕ)
    → start < day
    → end < day
    → now < day
    → in_window (midnight + start) (midnight + end) (midnight + now)
      ≡ ltb (until start now) (until start end)
unfolding in_window
in_window-eq-until midnight start end now p q r = ground arith
