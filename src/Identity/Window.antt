-- ===== src/Identity/Window.antt =====
-- Times and windows of backend/internal/modules/identity/domain. A time is a number of nanoseconds
-- since some origin; sums of times and windows are far below the limits of Go's clock.
use project_management.Prelude.{ℕ, ◌*◌, Bool, not, Option, none, some, true, false, ltb}

abbrev pub Time : Type 0
Time = ℕ

abbrev pub second : ℕ
second = 1_000_000_000

abbrev pub hour : ℕ
hour = 3600 * second

-- `!now.Before(deadline)`, the test of the three expiries.
abbrev pub is_past : Time → Time → Bool
is_past deadline now = not (ltb now deadline)

-- Whether a stamp, a pointer in Go, is there.
abbrev pub is_set : Option Time → Bool
is_set none = false
is_set (some t) = true
