-- ===== src/Clock.antt =====
-- The parts of Go's `time` that the router uses.
use aether_serve.Base.{ℕ, ◌-◌, ◌^◌, Bool, ◌==◌, if◌then◌else◌}
use aether_serve.Base.Int.{ℤ, pos, negsuc, sub_ℕ, ltb_ℤ}

-- `time.Time`: nanoseconds since the zero Time, 1 January of year 1 UTC.
abbrev pub Time : Type 0
Time = ℕ

-- `time.Duration`: signed 64-bit nanoseconds.
abbrev pub Duration : Type 0
Duration = ℤ

abbrev pub is_zero : Time → Bool
is_zero t = t == 0

abbrev pub max_duration : Duration
max_duration = pos (2 ^ 63 - 1)

abbrev pub min_duration : Duration
min_duration = negsuc (2 ^ 63 - 1)

-- `t.Sub(u)`, which saturates.
abbrev pub saturate : ℤ → Duration
saturate d =
    if ltb_ℤ max_duration d then max_duration else if ltb_ℤ d min_duration then min_duration else d

abbrev pub sub : Time → Time → Duration
sub t u = saturate (sub_ℕ t u)
