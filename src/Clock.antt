-- ===== src/Clock.antt =====
-- What the program takes from its clock and time zone: the current time, and the times that
-- texts of the layout 2006-01-02T15:04:05 name there, in nanoseconds. `parse_duration` is
-- time.ParseDuration, whose durations are nanoseconds too.
use ociregistry.Base.{Option, Str}
use ociregistry.Base.Int.{ℤ}

pub record Clock : Type 0 where
  pub parse_time : Str → Option ℤ
  pub parse_duration : Str → Option ℤ
  pub now : ℤ
