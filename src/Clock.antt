-- ===== src/Clock.antt =====
-- `get_timestamp_ms` and `get_timestamp_us` of include/util.c.
use socketlab.Base.{ℕ, ◌+◌, ◌*◌, ◌^◌, List, drop}
use socketlab.Sys.{Sys, clock_gettime, pure, call, ◌>>=◌}
use socketlab.Netpackets.Ipv4.{long_at}
use socketlab.Util.Round.{timestamp_ms, timestamp_us}

-- A `long` in memory.
abbrev pub wide_at : List ℕ → ℕ
wide_at p = long_at p + long_at (drop 4 p) * 2 ^ 32

-- `struct timespec` has the seconds and the nanoseconds, each a `long`.
unfoldable pub get_timestamp_ms : Sys ℕ
get_timestamp_ms = do
  r ← call clock_gettime
  pure (timestamp_ms (wide_at r.out) (wide_at (drop 8 r.out)))

unfoldable pub get_timestamp_us : Sys ℕ
get_timestamp_us = do
  r ← call clock_gettime
  pure (timestamp_us (wide_at r.out) (wide_at (drop 8 r.out)))
