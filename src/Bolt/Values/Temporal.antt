-- ===== src/Bolt/Values/Temporal.antt =====
-- The dates and times of neo4j/internal/bolt/hydrator.go. time.Unix of seconds and nanoseconds is
-- `unix_secs` and `unix_nanos`; copying what its UTC calendar reads into a zone is `from_calendar`.
use neo4j_go_driver.Base.{ℕ, Option, none, some}
use neo4j_go_driver.Base.Int.{ℤ, scale, wrap64, floor_mod, ◌+ℤ◌, ◌-ℤ◌}
use neo4j_go_driver.Bolt.Values.Value.{Value, Text, offset, named}
use neo4j_go_driver.Bolt.Values.Times.{Zones, Rules, load, day_of_nanos, unix_secs, unix_nanos}
use neo4j_go_driver.Bolt.Values.Run.{Run, pure, ◌>>=◌, next_int, next_string}

-- A fixed offset is what the zone reads beyond UTC, so that its calendar reads `secs` earlier.
unfoldable pub date_time_offset : Run Value
date_time_offset = do
  seconds ← next_int
  nanos ← next_int
  off ← next_int
  pure (Value.date_time (unix_secs seconds nanos -ℤ off) (unix_nanos nanos) (offset off))

unfoldable pub utc_date_time_offset : Run Value
utc_date_time_offset = do
  seconds ← next_int
  nanos ← next_int
  off ← next_int
  pure (Value.date_time (unix_secs seconds nanos) (unix_nanos nanos) (offset off))

-- The time in a location of that name, or what says that it does not load.
abbrev pub in_location : Text → (Rules → ℤ) → ℕ → Option Rules → Value
in_location zone instant nanos none = Value.invalid_zone zone
in_location zone instant nanos (some l) = Value.date_time (instant l) nanos (named zone)

module _ (zones : Zones) where
  unfoldable pub date_time_named_zone : Run Value
  date_time_named_zone = do
    seconds ← next_int
    nanos ← next_int
    zone ← next_string
    pure (
        in_location zone (λ l. l.from_calendar (unix_secs seconds nanos)) (unix_nanos nanos)
          (load zones zone))

  unfoldable pub utc_date_time_named_zone : Run Value
  utc_date_time_named_zone = do
    secs ← next_int
    nans ← next_int
    zone ← next_string
    pure (in_location zone (λ l. unix_secs secs nans) (unix_nanos nans) (load zones zone))

  unfoldable pub local_date_time : Run Value
  local_date_time = do
    secs ← next_int
    nans ← next_int
    let at = zones.local.from_calendar (unix_secs secs nans)
    pure (Value.local_date_time (at +ℤ zones.local.offset_at at) (unix_nanos nans))

-- `days * 86400` is int64 and wraps.
unfoldable pub date : Run Value
date = do days ← next_int; pure (Value.date (wrap64 (scale 86400 days)))

-- time.Date brings the seconds and nanoseconds into the day that the clock reads.
unfoldable pub time : Run Value
time = do nans ← next_int; offs ← next_int; pure (Value.time (floor_mod nans day_of_nanos) offs)

unfoldable pub local_time : Run Value
local_time = do nans ← next_int; pure (Value.local_time (floor_mod nans day_of_nanos))

unfoldable pub duration : Run Value
duration = do
  mon ← next_int
  day ← next_int
  sec ← next_int
  nan ← next_int
  pure (Value.duration mon day sec nan)
