-- ===== src/Bolt/Values/Times.antt =====
-- What the hydrator and the packer use of Go's time and of neo4j/internal/timezone. The rules of a
-- location come with the host: they are a parameter.
use neo4j_go_driver.Base.{
  ℕ, zero, suc, ◌+◌, ◌*◌, ◌/◌, ◌%◌, ◌||◌, Option, none, [], ◌∷◌, ltb, if◌then◌else◌,
}
use neo4j_go_driver.Base.Int.{ℤ, pos, negsuc, ◌+ℤ◌, floor_div, floor_mod}
use neo4j_go_driver.Bolt.Values.Value.{Text, ascii, text_beq}

-- A location: its offset at an instant (seconds since 1970), and the instant that time.Date gives
-- for what a calendar and a clock read there.
pub record Rules : Type 0 where
  pub offset_at : ℤ → ℤ
  pub from_calendar : ℤ → ℤ

pub record Zones : Type 0 where
  pub load_location : Text → Option Rules
  pub local : Rules

-- What time.Local is called.
abbrev pub local_name : Text
local_name = ascii "Local"

-- Load refuses the two names that mean the reader's own host. Its cache changes no answer.
unfoldable pub load : Zones → Text → Option Rules
load zones id = if text_beq id [] || text_beq id local_name then none else zones.load_location id

-- `time.Unix(secs, nanos)` brings the nanoseconds below a second.
abbrev pub second : ℕ
second = 1000000000

abbrev pub day_of_nanos : ℕ
day_of_nanos = 86400 * second

unfoldable pub unix_secs : ℤ → ℤ → ℤ
unix_secs secs nanos = secs +ℤ floor_div nanos second

unfoldable pub unix_nanos : ℤ → ℕ
unix_nanos nanos = floor_mod nanos second

-- `fmt.Sprintf("%d", n)`
unfoldable pub digits : ℕ → ℕ → Text → Text
digits zero n acc = acc
digits (suc fuel) n acc =
    let more = digits fuel (n / 10) ((b'0' + n % 10) ∷ acc) in
    if ltb n 10 then (b'0' + n) ∷ acc else more

unfoldable pub decimal : ℤ → Text
decimal (pos n) = digits (suc n) n []
decimal (negsuc n) = b'-' ∷ digits (suc (suc n)) (suc n) []
