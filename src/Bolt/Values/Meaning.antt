-- ===== src/Bolt/Values/Meaning.antt =====
-- Which values have a place on the wire, and what the other side is to make of them.
use neo4j_go_driver.Base.{ℕ, ◌-◌, ◌^◌, ◌<◌, ◌≡◌, Bool, true, false, Option, none, some, length}
use neo4j_go_driver.Base.Int.{ℤ, pos, IsInt64, floor_div, scale, ◌+ℤ◌}
use neo4j_go_driver.Bolt.Values.Value.{Value, Items, Fields, Text, Zone, offset, named}
use neo4j_go_driver.Bolt.Values.Times.{Zones, Rules, load, second, day_of_nanos}
use neo4j_go_driver.Bolt.Values.Any.{Any, Anys, Entries, count_anys, count_entries}
use neo4j_go_driver.Bolt.Values.Pack.{zone_id}
use neo4j_go_driver.Bolt.Values.Format.{IsAbsent}

-- A time that can be sent: in range, and, if its zone is sent by name in the older encoding, the
-- one instant that its calendar reading stands for there.
pub record IsSendable (zones : Zones) (utc : Bool) (secs : ℤ) (nanos : ℕ) (name : Text) (off : ℤ)
    : Type 0 where
  pub below_second : nanos < second
  pub instant : IsInt64 secs
  pub reading : IsInt64 (secs +ℤ off)
  pub zone : IsInt64 off
  pub short_name : length name < 2 ^ 32 - 1
  pub unique :
      (l : Rules) → utc ≡ false → load zones name ≡ some l → l.from_calendar (secs +ℤ off) ≡ secs

-- What a clock reads on the reader's host is there in its calendar.
abbrev IsReadable : Rules → ℤ → Type 0
IsReadable l w = l.from_calendar w +ℤ l.offset_at (l.from_calendar w) ≡ w

abbrev pub days : ℤ → ℤ → ℤ
days secs off = floor_div (secs +ℤ off) 86400

-- The zone of a time that is sent by the name of its zone, or by its offset.
abbrev pub zone_of : Option Text → ℤ → Zone
zone_of (some id) off = named id
zone_of none off = offset off

module _ (zones : Zones) (utc uuids : Bool) where
  unfoldable mutual
    pub Fits : Any → Type 0
    Fits Any.nothing = Unit
    Fits (Any.boolean b) = Unit
    Fits (Any.int i) = IsInt64 i
    Fits (Any.uint64 n) = n < 2 ^ 63
    Fits (Any.float x) = x < 2 ^ 64
    Fits (Any.text s) = length s < 2 ^ 32 - 1
    Fits (Any.bytes b) = length b < 2 ^ 32
    Fits (Any.slice xs) = (count_anys xs < 2 ^ 32 - 1) × FitsAll xs
    Fits (Any.dict m) = (count_entries m < 2 ^ 32 - 1) × FitsEntries m
    Fits (Any.uuid u) = (length u ≡ 16) × (uuids ≡ true)
    Fits (Any.point2d id x y) = (id < 2 ^ 32) × (x < 2 ^ 64) × (y < 2 ^ 64)
    Fits (Any.point3d id x y z) = (id < 2 ^ 32) × (x < 2 ^ 64) × (y < 2 ^ 64) × (z < 2 ^ 64)
    Fits (Any.time_time secs nanos name off) = IsSendable zones utc secs nanos name off
    Fits (Any.local_date_time secs off nanos) =
        (nanos < second) × IsInt64 (secs +ℤ off) × IsReadable zones.local (secs +ℤ off)
    Fits (Any.date secs off) =
        IsInt64 (secs +ℤ off) × IsInt64 (days secs off) × IsInt64 (scale 86400 (days secs off))
    Fits (Any.time nanos off) = (nanos < day_of_nanos) × IsInt64 off
    Fits (Any.local_time nanos) = nanos < day_of_nanos
    Fits (Any.duration months days secs nanos) =
        IsInt64 months × IsInt64 days × IsInt64 secs × IsInt64 nanos
    Fits x = ⊥

    pub FitsAll : Anys → Type 0
    FitsAll Anys.none_left = Unit
    FitsAll (Anys.also x xs) = Fits x × FitsAll xs

    pub FitsEntries : Entries → Type 0
    FitsEntries Entries.no_entries = Unit
    FitsEntries (Entries.entry k x m) =
        (length k < 2 ^ 32 - 1) × IsAbsent k m × Fits x × FitsEntries m

  unfoldable mutual
    pub hydrated : Any → Value
    hydrated (Any.boolean b) = Value.boolean b
    hydrated (Any.int i) = Value.int i
    hydrated (Any.uint64 n) = Value.int (pos n)
    hydrated (Any.float x) = Value.float x
    hydrated (Any.text s) = Value.text s
    hydrated (Any.bytes b) = Value.bytes b
    hydrated (Any.slice xs) = Value.array (hydrated_all xs)
    hydrated (Any.dict m) = Value.dict (hydrated_entries m)
    hydrated (Any.uuid u) = Value.uuid u
    hydrated (Any.point2d id x y) = Value.point2d id x y
    hydrated (Any.point3d id x y z) = Value.point3d id x y z
    hydrated (Any.time_time secs nanos name off) =
        Value.date_time secs nanos (zone_of (zone_id zones secs name off) off)
    hydrated (Any.local_date_time secs off nanos) = Value.local_date_time (secs +ℤ off) nanos
    hydrated (Any.date secs off) = Value.date (scale 86400 (days secs off))
    hydrated (Any.time nanos off) = Value.time nanos off
    hydrated (Any.local_time nanos) = Value.local_time nanos
    hydrated (Any.duration months days secs nanos) = Value.duration months days secs nanos
    hydrated x = Value.nil

    pub hydrated_all : Anys → Items
    hydrated_all Anys.none_left = Items.end
    hydrated_all (Anys.also x xs) = Items.item (hydrated x) (hydrated_all xs)

    pub hydrated_entries : Entries → Fields
    hydrated_entries Entries.no_entries = Fields.end_fields
    hydrated_entries (Entries.entry k x m) = Fields.field k (hydrated x) (hydrated_entries m)

-- Not a list and not a map.
unfoldable pub IsLeaf : Any → Type 0
IsLeaf (Any.slice xs) = ⊥
IsLeaf (Any.dict m) = ⊥
IsLeaf x = Unit
