-- ===== src/Bolt/Values/Zoned.antt =====
-- A time.Time, in the four encodings: with the name of its zone or its offset, in UTC or not.
use neo4j_go_driver.Base.{ℕ, ◌≡◌, refl, ap, ◌∙◌, Bool, true, false, Option, none, some, List, arith}
use mathlib.Core.Option.{none-ne-some}
use neo4j_go_driver.Base.Int.{ℤ, ◌+ℤ◌}
use neo4j_go_driver.Bolt.Values.Value.{Value, Text}
use neo4j_go_driver.Bolt.Values.Times.{Zones, Rules, load}
use neo4j_go_driver.Bolt.Values.Run.{Run, next, branch, ◌>>◌}
use neo4j_go_driver.Bolt.Values.Hydrate.{when_utc, structure, structure_of, shape_of, value_by}
use neo4j_go_driver.Bolt.Values.Pack.{zone_id, same_offset}
use neo4j_go_driver.Bolt.Values.Format.{time_encoding}
use neo4j_go_driver.Bolt.Values.Meaning.{IsSendable, zone_of}
use neo4j_go_driver.Bolt.Values.Parses.{Parses}
use neo4j_go_driver.Bolt.Values.Detect.{struct-Parses}
use neo4j_go_driver.Bolt.Values.Reading.{
  cast-Parses, utc_date_time_offset-Parses, date_time_offset-Parses,
  utc_date_time_named_zone-Parses, date_time_named_zone-Parses, sub_add,
}

module _ {uuids : Bool} where
  in_utc-Parses :
      (m k : Run Value) (xs : List ℕ) (v : Value)
      → Parses true uuids m xs v
      → Parses true uuids (when_utc m k) xs v
  unfolding when_utc branch
  in_utc-Parses m k xs v p = record {
    run = λ h rest i at.
        let (u, e, at2) = p.run h rest i at in (u, ap (λ b. branch b m k h) i.same_utc ∙ e, at2);
  }

  not_utc-Parses :
      (m k : Run Value) (xs : List ℕ) (v : Value)
      → Parses false uuids k xs v
      → Parses false uuids (when_utc m k) xs v
  unfolding when_utc branch
  not_utc-Parses m k xs v p = record {
    run = λ h rest i at.
        let (u, e, at2) = p.run h rest i at in (u, ap (λ b. branch b m k h) i.same_utc ∙ e, at2);
  }

-- What timezone.ID answers is the name of a zone that loads.
pub same_offset-some :
    (secs : ℤ) (name : Text) (off : ℤ) (r : Option Rules) (id : Text)
    → same_offset secs name off r ≡ some id
    → (id ≡ name) × ((l : Rules) × (r ≡ some l))
same_offset-some secs name off none id e = absurd (none-ne-some id e)
same_offset-some secs name off (some l) id e = (ground arith, (l, refl))

module _ (zones : Zones) (nested : Run Value) {uuids : Bool} where
  module _ (secs : ℤ) (n : ℕ) (name : Text) (off : ℤ) where
    pub utc_time-Parses :
        (r : Option Text)
        → zone_id zones secs name off ≡ r
        → IsSendable zones true secs n name off
        → Parses true uuids
            (next >> value_by zones nested)
            (time_encoding zones true secs n off r true)
            (Value.date_time secs n (zone_of r off))
    unfolding structure structure_of shape_of zone_id
    utc_time-Parses none e s = struct-Parses zones nested 3 b'I' _ _ (omega arith) (
        in_utc-Parses _ _ _ _
          (utc_date_time_offset-Parses secs n s.instant s.below_second off s.zone))
    utc_time-Parses (some id) e s =
        let (same, (l, found)) = same_offset-some secs name off (load zones name) id e in
        rw same (
          struct-Parses zones nested 3 b'i' _ _ (omega arith) (
            in_utc-Parses _ _ _ _ (
              utc_date_time_named_zone-Parses secs n s.instant s.below_second zones name l found
                s.short_name)))

    pub legacy_time-Parses :
        (r : Option Text)
        → zone_id zones secs name off ≡ r
        → IsSendable zones false secs n name off
        → Parses false uuids
            (next >> value_by zones nested)
            (time_encoding zones false secs n off r false)
            (Value.date_time secs n (zone_of r off))
    unfolding structure structure_of shape_of zone_id
    legacy_time-Parses none e s = struct-Parses zones nested 3 b'F' _ _ (omega arith) (
        not_utc-Parses _ _ _ _ (
          cast-Parses refl (ap (λ t. Value.date_time t n (zone_of none off)) (sub_add secs off))
            (date_time_offset-Parses (secs +ℤ off) n s.reading s.below_second off s.zone)))
    legacy_time-Parses (some id) e s =
        let (same, (l, found)) = same_offset-some secs name off (load zones name) id e in
        rw same (
          struct-Parses zones nested 3 b'f' _ _ (omega arith) (
            not_utc-Parses _ _ _ _ (
              cast-Parses refl
                (ap (λ t. Value.date_time t n (zone_of (some name) off)) (s.unique l refl found))
                (date_time_named_zone-Parses (secs +ℤ off) n s.reading s.below_second zones name l
                  found s.short_name))))
