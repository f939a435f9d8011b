-- ===== src/Bolt/Values/Pack.antt =====
-- neo4j/internal/bolt/outgoing.go, the packing of values.
use neo4j_go_driver.Base.{
  ℕ, Bool, true, false, Option, none, some, List, [], ◌∷◌, ◌++◌, if◌then◌else◌,
}
use neo4j_go_driver.Base.Int.{ℤ, pos, floor_div, ◌+ℤ◌, eq_ℤ, wrap64}
use neo4j_go_driver.Packstream.Packer
use neo4j_go_driver.Packstream.Packer.{Packer, PackError}
use neo4j_go_driver.Packstream.Vectors
use neo4j_go_driver.Bolt.Framing.Chunker.{Chunker}
use neo4j_go_driver.Bolt.Values.Value.{Text, Elements}
use neo4j_go_driver.Bolt.Values.Times.{Zones, Rules, load}
use neo4j_go_driver.Bolt.Values.Any.{Any, Anys, Entries, count_anys, count_entries}

-- What onPackErr is told.
pub data PackProblem : Type 0 where
  packing : PackError → PackProblem
  unsupported_type : PackProblem
  no_uuid : PackProblem

pub record Outgoing : Type 0 where
  pub chunker : Chunker
  pub packer : Packer
  pub told : List PackProblem
  pub use_utc : Bool
  pub supports_uuid : Bool

abbrev pub on_pack_err : PackProblem → Outgoing → Outgoing
on_pack_err e o = record o { told = o.told ++ (e ∷ []) }

-- A call of the packer.
abbrev pub packs : (Packer → Packer) → Outgoing → Outgoing
packs f o = record o { packer = f o.packer }

-- timezone.ID: the zone's name, where its rules give the time's own offset.
abbrev pub same_offset : ℤ → Text → ℤ → Option Rules → Option Text
same_offset secs name offset none = none
same_offset secs name offset (some l) = if eq_ℤ (l.offset_at secs) offset then some name else none

unfoldable pub zone_id : Zones → ℤ → Text → ℤ → Option Text
zone_id zones secs name offset = same_offset secs name offset (load zones name)

-- Where an offset is added to the seconds, the sum is int64 and wraps around.
abbrev pub pack_header3 : ℕ → ℤ → ℕ → Packer → Packer
pack_header3 tag secs nanos p =
    Packer.int (pos nanos) (Packer.int64 secs (Packer.struct_header tag 3 p))

unfoldable pub pack_legacy_date_time_with_tz_offset : ℤ → ℕ → ℤ → Outgoing → Outgoing
pack_legacy_date_time_with_tz_offset secs nanos offset =
    packs (λ p. Packer.int offset (pack_header3 b'F' (wrap64 (secs +ℤ offset)) nanos p))

unfoldable pub pack_legacy_date_time_with_tz_name : ℤ → ℕ → ℤ → Text → Outgoing → Outgoing
pack_legacy_date_time_with_tz_name secs nanos offset id =
    packs (λ p. Packer.string id (pack_header3 b'f' (wrap64 (secs +ℤ offset)) nanos p))

unfoldable pub pack_utc_date_time_with_tz_offset : ℤ → ℕ → ℤ → Outgoing → Outgoing
pack_utc_date_time_with_tz_offset secs nanos offset =
    packs (λ p. Packer.int offset (pack_header3 b'I' secs nanos p))

unfoldable pub pack_utc_date_time_with_tz_name : ℤ → ℕ → Text → Outgoing → Outgoing
pack_utc_date_time_with_tz_name secs nanos id =
    packs (λ p. Packer.string id (pack_header3 b'i' secs nanos p))

-- The encoding of a time.Time, by whether its zone has a name and by `useUtc`.
unfoldable pub pack_time_as : ℤ → ℕ → ℤ → Option Text → Bool → Outgoing → Outgoing
unfolding pack_utc_date_time_with_tz_name pack_utc_date_time_with_tz_offset
    pack_legacy_date_time_with_tz_name pack_legacy_date_time_with_tz_offset
pack_time_as secs nanos offset (some id) true = pack_utc_date_time_with_tz_name secs nanos id
pack_time_as secs nanos offset none true = pack_utc_date_time_with_tz_offset secs nanos offset
pack_time_as secs nanos offset (some id) false =
    pack_legacy_date_time_with_tz_name secs nanos offset id
pack_time_as secs nanos offset none false = pack_legacy_date_time_with_tz_offset secs nanos offset

unfoldable pub pack_time_time : Zones → ℤ → ℕ → Text → ℤ → Outgoing → Outgoing
unfolding pack_time_as zone_id
pack_time_time zones secs nanos name offset o =
    pack_time_as secs nanos offset (zone_id zones secs name offset) o.use_utc o

unfoldable pub pack_uuid : List ℕ → Outgoing → Outgoing
pack_uuid u o =
    if o.supports_uuid then packs (Packer.uuid u) o else on_pack_err PackProblem.no_uuid o

unfoldable pub pack_vector : Elements → Packer → Packer
pack_vector (Elements.int8s xs) = Vectors.vector_int8 xs
pack_vector (Elements.int16s xs) = Vectors.vector_int16 xs
pack_vector (Elements.int32s xs) = Vectors.vector_int32 xs
pack_vector (Elements.int64s xs) = Vectors.vector_int64 xs
pack_vector (Elements.float32s xs) = Vectors.vector_float32 xs
pack_vector (Elements.float64s xs) = Vectors.vector_float64 xs

module _ (zones : Zones) where
  unfoldable mutual
    unfolding pack_uuid pack_time_time pack_vector

    pub pack_x : Any → Outgoing → Outgoing
    pack_x Any.nothing o = packs Packer.nil o
    pack_x (Any.boolean b) o = packs (Packer.boolean b) o
    pack_x (Any.int i) o = packs (Packer.int64 i) o
    pack_x (Any.uint32 n) o = packs (Packer.uint32 n) o
    pack_x (Any.uint64 n) o = packs (Packer.uint64 n) o
    pack_x (Any.float x) o = packs (Packer.float64 x) o
    pack_x (Any.text s) o = packs (Packer.string s) o
    pack_x (Any.bytes b) o = packs (Packer.bytes b) o
    pack_x (Any.ints xs) o = packs (Packer.ints xs) o
    pack_x (Any.int64s xs) o = packs (Packer.int64s xs) o
    pack_x (Any.strings xs) o = packs (Packer.strings xs) o
    pack_x (Any.float64s xs) o = packs (Packer.float64s xs) o
    pack_x (Any.slice xs) o = pack_all xs (packs (Packer.array_header (count_anys xs)) o)
    pack_x (Any.bytes_map m) o = packs (Packer.bytes_map m) o
    pack_x (Any.int_map m) o = packs (Packer.int_map m) o
    pack_x (Any.int64_map m) o = packs (Packer.int64_map m) o
    pack_x (Any.string_map m) o = packs (Packer.string_map m) o
    pack_x (Any.float64_map m) o = packs (Packer.float64_map m) o
    pack_x (Any.dict m) o = pack_entries m (packs (Packer.map_header (count_entries m)) o)
    pack_x (Any.uuid u) o = pack_uuid u o
    pack_x (Any.point2d id x y) o =
        packs
          (λ p.
            Packer.float64 y (Packer.float64 x (Packer.uint32 id (Packer.struct_header b'X' 3 p))))
          o
    pack_x (Any.point3d id x y z) o =
        packs
          (λ p. Packer.float64 z (
            Packer.float64 y (Packer.float64 x (Packer.uint32 id (Packer.struct_header b'Y' 4 p)))))
          o
    pack_x (Any.time_time secs nanos name offset) o = pack_time_time zones secs nanos name offset o
    pack_x (Any.local_date_time secs offset nanos) o =
        packs
          (λ p.
            Packer.int (pos nanos)
              (Packer.int64 (wrap64 (secs +ℤ offset)) (Packer.struct_header b'd' 2 p)))
          o
    pack_x (Any.date secs offset) o =
        packs
          (λ p.
            Packer.int64 (floor_div (wrap64 (secs +ℤ offset)) 86400)
              (Packer.struct_header b'D' 1 p))
          o
    pack_x (Any.time nanos offset) o =
        packs (λ p. Packer.int offset (Packer.int64 (pos nanos) (Packer.struct_header b'T' 2 p))) o
    pack_x (Any.local_time nanos) o =
        packs (λ p. Packer.int64 (pos nanos) (Packer.struct_header b't' 1 p)) o
    pack_x (Any.duration months days secs nanos) o =
        packs
          (λ p. Packer.int nanos (
            Packer.int64 secs
              (Packer.int64 days (Packer.int64 months (Packer.struct_header b'E' 4 p)))))
          o
    pack_x (Any.vector xs) o = packs (pack_vector xs) o
    pack_x Any.nil_struct o = packs Packer.nil o
    pack_x (Any.struct m) o = pack_entries m (packs (Packer.map_header (count_entries m)) o)
    pack_x Any.unsupported o = on_pack_err PackProblem.unsupported_type o

    pub pack_all : Anys → Outgoing → Outgoing
    pack_all Anys.none_left o = o
    pack_all (Anys.also x xs) o = pack_all xs (pack_x x o)

    pub pack_entries : Entries → Outgoing → Outgoing
    pack_entries Entries.no_entries o = o
    pack_entries (Entries.entry k x m) o = pack_entries m (pack_x x (packs (Packer.string k) o))

  unfoldable pub pack_map : Entries → Outgoing → Outgoing
  unfolding pack_x
  pack_map m o = pack_entries m (packs (Packer.map_header (count_entries m)) o)
