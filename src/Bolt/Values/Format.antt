-- ===== src/Bolt/Values/Format.antt =====
-- The format of values, by itself: what a value is on the wire, which values have a place there,
-- and what the other side is to make of them.
use neo4j_go_driver.Base.{ℕ, ◌+◌, ◌≡◌, Bool, true, false, Option, none, some, List, [], ◌∷◌, ◌++◌}
use neo4j_go_driver.Base.Int.{ℤ, pos, floor_div, ◌+ℤ◌}
use neo4j_go_driver.Packstream.Bytes.{be_bytes}
use neo4j_go_driver.Packstream.Encoding.{
  int_encoding, string_encoding, bytes_encoding, header_encoding,
}
use neo4j_go_driver.Bolt.Values.Value.{Text, text_beq}
use neo4j_go_driver.Bolt.Values.Times.{Zones}
use neo4j_go_driver.Bolt.Values.Any.{Any, Anys, Entries, count_anys, count_entries}
use neo4j_go_driver.Bolt.Values.Pack.{zone_id}

-- The elements of a list of one type, and the entries of a map of one type, each by itself.
unfoldable pub each {ℓ} : {A : Type ℓ} → (A → Any) → List A → Anys
each f [] = Anys.none_left
each f (x ∷ xs) = Anys.also (f x) (each f xs)

unfoldable pub each_entry {ℓ} : {A : Type ℓ} → (A → Any) → List (Text × A) → Entries
each_entry f [] = Entries.no_entries
each_entry f ((k, x) ∷ m) = Entries.entry k (f x) (each_entry f m)

-- A value with every list and map in the general form.
unfoldable mutual
  pub plain : Any → Any
  plain (Any.ints xs) = Any.slice (each Any.int xs)
  plain (Any.int64s xs) = Any.slice (each Any.int xs)
  plain (Any.strings xs) = Any.slice (each Any.text xs)
  plain (Any.float64s xs) = Any.slice (each Any.float xs)
  plain (Any.bytes_map m) = Any.dict (each_entry Any.bytes m)
  plain (Any.int_map m) = Any.dict (each_entry Any.int m)
  plain (Any.int64_map m) = Any.dict (each_entry Any.int m)
  plain (Any.string_map m) = Any.dict (each_entry Any.text m)
  plain (Any.float64_map m) = Any.dict (each_entry Any.float m)
  plain (Any.slice xs) = Any.slice (plain_all xs)
  plain (Any.dict m) = Any.dict (plain_entries m)
  plain (Any.struct m) = Any.dict (plain_entries m)
  plain Any.nil_struct = Any.nothing
  plain (Any.uint32 n) = Any.int (pos n)
  plain x = x

  pub plain_all : Anys → Anys
  plain_all Anys.none_left = Anys.none_left
  plain_all (Anys.also x xs) = Anys.also (plain x) (plain_all xs)

  pub plain_entries : Entries → Entries
  plain_entries Entries.no_entries = Entries.no_entries
  plain_entries (Entries.entry k x m) = Entries.entry k (plain x) (plain_entries m)

abbrev struct_encoding : ℕ → ℕ → List ℕ → List ℕ
struct_encoding tag n fields = (0xb0 + n) ∷ tag ∷ fields

abbrev float_encoding : ℕ → List ℕ
float_encoding x = 0xc1 ∷ be_bytes 8 x

module _ (zones : Zones) (utc : Bool) where
  abbrev pub time_encoding : ℤ → ℕ → ℤ → Option Text → Bool → List ℕ
  time_encoding secs nanos off (some id) true =
      struct_encoding b'i' 3 (int_encoding secs ++ int_encoding (pos nanos) ++ string_encoding id)
  time_encoding secs nanos off none true =
      struct_encoding b'I' 3 (int_encoding secs ++ int_encoding (pos nanos) ++ int_encoding off)
  time_encoding secs nanos off (some id) false =
      struct_encoding b'f' 3
        (int_encoding (secs +ℤ off) ++ int_encoding (pos nanos) ++ string_encoding id)
  time_encoding secs nanos off none false =
      struct_encoding b'F' 3
        (int_encoding (secs +ℤ off) ++ int_encoding (pos nanos) ++ int_encoding off)

  unfoldable mutual
    pub encoding : Any → List ℕ
    encoding (Any.boolean true) = 0xc3 ∷ []
    encoding (Any.boolean false) = 0xc2 ∷ []
    encoding (Any.int i) = int_encoding i
    encoding (Any.uint64 n) = int_encoding (pos n)
    encoding (Any.float x) = float_encoding x
    encoding (Any.text s) = string_encoding s
    encoding (Any.bytes b) = bytes_encoding b
    encoding (Any.slice xs) = header_encoding 0x90 0xd4 (count_anys xs) ++ encoding_all xs
    encoding (Any.dict m) = header_encoding 0xa0 0xd8 (count_entries m) ++ encoding_entries m
    encoding (Any.uuid u) = 0xe0 ∷ u
    encoding (Any.point2d id x y) =
        struct_encoding b'X' 3 (int_encoding (pos id) ++ float_encoding x ++ float_encoding y)
    encoding (Any.point3d id x y z) =
        struct_encoding b'Y' 4
          (int_encoding (pos id) ++ float_encoding x ++ float_encoding y ++ float_encoding z)
    encoding (Any.time_time secs nanos name off) =
        time_encoding secs nanos off (zone_id zones secs name off) utc
    encoding (Any.local_date_time secs off nanos) =
        struct_encoding b'd' 2 (int_encoding (secs +ℤ off) ++ int_encoding (pos nanos))
    encoding (Any.date secs off) =
        struct_encoding b'D' 1 (int_encoding (floor_div (secs +ℤ off) 86400))
    encoding (Any.time nanos off) =
        struct_encoding b'T' 2 (int_encoding (pos nanos) ++ int_encoding off)
    encoding (Any.local_time nanos) = struct_encoding b't' 1 (int_encoding (pos nanos))
    encoding (Any.duration months days secs nanos) =
        struct_encoding b'E' 4
          (int_encoding months ++ int_encoding days ++ int_encoding secs ++ int_encoding nanos)
    encoding x = 0xc0 ∷ []

    pub encoding_all : Anys → List ℕ
    encoding_all Anys.none_left = []
    encoding_all (Anys.also x xs) = encoding x ++ encoding_all xs

    pub encoding_entries : Entries → List ℕ
    encoding_entries Entries.no_entries = []
    encoding_entries (Entries.entry k x m) = string_encoding k ++ (encoding x ++ encoding_entries m)

-- The key is none of the map's.
unfoldable pub IsAbsent : Text → Entries → Type 0
IsAbsent k Entries.no_entries = Unit
IsAbsent k (Entries.entry j x m) = (text_beq k j ≡ false) × IsAbsent k m
