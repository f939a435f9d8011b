-- ===== src/Bolt/Values/Value.antt =====
-- What the hydrator makes of a message: the Go values behind `any`. A text is its UTF-8 bytes, a
-- float its bits, a map the list of its entries.
use neo4j_go_driver.Base.{
  ℕ, zero, suc, ◌+◌, String, id_comparable, Bool, true, false, Option, none, some, List, [], ◌∷◌,
  ◌==◌, if◌then◌else◌,
}
use Prim.Native.Char.{code}
use neo4j_go_driver.Base.Int.{ℤ}

abbrev pub Text : Type 0
Text = List ℕ

-- A constant of the source, whose characters are all below 0x80.
abbrev pub ascii : String → Text
ascii String.[] = []
ascii (String.◌∷◌ c s) = code c ∷ ascii s

-- The zone of a time.Time: a fixed offset in seconds, or the location of that name.
pub data Zone : Type 0 where
  offset : ℤ → Zone
  named : Text → Zone

-- The element types of a vector.
pub data Elements : Type 0 where
  float64s float32s : List ℕ → Elements
  int8s int16s int32s int64s : List ℤ → Elements

mutual
  pub data Value : Type 0 where
    nil : Value
    boolean : Bool → Value
    int : ℤ → Value
    float : ℕ → Value
    text : Text → Value
    bytes : List ℕ → Value
    uuid : List ℕ → Value
    array : Items → Value
    dict : Fields → Value
    -- Id, Labels, Props, ElementId.
    node : ℤ → List Text → Fields → Text → Value
    -- Id, StartId, EndId, Type, Props, ElementId, StartElementId, EndElementId.
    relationship : ℤ → ℤ → ℤ → Text → Fields → Text → Text → Text → Value
    -- The relNode of path.go: id, name, props, elementId.
    rel_node : ℤ → Text → Fields → Text → Value
    -- Nodes, Relationships.
    path : Items → Items → Value
    point2d : ℕ → ℕ → ℕ → Value
    point3d : ℕ → ℕ → ℕ → ℕ → Value
    vector : Elements → Value
    -- A time.Time: seconds since 1970 in UTC, nanoseconds below a second, zone.
    date_time : ℤ → ℕ → Zone → Value
    -- dbtype.LocalDateTime: the seconds that its calendar and clock read, and nanoseconds.
    local_date_time : ℤ → ℕ → Value
    -- dbtype.Date: its seconds since 1970.
    date : ℤ → Value
    -- dbtype.Time: the nanoseconds of the day that its clock reads, and the offset.
    time : ℕ → ℤ → Value
    local_time : ℕ → Value
    -- Months, Days, Seconds, Nanos.
    duration : ℤ → ℤ → ℤ → ℤ → Value
    -- Name, major and minor version, Message.
    unsupported : Text → ℤ → ℤ → Option Text → Value
    -- dbtype.InvalidValue of a zone that does not load.
    invalid_zone : Text → Value

  pub data Items : Type 0 where
    end : Items
    item : Value → Items → Items

  pub data Fields : Type 0 where
    end_fields : Fields
    field : Text → Value → Fields → Fields

-- Equality of texts.
unfoldable pub text_beq : Text → Text → Bool
text_beq [] [] = true
text_beq [] (y ∷ ys) = false
text_beq (x ∷ xs) [] = false
text_beq (x ∷ xs) (y ∷ ys) = let rest = text_beq xs ys in if x == y then rest else false

-- `m[key] = value`
unfoldable pub set_field : Text → Value → Fields → Fields
set_field key value end_fields = field key value end_fields
set_field key value (field name old more) =
    let later = set_field key value more in
    if text_beq name key then field name value more else field name old later

unfoldable pub get_field : Text → Fields → Option Value
get_field key end_fields = none
get_field key (field name value more) =
    let later = get_field key more in if text_beq name key then some value else later

unfoldable pub count_items : Items → ℕ
count_items end = 0
count_items (item v vs) = count_items vs + 1

unfoldable pub count_fields : Fields → ℕ
count_fields end_fields = 0
count_fields (field k v fs) = count_fields fs + 1

unfoldable pub get_item : Items → ℕ → Option Value
get_item end i = none
get_item (item v vs) zero = some v
get_item (item v vs) (suc i) = get_item vs i
