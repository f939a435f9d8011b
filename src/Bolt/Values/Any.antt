-- ===== src/Bolt/Values/Any.antt =====
-- What neo4j/internal/bolt/outgoing.go is given to send, told apart as the switches of packX, packV
-- and packStruct tell it apart. What reflection finds out of a Go value is the constructor; what
-- mapping.StructAsMap makes of a struct is an argument.
use neo4j_go_driver.Base.{ℕ, suc, Bool, List}
use neo4j_go_driver.Base.Int.{ℤ}
use neo4j_go_driver.Bolt.Values.Value.{Text, Elements}

mutual
  pub data Any : Type 0 where
    -- nil, and a pointer that is nil.
    nothing : Any
    boolean : Bool → Any
    -- reflect.Int to reflect.Int64, then reflect.Uint8 to Uint32, then Uint64 and Uint.
    int : ℤ → Any
    uint32 uint64 : ℕ → Any
    -- The bits of the float64 that a float converts to.
    float : ℕ → Any
    text : Text → Any
    bytes : List ℕ → Any
    -- []int, []int64, []string and []float64, and the slices of anything else.
    ints int64s : List ℤ → Any
    strings : List Text → Any
    float64s : List ℕ → Any
    slice : Anys → Any
    -- The maps with a type of their own, and those from a text to anything else.
    bytes_map : List (Text × List ℕ) → Any
    int_map int64_map : List (Text × ℤ) → Any
    string_map : List (Text × Text) → Any
    float64_map : List (Text × ℕ) → Any
    dict : Entries → Any
    uuid : List ℕ → Any
    point2d : ℕ → ℕ → ℕ → Any
    point3d : ℕ → ℕ → ℕ → ℕ → Any
    -- A time.Time: Unix(), Nanosecond(), the name of its location and its offset there.
    time_time : ℤ → ℕ → Text → ℤ → Any
    -- dbtype.LocalDateTime and dbtype.Date: Unix(), the offset, and for the former Nanosecond().
    local_date_time : ℤ → ℤ → ℕ → Any
    date : ℤ → ℤ → Any
    -- dbtype.Time and dbtype.LocalTime: what the clock reads in nanoseconds, and the offset.
    time : ℕ → ℤ → Any
    local_time : ℕ → Any
    duration : ℤ → ℤ → ℤ → ℤ → Any
    vector : Elements → Any
    -- A struct of the user's, as the map that it flattens to, and a nil pointer to one.
    struct : Entries → Any
    nil_struct : Any
    -- A type that has no encoding.
    unsupported : Any

  pub data Anys : Type 0 where
    none_left : Anys
    also : Any → Anys → Anys

  -- A map, in the order of its iteration.
  pub data Entries : Type 0 where
    no_entries : Entries
    entry : Text → Any → Entries → Entries

unfoldable pub count_anys : Anys → ℕ
count_anys Anys.none_left = 0
count_anys (Anys.also x xs) = suc (count_anys xs)

unfoldable pub count_entries : Entries → ℕ
count_entries Entries.no_entries = 0
count_entries (Entries.entry k x m) = suc (count_entries m)
