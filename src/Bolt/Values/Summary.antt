-- ===== src/Bolt/Values/Summary.antt =====
-- neo4j/internal/bolt/hydrator.go, the parts of a summary: plan, profile, notifications and statuses,
-- out of the maps and lists that the hydrator has made of them. A profile is a plan with counts.
use neo4j_go_driver.Base.{ℕ, Bool, true, false, Option, none, some, List, [], ◌∷◌, if◌then◌else◌}
use neo4j_go_driver.Base.Int.{ℤ, pos}
use neo4j_go_driver.Bolt.Values.Value.{
  Value, Items, Fields, Text, ascii, text_beq, get_field, set_field,
}
use neo4j_go_driver.Bolt.Values.Struct.{as_string}
use neo4j_go_driver.Bolt.Values.Failure.{default_record}

-- `s, _ := x.(string)`, and the other types.
abbrev pub string_or_empty : Option Value → Text
string_or_empty v = elim (as_string v) [ some s ↦ s | none ↦ [] ]

abbrev pub as_int : Option Value → Option ℤ
as_int (some (Value.int i)) = some i
as_int v = none

abbrev pub as_float : Option Value → Option ℕ
as_float (some (Value.float x)) = some x
as_float v = none

abbrev pub as_map : Option Value → Option Fields
as_map (some (Value.dict m)) = some m
as_map v = none

abbrev pub as_list : Option Value → Items
as_list (some (Value.array vs)) = vs
as_list v = Items.end

abbrev pub texts : Items → List Text
texts Items.end = []
texts (Items.item v vs) = string_or_empty (some v) ∷ texts vs

mutual
  -- Extra, Operator, Arguments, Identifiers, Children.
  pub data PlanOf (S : Type 0) : Type 0 where
    plan : S → Text → Option Fields → List Text → PlansOf S → PlanOf S

  pub data PlansOf (S : Type 0) : Type 0 where
    no_plans : PlansOf S
    more_plans : PlanOf S → PlansOf S → PlansOf S

-- The counts of a profile.
pub record Counts : Type 0 where
  pub db_hits : Option ℤ
  pub rows : Option ℤ
  pub time : Option ℤ
  pub page_cache_misses : Option ℤ
  pub page_cache_hits : Option ℤ
  pub page_cache_hit_ratio : Option ℕ

unfoldable pub counts_of : Fields → Counts
counts_of m = record {
  db_hits = as_int (get_field (ascii "dbHits") m);
  rows = as_int (get_field (ascii "rows") m);
  time = as_int (get_field (ascii "time") m);
  page_cache_misses = as_int (get_field (ascii "pageCacheMisses") m);
  page_cache_hits = as_int (get_field (ascii "pageCacheHits") m);
  page_cache_hit_ratio = as_float (get_field (ascii "pageCacheHitRatio") m);
}

module _ {S : Type 0} (extra : Fields → S) where
  -- A plan of this map, with its children.
  abbrev pub plan_with : Fields → PlansOf S → PlanOf S
  plan_with m children =
      plan (extra m) (string_or_empty (get_field (ascii "operatorType") m))
        (as_map (get_field (ascii "args") m)) (texts (as_list (get_field (ascii "identifiers") m)))
        children

  -- A child that is no map, or an empty one, is passed over.
  abbrev pub add_plan : Fields → PlansOf S → PlansOf S → PlansOf S
  add_plan Fields.end_fields children others = others
  add_plan (Fields.field k v fs) children others =
      more_plans (plan_with (Fields.field k v fs) children) others

  unfoldable mutual
    -- The plans of the map's list "children".
    pub children_of : Fields → PlansOf S
    children_of Fields.end_fields = no_plans
    children_of (Fields.field k v fs) =
        let later = children_of fs in
        let here = plans_in v in if text_beq k (ascii "children") then here else later

    pub plans_in : Value → PlansOf S
    plans_in (Value.array vs) = plans_of vs
    plans_in v = no_plans

    pub plans_of : Items → PlansOf S
    plans_of Items.end = no_plans
    plans_of (Items.item (Value.dict m) vs) = add_plan m (children_of m) (plans_of vs)
    plans_of (Items.item v vs) = plans_of vs

  unfoldable pub parse_plan : Fields → PlanOf S
  unfolding children_of
  parse_plan m = plan_with m (children_of m)

pub record InputPosition : Type 0 where
  pub offset : ℤ
  pub line : ℤ
  pub column : ℤ

abbrev int_or_zero : Option Value → ℤ
int_or_zero v = elim (as_int v) [ some i ↦ i | none ↦ pos 0 ]

unfoldable pub parse_input_position : Fields → InputPosition
parse_input_position m = record {
  offset = int_or_zero (get_field (ascii "offset") m);
  line = int_or_zero (get_field (ascii "line") m);
  column = int_or_zero (get_field (ascii "column") m);
}

abbrev position_in : Option Fields → Option InputPosition
position_in none = none
position_in (some m) = some (parse_input_position m)

pub record Notification : Type 0 where
  pub code : Text
  pub title : Text
  pub description : Text
  pub position : Option InputPosition
  pub severity : Text
  pub category : Text

unfoldable pub parse_notification : Fields → Notification
unfolding parse_input_position
parse_notification m = record {
  code = string_or_empty (get_field (ascii "code") m);
  title = string_or_empty (get_field (ascii "title") m);
  description = string_or_empty (get_field (ascii "description") m);
  position = position_in (as_map (get_field (ascii "position") m));
  severity = string_or_empty (get_field (ascii "severity") m);
  category = string_or_empty (get_field (ascii "category") m);
}

pub record GqlStatusObject : Type 0 where
  pub gql_status : Text
  pub status_description : Text
  pub code : Text
  pub is_notification : Bool
  pub title : Text
  pub description : Text
  pub diagnostic_record : Fields
  pub position : Option InputPosition
  pub classification : Text
  pub severity : Text

-- `for key, value := range dr { diagnosticRecord[key] = value }`
unfoldable pub merge : Fields → Fields → Fields
merge Fields.end_fields into = into
merge (Fields.field k v fs) into = merge fs (set_field k v into)

-- The map "diagnostic_record", empty if there is none: none of its keys is then found.
abbrev record_of : Option Fields → Fields
record_of none = Fields.end_fields
record_of (some fs) = fs

abbrev is_text : Option Text → Bool
is_text none = false
is_text (some s) = true

unfoldable pub parse_gql_status_object : Fields → GqlStatusObject
unfolding merge parse_input_position default_record
parse_gql_status_object m =
    let dr = record_of (as_map (get_field (ascii "diagnostic_record") m)) in
    record {
      gql_status = string_or_empty (get_field (ascii "gql_status") m);
      status_description = string_or_empty (get_field (ascii "status_description") m);
      code = string_or_empty (get_field (ascii "neo4j_code") m);
      is_notification = is_text (as_string (get_field (ascii "neo4j_code") m));
      title = string_or_empty (get_field (ascii "title") m);
      description = string_or_empty (get_field (ascii "description") m);
      diagnostic_record = merge dr default_record;
      position = position_in (as_map (get_field (ascii "_position") dr));
      classification = string_or_empty (get_field (ascii "_classification") dr);
      severity = string_or_empty (get_field (ascii "_severity") dr);
    }

-- Of a list, the maps; what is no map is passed over.
unfoldable pub parse_maps {ℓ} : {A : Type ℓ} → (Fields → A) → Items → List A
parse_maps parse Items.end = []
parse_maps parse (Items.item (Value.dict m) vs) = parse m ∷ parse_maps parse vs
parse_maps parse (Items.item v vs) = parse_maps parse vs

unfoldable pub parse_notifications : Items → List Notification
unfolding parse_maps parse_notification
parse_notifications = parse_maps parse_notification

unfoldable pub parse_gql_status_objects : Items → List GqlStatusObject
unfolding parse_maps parse_gql_status_object
parse_gql_status_objects = parse_maps parse_gql_status_object
