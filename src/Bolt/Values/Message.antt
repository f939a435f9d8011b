-- ===== src/Bolt/Values/Message.antt =====
-- neo4j/internal/bolt/hydrator.go, `hydrate`: the four messages of a server.
use neo4j_go_driver.Base.{
  ℕ, zero, suc, ◌+◌, Bool, true, false, Option, none, some, List, [], nat_beq, length,
  if◌then◌else◌,
}
use neo4j_go_driver.Base.Int.{negsuc}
use neo4j_go_driver.Packstream.Unpacker
use neo4j_go_driver.Packstream.Unpacker.{Unpacker, PackedType}
use neo4j_go_driver.Bolt.Values.Value.{Value, Items, Text, ascii, text_beq}
use neo4j_go_driver.Bolt.Values.Times.{Zones}
use neo4j_go_driver.Bolt.Values.Run.{
  Run, pure, ◌>>=◌, ◌>>◌, branch, call, next, assert_length, unless_err, next_string, next_len,
  strings,
}
use neo4j_go_driver.Bolt.Values.Struct.{amap, read_items}
use neo4j_go_driver.Bolt.Values.Hydrate.{value}
use neo4j_go_driver.Bolt.Values.Failure.{Neo4jError, failure}
use neo4j_go_driver.Bolt.Values.Summary.{
  parse_plan, counts_of, parse_notifications, parse_gql_status_objects,
}
use neo4j_go_driver.Bolt.Values.Success.{
  Success, QueryType, query_type, set_query_type, success_stats, routing_table, read_bool, trash,
}

-- Each field but the list and the map that a message may lack: `qid`, `tfirst` and `tlast` are -1.
abbrev pub cleared : Success
cleared = record {
  fields = none;
  tfirst = negsuc 0;
  qid = negsuc 0;
  bookmark = [];
  connection_id = [];
  server = [];
  db = [];
  has_more = false;
  tlast = negsuc 0;
  qtype = QueryType.unknown_query;
  counters = none;
  plan = none;
  profile = none;
  notifications = [];
  statuses = [];
  routing_table = none;
  num = 0;
  configuration_hints = none;
  patches = none;
}

pub data SuccessKey : Type 0 where
  fields_key t_first_key qid_key bookmark_key connection_id_key server_key : SuccessKey
  has_more_key t_last_key type_key db_key stats_key plan_key profile_key : SuccessKey
  notifications_key statuses_key rt_key hints_key patch_bolt_key other_key : SuccessKey

unfoldable pub success_key : Text → SuccessKey
success_key key =
    if text_beq key (ascii "fields")
    then SuccessKey.fields_key
    else if text_beq key (ascii "t_first")
    then SuccessKey.t_first_key
    else if text_beq key (ascii "qid")
    then SuccessKey.qid_key
    else if text_beq key (ascii "bookmark")
    then SuccessKey.bookmark_key
    else if text_beq key (ascii "connection_id")
    then SuccessKey.connection_id_key
    else if text_beq key (ascii "server")
    then SuccessKey.server_key
    else if text_beq key (ascii "has_more")
    then SuccessKey.has_more_key
    else if text_beq key (ascii "t_last")
    then SuccessKey.t_last_key
    else if text_beq key (ascii "type")
    then SuccessKey.type_key
    else if text_beq key (ascii "db")
    then SuccessKey.db_key
    else if text_beq key (ascii "stats")
    then SuccessKey.stats_key
    else if text_beq key (ascii "plan")
    then SuccessKey.plan_key
    else if text_beq key (ascii "profile")
    then SuccessKey.profile_key
    else if text_beq key (ascii "notifications")
    then SuccessKey.notifications_key
    else if text_beq key (ascii "statuses")
    then SuccessKey.statuses_key
    else if text_beq key (ascii "rt")
    then SuccessKey.rt_key
    else if text_beq key (ascii "hints")
    then SuccessKey.hints_key
    else if text_beq key (ascii "patch_bolt")
    then SuccessKey.patch_bolt_key
    else SuccessKey.other_key

module _ (value : Run Value) where
  -- `h.array()`
  unfoldable pub array_items : Run Items
  array_items = do n ← call Unpacker.len_of; read_items value n

  unfoldable pub success_field : SuccessKey → Success → Run Success
  unfolding array_items parse_plan counts_of parse_notifications parse_gql_status_objects query_type
      set_query_type success_stats routing_table trash read_bool
  success_field SuccessKey.fields_key s = do x ← strings; pure (record s { fields = some x })
  success_field SuccessKey.t_first_key s = do i ← call Unpacker.int; pure (record s { tfirst = i })
  success_field SuccessKey.qid_key s = do i ← call Unpacker.int; pure (record s { qid = i })
  success_field SuccessKey.bookmark_key s = do
    t ← call Unpacker.string
    pure (record s { bookmark = t })
  success_field SuccessKey.connection_id_key s = do
    t ← call Unpacker.string
    pure (record s { connection_id = t })
  success_field SuccessKey.server_key s = do
    t ← call Unpacker.string
    pure (record s { server = t })
  success_field SuccessKey.has_more_key s = do b ← read_bool; pure (record s { has_more = b })
  success_field SuccessKey.t_last_key s = do i ← call Unpacker.int; pure (record s { tlast = i })
  success_field SuccessKey.type_key s = do
    t ← call Unpacker.string
    set_query_type t (query_type t) s
  success_field SuccessKey.db_key s = do t ← call Unpacker.string; pure (record s { db = t })
  success_field SuccessKey.stats_key s = do c ← success_stats; pure (record s { counters = c })
  success_field SuccessKey.plan_key s = do
    m ← amap value
    pure (record s { plan = some (parse_plan (λ k. tt) m) })
  success_field SuccessKey.profile_key s = do
    m ← amap value
    pure (record s { profile = some (parse_plan counts_of m) })
  success_field SuccessKey.notifications_key s = do
    l ← array_items
    pure (record s { notifications = parse_notifications l })
  success_field SuccessKey.statuses_key s = do
    l ← array_items
    pure (record s { statuses = parse_gql_status_objects l })
  success_field SuccessKey.rt_key s = do
    rt ← routing_table value
    pure (record s { routing_table = some rt })
  success_field SuccessKey.hints_key s = do
    m ← amap value
    pure (record s { configuration_hints = some m })
  success_field SuccessKey.patch_bolt_key s = do x ← strings; pure (record s { patches = some x })
  success_field SuccessKey.other_key s = trash value >> pure s

  unfoldable pub read_success : ℕ → Success → Run Success
  unfolding success_field success_key
  read_success zero s = pure s
  read_success (suc n) s = do
    key ← next_string
    next
    t ← success_field (success_key key) s
    read_success n t

  -- `none` is nil, of a message with an error.
  unfoldable pub success : ℕ → Run (Option Success)
  unfolding read_success
  success n =
      assert_length "success" 1 n
      >> unless_err none
          (do num ← next_len; s ← read_success num (record cleared { num = num }); pure (some s))

  unfoldable pub record_message : ℕ → Run (Option Items)
  record_message n =
      assert_length "record" 1 n
      >> unless_err none (do num ← next_len; vs ← read_items value num; pure (some vs))

unfoldable pub ignored : ℕ → Run Bool
ignored n = assert_length "ignored" 0 n >> unless_err false (pure true)

abbrev pub is_struct : PackedType → Bool
is_struct PackedType.packed_struct = true
is_struct t = false

-- What hydrate answers: its `x`, nil or not, and its error. Two errors are hydrate's own.
pub data Answer : Type 0 where
  success_message : Option Success → Answer
  ignored_message : Bool → Answer
  failure_message : Option Neo4jError → Answer
  record_values : Option Items → Answer
  expected_struct : Answer
  unexpected_tag : ℕ → Answer

module _ (zones : Zones) where
  unfoldable pub by_tag : ℕ → ℕ → ℕ → Run Answer
  unfolding success record_message ignored failure
  by_tag fuel n t =
      branch (nat_beq t 0x70) (do s ← success (value zones fuel) n; pure (Answer.success_message s))
        (branch (nat_beq t 0x7e) (do b ← ignored n; pure (Answer.ignored_message b))
          (branch (nat_beq t 0x7f) (do e ← failure zones fuel n; pure (Answer.failure_message e))
            (branch (nat_beq t 0x71)
              (do vs ← record_message (value zones fuel) n; pure (Answer.record_values vs))
              (pure (Answer.unexpected_tag t)))))

  unfoldable pub top_level : ℕ → Run Answer
  unfolding by_tag
  top_level fuel = do n ← call Unpacker.len_of; t ← call Unpacker.struct_tag; by_tag fuel n t

  -- `h.err` is kept from message to message: only the unpacker is reset.
  unfoldable pub hydrate_with : ℕ → List ℕ → Run Answer
  unfolding top_level
  hydrate_with fuel buf h =
      (next >> λ k. branch (is_struct k.unp.curr) (top_level fuel) (pure Answer.expected_struct) k)
        (record h { unp = Unpacker.reset buf h.unp })

  -- With a level of fuel for each byte and two more.
  unfoldable pub hydrate : List ℕ → Run Answer
  unfolding hydrate_with
  hydrate buf = hydrate_with (suc (length buf + 1)) buf
