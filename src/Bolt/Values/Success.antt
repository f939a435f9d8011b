-- ===== src/Bolt/Values/Success.antt =====
-- neo4j/internal/bolt/hydrator.go, `success`, with its statistics and its routing table.
use neo4j_go_driver.Base.{
  ℕ, zero, suc, Bool, Option, none, some, List, [], ◌∷◌, if◌then◌else◌, ◌||◌,
}
use neo4j_go_driver.Base.Int.{ℤ, pos}
use neo4j_go_driver.Packstream.Unpacker
use neo4j_go_driver.Packstream.Unpacker.{Unpacker}
use neo4j_go_driver.Bolt.Values.Value.{Value, Fields, Text, ascii, text_beq}
use neo4j_go_driver.Bolt.Values.Run.{
  Run, done, ProtocolError, pure, ◌>>=◌, ◌>>◌, branch, call, next, set_err, next_string, next_len,
  strings,
}
use neo4j_go_driver.Bolt.Values.Summary.{PlanOf, Counts, Notification, GqlStatusObject}

pub data QueryType : Type 0 where
  unknown_query read write read_write schema_write : QueryType

pub data Counter : Type 0 where
  flag : Bool → Counter
  count : ℤ → Counter

pub record RoutingTable : Type 0 where
  pub time_to_live : ℤ
  pub database_name : Text
  pub routers : List Text
  pub readers : List Text
  pub writers : List Text

-- `num` is the number of keys. A list or a map that the message does not have is nil, `none`.
pub record Success : Type 0 where
  pub fields : Option (List Text)
  pub tfirst : ℤ
  pub qid : ℤ
  pub bookmark : Text
  pub connection_id : Text
  pub server : Text
  pub db : Text
  pub has_more : Bool
  pub tlast : ℤ
  pub qtype : QueryType
  pub counters : Option (List (Text × Counter))
  pub plan : Option (PlanOf Unit)
  pub profile : Option (PlanOf Counts)
  pub notifications : List Notification
  pub statuses : List GqlStatusObject
  pub routing_table : Option RoutingTable
  pub num : ℕ
  pub configuration_hints : Option Fields
  pub patches : Option (List Text)

-- `Unpacker.bool` always answers.
unfoldable pub read_bool : Run Bool
read_bool h = done (Unpacker.bool h.unp).0 (record h { unp = (Unpacker.bool h.unp).1 })

unfoldable pub parse_stat_value : Text → Run Counter
unfolding read_bool
parse_stat_value key =
    branch
      (text_beq key (ascii "contains-system-updates") || text_beq key (ascii "contains-updates"))
      (do b ← read_bool; pure (Counter.flag b)) (do i ← call Unpacker.int; pure (Counter.count i))

-- `counts[key] = val`
unfoldable pub set_counter : Text → Counter → List (Text × Counter) → List (Text × Counter)
set_counter key value [] = (key, value) ∷ []
set_counter key value ((name, old) ∷ more) =
    let later = set_counter key value more in
    if text_beq name key then (name, value) ∷ more else (name, old) ∷ later

unfoldable pub read_stats : ℕ → List (Text × Counter) → Run (List (Text × Counter))
unfolding parse_stat_value set_counter
read_stats zero counts = pure counts
read_stats (suc n) counts = do
  key ← next_string
  next
  val ← parse_stat_value key
  read_stats n (set_counter key val counts)

abbrev pub some_counters : ℕ → Run (Option (List (Text × Counter)))
some_counters zero = pure none
some_counters (suc n) = do counts ← read_stats (suc n) []; pure (some counts)

unfoldable pub success_stats : Run (Option (List (Text × Counter)))
unfolding read_stats
success_stats = do n ← call Unpacker.len_of; some_counters n

unfoldable pub query_type : Text → Option QueryType
query_type s =
    if text_beq s (ascii "r")
    then some QueryType.read
    else if text_beq s (ascii "w")
    then some QueryType.write
    else if text_beq s (ascii "rw")
    then some QueryType.read_write
    else if text_beq s (ascii "s")
    then some QueryType.schema_write
    else none

-- An unknown type is an error, and leaves the type as it was.
unfoldable pub set_query_type : Text → Option QueryType → Success → Run Success
set_query_type s (some t) succ = pure (record succ { qtype = t })
set_query_type s none succ = set_err (ProtocolError.query_type s) >> pure succ

-- The addresses of a role replace those that came before.
unfoldable pub set_role : Text → List Text → RoutingTable → RoutingTable
set_role role addresses rt =
    if text_beq role (ascii "READ")
    then record rt { readers = addresses }
    else if text_beq role (ascii "WRITE")
    then record rt { writers = addresses }
    else if text_beq role (ascii "ROUTE")
    then record rt { routers = addresses }
    else rt

module _ (value : Run Value) where
  -- The value is dropped, its errors are not.
  unfoldable pub trash : Run (Unit {0})
  trash = value >>= λ v. pure tt

  -- The keys of one entry of `servers`: its role and its addresses.
  unfoldable pub read_role : ℕ → Text × List Text → Run (Text × List Text)
  unfolding trash
  read_role zero r = pure r
  read_role (suc n) (role, addresses) = do
    key ← next_string
    next
    r ←
        branch (text_beq key (ascii "role")) (do s ← call Unpacker.string; pure (s, addresses))
          (branch (text_beq key (ascii "addresses")) (do a ← strings; pure (role, a))
            (trash >> pure (role, addresses)))
    read_role n r

  unfoldable pub routing_table_role : RoutingTable → Run RoutingTable
  unfolding read_role set_role
  routing_table_role rt = do
    nkeys ← next_len
    r ← read_role nkeys ([], [])
    pure (set_role r.0 r.1 rt)

  unfoldable pub read_servers : ℕ → RoutingTable → Run RoutingTable
  read_servers zero rt = pure rt
  read_servers (suc n) rt = do t ← routing_table_role rt; read_servers n t

  unfoldable pub read_table : ℕ → RoutingTable → Run RoutingTable
  read_table zero rt = pure rt
  read_table (suc n) rt = do
    key ← next_string
    next
    t ←
        branch (text_beq key (ascii "ttl"))
          (do i ← call Unpacker.int; pure (record rt { time_to_live = i }))
          (branch (text_beq key (ascii "servers")) (do m ← call Unpacker.len_of; read_servers m rt)
            (branch (text_beq key (ascii "db"))
              (do s ← call Unpacker.string; pure (record rt { database_name = s }))
              (trash >> pure rt)))
    read_table n t

  unfoldable pub routing_table : Run RoutingTable
  unfolding read_table
  routing_table = do
    nkeys ← call Unpacker.len_of
    read_table nkeys (record {
      time_to_live = pos 0;
      database_name = [];
      routers = [];
      readers = [];
      writers = [];
    })
