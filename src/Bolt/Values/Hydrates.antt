-- ===== src/Bolt/Values/Hydrates.antt =====
-- `hydrate` on any bytes: it comes to an answer or panics, and never reads outside its buffer.
use neo4j_go_driver.Base.{
  ℕ, zero, suc, ◌+◌, ◌^◌, ◌≤◌, ◌<◌, Bool, true, false, Option, none, some, List, [], arith, length,
}
use neo4j_go_driver.Packstream.Unpacker
use neo4j_go_driver.Packstream.Unpacker.{Unpacker}
use neo4j_go_driver.Packstream.Safety.{reset-IsSound}
use neo4j_go_driver.Packstream.Forward.{refl-IsAhead, set_err-IsAhead}
use neo4j_go_driver.Bolt.Values.Value.{Value, Text}
use neo4j_go_driver.Bolt.Values.Times.{Zones}
use neo4j_go_driver.Bolt.Values.Run.{Run, Hydrator, pure, branch}
use neo4j_go_driver.Bolt.Values.Success.{
  Success, QueryType, Counter, RoutingTable, query_type, set_query_type, success_stats,
  routing_table, read_bool, trash, parse_stat_value, read_stats, some_counters, read_role,
  routing_table_role, read_servers, read_table,
}
use neo4j_go_driver.Bolt.Values.Message.{
  SuccessKey, success_key, array_items, success_field, read_success, success, record_message,
  ignored, by_tag, top_level, hydrate_with, hydrate, is_struct, Answer,
}
use neo4j_go_driver.Bolt.Values.Steady.{
  IsSteady, IsSteadyOn, Ends, pure-IsSteady, bind-IsSteady, then-IsSteady, next-IsSteady,
  next_then-IsSteady, bind-IsSteadyOn, then-IsSteadyOn, weaken-IsSteadyOn, set_err-IsSteady,
  assert_length-IsSteady, unless_err-IsSteady,
}
use neo4j_go_driver.Bolt.Values.Terminates.{
  read_rules, amap-IsSteady, next_string-IsSteady, next_len-IsSteady, branch-IsSteady,
  strings-IsSteady, read_items-IsSteady,
}
use neo4j_go_driver.Bolt.Values.Enough.{value-IsSteadyOn}
use neo4j_go_driver.Bolt.Values.Answers.{failure-IsSteady}

module _ {n : ℕ} where
  read_bool-IsSteady : IsSteady n read_bool
  unfolding read_bool Unpacker.bool
  read_bool-IsSteady = record {
    run = λ h i l.
        ground (arith, refl-IsAhead i, set_err-IsAhead h.unp i Unpacker.UnpackError.illegal_bool);
  }

  parse_stat_value-IsSteady : (key : Text) → IsSteady n (parse_stat_value key)
  unfolding parse_stat_value
  parse_stat_value-IsSteady key = search (read_rules, read_bool-IsSteady)

  read_stats-IsSteady : (k : ℕ) (c : List (Text × Counter)) → IsSteady n (read_stats k c)
  unfolding read_stats
  read_stats-IsSteady zero c = pure-IsSteady c
  read_stats-IsSteady (suc k) c = bind-IsSteady _ _ next_string-IsSteady (λ key.
      then-IsSteady _ _ next-IsSteady
        (bind-IsSteady _ _ (parse_stat_value-IsSteady key) (λ v. read_stats-IsSteady k _)))

  some_counters-IsSteady : (k : ℕ) → IsSteady n (some_counters k)
  some_counters-IsSteady zero = pure-IsSteady none
  some_counters-IsSteady (suc k) =
      bind-IsSteady _ _ (read_stats-IsSteady (suc k) []) (λ c. pure-IsSteady _)

  success_stats-IsSteady : IsSteady n success_stats
  unfolding success_stats
  success_stats-IsSteady = bind-IsSteady _ _ (search read_rules) some_counters-IsSteady

  set_query_type-IsSteady :
      (s : Text) (t : Option QueryType) (succ : Success) → IsSteady n (set_query_type s t succ)
  unfolding set_query_type
  set_query_type-IsSteady s (some t) succ = pure-IsSteady _
  set_query_type-IsSteady s none succ = then-IsSteady _ _ (set_err-IsSteady _) (pure-IsSteady succ)

module _ {n : ℕ} (value : Run Value) (s : IsSteadyOn n value) where
  trash-IsSteadyOn : IsSteadyOn n (trash value)
  unfolding trash
  trash-IsSteadyOn = bind-IsSteadyOn value _ s (λ v. pure-IsSteady tt)

  branch-IsSteadyOn {ℓ} :
      {A : Type ℓ} (b : Bool) (m k : Run A)
      → IsSteady n m
      → IsSteadyOn n k
      → IsSteadyOn n (branch b m k)
  unfolding branch
  branch-IsSteadyOn true m k p q = weaken-IsSteadyOn m p
  branch-IsSteadyOn false m k p q = q

  read_role-IsSteady : (k : ℕ) (r : Text × List Text) → IsSteady n (read_role value k r)
  unfolding read_role
  read_role-IsSteady zero r = pure-IsSteady r
  read_role-IsSteady (suc k) (role, addresses) = bind-IsSteady _ _ next_string-IsSteady (λ key.
      next_then-IsSteady _ (
        bind-IsSteadyOn _ _
          (branch-IsSteadyOn _ _ _ (bind-IsSteady _ _ (search read_rules) (λ t. pure-IsSteady _)) (
            branch-IsSteadyOn _ _ _ (bind-IsSteady _ _ strings-IsSteady (λ t. pure-IsSteady _))
              (then-IsSteadyOn _ _ trash-IsSteadyOn (pure-IsSteady (role, addresses)))))
          (λ r. read_role-IsSteady k r)))

  routing_table_role-IsSteady : (rt : RoutingTable) → IsSteady n (routing_table_role value rt)
  unfolding routing_table_role
  routing_table_role-IsSteady rt =
      bind-IsSteady _ _ next_len-IsSteady
        (λ k. bind-IsSteady _ _ (read_role-IsSteady k _) (λ r. pure-IsSteady _))

  read_servers-IsSteady : (k : ℕ) (rt : RoutingTable) → IsSteady n (read_servers value k rt)
  unfolding read_servers
  read_servers-IsSteady zero rt = pure-IsSteady rt
  read_servers-IsSteady (suc k) rt =
      bind-IsSteady _ _ (routing_table_role-IsSteady rt) (λ t. read_servers-IsSteady k t)

  read_table-IsSteady : (k : ℕ) (rt : RoutingTable) → IsSteady n (read_table value k rt)
  unfolding read_table
  read_table-IsSteady zero rt = pure-IsSteady rt
  read_table-IsSteady (suc k) rt = bind-IsSteady _ _ next_string-IsSteady (λ key.
      next_then-IsSteady _ (
        bind-IsSteadyOn _ _
          (branch-IsSteadyOn _ _ _ (bind-IsSteady _ _ (search read_rules) (λ t. pure-IsSteady _)) (
            branch-IsSteadyOn _ _ _
              (bind-IsSteady _ _ (search read_rules) (λ m. read_servers-IsSteady m rt))
              (branch-IsSteadyOn _ _ _
                (bind-IsSteady _ _ (search read_rules) (λ t. pure-IsSteady _))
                (then-IsSteadyOn _ _ trash-IsSteadyOn (pure-IsSteady rt)))))
          (λ t. read_table-IsSteady k t)))

  routing_table-IsSteady : IsSteady n (routing_table value)
  unfolding routing_table
  routing_table-IsSteady = bind-IsSteady _ _ (search read_rules) (λ k. read_table-IsSteady k _)

  array_items-IsSteady : IsSteady n (array_items value)
  unfolding array_items
  array_items-IsSteady = bind-IsSteady _ _ (search read_rules) (λ k. read_items-IsSteady value s k)

  success_field-IsSteadyOn :
      (k : SuccessKey) (succ : Success) → IsSteadyOn n (success_field value k succ)
  unfolding success_field
  success_field-IsSteadyOn SuccessKey.other_key succ =
      then-IsSteadyOn _ _ trash-IsSteadyOn (pure-IsSteady succ)
  success_field-IsSteadyOn SuccessKey.fields_key succ =
      weaken-IsSteadyOn _ (bind-IsSteady _ _ strings-IsSteady (λ x. pure-IsSteady _))
  success_field-IsSteadyOn SuccessKey.patch_bolt_key succ =
      weaken-IsSteadyOn _ (bind-IsSteady _ _ strings-IsSteady (λ x. pure-IsSteady _))
  success_field-IsSteadyOn SuccessKey.has_more_key succ =
      weaken-IsSteadyOn _ (bind-IsSteady _ _ read_bool-IsSteady (λ x. pure-IsSteady _))
  success_field-IsSteadyOn SuccessKey.type_key succ =
      weaken-IsSteadyOn _
        (bind-IsSteady _ _ (search read_rules) (λ t. set_query_type-IsSteady t (query_type t) succ))
  success_field-IsSteadyOn SuccessKey.stats_key succ =
      weaken-IsSteadyOn _ (bind-IsSteady _ _ success_stats-IsSteady (λ x. pure-IsSteady _))
  success_field-IsSteadyOn SuccessKey.plan_key succ =
      weaken-IsSteadyOn _ (bind-IsSteady _ _ (amap-IsSteady value s) (λ x. pure-IsSteady _))
  success_field-IsSteadyOn SuccessKey.profile_key succ =
      weaken-IsSteadyOn _ (bind-IsSteady _ _ (amap-IsSteady value s) (λ x. pure-IsSteady _))
  success_field-IsSteadyOn SuccessKey.hints_key succ =
      weaken-IsSteadyOn _ (bind-IsSteady _ _ (amap-IsSteady value s) (λ x. pure-IsSteady _))
  success_field-IsSteadyOn SuccessKey.notifications_key succ =
      weaken-IsSteadyOn _ (bind-IsSteady _ _ array_items-IsSteady (λ x. pure-IsSteady _))
  success_field-IsSteadyOn SuccessKey.statuses_key succ =
      weaken-IsSteadyOn _ (bind-IsSteady _ _ array_items-IsSteady (λ x. pure-IsSteady _))
  success_field-IsSteadyOn SuccessKey.rt_key succ =
      weaken-IsSteadyOn _ (bind-IsSteady _ _ routing_table-IsSteady (λ x. pure-IsSteady _))
  success_field-IsSteadyOn k succ = weaken-IsSteadyOn _ (search read_rules)

  read_success-IsSteady : (k : ℕ) (succ : Success) → IsSteady n (read_success value k succ)
  unfolding read_success
  read_success-IsSteady zero succ = pure-IsSteady succ
  read_success-IsSteady (suc k) succ = bind-IsSteady _ _ next_string-IsSteady (λ key.
      next_then-IsSteady _ (
        bind-IsSteadyOn _ _ (success_field-IsSteadyOn (success_key key) succ)
          (λ t. read_success-IsSteady k t)))

  success-IsSteady : (k : ℕ) → IsSteady n (success value k)
  unfolding success
  success-IsSteady k = then-IsSteady _ _ (assert_length-IsSteady "success" 1 k) (
      unless_err-IsSteady none _ (
        bind-IsSteady _ _ next_len-IsSteady
          (λ m. bind-IsSteady _ _ (read_success-IsSteady m _) (λ t. pure-IsSteady _))))

  record_message-IsSteady : (k : ℕ) → IsSteady n (record_message value k)
  unfolding record_message
  record_message-IsSteady k = then-IsSteady _ _ (assert_length-IsSteady "record" 1 k) (
      unless_err-IsSteady none _ (
        bind-IsSteady _ _ next_len-IsSteady
          (λ m. bind-IsSteady _ _ (read_items-IsSteady value s m) (λ t. pure-IsSteady _))))

module _ (zones : Zones) (inner : ℕ) where
  by_tag-IsSteady : (n t : ℕ) → IsSteady inner (by_tag zones (suc inner) n t)
  unfolding by_tag ignored
  by_tag-IsSteady n t =
      let s = value-IsSteadyOn zones inner in
      branch-IsSteady _ _ _ (bind-IsSteady _ _ (success-IsSteady _ s n) (λ x. pure-IsSteady _)) (
        branch-IsSteady _ _ _
          (bind-IsSteady _ _
            (then-IsSteady _ _ (assert_length-IsSteady "ignored" 0 n)
              (unless_err-IsSteady false _ (pure-IsSteady true)))
            (λ x. pure-IsSteady _))
          (branch-IsSteady _ _ _
            (bind-IsSteady _ _ (failure-IsSteady zones inner n) (λ x. pure-IsSteady _))
            (branch-IsSteady _ _ _
              (bind-IsSteady _ _ (record_message-IsSteady _ s n) (λ x. pure-IsSteady _))
              (pure-IsSteady _))))

  top_level-IsSteady : IsSteady inner (top_level zones (suc inner))
  unfolding top_level
  top_level-IsSteady =
      bind-IsSteady _ _ (search read_rules)
        (λ n. bind-IsSteady _ _ (search read_rules) (λ t. by_tag-IsSteady n t))

  after_next-IsSteady : IsSteady inner (λ k.
      branch (is_struct k.unp.curr) (top_level zones (suc inner)) (pure Answer.expected_struct) k)
  after_next-IsSteady = record {
    run = λ h i l.
        (branch-IsSteady (is_struct h.unp.curr) _ _ top_level-IsSteady (pure-IsSteady _)).run h i l;
  }

-- On any message of less than four gigabytes less eight bytes, `hydrate` comes to an answer or is a
-- Go panic: a level of calls for each byte and two more are enough. With an answer the unpacker
-- stands within the message.
pub hydrate-Ends :
    (zones : Zones) (buf : List ℕ) (h : Hydrator)
    → length buf + 8 < 2 ^ 32
    → h.unp.mrk.numlenbytes ≤ 8
    → Ends (record h { unp = Unpacker.reset buf h.unp }) (hydrate zones buf h)
unfolding hydrate hydrate_with Unpacker.reset
hydrate-Ends zones buf h small width =
    (then-IsSteady _ _ next-IsSteady (after_next-IsSteady zones (length buf + 1))).run
      (record h { unp = Unpacker.reset buf h.unp }) (reset-IsSound buf h.unp small width)
      (omega arith)
