-- ===== src/Bolt/Values/Terminates.antt =====
-- The hydrator's `value` on any bytes ends with fuel for one level more than there are bytes.
use neo4j_go_driver.Base.{ℕ, zero, suc, Bool, true, false, Option, none, some, List, arith, length}
use mathlib.Core.Option
use neo4j_go_driver.Base.Int.{ℤ}
use neo4j_go_driver.Packstream.Forward.{
  refl-IsAhead, len_of-Reads, int-Reads, float-Reads, string-Reads, byte_array-Reads, uuid-Reads,
  struct_tag-Reads,
}
use neo4j_go_driver.Bolt.Values.Value.{Value, Items, Fields}
use neo4j_go_driver.Bolt.Values.Run.{
  Run, ProtocolError, pure, ◌>>=◌, ◌>>◌, branch, set_err, next_int, next_float, next_string,
  next_len, read_strings, strings,
}
use neo4j_go_driver.Bolt.Values.Struct.{
  refuse, array, amap, node, node_with_element_id, relationship, relationship_with_element_id,
  relationnode, relationnode_with_element_id, path, read_items, read_entries, unsupported_type,
  is_node, is_rel_node, read_nodes, read_rel_nodes, read_indexes, finish_path, if_cast,
}
use neo4j_go_driver.Bolt.Values.Steady.{
  IsSteady, IsSteadyOn, Ends, pure-IsSteady, bind-IsSteady, then-IsSteady, call-IsSteady,
  next-IsSteady, set_err-IsSteady, assert_length-IsSteady, unless_err-IsSteady, next_then-IsSteady,
  bind-IsSteadyOn,
}

pub ruleset steady_rules = (
  pure-IsSteady, bind-IsSteady, then-IsSteady, call-IsSteady, next-IsSteady, set_err-IsSteady,
  assert_length-IsSteady, unless_err-IsSteady, next_then-IsSteady, bind-IsSteadyOn, len_of-Reads,
  int-Reads, float-Reads, string-Reads, byte_array-Reads, uuid-Reads, struct_tag-Reads,
)

module _ {n : ℕ} where
  pub next_int-IsSteady : IsSteady n next_int
  unfolding next_int
  next_int-IsSteady = search steady_rules

  pub next_float-IsSteady : IsSteady n next_float
  unfolding next_float
  next_float-IsSteady = search steady_rules

  pub next_string-IsSteady : IsSteady n next_string
  unfolding next_string
  next_string-IsSteady = search steady_rules

  pub next_len-IsSteady : IsSteady n next_len
  unfolding next_len
  next_len-IsSteady = search steady_rules

  read_strings-IsSteady : (k : ℕ) → IsSteady n (read_strings k)
  unfolding read_strings
  read_strings-IsSteady zero = search steady_rules
  read_strings-IsSteady (suc k) =
      bind-IsSteady _ _ next_string-IsSteady (λ s. search (steady_rules, read_strings-IsSteady k))

  pub strings-IsSteady : IsSteady n strings
  unfolding strings
  strings-IsSteady = search (steady_rules, read_strings-IsSteady)

  pub refuse-IsSteady : (e : ProtocolError) → IsSteady n (refuse e)
  unfolding refuse
  refuse-IsSteady e = search steady_rules

  pub branch-IsSteady {ℓ} :
      {A : Type ℓ} (b : Bool) (m k : Run A)
      → IsSteady n m
      → IsSteady n k
      → IsSteady n (branch b m k)
  unfolding branch
  branch-IsSteady true m k s t = s
  branch-IsSteady false m k s t = t

  cast_step-IsSteady :
      (b : Bool) (e : ProtocolError) (rest : Run (Option Items)) (f : Items → Items)
      → IsSteady n rest
      → IsSteady n (branch b (rest >>= λ vs. pure (Option.map f vs)) (set_err e >> pure none))
  cast_step-IsSteady b e rest f s =
      branch-IsSteady b _ _ (bind-IsSteady rest _ s (λ vs. pure-IsSteady _))
        (then-IsSteady _ _ (set_err-IsSteady e) (pure-IsSteady none))

pub ruleset read_rules = (
  steady_rules, next_int-IsSteady, next_float-IsSteady, next_string-IsSteady, next_len-IsSteady,
  strings-IsSteady, refuse-IsSteady, branch-IsSteady,
)

module _ {n : ℕ} (value : Run Value) (s : IsSteadyOn n value) where
  pub read_items-IsSteady : (k : ℕ) → IsSteady n (read_items value k)
  unfolding read_items
  read_items-IsSteady zero = search read_rules
  read_items-IsSteady (suc k) = search (read_rules, read_items-IsSteady k)

  pub array-IsSteady : IsSteady n (array value)
  unfolding array
  array-IsSteady = search (read_rules, read_items-IsSteady)

  read_entries-IsSteady : (k : ℕ) (m : Fields) → IsSteady n (read_entries value k m)
  unfolding read_entries
  read_entries-IsSteady zero m = search read_rules
  read_entries-IsSteady (suc k) m = search (read_rules, read_entries-IsSteady k)

  pub amap-IsSteady : IsSteady n (amap value)
  unfolding amap
  amap-IsSteady = search (read_rules, read_entries-IsSteady)

  pub node-IsSteady : (k : ℕ) → IsSteady n (node value k)
  unfolding node
  node-IsSteady k = search (read_rules, amap-IsSteady) depth 30

  pub node_with_element_id-IsSteady : (k : ℕ) → IsSteady n (node_with_element_id value k)
  unfolding node_with_element_id
  node_with_element_id-IsSteady k = search (read_rules, amap-IsSteady) depth 30

  pub relationship-IsSteady : (k : ℕ) → IsSteady n (relationship value k)
  unfolding relationship
  relationship-IsSteady k = search (read_rules, amap-IsSteady) depth 30

  pub relationship_with_element_id-IsSteady :
      (k : ℕ) → IsSteady n (relationship_with_element_id value k)
  unfolding relationship_with_element_id
  relationship_with_element_id-IsSteady k = search (read_rules, amap-IsSteady) depth 30

  pub relationnode-IsSteady : (k : ℕ) → IsSteady n (relationnode value k)
  unfolding relationnode
  relationnode-IsSteady k = search (read_rules, amap-IsSteady) depth 30

  pub relationnode_with_element_id-IsSteady :
      (k : ℕ) → IsSteady n (relationnode_with_element_id value k)
  unfolding relationnode_with_element_id
  relationnode_with_element_id-IsSteady k = search (read_rules, amap-IsSteady) depth 30

  pub unsupported_type-IsSteady : (k : ℕ) → IsSteady n (unsupported_type value k)
  unfolding unsupported_type
  unsupported_type-IsSteady k = search (read_rules, amap-IsSteady) depth 30

  -- The loops over the nodes and the relationships of a path, after the value of one of them.
  read_nodes-IsSteady : (k : ℕ) → IsSteady n (read_nodes value k)
  unfolding read_nodes
  read_nodes-IsSteady zero = search read_rules
  read_nodes-IsSteady (suc k) = next_then-IsSteady _ (
      bind-IsSteadyOn value _ s (λ v.
        cast_step-IsSteady (is_node v) ProtocolError.not_a_node (read_nodes value k) (Items.item v)
          (read_nodes-IsSteady k)))

  read_rel_nodes-IsSteady : (k : ℕ) → IsSteady n (read_rel_nodes value k)
  unfolding read_rel_nodes
  read_rel_nodes-IsSteady zero = search read_rules
  read_rel_nodes-IsSteady (suc k) = next_then-IsSteady _ (
      bind-IsSteadyOn value _ s (λ v.
        cast_step-IsSteady (is_rel_node v) ProtocolError.not_a_rel_node (read_rel_nodes value k)
          (Items.item v) (read_rel_nodes-IsSteady k)))

  read_indexes-IsSteady : (k : ℕ) → IsSteady n (read_indexes k)
  unfolding read_indexes
  read_indexes-IsSteady zero = search read_rules
  read_indexes-IsSteady (suc k) =
      bind-IsSteady _ _ next_int-IsSteady (λ i. search (steady_rules, read_indexes-IsSteady k))

  if_cast-IsSteady :
      (vs : Option Items) (f : Items → Run Value)
      → ((vs : Items) → IsSteady n (f vs))
      → IsSteady n (if_cast vs f)
  unfolding if_cast
  if_cast-IsSteady none f s = search read_rules
  if_cast-IsSteady (some vs) f s = s vs

  finish_path-IsSteady : (nodes rels : Items) (is : List ℤ) → IsSteady n (finish_path nodes rels is)
  unfolding finish_path refuse
  finish_path-IsSteady nodes rels is = record {
    run = λ h i l. ground (
      arith,
      refl-IsAhead i,
      (refuse-IsSteady (ProtocolError.odd_indices (length is))).run h i l,
    );
  }

  pub path-IsSteady : (k : ℕ) → IsSteady n (path value k)
  unfolding path
  path-IsSteady k =
      search
        (
          read_rules, if_cast-IsSteady, read_nodes-IsSteady, read_rel_nodes-IsSteady,
          read_indexes-IsSteady, finish_path-IsSteady,
        )
        depth 30
