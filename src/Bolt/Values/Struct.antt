-- ===== src/Bolt/Values/Struct.antt =====
-- The structures of neo4j/internal/bolt/hydrator.go, each after its tag and its length, and the
-- lists and maps. `value` is the hydrator's method of that name, which they call.
use neo4j_go_driver.Base.{
  ℕ, zero, suc, ◌%◌, ◌^◌, Bool, true, false, Option, none, some, List, [], ◌∷◌, length, nat_beq,
  if◌then◌else◌,
}
use neo4j_go_driver.Base.Int.{ℤ, to_word}
use mathlib.Core.Option
use neo4j_go_driver.Packstream.Unpacker
use neo4j_go_driver.Packstream.Unpacker.{Unpacker}
use neo4j_go_driver.Bolt.Values.Value.{Value, Items, Fields, Text, ascii, get_field, set_field}
use neo4j_go_driver.Bolt.Values.Times.{decimal}
use neo4j_go_driver.Bolt.Values.Path.{build_path}
use neo4j_go_driver.Bolt.Values.Run.{
  Run, done, panic, ProtocolError, pure, ◌>>=◌, ◌>>◌, branch, call, next, set_err, assert_length,
  unless_err, next_int, next_float, next_string, next_len, strings,
}

-- `h.setErr(...); return nil`
unfoldable pub refuse : ProtocolError → Run Value
refuse e = set_err e >> pure Value.nil

unfoldable pub unknown_struct_error : ℕ → Run Value
unfolding set_err
unknown_struct_error t = refuse (ProtocolError.unknown_struct t)

-- `_, ok := v.(dbtype.Node)` and `_, ok := v.(*relNode)`
unfoldable pub is_node : Value → Bool
is_node (Value.node i ls ps e) = true
is_node v = false

unfoldable pub is_rel_node : Value → Bool
is_rel_node (Value.rel_node i name ps e) = true
is_rel_node v = false

module _ (value : Run Value) where
  -- The rest of a list of which `n` items are still to be read.
  unfoldable pub read_items : ℕ → Run Items
  read_items zero = pure Items.end
  read_items (suc n) = do next; v ← value; vs ← read_items n; pure (Items.item v vs)

  unfoldable pub array : Run Value
  array = do n ← call Unpacker.len_of; vs ← read_items n; pure (Value.array vs)

  unfoldable pub read_entries : ℕ → Fields → Run Fields
  read_entries zero m = pure m
  read_entries (suc n) m = do key ← next_string; next; v ← value; read_entries n (set_field key v m)

  unfoldable pub amap : Run Fields
  amap = do n ← call Unpacker.len_of; read_entries n Fields.end_fields

  unfoldable pub node : ℕ → Run Value
  node num =
      assert_length "node" 3 num
      >> unless_err Value.nil (do
        id ← next_int
        next
        labels ← strings
        next
        props ← amap
        pure (Value.node id labels props (decimal id)))

  unfoldable pub node_with_element_id : ℕ → Run Value
  node_with_element_id num =
      assert_length "node" 4 num
      >> unless_err Value.nil (do
        id ← next_int
        next
        labels ← strings
        next
        props ← amap
        element_id ← next_string
        pure (Value.node id labels props element_id))

  unfoldable pub relationship : ℕ → Run Value
  relationship n =
      assert_length "relationship" 5 n
      >> unless_err Value.nil (do
        id ← next_int
        start ← next_int
        stop ← next_int
        name ← next_string
        next
        props ← amap
        pure (
            Value.relationship id start stop name props (decimal id) (decimal start)
              (decimal stop)))

  unfoldable pub relationship_with_element_id : ℕ → Run Value
  relationship_with_element_id n =
      assert_length "relationship" 8 n
      >> unless_err Value.nil (do
        id ← next_int
        start ← next_int
        stop ← next_int
        name ← next_string
        next
        props ← amap
        element_id ← next_string
        start_element_id ← next_string
        end_element_id ← next_string
        pure (
            Value.relationship id start stop name props element_id start_element_id end_element_id))

  unfoldable pub relationnode : ℕ → Run Value
  relationnode n =
      assert_length "relationnode" 3 n
      >> unless_err Value.nil (do
        id ← next_int
        name ← next_string
        next
        props ← amap
        pure (Value.rel_node id name props (decimal id)))

  unfoldable pub relationnode_with_element_id : ℕ → Run Value
  relationnode_with_element_id n =
      assert_length "relationnode" 4 n
      >> unless_err Value.nil (do
        id ← next_int
        name ← next_string
        next
        props ← amap
        element_id ← next_string
        pure (Value.rel_node id name props element_id))

  -- `none` where a value cannot be cast: the loop ends there.
  unfoldable pub read_nodes : ℕ → Run (Option Items)
  read_nodes zero = pure (some Items.end)
  read_nodes (suc n) = do
    next
    v ← value
    branch (is_node v) (do vs ← read_nodes n; pure (Option.map (Items.item v) vs))
        (set_err ProtocolError.not_a_node >> pure none)

  unfoldable pub read_rel_nodes : ℕ → Run (Option Items)
  read_rel_nodes zero = pure (some Items.end)
  read_rel_nodes (suc n) = do
    next
    v ← value
    branch (is_rel_node v) (do vs ← read_rel_nodes n; pure (Option.map (Items.item v) vs))
        (set_err ProtocolError.not_a_rel_node >> pure none)

unfoldable pub read_indexes : ℕ → Run (List ℤ)
read_indexes zero = pure []
read_indexes (suc n) = do i ← next_int; is ← read_indexes n; pure (i ∷ is)

-- The end of `path`, from the three arrays.
unfoldable pub finish_path : Items → Items → List ℤ → Run Value
finish_path nodes rels indexes =
    if nat_beq (length indexes % 2) 1
    then refuse (ProtocolError.odd_indices (length indexes))
    else (λ h. elim (build_path nodes rels indexes) [ none ↦ panic | some p ↦ done p h ])

-- A loop that has ended early has noted its error, and the method returns nil.
unfoldable pub if_cast : Option Items → (Items → Run Value) → Run Value
if_cast none rest = pure Value.nil
if_cast (some vs) rest = rest vs

unfoldable pub path : Run Value → ℕ → Run Value
unfolding if_cast
path value n =
    assert_length "path" 3 n
    >> unless_err Value.nil (do
      num_nodes ← next_len
      read ← read_nodes value num_nodes
      if_cast read (λ nodes. do
        num_rels ← next_len
        read_rels ← read_rel_nodes value num_rels
        if_cast read_rels (λ rels. do
          num ← next_len
          indexes ← read_indexes num
          finish_path nodes rels indexes)))

unfoldable pub point2d : Run Value
point2d = do
  id ← next_int
  x ← next_float
  y ← next_float
  pure (Value.point2d (to_word (2 ^ 32) id) x y)

unfoldable pub point3d : Run Value
point3d = do
  id ← next_int
  x ← next_float
  y ← next_float
  z ← next_float
  pure (Value.point3d (to_word (2 ^ 32) id) x y z)

-- `x.(string)`
abbrev pub as_string : Option Value → Option Text
as_string (some (Value.text s)) = some s
as_string x = none

unfoldable pub unsupported_type : Run Value → ℕ → Run Value
unsupported_type value n =
    assert_length "unsupported" 4 n
    >> unless_err Value.nil (do
      name ← next_string
      major ← next_int
      minor ← next_int
      next
      extra ← amap value
      pure (Value.unsupported name major minor (as_string (get_field (ascii "message") extra))))
