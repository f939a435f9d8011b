-- ===== src/Bolt/Values/Hydrate.antt =====
-- neo4j/internal/bolt/hydrator.go, `value`. It calls itself for what a list, a map or a structure
-- holds; the model counts the levels with fuel.
use neo4j_go_driver.Base.{ℕ, zero, suc, true, false, leb, nat_beq, if◌then◌else◌}
use neo4j_go_driver.Packstream.Unpacker
use neo4j_go_driver.Packstream.Unpacker.{Unpacker, PackedType}
use neo4j_go_driver.Bolt.Values.Value.{Value}
use neo4j_go_driver.Bolt.Values.Times.{Zones}
use neo4j_go_driver.Bolt.Values.Run.{Run, out_of_fuel, ProtocolError, pure, ◌>>=◌, branch, call}
use neo4j_go_driver.Bolt.Values.Struct.{
  refuse, unknown_struct_error, array, amap, node, node_with_element_id, relationship,
  relationship_with_element_id, relationnode, relationnode_with_element_id, path, point2d, point3d,
  unsupported_type,
}
use neo4j_go_driver.Bolt.Values.Temporal.{
  date_time_offset, utc_date_time_offset, date_time_named_zone, utc_date_time_named_zone,
  local_date_time, date, time, local_time, duration,
}
use neo4j_go_driver.Bolt.Values.Vector.{vector}

-- The cases of the switch on the tag of a structure.
pub data Shape : Type 0 where
  node_shape relationship_shape rel_node_shape path_shape point2d_shape point3d_shape : Shape
  vector_shape offset_shape utc_offset_shape zone_shape utc_zone_shape : Shape
  local_date_time_shape date_shape time_shape local_time_shape duration_shape : Shape
  unsupported_shape unknown_shape : Shape

unfoldable pub shape_of : ℕ → Shape
shape_of t =
    if nat_beq t b'N'
    then Shape.node_shape
    else if nat_beq t b'R'
    then Shape.relationship_shape
    else if nat_beq t b'r'
    then Shape.rel_node_shape
    else if nat_beq t b'P'
    then Shape.path_shape
    else if nat_beq t b'X'
    then Shape.point2d_shape
    else if nat_beq t b'Y'
    then Shape.point3d_shape
    else if nat_beq t b'V'
    then Shape.vector_shape
    else if nat_beq t b'F'
    then Shape.offset_shape
    else if nat_beq t b'I'
    then Shape.utc_offset_shape
    else if nat_beq t b'f'
    then Shape.zone_shape
    else if nat_beq t b'i'
    then Shape.utc_zone_shape
    else if nat_beq t b'd'
    then Shape.local_date_time_shape
    else if nat_beq t b'D'
    then Shape.date_shape
    else if nat_beq t b'T'
    then Shape.time_shape
    else if nat_beq t b't'
    then Shape.local_time_shape
    else if nat_beq t b'E'
    then Shape.duration_shape
    else if nat_beq t b'?'
    then Shape.unsupported_shape
    else Shape.unknown_shape

-- Bolt 5 gives the entities an element id.
unfoldable pub since5 : Run Value → Run Value → Run Value
unfolding branch
since5 now before h = branch (leb 5 h.bolt_major) now before h

-- The two encodings of an instant: one where the connection agreed on UTC, one where not.
unfoldable pub when_utc : Run Value → Run Value → Run Value
unfolding branch
when_utc now before h = branch h.use_utc now before h

-- A UUID, on a connection that may carry them.
unfoldable pub uuid_value : Run Value
unfolding branch refuse
uuid_value h =
    branch h.supports_uuid (do u ← call Unpacker.uuid; pure (Value.uuid u))
      (refuse ProtocolError.early_uuid) h

module _ (zones : Zones) where
  unfoldable pub structure_of : Shape → Run Value → ℕ → ℕ → Run Value
  unfolding unknown_struct_error since5 when_utc
  structure_of Shape.node_shape value t n = since5 (node_with_element_id value n) (node value n)
  structure_of Shape.relationship_shape value t n =
      since5 (relationship_with_element_id value n) (relationship value n)
  structure_of Shape.rel_node_shape value t n =
      since5 (relationnode_with_element_id value n) (relationnode value n)
  structure_of Shape.path_shape value t n = path value n
  structure_of Shape.point2d_shape value t n = point2d
  structure_of Shape.point3d_shape value t n = point3d
  structure_of Shape.vector_shape value t n = vector n
  structure_of Shape.offset_shape value t n = when_utc (unknown_struct_error t) date_time_offset
  structure_of Shape.utc_offset_shape value t n =
      when_utc utc_date_time_offset (unknown_struct_error t)
  structure_of Shape.zone_shape value t n =
      when_utc (unknown_struct_error t) (date_time_named_zone zones)
  structure_of Shape.utc_zone_shape value t n =
      when_utc (utc_date_time_named_zone zones) (unknown_struct_error t)
  structure_of Shape.local_date_time_shape value t n = local_date_time zones
  structure_of Shape.date_shape value t n = date
  structure_of Shape.time_shape value t n = time
  structure_of Shape.local_time_shape value t n = local_time
  structure_of Shape.duration_shape value t n = duration
  structure_of Shape.unsupported_shape value t n = unsupported_type value n
  structure_of Shape.unknown_shape value t n = unknown_struct_error t

  -- The structure of tag `t` and length `n`.
  unfoldable pub structure : Run Value → ℕ → ℕ → Run Value
  unfolding structure_of
  structure value t n = structure_of (shape_of t) value t n

  -- What was detected is of type `t`.
  unfoldable pub value_of : PackedType → Run Value → Run Value
  unfolding structure uuid_value refuse
  value_of PackedType.packed_int value = do i ← call Unpacker.int; pure (Value.int i)
  value_of PackedType.packed_float value = do x ← call Unpacker.float; pure (Value.float x)
  value_of PackedType.packed_str value = do s ← call Unpacker.string; pure (Value.text s)
  value_of PackedType.packed_struct value = do
    t ← call Unpacker.struct_tag
    n ← call Unpacker.len_of
    structure value t n
  value_of PackedType.packed_byte_array value = do
    b ← call Unpacker.byte_array
    pure (Value.bytes b)
  value_of PackedType.packed_uuid value = uuid_value
  value_of PackedType.packed_array value = array value
  value_of PackedType.packed_map value = do m ← amap value; pure (Value.dict m)
  value_of PackedType.packed_nil value = pure Value.nil
  value_of PackedType.packed_true value = pure (Value.boolean true)
  value_of PackedType.packed_false value = pure (Value.boolean false)
  value_of PackedType.packed_undef value =
      refuse (ProtocolError.unknown_type PackedType.packed_undef)

  -- One call of `value`, with `value` for the calls that it makes.
  unfoldable pub value_by : Run Value → Run Value
  unfolding value_of
  value_by value h = value_of h.unp.curr value h

  unfoldable pub value : ℕ → Run Value
  unfolding value_by
  value zero h = out_of_fuel
  value (suc fuel) h = value_by (value fuel) h
