-- ===== src/Bolt/Values/Levels.antt =====
-- The fuel of `value`: one level of it uses up a byte, so that fuel for the bytes that are left and
-- two levels more is enough.
use neo4j_go_driver.Base.{ℕ, List, [], ◌∷◌, arith, leb, ◌^◌, map}
use neo4j_go_driver.Base.Int.{of_word}
use neo4j_go_driver.Packstream.Unpacker
use neo4j_go_driver.Packstream.Unpacker.{Unpacker, PackedType, packed_int}
use neo4j_go_driver.Packstream.Forward.{refl-IsAhead}
use neo4j_go_driver.Bolt.Values.Value.{Value, Elements}
use neo4j_go_driver.Bolt.Values.Times.{Zones}
use neo4j_go_driver.Bolt.Values.Run.{Run, ProtocolError, call}
use neo4j_go_driver.Bolt.Values.Struct.{unknown_struct_error, point2d, point3d}
use neo4j_go_driver.Bolt.Values.Temporal.{
  date_time_offset, utc_date_time_offset, date_time_named_zone, utc_date_time_named_zone,
  local_date_time, date, time, local_time, duration,
}
use neo4j_go_driver.Bolt.Values.Vector.{vector_of, vector_values, expect_bytes, read_values, vector}
use neo4j_go_driver.Bolt.Values.Hydrate.{Shape, since5, when_utc, structure_of}
use neo4j_go_driver.Bolt.Values.Steady.{IsSteady, IsSteadyOn, bind-IsSteady}
use neo4j_go_driver.Bolt.Values.Terminates.{
  read_rules, refuse-IsSteady, branch-IsSteady, node-IsSteady, node_with_element_id-IsSteady,
  relationship-IsSteady, relationship_with_element_id-IsSteady, relationnode-IsSteady,
  relationnode_with_element_id-IsSteady, unsupported_type-IsSteady, path-IsSteady,
}

module _ {n : ℕ} where
  vector_of-IsSteady :
      (width : ℕ) (elems : List ℕ → Elements) (values : List ℕ)
      → IsSteady n (vector_of width elems values)
  unfolding vector_of
  vector_of-IsSteady width elems values = record {
    run = λ h i l. ground (
      arith,
      refl-IsAhead i,
      (refuse-IsSteady (ProtocolError.vector_values_size width)).run h i l,
    );
  }

  vector_values-IsSteady : (m : ℕ) (values : List ℕ) → IsSteady n (vector_values m values)
  unfolding vector_values
  vector_values-IsSteady m values = record {
    run = λ h i l. ground (
      arith,
      (vector_of-IsSteady 8 Elements.float64s values).run h i l,
      (vector_of-IsSteady 4 Elements.float32s values).run h i l,
      (vector_of-IsSteady 1 (λ ws. Elements.int8s (map (of_word (2 ^ 7)) ws)) values).run h i l,
      (vector_of-IsSteady 2 (λ ws. Elements.int16s (map (of_word (2 ^ 15)) ws)) values).run h i l,
      (vector_of-IsSteady 4 (λ ws. Elements.int32s (map (of_word (2 ^ 31)) ws)) values).run h i l,
      (vector_of-IsSteady 8 (λ ws. Elements.int64s (map (of_word (2 ^ 63)) ws)) values).run h i l,
      (refuse-IsSteady (ProtocolError.vector_marker m)).run h i l,
    );
  }

  call-byte_array-IsSteady : IsSteady n (call Unpacker.byte_array)
  call-byte_array-IsSteady = search read_rules

  expect_bytes-IsSteady :
      (e : ProtocolError) (rest : List ℕ → Run Value)
      → ((b : List ℕ) → IsSteady n (rest b))
      → IsSteady n (expect_bytes e rest)
  unfolding expect_bytes
  expect_bytes-IsSteady e rest s = record {
    run = λ h i l.
        (branch-IsSteady _ _ _ (bind-IsSteady _ rest call-byte_array-IsSteady s)
            (refuse-IsSteady e)).run
          h i l;
  }

  read_values-IsSteady : (m : List ℕ) → IsSteady n (read_values m)
  unfolding read_values
  read_values-IsSteady [] = search read_rules
  read_values-IsSteady (m ∷ []) = search (read_rules, expect_bytes-IsSteady, vector_values-IsSteady)
  read_values-IsSteady (m ∷ x ∷ more) = search read_rules

  vector-IsSteady : (k : ℕ) → IsSteady n (vector k)
  unfolding vector
  vector-IsSteady k = search (read_rules, expect_bytes-IsSteady, read_values-IsSteady) depth 10

  date_time_offset-IsSteady : IsSteady n date_time_offset
  unfolding date_time_offset
  date_time_offset-IsSteady = search read_rules depth 10

  utc_date_time_offset-IsSteady : IsSteady n utc_date_time_offset
  unfolding utc_date_time_offset
  utc_date_time_offset-IsSteady = search read_rules depth 10

  date-IsSteady : IsSteady n date
  unfolding date
  date-IsSteady = search read_rules

  time-IsSteady : IsSteady n time
  unfolding time
  time-IsSteady = search read_rules

  local_time-IsSteady : IsSteady n local_time
  unfolding local_time
  local_time-IsSteady = search read_rules

  duration-IsSteady : IsSteady n duration
  unfolding duration
  duration-IsSteady = search read_rules depth 10

  point2d-IsSteady : IsSteady n point2d
  unfolding point2d
  point2d-IsSteady = search read_rules depth 10

  point3d-IsSteady : IsSteady n point3d
  unfolding point3d
  point3d-IsSteady = search read_rules depth 10

  unknown_struct_error-IsSteady : (t : ℕ) → IsSteady n (unknown_struct_error t)
  unfolding unknown_struct_error
  unknown_struct_error-IsSteady t = search read_rules

  since5-IsSteady : (m k : Run Value) → IsSteady n m → IsSteady n k → IsSteady n (since5 m k)
  unfolding since5
  since5-IsSteady m k s t = record {
    run = λ h i l. (branch-IsSteady (leb 5 h.bolt_major) m k s t).run h i l;
  }

  when_utc-IsSteady : (m k : Run Value) → IsSteady n m → IsSteady n k → IsSteady n (when_utc m k)
  unfolding when_utc
  when_utc-IsSteady m k s t = record {
    run = λ h i l. (branch-IsSteady h.use_utc m k s t).run h i l;
  }

  module _ (zones : Zones) where
    local_date_time-IsSteady : IsSteady n (local_date_time zones)
    unfolding local_date_time
    local_date_time-IsSteady = search read_rules depth 10

    date_time_named_zone-IsSteady : IsSteady n (date_time_named_zone zones)
    unfolding date_time_named_zone
    date_time_named_zone-IsSteady = search read_rules depth 10

    utc_date_time_named_zone-IsSteady : IsSteady n (utc_date_time_named_zone zones)
    unfolding utc_date_time_named_zone
    utc_date_time_named_zone-IsSteady = search read_rules depth 10

    module _ (nested : Run Value) (s : IsSteadyOn n nested) where
      pub structure_of-IsSteady :
          (w : Shape) (t k : ℕ) → IsSteady n (structure_of zones w nested t k)
      unfolding structure_of
      structure_of-IsSteady Shape.node_shape t k =
          since5-IsSteady _ _ (node_with_element_id-IsSteady nested s k) (node-IsSteady nested s k)
      structure_of-IsSteady Shape.relationship_shape t k =
          since5-IsSteady _ _ (relationship_with_element_id-IsSteady nested s k)
            (relationship-IsSteady nested s k)
      structure_of-IsSteady Shape.rel_node_shape t k =
          since5-IsSteady _ _ (relationnode_with_element_id-IsSteady nested s k)
            (relationnode-IsSteady nested s k)
      structure_of-IsSteady Shape.path_shape t k = path-IsSteady nested s k
      structure_of-IsSteady Shape.point2d_shape t k = point2d-IsSteady
      structure_of-IsSteady Shape.point3d_shape t k = point3d-IsSteady
      structure_of-IsSteady Shape.vector_shape t k = vector-IsSteady k
      structure_of-IsSteady Shape.offset_shape t k =
          when_utc-IsSteady _ _ (unknown_struct_error-IsSteady t) date_time_offset-IsSteady
      structure_of-IsSteady Shape.utc_offset_shape t k =
          when_utc-IsSteady _ _ utc_date_time_offset-IsSteady (unknown_struct_error-IsSteady t)
      structure_of-IsSteady Shape.zone_shape t k =
          when_utc-IsSteady _ _ (unknown_struct_error-IsSteady t) date_time_named_zone-IsSteady
      structure_of-IsSteady Shape.utc_zone_shape t k =
          when_utc-IsSteady _ _ utc_date_time_named_zone-IsSteady (unknown_struct_error-IsSteady t)
      structure_of-IsSteady Shape.local_date_time_shape t k = local_date_time-IsSteady
      structure_of-IsSteady Shape.date_shape t k = date-IsSteady
      structure_of-IsSteady Shape.time_shape t k = time-IsSteady
      structure_of-IsSteady Shape.local_time_shape t k = local_time-IsSteady
      structure_of-IsSteady Shape.duration_shape t k = duration-IsSteady
      structure_of-IsSteady Shape.unsupported_shape t k = unsupported_type-IsSteady nested s k
      structure_of-IsSteady Shape.unknown_shape t k = unknown_struct_error-IsSteady t
