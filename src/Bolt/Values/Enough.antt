-- ===== src/Bolt/Values/Enough.antt =====
-- `value` on any bytes ends, with fuel for the bytes that are left and two levels more.
use neo4j_go_driver.Base.{ℕ, zero, suc, ◌+◌, ◌≤◌, ◌<◌, ◌≡◌, arith, inl, inr}
use neo4j_go_driver.Packstream.Unpacker
use neo4j_go_driver.Packstream.Unpacker.{Unpacker, PackedType, packed_int}
use neo4j_go_driver.Packstream.Safety.{IsSound}
use neo4j_go_driver.Bolt.Values.Value.{Value}
use neo4j_go_driver.Bolt.Values.Times.{Zones}
use neo4j_go_driver.Bolt.Values.Run.{Run, Hydrator, pure, ◌>>=◌, call}
use neo4j_go_driver.Bolt.Values.Hydrate.{shape_of, structure, uuid_value, value_of, value_by, value}
use neo4j_go_driver.Bolt.Values.Steady.{IsSteady, IsSteadyOn, Ends, bind-IsSteady, pure-IsSteady}
use neo4j_go_driver.Bolt.Values.Terminates.{
  read_rules, branch-IsSteady, refuse-IsSteady, amap-IsSteady, array-IsSteady,
}
use neo4j_go_driver.Bolt.Values.Levels.{structure_of-IsSteady}

module _ {n : ℕ} where
  int_value-IsSteady : IsSteady n (call Unpacker.int >>= λ i. pure (Value.int i))
  int_value-IsSteady = search read_rules

  uuid_value-IsSteady : IsSteady n uuid_value
  unfolding uuid_value
  uuid_value-IsSteady = record {
    run = λ h i l.
        (branch-IsSteady h.supports_uuid _ _ (search read_rules) (refuse-IsSteady _)).run h i l;
  }

module _ (zones : Zones) where
  module _ {n : ℕ} (nested : Run Value) (s : IsSteadyOn n nested) where
    structure-IsSteady : (t k : ℕ) → IsSteady n (structure zones nested t k)
    unfolding structure
    structure-IsSteady t k = structure_of-IsSteady zones nested s (shape_of t) t k

    value_of-IsSteady : (t : PackedType) → IsSteady n (value_of zones t nested)
    unfolding value_of
    value_of-IsSteady PackedType.packed_array = array-IsSteady nested s
    value_of-IsSteady PackedType.packed_map =
        bind-IsSteady _ _ (amap-IsSteady nested s) (λ m. pure-IsSteady _)
    value_of-IsSteady PackedType.packed_uuid = uuid_value-IsSteady
    value_of-IsSteady PackedType.packed_struct = search (read_rules, structure-IsSteady)
    value_of-IsSteady t = search read_rules

    value_by-IsSteady : IsSteady n (value_by zones nested)
    unfolding value_by
    value_by-IsSteady = record { run = λ h i l. (value_of-IsSteady h.unp.curr).run h i l }

  -- An integer needs no level below it.
  value_of-int-IsSteady :
      {n : ℕ} (t : PackedType) (nested : Run Value)
      → t ≡ packed_int
      → IsSteady n (value_of zones t nested)
  unfolding value_of
  value_of-int-IsSteady t nested e = rw e int_value-IsSteady

  -- A level with fuel for it, given that anything but an integer has it below.
  level-IsSteadyOn :
      (n : ℕ) (nested : Run Value)
      → ((h : Hydrator)
          → IsSound h.unp
          → h.unp.len < h.unp.off + n
          → Ends h (value_by zones nested h))
      → IsSteadyOn n (value_by zones nested)
  unfolding value_by
  level-IsSteadyOn n nested below = record {
    run = λ h i l d. elim d [
      | inr e ↦ (value_of-int-IsSteady h.unp.curr nested e.0).run h i l
      | inl lt ↦ below h i lt
    ];
  }

  pub within_buffer : (h : Hydrator) → IsSound h.unp → h.unp.len < h.unp.off + 0 → ⊥
  within_buffer h i lt = omega (arith, i.within)

  pub value-IsSteadyOn : (fuel : ℕ) → IsSteadyOn fuel (value zones (suc fuel))
  unfolding value
  value-IsSteadyOn zero = level-IsSteadyOn zero _ (λ h i lt. elim (within_buffer h i lt) [ ])
  value-IsSteadyOn (suc fuel) =
      level-IsSteadyOn (suc fuel) _
        (λ h i lt. (value_by-IsSteady _ (value-IsSteadyOn fuel)).run h i (omega arith))

  -- With fuel for the bytes that are left and two levels more, `value` on any bytes gives a value
  -- or is a Go panic, and the unpacker it leaves has gone forward within its buffer.
  pub value-Ends :
      (h : Hydrator) (fuel : ℕ)
      → IsSound h.unp
      → h.unp.len + 2 ≤ h.unp.off + fuel
      → Ends h (value zones fuel h)
  unfolding value
  value-Ends h zero i l = elim (within_buffer h i (omega arith)) [ ]
  value-Ends h (suc fuel) i l = (value-IsSteadyOn fuel).run h i (omega arith) (inl (omega arith))
