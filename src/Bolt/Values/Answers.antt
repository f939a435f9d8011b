-- ===== src/Bolt/Values/Answers.antt =====
-- `hydrate` on any bytes ends, whatever the message, with the fuel that it is given.
use neo4j_go_driver.Base.{ℕ, zero, suc, ◌≤◌, ◌≡◌, true, Option, none, arith, inl, inr}
use neo4j_go_driver.Packstream.Safety.{IsSound}
use neo4j_go_driver.Packstream.Forward.{noted, refl-IsAhead}
use neo4j_go_driver.Bolt.Values.Value.{Value}
use neo4j_go_driver.Bolt.Values.Times.{Zones}
use neo4j_go_driver.Bolt.Values.Run.{Run, Hydrator, ◌>>◌, get_err, assert_length, unless_err}
use neo4j_go_driver.Bolt.Values.Hydrate.{value}
use neo4j_go_driver.Bolt.Values.Failure.{
  Neo4jError, FailureKey, Failing, failure_field, read_failure, failure_map, cause_of, failure,
  failure_key,
}
use neo4j_go_driver.Bolt.Values.Steady.{
  IsSteady, IsSteadyOn, Ends, pure-IsSteady, bind-IsSteady, then-IsSteady, next-IsSteady,
  next_then-IsSteady, bind-IsSteadyOn, weaken-IsSteadyOn, assert_length-IsSteady,
  unless_err-IsSteady,
}
use neo4j_go_driver.Bolt.Values.Terminates.{read_rules, amap-IsSteady, next_string-IsSteady}
use neo4j_go_driver.Bolt.Values.Enough.{value-IsSteadyOn, within_buffer}

restrict-IsSteadyOn {ℓ} :
    {A : Type ℓ} {n : ℕ} (k : ℕ) (m : Run A) → k ≤ n → IsSteadyOn n m → IsSteadyOn k m
restrict-IsSteadyOn k m h s = record {
  run = λ g i l d. s.run g i (omega arith) (elim d [ inl p ↦ inl (omega arith) | inr e ↦ inr e ]);
}

module _ {n : ℕ} (value : Run Value) (nested : Run (Option Neo4jError)) (s : IsSteadyOn n value)
    (t : IsSteadyOn n nested) where
  failure_field-IsSteadyOn :
      (k : FailureKey) (p : Failing) → IsSteadyOn n (failure_field value nested k p)
  unfolding failure_field
  failure_field-IsSteadyOn FailureKey.cause_key p =
      bind-IsSteadyOn nested _ t (λ c. pure-IsSteady _)
  failure_field-IsSteadyOn FailureKey.other_key p = bind-IsSteadyOn value _ s (λ v. pure-IsSteady _)
  failure_field-IsSteadyOn FailureKey.diagnostic_key p =
      weaken-IsSteadyOn _ (bind-IsSteady _ _ (amap-IsSteady value s) (λ m. pure-IsSteady _))
  failure_field-IsSteadyOn k p = weaken-IsSteadyOn _ (search read_rules)

  read_failure-IsSteady : (k : ℕ) (p : Failing) → IsSteady n (read_failure value nested k p)
  unfolding read_failure
  read_failure-IsSteady zero p = pure-IsSteady p
  read_failure-IsSteady (suc k) p = bind-IsSteady _ _ next_string-IsSteady (λ key.
      next_then-IsSteady _ (
        bind-IsSteadyOn _ _ (failure_field-IsSteadyOn (failure_key key) p)
          (λ q. read_failure-IsSteady k q)))

  failure_map-IsSteady : IsSteady n (failure_map value nested)
  unfolding failure_map
  failure_map-IsSteady =
      bind-IsSteady _ _ (search read_rules)
        (λ k. bind-IsSteady _ _ (read_failure-IsSteady k _) (λ p. pure-IsSteady _))

  -- The method itself, after the marker of its map.
  body-IsSteady :
      (k : ℕ)
      → IsSteady n (assert_length "failure" 1 k >> unless_err none (failure_map value nested))
  body-IsSteady k =
      then-IsSteady _ _ (assert_length-IsSteady "failure" 1 k)
        (unless_err-IsSteady none _ failure_map-IsSteady)

-- Past the end of the buffer the method returns at once.
past_end :
    (h : Hydrator) (m : Run (Option Neo4jError))
    → IsSound h.unp
    → noted h.unp.err ≡ true
    → Ends h ((assert_length "failure" 1 1 >> unless_err none m) h)
unfolding assert_length unless_err get_err ◌>>◌
past_end h m i e = ground (arith, refl-IsAhead i)

module _ (zones : Zones) where
  cause_of-IsSteadyOn :
      (inner f : ℕ) → f ≤ inner → IsSteadyOn f (cause_of zones (suc inner) (suc f))
  unfolding cause_of
  cause_of-IsSteadyOn inner zero h = record {
    run = λ g i l d. elim d [
      | inr e ↦ past_end g _ i e.1
      | inl p ↦ elim (within_buffer zones g i p) [ ]
    ];
  }
  cause_of-IsSteadyOn inner (suc f) h = record {
    run = λ g i l d. elim d [
      | inr e ↦ past_end g _ i e.1
      | inl p ↦
          (body-IsSteady {n = f} (value zones (suc inner)) (cause_of zones (suc inner) (suc f))
              (restrict-IsSteadyOn f _ (omega arith) (value-IsSteadyOn zones inner))
              (cause_of-IsSteadyOn inner f (omega arith)) 1).run
            g i (omega arith)
    ];
  }

  pub failure-IsSteady : (inner n : ℕ) → IsSteady inner (failure zones (suc inner) n)
  unfolding failure
  failure-IsSteady inner n = then-IsSteady _ _ (assert_length-IsSteady "failure" 1 n) (
      unless_err-IsSteady none _ (
        then-IsSteady _ _ next-IsSteady (
          failure_map-IsSteady _ _ (value-IsSteadyOn zones inner)
            (cause_of-IsSteadyOn inner inner (omega arith)))))
