-- ===== src/Bolt/Connection/Terminates.antt =====
-- Which actions of a connection end. An action takes messages from those that are still to come, and
-- puts none back.
use neo4j_go_driver.Base.{
  ℕ, zero, suc, ◌<◌, ◌≤◌, ◌≡◌, ap, arith, Bool, true, false, Option, none, some, List, [], ◌∷◌,
  length,
}
use neo4j_go_driver.Bolt.Connection.Errors.{BoltState, BoltError}
use neo4j_go_driver.Bolt.Connection.State.{Message, Handler, Bolt5, Host}
use neo4j_go_driver.Bolt.Connection.Responses.{on_ignored, on_pull_record}
use neo4j_go_driver.Bolt.Connection.Queue.{
  Outcome, Run, done, failed, out_of_fuel, proceed, pure, ◌>>=◌, ◌>>◌, change, get, throw, choose,
  branch, unless_error, check_err, raise, receive_from, ended, early, with_current, while_waiting,
  ignored, to_first, take_message, respond, receive, receive_rounds, receive_all, assert_state,
}
use neo4j_go_driver.Bolt.Connection.Arrivals.{
  SameQueueIf, on_success-SameQueue, on_ignored-SameQueue, handle_failure-SameQueue,
  on_io_error-SameQueue,
}

-- An outcome with at most `n` messages to come, and one with fewer where it is no error.
abbrev pub Within : {A : Type 0} → ℕ → Outcome A → Type 0
Within n (done x c) = length c.arrivals ≤ n
Within n (failed e c) = length c.arrivals ≤ n
Within n out_of_fuel = ⊥

abbrev pub Below : {A : Type 0} → ℕ → Outcome A → Type 0
Below n (done x c) = length c.arrivals < n
Below n (failed e c) = length c.arrivals ≤ n
Below n out_of_fuel = ⊥

-- An action that ends wherever it begins, and one that ends where fewer than `n` messages come.
pub record Ends {A : Type 0} (m : Run A) : Type 0 where
  pub run : (b : Bolt5) → Within (length b.arrivals) (m b)

pub record EndsBelow {A : Type 0} (n : ℕ) (m : Run A) : Type 0 where
  pub run : (b : Bolt5) → length b.arrivals < n → Within (length b.arrivals) (m b)

pub Within-mono : {A : Type 0} (k n : ℕ) (o : Outcome A) → k ≤ n → Within k o → Within n o
Within-mono k n (done x c) l w = omega arith
Within-mono k n (failed e c) l w = omega arith
Within-mono k n out_of_fuel l w = w

Within-Less : {A : Type 0} (n k : ℕ) (o : Outcome A) → k < n → Within k o → Below n o
Within-Less n k (done x c) l w = omega arith
Within-Less n k (failed e c) l w = omega arith
Within-Less n k out_of_fuel l w = w

pub Below-mono : {A : Type 0} (k n : ℕ) (o : Outcome A) → k ≤ n → Below k o → Below n o
Below-mono k n (done x c) l w = omega arith
Below-mono k n (failed e c) l w = omega arith
Below-mono k n out_of_fuel l w = w

pub proceed-Within :
    {A B : Type 0} (n : ℕ) (o : Outcome A) (f : A → Run B)
    → Within n o
    → ((x : A) (c : Bolt5) → length c.arrivals ≤ n → Within (length c.arrivals) (f x c))
    → Within n (proceed o f)
proceed-Within n (done x c) f w k = Within-mono _ n (f x c) w (k x c w)
proceed-Within n (failed e c) f w k = w
proceed-Within n out_of_fuel f w k = w

pub proceed-Below :
    {A B : Type 0} (n : ℕ) (o : Outcome A) (f : A → Run B)
    → Below n o
    → ((x : A) (c : Bolt5) → length c.arrivals < n → Within (length c.arrivals) (f x c))
    → Within n (proceed o f)
proceed-Below n (done x c) f w k = Within-mono _ n (f x c) (omega arith) (k x c w)
proceed-Below n (failed e c) f w k = w
proceed-Below n out_of_fuel f w k = w

pub proceed-Both :
    {A B : Type 0} (n k : ℕ) (o : Outcome A) (f : A → Run B)
    → Within n o
    → Below k o
    → ((x : A) (c : Bolt5) → length c.arrivals < k → Within (length c.arrivals) (f x c))
    → Within n (proceed o f)
proceed-Both n k (done x c) f w l g = Within-mono _ n (f x c) w (g x c l)
proceed-Both n k (failed e c) f w l g = w
proceed-Both n k out_of_fuel f w l g = w

-- The same, where less is asked of what comes after.
pub proceed-Less :
    {A B : Type 0} (n : ℕ) (o : Outcome A) (f : A → Run B)
    → Below n o
    → ((x : A) (c : Bolt5) → length c.arrivals < n → Within (length c.arrivals) (f x c))
    → Below n (proceed o f)
proceed-Less n (done x c) f w k = Within-Less n (length c.arrivals) (f x c) w (k x c w)
proceed-Less n (failed e c) f w k = w
proceed-Less n out_of_fuel f w k = w

pub >>=-Ends :
    {A B : Type 0} (m : Run A) (f : A → Run B) → Ends m → ((x : A) → Ends (f x)) → Ends (m >>= f)
unfolding ◌>>=◌
>>=-Ends m f p q = record { run = λ b. proceed-Within _ (m b) f (p.run b) (λ x c l. (q x).run c) }

pub >>-Ends : {A B : Type 0} (m : Run A) (k : Run B) → Ends m → Ends k → Ends (m >> k)
unfolding ◌>>◌
>>-Ends m k p q = record { run = λ b. proceed-Within _ (m b) (λ _. k) (p.run b) (λ x c l. q.run c) }

pub pure-Ends : {A : Type 0} (x : A) → Ends (pure x)
unfolding pure
pure-Ends x = record { run = λ b. omega arith }

pub get-Ends : {A : Type 0} (f : Bolt5 → A) → Ends (get f)
unfolding get
get-Ends f = record { run = λ b. omega arith }

pub throw-Ends : {A : Type 0} (e : BoltError) → Ends (throw {A = A} e)
unfolding throw
throw-Ends e = record { run = λ b. omega arith }

pub change-Ends :
    (f : Bolt5 → Bolt5) → ((b : Bolt5) → (f b).arrivals ≡ b.arrivals) → Ends (change f)
unfolding change
change-Ends f k = record { run = λ b. omega (arith, ap length (k b)) }

pub branch-Ends : {A : Type 0} (t : Bool) (m k : Run A) → Ends m → Ends k → Ends (branch t m k)
unfolding branch
branch-Ends true m k p q = p
branch-Ends false m k p q = q

pub choose-Ends :
    {A : Type 0} (t : Bolt5 → Bool) (m k : Run A) → Ends m → Ends k → Ends (choose t m k)
unfolding choose
choose-Ends t m k p q = record { run = λ b. (branch-Ends (t b) m k p q).run b }

raise-Ends : (o : Option BoltError) → Ends (raise o)
unfolding raise
raise-Ends none = record { run = λ b. omega arith }
raise-Ends (some e) = record { run = λ b. omega arith }

pub unless_error-Ends : (f : Bolt5 → Option BoltError) → Ends (unless_error f)
unfolding unless_error
unless_error-Ends f = record { run = λ b. (raise-Ends (f b)).run b }

pub check_err-Ends : Ends check_err
unfolding check_err
check_err-Ends = unless_error-Ends _

pub ended-Within : (n : ℕ) (o : Outcome (Unit {0})) → Within n o → Within n (ended o)
ended-Within n (done x c) w = w
ended-Within n (failed e c) w = w
ended-Within n out_of_fuel w = w

pub early-Ends : (m : Run (Unit {0})) → Ends m → Ends (early m)
unfolding early
early-Ends m p = record { run = λ b. ended-Within _ (m b) (p.run b) }

pub with_current-Ends :
    (o : Option ℕ) (m : ℕ → Run (Unit {0})) → ((i : ℕ) → Ends (m i)) → Ends (with_current o m)
with_current-Ends none m p = record { run = λ b. omega arith }
with_current-Ends (some i) m p = record { run = λ b. (p i).run b }

pub assert_state-Ends : (l : List BoltState) → Ends (assert_state l)
unfolding assert_state
assert_state-Ends l =
    >>-Ends _ _ check_err-Ends
      (choose-Ends _ _ _ (pure-Ends tt) (record { run = λ b. omega arith }))

module _ (host : Host) where
  ignored-Within :
      (o : Option Bolt5) (b : Bolt5)
      → SameQueueIf b o
      → Within (length b.arrivals) (ignored host o b)
  ignored-Within none b s = omega arith
  ignored-Within (some c) b s = omega (arith, ap length s.arrivals)

  respond-Ends : (m : Message) (h : Handler) → Ends (respond host m h)
  unfolding respond on_pull_record
  respond-Ends (Message.record_message vs) (Handler.pull i) = record { run = λ b. omega arith }
  respond-Ends (Message.record_message vs) h = record { run = λ b. omega arith }
  respond-Ends (Message.success_message s) h = record {
    run = λ b. omega (arith, ap length (on_success-SameQueue h s b).arrivals);
  }
  respond-Ends (Message.failure_message e) h = record {
    run = λ b. omega (arith, ap length (handle_failure-SameQueue host h e b).arrivals);
  }
  respond-Ends Message.ignored_message h = record {
    run = λ b. ignored-Within (on_ignored h b) b (on_ignored-SameQueue h b);
  }

  to_first-Ends : (m : Message) (hs : List Handler) → Ends (to_first host m hs)
  to_first-Ends m [] = record { run = λ b. omega arith }
  to_first-Ends m (h ∷ hs) = record {
    run = λ b. (respond-Ends m h).run (record b { handlers = hs });
  }

  Within-Below : {A : Type 0} (n : ℕ) (o : Outcome A) → Within n o → Below (suc n) o
  Within-Below n (done x c) w = omega arith
  Within-Below n (failed e c) w = omega arith
  Within-Below n out_of_fuel w = w

  take_message-Below :
      (ms : List Message) (b : Bolt5)
      → length b.arrivals ≤ length ms
      → Below (length ms) (take_message host ms b)
  take_message-Below [] b l = omega (
    arith,
    ap length
        (on_io_error-SameQueue host b.broken (record b { queue_err = some b.broken })).arrivals,
  )
  take_message-Below (m ∷ ms) b l =
      Within-Below (length ms) _ ((to_first-Ends m b.handlers).run (record b { arrivals = ms }))

  receive_from-Below :
      (o : Option BoltError) (b : Bolt5) → Below (length b.arrivals) (receive_from host o b)
  receive_from-Below none b = take_message-Below b.arrivals b (omega arith)
  receive_from-Below (some e) b = omega arith

  pub receive-Below : (b : Bolt5) → Below (length b.arrivals) (receive host b)
  unfolding receive
  receive-Below b = receive_from-Below b.queue_err b

  pub Below-Within : {A : Type 0} (n : ℕ) (o : Outcome A) → Below n o → Within n o
  Below-Within n (done x c) w = omega arith
  Below-Within n (failed e c) w = w
  Below-Within n out_of_fuel w = w

  pub receive-Ends : Ends (receive host)
  receive-Ends = record { run = λ b. Below-Within _ _ (receive-Below b) }

  while_waiting-Within :
      (l : List Handler) (m : Run (Unit {0})) (b : Bolt5)
      → Within (length b.arrivals) (m b)
      → Within (length b.arrivals) (while_waiting l m b)
  while_waiting-Within [] m b w = omega arith
  while_waiting-Within (h ∷ l) m b w = w

  pub receive_rounds-EndsBelow : (fuel : ℕ) → EndsBelow fuel (receive_rounds host fuel)
  unfolding receive_rounds ◌>>◌
  receive_rounds-EndsBelow zero = record { run = λ b l. elim l [ ] }
  receive_rounds-EndsBelow (suc fuel) = record {
    run = λ b l. while_waiting-Within b.handlers _ b (
        proceed-Below _ (receive host b) _ (receive-Below b)
          (λ x c k. (receive_rounds-EndsBelow fuel).run c (omega arith)));
  }

  pub receive_all-Ends : Ends (receive_all host)
  unfolding receive_all ◌>>=◌ get
  receive_all-Ends = record {
    run = λ b. (receive_rounds-EndsBelow (suc (length b.arrivals))).run b (omega arith);
  }
