-- ===== src/Bolt/Connection/Committed.antt =====
-- What a caller may rely on when a call on a connection returns without an error.
use neo4j_go_driver.Base.{
  ℕ, zero, suc, ◌≡◌, refl, sym, ap, ◌∙◌, ◌⊎◌, arith, none, List, [], ◌∷◌, nat_beq, nat_beq_iff,
  Bool-cases, Option-cases, inl, inr,
}
use neo4j_go_driver.Bolt.Connection.Errors.{BoltState}
use neo4j_go_driver.Bolt.Connection.State.{Handler, Bolt5, Host, set_state}
use neo4j_go_driver.Bolt.Connection.Queue.{
  Outcome, Run, done, failed, out_of_fuel, proceed, choose, change, check_err, throw, pure,
  unless_error, while_waiting, ◌>>=◌, ◌>>◌, receive, receive_rounds, receive_all,
}
use neo4j_go_driver.Bolt.Connection.Calls.{assert_tx_handle, tx_commit, tx_rollback, exchange}

-- What holds whenever an action ends well, wherever it began.
pub record Leaves {A : Type 0} (P : A → Bolt5 → Type 0) (m : Run A) : Type 0 where
  pub run : (b : Bolt5) (x : A) (c : Bolt5) → m b ≡ done x c → P x c

-- Inversion of an action that went well.
proceed-eq-done :
    {A B : Type 0} (m : Outcome A) (f : A → Run B) {y : B} {c : Bolt5}
    → proceed m f ≡ done y c
    → (x : A) × (b : Bolt5) × (m ≡ done x b) × (f x b ≡ done y c)
proceed-eq-done (done x b) f h = (x, b, refl, h)
proceed-eq-done (failed e b) f h = cc
proceed-eq-done out_of_fuel f h = cc

-- The last action decides.
>>=-Leaves :
    {A B : Type 0} {P : B → Bolt5 → Type 0} (m : Run A) (f : A → Run B)
    → ((x : A) → Leaves P (f x))
    → Leaves P (m >>= f)
unfolding ◌>>=◌
>>=-Leaves m f l = record {
  run = λ b y c h. let (x, d, _, rest) = proceed-eq-done (m b) f h in (l x).run d y c rest;
}

>>-Leaves :
    {A B : Type 0} {P : B → Bolt5 → Type 0} (m : Run A) (k : Run B) → Leaves P k → Leaves P (m >> k)
unfolding ◌>>◌
>>-Leaves m k l = record {
  run = λ b y c h. let (x, d, _, rest) = proceed-eq-done (m b) (λ _. k) h in l.run d y c rest;
}

while_waiting-eq-done :
    (l : List Handler) (again : Run (Unit {0})) (b : Bolt5) {u : Unit {0}} {c : Bolt5}
    → while_waiting l again b ≡ done u c
    → ((l ≡ []) × (b ≡ c)) ⊎ (again b ≡ done u c)
while_waiting-eq-done [] again b h = inl (refl, cc)
while_waiting-eq-done (x ∷ l) again b h = inr h

abbrev IsAnswered : Unit {0} → Bolt5 → Type 0
IsAnswered u c = c.handlers ≡ []

abbrev IsSettled : Unit {0} → Bolt5 → Type 0
IsSettled u c = (c.handlers ≡ []) × (c.err ≡ none)

check_err-eq-done :
    (b : Bolt5) {u : Unit {0}} {c : Bolt5} → check_err b ≡ done u c → (b ≡ c) × (b.err ≡ none)
unfolding check_err unless_error
check_err-eq-done b h = elim (Option-cases b.err) [
  | inl p ↦ ground (arith, p)
  | inr (e, p) ↦ ground (arith, p)
]

module _ (host : Host) where
  receive_rounds-Leaves : (fuel : ℕ) → Leaves IsAnswered (receive_rounds host fuel)
  unfolding receive_rounds
  receive_rounds-Leaves zero = record { run = λ b u c h. cc }
  receive_rounds-Leaves (suc fuel) = record {
    run = λ b u c h. elim (while_waiting-eq-done b.handlers _ b h) [
      | inl (p, q) ↦ ap (λ (d : Bolt5). d.handlers) (sym q) ∙ p
      | inr step ↦ (>>-Leaves (receive host) _ (receive_rounds-Leaves fuel)).run b u c step
    ];
  }

  receive_all-Leaves : Leaves IsAnswered (receive_all host)
  unfolding receive_all
  receive_all-Leaves = >>=-Leaves _ _ (λ n. receive_rounds-Leaves (suc n))

  -- No message is waited for, and there is no error.
  checked-Leaves : Leaves IsSettled (receive_all host >> check_err)
  unfolding ◌>>◌
  checked-Leaves = record {
    run = λ b u c h.
        let (v, d, all, checked) = proceed-eq-done (receive_all host b) (λ _. check_err) h in
        let (same, clean) = check_err-eq-done d checked in
        rw (← same) (receive_all-Leaves.run b v d all, clean);
  }

  exchange-Leaves : Leaves IsSettled (exchange host)
  unfolding exchange
  exchange-Leaves = >>-Leaves _ _ checked-Leaves

  -- The connection is in the state `s`, without an error, and waits for no message.
  abbrev IsIdle : BoltState → Unit {0} → Bolt5 → Type 0
  IsIdle s u c = (c.state ≡ s) × (c.handlers ≡ []) × (c.err ≡ none)

  change-Leaves : (s : BoltState) → Leaves (IsIdle s) (exchange host >> change (set_state s))
  unfolding ◌>>◌ change
  change-Leaves s = record {
    run = λ b u c h.
        let (v, d, went, changed) =
          proceed-eq-done (exchange host b) (λ _. change (set_state s)) h in
        let same : (set_state s d ≡ c) = cc in
        let settled = exchange-Leaves.run b v d went in rw (← same) (refl, settled.0, settled.1);
  }

  tx_commit-Leaves : (h : ℕ) → Leaves (IsIdle BoltState.ready) (tx_commit host h)
  unfolding tx_commit
  tx_commit-Leaves h = >>-Leaves _ _ (
      >>-Leaves _ _ (>>-Leaves _ _ (>>-Leaves _ _ (>>-Leaves _ _ (change-Leaves BoltState.ready)))))

  tx_rollback-Leaves : (h : ℕ) → Leaves (IsIdle BoltState.ready) (tx_rollback host h)
  unfolding tx_rollback
  tx_rollback-Leaves h = >>-Leaves _ _ (
      >>-Leaves _ _ (>>-Leaves _ _ (>>-Leaves _ _ (>>-Leaves _ _ (change-Leaves BoltState.ready)))))

  own_handle :
      (h : ℕ) (k : Run (Unit {0})) (b : Bolt5) {u : Unit {0}} {c : Bolt5}
      → (assert_tx_handle h >> k) b ≡ done u c
      → b.tx_id ≡ h
  unfolding assert_tx_handle ◌>>◌ choose pure throw
  own_handle h k b went = elim (Bool-cases (nat_beq b.tx_id h)) [
    | inl p ↦ (nat_beq_iff b.tx_id h).0 p
    | inr p ↦ ground (arith, p)
  ]

  -- Where a transaction ends without an error, by a commit or by a rollback, the handle was the one of
  -- the connection's transaction. The connection is ready again, it keeps no error, and it waits for
  -- no message of the server.
  pub tx_end-settled :
      (b : Bolt5) (h : ℕ) (c : Bolt5)
      → (tx_commit host h b ≡ done tt c) ⊎ (tx_rollback host h b ≡ done tt c)
      → (b.tx_id ≡ h) × (c.state ≡ BoltState.ready) × (c.handlers ≡ []) × (c.err ≡ none)
  unfolding tx_commit tx_rollback
  tx_end-settled b h c (inl went) =
      let idle = (tx_commit-Leaves h).run b tt c went in
      (own_handle h _ b went, idle.0, idle.1, idle.2)
  tx_end-settled b h c (inr went) =
      let idle = (tx_rollback-Leaves h).run b tt c went in
      (own_handle h _ b went, idle.0, idle.1, idle.2)
