-- ===== src/Bolt/Connection/Rejecting.antt =====
-- A connection that keeps an error returns it on the calls that would send something.
use neo4j_go_driver.Base.{
  ℕ, ◌≡◌, refl, ap, ◌∙◌, Bool, true, false, Option, none, some, List, [], ◌∷◌, nat_beq,
  if◌then◌else◌, Bool-cases, inl, inr,
}
use neo4j_go_driver.Base.Int.{ℤ}
use neo4j_go_driver.Bolt.Values.Value.{Text}
use neo4j_go_driver.Bolt.Values.Any.{Entries}
use neo4j_go_driver.Bolt.Streams.Stream.{detach}
use neo4j_go_driver.Bolt.Connection.Errors.{BoltState, BoltError, context_terminated_err}
use neo4j_go_driver.Bolt.Connection.Meta.{InternalTx}
use neo4j_go_driver.Bolt.Connection.State.{
  Bolt5, Host, Notice, notice, is_positive, not_streaming, check_streams, with_close_error,
  set_first, detach_from, terminated, fatal_error, set_error,
}
use neo4j_go_driver.Bolt.Connection.Queue.{
  Run, done, failed, pure, throw, choose, branch, ◌>>◌, check_err,
}
use neo4j_go_driver.Bolt.Connection.Steps.{
  check_err-fails, assert_state-fails, >>-passes, >>-fails, get_then, change_lem, pure_lem,
}
use neo4j_go_driver.Bolt.Connection.Streaming.{
  is_streaming, leave_stream, discard_all_streams, reset_streams, run,
}
use neo4j_go_driver.Bolt.Connection.Calls.{
  assert_tx_handle, leave_auto_commit, tx_begin, tx_commit, tx_rollback, run_auto_commit, run_tx,
  get_routing_table,
}

-- What a call answers for a handle: the error, if the handle is the one of the connection.
abbrev pub refusal : ℕ → BoltError → Bolt5 → BoltError
refusal h e b = if nat_beq b.tx_id h then e else BoltError.invalid_transaction

handled :
    {A : Type 0} (m : Run A) (h : ℕ) (e : BoltError) (b : Bolt5)
    → m b ≡ failed e b
    → (assert_tx_handle h >> m) b ≡ failed (refusal h e b) b
unfolding assert_tx_handle choose branch pure throw ◌>>◌
handled m h e b fails = elim (Bool-cases (nat_beq b.tx_id h)) [
  | inl same ↦ rw same fails
  | inr other ↦ rw other refl
]

not_streaming-idle : (s : BoltState) → is_streaming s ≡ false → not_streaming s ≡ s
not_streaming-idle BoltState.streaming h = cc
not_streaming-idle BoltState.ready h = refl
not_streaming-idle BoltState.tx h = refl
not_streaming-idle BoltState.streaming_tx h = cc
not_streaming-idle BoltState.failed h = refl
not_streaming-idle BoltState.dead h = refl
not_streaming-idle BoltState.unauthorized h = refl

-- The current stream is told of an error, and the connection itself keeps what it has.
detach_from-keeps :
    (o : Option ℕ) (e : BoltError) (b : Bolt5)
    → is_streaming b.state ≡ false
    → ((detach_from o e b).err ≡ b.err) × ((detach_from o e b).state ≡ b.state)
unfolding check_streams
detach_from-keeps none e b idle = (refl, refl)
detach_from-keeps (some i) e b idle =
    elim (Bool-cases (is_positive (detach none (some e) b.streams).num)) [
      | inl more ↦ rw more (refl, refl)
      | inr last ↦ rw last (refl, not_streaming-idle b.state idle)
    ]

module _ (host : Host) where
  leave_auto_commit-idle :
      (s : BoltState) → is_streaming s ≡ false → leave_auto_commit host s ≡ pure tt
  unfolding leave_auto_commit
  leave_auto_commit-idle BoltState.streaming h = cc
  leave_auto_commit-idle BoltState.ready h = refl
  leave_auto_commit-idle BoltState.tx h = refl
  leave_auto_commit-idle BoltState.streaming_tx h = cc
  leave_auto_commit-idle BoltState.failed h = refl
  leave_auto_commit-idle BoltState.dead h = refl
  leave_auto_commit-idle BoltState.unauthorized h = refl

  leave_stream-idle : (s : BoltState) → is_streaming s ≡ false → leave_stream host s ≡ pure tt
  unfolding leave_stream
  leave_stream-idle BoltState.streaming h = cc
  leave_stream-idle BoltState.ready h = refl
  leave_stream-idle BoltState.tx h = refl
  leave_stream-idle BoltState.streaming_tx h = cc
  leave_stream-idle BoltState.failed h = refl
  leave_stream-idle BoltState.dead h = refl
  leave_stream-idle BoltState.unauthorized h = refl

  discard_all_streams-idle :
      (b : Bolt5) → is_streaming b.state ≡ false → discard_all_streams host b ≡ done tt b
  unfolding discard_all_streams choose branch pure
  discard_all_streams-idle b h = rw h

  module _ (b : Bolt5) (e : BoltError) (kept : b.err ≡ some e)
      (idle : is_streaming b.state ≡ false) where
    tx_begin-fails :
        (config : InternalTx) (sync : Bool)
        → tx_begin host config sync b ≡ failed e (reset_streams host b)
    unfolding tx_begin
    tx_begin-fails config sync =
        get_then (λ c. c.state) _ b
        ∙ >>-passes _ _ b b tt
            (ap (λ (m : Run (Unit {0})). m b) (leave_auto_commit-idle b.state idle) ∙ pure_lem b)
        ∙ >>-passes _ _ b (reset_streams host b) tt (change_lem (reset_streams host) b)
        ∙ >>-fails _ _ (reset_streams host b) (reset_streams host b) e
            (assert_state-fails (BoltState.ready ∷ []) (reset_streams host b) e kept)

    run-fails :
        (cypher : Text) (params : Entries) (n : ℤ) (tx : Option InternalTx)
        → run host cypher params n tx b ≡ failed e b
    unfolding run
    run-fails cypher params n tx =
        get_then (λ c. c.state) _ b
        ∙ >>-passes _ _ b b tt
            (ap (λ (m : Run (Unit {0})). m b) (leave_stream-idle b.state idle) ∙ pure_lem b)
        ∙ >>-fails _ _ b b e (
            assert_state-fails (BoltState.tx ∷ BoltState.ready ∷ BoltState.streaming_tx ∷ []) b e
              kept)

    discards :
        {A : Type 0} (k : Run A) → (discard_all_streams host >> (check_err >> k)) b ≡ failed e b
    discards k =
        >>-passes _ _ b b tt (discard_all_streams-idle b idle)
        ∙ >>-fails _ _ b b e (check_err-fails b e kept)

    kept_error-Rejects :
        (h : ℕ) (config : InternalTx) (sync : Bool) (cypher : Text) (params : Entries) (n : ℤ)
        (context : List (Text × Text)) (marks : List Text) (database user : Text)
        → (tx_begin host config sync b ≡ failed e (reset_streams host b))
          × (tx_commit host h b ≡ failed (refusal h e b) b)
          × (tx_rollback host h b ≡ failed (refusal h e b) b)
          × (run_auto_commit host cypher params n config b ≡ failed e b)
          × (run_tx host h cypher params n b ≡ failed (refusal h e b) b)
          × (get_routing_table host context marks database user b ≡ failed e b)
    unfolding tx_commit tx_rollback run_tx run_auto_commit get_routing_table
    kept_error-Rejects h config sync cypher params n context marks database user = (
      tx_begin-fails config sync,
      handled _ h e b (discards _),
      handled _ h e b (discards _),
      >>-fails _ _ b b e (assert_state-fails _ b e kept),
      handled _ h e b (run-fails cypher params n none),
      >>-fails _ _ b b e (assert_state-fails _ b e kept),
    )

  -- The error that stays where `e` is the first: an error of closing the socket is added to one
  -- that made the connection close it.
  abbrev closing_error : BoltError → Option ℕ → BoltError
  closing_error e none = e
  closing_error e (some c) = BoltError.close_after e c

  abbrev pub first_error : (fatal : Bool) → BoltError → BoltError
  first_error false e = e
  first_error true e = if context_terminated_err e then closing_error e host.close_fault else e

  with_close_error-err :
      (e : BoltError) (o : Option ℕ) (b : Bolt5)
      → b.err ≡ some e
      → (with_close_error e o b).err ≡ some (closing_error e o)
  with_close_error-err e none b h = h
  with_close_error-err e (some c) b h = refl

  terminated-err :
      (e : BoltError) (b : Bolt5)
      → b.err ≡ some e
      → (terminated host e b).err ≡ some (first_error true e)
  unfolding terminated
  terminated-err e b h = elim (Bool-cases (context_terminated_err e)) [
    | inl closes ↦ rw closes (with_close_error-err e host.close_fault (notice Notice.closed b) h)
    | inr stays ↦ rw stays h
  ]

  fatal_error-keeps :
      (fatal : Bool) (e : BoltError) (b : Bolt5)
      → b.err ≡ some e
      → is_streaming b.state ≡ false
      → ((fatal_error host fatal e b).err ≡ some (first_error fatal e))
        × (is_streaming (fatal_error host fatal e b).state ≡ false)
  fatal_error-keeps true e b h idle = (terminated-err e b h, refl)
  fatal_error-keeps false e b h idle = (h, idle)

  set_error-keeps :
      (e : BoltError) (fatal : Bool) (b : Bolt5)
      → b.err ≡ none
      → ((set_error host e fatal b).err ≡ some (first_error fatal e))
        × (is_streaming (set_error host e fatal b).state ≡ false)
  unfolding set_error
  set_error-keeps e fatal b fresh =
      let first = set_first none e b in
      let (kept, idle) = fatal_error-keeps fatal e first refl refl in
      let c = fatal_error host fatal e first in
      let (same, stays) = detach_from-keeps c.streams.curr e c idle in
      rw fresh (same ∙ kept, ap is_streaming stays ∙ idle)

  -- A connection without an error that notes one, fatal or not, keeps it, with the error of closing
  -- its socket if it did so and failed. From then on TxBegin, Run and GetRoutingTable return the
  -- kept error, and so do TxCommit, TxRollback and RunTx with the handle of the connection's
  -- transaction; with another handle they return that the transaction is invalid. Nothing is sent
  -- and no message is taken: the connection stays as it is, but that TxBegin makes its streams
  -- invalid.
  pub set_error-Rejects :
      (b : Bolt5) (e : BoltError) (fatal : Bool)
      → b.err ≡ none
      → (h : ℕ) (config : InternalTx) (sync : Bool) (cypher : Text) (params : Entries) (n : ℤ)
        (context : List (Text × Text)) (marks : List Text) (database user : Text)
      → let c = set_error host e fatal b in
        let x = first_error fatal e in
        (c.err ≡ some x)
        × (tx_begin host config sync c ≡ failed x (reset_streams host c))
        × (tx_commit host h c ≡ failed (refusal h x c) c)
        × (tx_rollback host h c ≡ failed (refusal h x c) c)
        × (run_auto_commit host cypher params n config c ≡ failed x c)
        × (run_tx host h cypher params n c ≡ failed (refusal h x c) c)
        × (get_routing_table host context marks database user c ≡ failed x c)
  set_error-Rejects b e fatal fresh h config sync cypher params n context marks database user =
      let (kept, idle) = set_error-keeps e fatal b fresh in
      let (begins, commits, rolls_back, runs, runs_tx, routes) =
        kept_error-Rejects (set_error host e fatal b) (first_error fatal e) kept idle h config sync
          cypher params n context marks database user in
      (kept, begins, commits, rolls_back, runs, runs_tx, routes)
