-- ===== src/Bolt/Connection/Calls.antt =====
-- neo4j/internal/bolt/bolt5.go: the methods of a connection, but for those on streams (Results) and
-- those that log on (Auth).
use neo4j_go_driver.Base.{
  ℕ, suc, ◌/◌, Bool, true, false, Option, none, some, List, [], ◌∷◌, ◌&&◌, leb, nat_beq,
  if◌then◌else◌,
}
use neo4j_go_driver.Base.Int.{ℤ, negsuc}
use neo4j_go_driver.Bolt.Streams.Stream.{point, reset}
use neo4j_go_driver.Bolt.Values.Value.{Text, ascii}
use neo4j_go_driver.Bolt.Values.Any.{Any, Entries}
use neo4j_go_driver.Bolt.Values.Success.{RoutingTable}
use neo4j_go_driver.Bolt.Values.Requests.{
  append_begin, append_commit, append_rollback, append_reset, append_goodbye, append_route,
  append_telemetry,
}
use neo4j_go_driver.Bolt.Connection.Errors.{BoltState, BoltError, state_beq}
use neo4j_go_driver.Bolt.Connection.Meta.{
  InternalTx, NotificationConfig, to_meta, set_entry, notifications_supported,
}
use neo4j_go_driver.Bolt.Connection.State.{Handler, Notice, Bolt5, Host, notice, set_state}
use neo4j_go_driver.Bolt.Connection.Queue.{
  Run, pure, get, change, throw, ◌>>=◌, ◌>>◌, check_err, choose, branch, early, append, enqueue,
  append_out, send_queue, receive, receive_all, assert_state,
}
use neo4j_go_driver.Bolt.Connection.Streaming.{
  send, buffer_stream, discard_all_streams, reset_streams, run,
}

unfoldable pub check_notification_filtering : NotificationConfig → Run (Unit {0})
unfolding notifications_supported
check_notification_filtering n =
    choose (λ b. notifications_supported 5 b.minor n) (pure tt)
      (throw BoltError.no_notification_filtering)

unfoldable pub assert_tx_handle : ℕ → Run (Unit {0})
assert_tx_handle h = choose (λ b. nat_beq b.tx_id h) (pure tt) (throw BoltError.invalid_transaction)

module _ (host : Host) where
  -- `if b.queue.send(ctx); b.err != nil { … }`, receiveAll, and `if b.err != nil { … }`.
  unfoldable pub exchange : Run (Unit {0})
  unfolding send receive_all
  exchange = send host >> (receive_all host >> check_err)

  unfoldable pub leave_auto_commit : BoltState → Run (Unit {0})
  unfolding buffer_stream
  leave_auto_commit BoltState.streaming = buffer_stream host >> check_err
  leave_auto_commit s = pure tt

  -- The database of the configuration is the connection's.
  abbrev on_database : InternalTx → Bolt5 → InternalTx
  on_database config b = record config { database_name = b.database_name }

  unfoldable pub tx_begin : InternalTx → (sync_messages : Bool) → Run ℕ
  unfolding buffer_stream assert_state check_notification_filtering exchange reset to_meta
  tx_begin config sync_messages = do
    state ← get (λ b. b.state)
    leave_auto_commit state
    change (reset_streams host)
    assert_state (BoltState.ready ∷ [])
    check_notification_filtering config.notification_config
    meta ← get (λ b. to_meta b.minor (some (on_database config b)))
    enqueue host (append_begin host.zones meta) Handler.begin
    branch sync_messages (send host >> receive_all host) (pure tt)
    check_err
    change (λ b. record b { state = BoltState.tx; tx_id = host.now / 1000000000 })
    get (λ b. b.tx_id)

  unfoldable pub tx_commit : ℕ → Run (Unit {0})
  unfolding assert_tx_handle discard_all_streams assert_state exchange
  tx_commit h = do
    assert_tx_handle h
    discard_all_streams host
    check_err
    assert_state (BoltState.tx ∷ [])
    enqueue host append_commit Handler.commit
    exchange
    change (set_state BoltState.ready)

  unfoldable pub tx_rollback : ℕ → Run (Unit {0})
  unfolding assert_tx_handle discard_all_streams assert_state exchange
  tx_rollback h = do
    assert_tx_handle h
    discard_all_streams host
    check_err
    assert_state (BoltState.tx ∷ [])
    enqueue host append_rollback Handler.rollback
    exchange
    change (set_state BoltState.ready)

  unfoldable pub run_auto_commit : Text → Entries → ℤ → InternalTx → Run ℕ
  unfolding assert_state check_notification_filtering run
  run_auto_commit cypher params fetch_size config = do
    assert_state (BoltState.streaming ∷ BoltState.ready ∷ [])
    check_notification_filtering config.notification_config
    tx ← get (on_database config)
    run host cypher params fetch_size (some tx)

  unfoldable pub run_tx : ℕ → Text → Entries → ℤ → Run ℕ
  unfolding assert_tx_handle run
  run_tx h cypher params fetch_size = do assert_tx_handle h; run host cypher params fetch_size none

  abbrev pub after_reset : Bolt5 → Bolt5
  after_reset b =
      reset_streams host
        (record b { tx_id = 0; bookmark = []; database_name = []; err = none; last_qid = negsuc 0 })

  unfoldable pub force_reset : Run (Unit {0})
  unfolding send receive receive_all
  force_reset =
      choose (λ b. state_beq b.state BoltState.dead) (pure tt)
        (early (do
          change (λ b. record b { err = none })
          receive_all host
          check_err
          enqueue host append_reset Handler.reset
          send host
          receive host))

  unfoldable pub reset_connection : Run (Unit {0})
  unfolding force_reset reset
  reset_connection =
      choose (λ b. state_beq b.state BoltState.ready) (pure tt) force_reset >> change after_reset

  abbrev put_name : Text → Text → Entries → Entries
  put_name key [] m = m
  put_name key (c ∷ t) m = set_entry key (Any.text (c ∷ t)) m

  unfoldable pub get_routing_table :
      List (Text × Text) → List Text → Text → Text → Run (Option RoutingTable)
  unfolding assert_state set_entry exchange
  get_routing_table context bookmarks database user = do
    assert_state (BoltState.ready ∷ [])
    i ← get (λ b. b.fresh)
    change (λ b. record b { fresh = suc b.fresh; tables = point i none b.tables })
    enqueue host
        (append_route host.zones context bookmarks
          (put_name (ascii "imp_user") user (put_name (ascii "db") database Entries.no_entries)))
        (Handler.route i)
    exchange
    get (λ b. b.tables i)

  -- `conn.Close` is called whatever the state; its error is only logged.
  -- Goodbye, unless it is dead.
  abbrev pub part : Bool → Bolt5 → Bolt5
  part true b = b
  part false b = send_queue host (append_out host append_goodbye (set_state BoltState.dead b))

  unfoldable pub close : Bolt5 → Bolt5
  unfolding append_out send_queue
  close b = notice Notice.closed (part (state_beq b.state BoltState.dead) b)

  unfoldable pub telemetry : ℤ → (callback : Bool) → Bolt5 → Bolt5
  unfolding append
  telemetry api callback b =
      if b.telemetry_enabled && leb 4 b.minor
      then append host (append_telemetry api) (Handler.telemetry callback) b
      else if callback
      then notice Notice.telemetry_sent b
      else b
