-- ===== src/Bolt/Connection/Tests.antt =====
-- The theorems on connections at concrete inputs.
use neo4j_go_driver.Base.{◌≡◌, ◌≢◌, inl, refl, true, false, none, some, List, [], ◌∷◌, ◌++◌, map}
use neo4j_go_driver.Base.Int.{pos}
use neo4j_go_driver.Packstream.Packer
use neo4j_go_driver.Bolt.Framing.Chunker
use neo4j_go_driver.Bolt.Framing.Chunker.{new_chunker}
use neo4j_go_driver.Bolt.Values.Value.{Value, Items, ascii}
use neo4j_go_driver.Bolt.Values.Times.{Zones}
use neo4j_go_driver.Bolt.Values.Any.{Entries}
use neo4j_go_driver.Bolt.Values.Requests
use neo4j_go_driver.Bolt.Values.Message.{cleared}
use neo4j_go_driver.Bolt.Connection.Errors.{BoltState, BoltError}
use neo4j_go_driver.Bolt.Connection.Meta.{InternalTx, NotificationConfig}
use neo4j_go_driver.Bolt.Connection.State.{
  set_error, Message, Handler, Bolt5, Host, StreamSummary, not_streaming,
}
use neo4j_go_driver.Bolt.Connection.Queue
use neo4j_go_driver.Bolt.Connection.Queue.{Outcome, done, failed, out_of_fuel}
use neo4j_go_driver.Bolt.Connection.Streaming.{new_stream, stream_of, buffer_stream, reset_streams}
use neo4j_go_driver.Bolt.Connection.Calls.{
  tx_begin, tx_commit, tx_rollback, run_auto_commit, run_tx, get_routing_table, reset_connection,
}
use neo4j_go_driver.Bolt.Connection.Setup.{new_bolt5}
use neo4j_go_driver.Bolt.Connection.Committed.{tx_end-settled}
use neo4j_go_driver.Bolt.Connection.Performing.{Call, perform, perform-ne-out_of_fuel}
use neo4j_go_driver.Bolt.Connection.Rejecting.{set_error-Rejects}
use neo4j_go_driver.Bolt.Connection.Resetting.{reset_connection-Recovers}
use neo4j_go_driver.Bolt.Connection.Recovery.{ignoring}
use neo4j_go_driver.Bolt.Connection.Pulling.{Pulls, row, records}
use neo4j_go_driver.Bolt.Connection.Delivering.{buffer_stream-records}

abbrev no_zones : Zones
no_zones = record {
  load_location = λ t. none;
  local = record { offset_at = λ n. pos 0; from_calendar = λ n. n };
}

abbrev host : Host
host = record {
  zones = no_zones;
  write_fault = λ k. none;
  close_fault = none;
  on_neo4j_error = λ e. none;
  now = 5000000000;
}

abbrev connection : Bolt5
connection = record (new_bolt5 (ascii "server") [] BoltError.bad_message) {
  state = BoltState.ready;
  connection_id = ascii "bolt-1";
  server_version = ascii "Neo4j/5.0";
  minor = 4;
}

abbrev answer : Message
answer = Message.success_message cleared

-- In a transaction, whose COMMIT is answered.
abbrev in_transaction : Bolt5
in_transaction = record connection {
  state = BoltState.tx;
  tx_id = 7;
  arrivals = answer ∷ Message.ignored_message ∷ [];
}

abbrev state_after : {A : Type 0} → Bolt5 → Outcome A → Bolt5
state_after b (Outcome.done x c) = c
state_after b (Outcome.failed e c) = c
state_after b Outcome.out_of_fuel = b

abbrev committed : Bolt5
committed = state_after connection (tx_commit host 7 in_transaction)

commits : tx_commit host 7 in_transaction ≡ done tt committed
unfolding tx_commit Queue.◌>>◌ Queue.enqueue Queue.check_err Queue.change Queue.choose Queue.pure
    Queue.◌>>=◌ Queue.get Packer.end Packer.begin Packer.struct_header Requests.append_commit
    Chunker.send Chunker.send_sizes Chunker.end_message Chunker.begin_message Chunker.new_chunker
    Chunker.chunks Chunker.last_write Chunker.last_chunk Chunker.write new_bolt5
commits = refl

tx_end-settled_example :
    (in_transaction.tx_id ≡ 7)
    × (committed.state ≡ BoltState.ready)
    × (committed.handlers ≡ [])
    × (committed.err ≡ none)
tx_end-settled_example = tx_end-settled host in_transaction 7 committed (inl commits)

perform-ne-out_of_fuel_example :
    perform host (λ s t. false) (Call.commit_call 7) in_transaction ≢ out_of_fuel
perform-ne-out_of_fuel_example =
    perform-ne-out_of_fuel host (λ s t. false) (Call.commit_call 7) in_transaction

-- Failed, with a PULL and a telemetry message under way.
abbrev failed_one : Bolt5
failed_one = record connection {
  state = BoltState.failed;
  err = some BoltError.bad_message;
  handlers = Handler.pull 0 ∷ Handler.telemetry false ∷ [];
  arrivals = Message.ignored_message ∷ Message.ignored_message ∷ answer ∷ answer ∷ [];
}

abbrev quiet : NotificationConfig
quiet = record { min_sev = []; dis_cats = []; cats_none = false; dis_clas = []; clas_none = false }

abbrev config : InternalTx
config = record {
  read_mode = true;
  bookmarks = [];
  timeout = pos 0;
  tx_meta = Entries.no_entries;
  database_name = [];
  impersonated_user = [];
  notification_config = quiet;
}

abbrev noted : Bolt5
noted = set_error host BoltError.bad_message false in_transaction

set_error-Rejects_example :
    (noted.err ≡ some BoltError.bad_message)
    × (tx_begin host config true noted ≡ failed BoltError.bad_message (reset_streams host noted))
    × (tx_commit host 7 noted ≡ failed BoltError.bad_message noted)
    × (tx_rollback host 7 noted ≡ failed BoltError.bad_message noted)
    × (run_auto_commit host (ascii "RETURN 1") Entries.no_entries (pos 0) config noted
        ≡ failed BoltError.bad_message noted)
    × (run_tx host 7 (ascii "RETURN 1") Entries.no_entries (pos 0) noted
        ≡ failed BoltError.bad_message noted)
    × (get_routing_table host [] [] [] [] noted ≡ failed BoltError.bad_message noted)
unfolding set_error new_bolt5
set_error-Rejects_example =
    set_error-Rejects host in_transaction BoltError.bad_message false refl 7 config true
      (ascii "RETURN 1") Entries.no_entries (pos 0) [] [] [] []

ignoring_two :
    failed_one.arrivals
    ≡ ignoring failed_one.handlers (Message.success_message cleared ∷ answer ∷ [])
unfolding ignoring
ignoring_two = refl

reset_connection-Recovers_example :
    (c : Bolt5) × (reset_connection host failed_one ≡ done tt c)
    × (c.state ≡ BoltState.ready)
    × (c.err ≡ none)
    × (c.handlers ≡ [])
    × (c.arrivals ≡ answer ∷ [])
    × (c.tx_id ≡ 0)
    × (c.bookmark ≡ [])
    × (c.database_name ≡ [])
    × (c.streams.curr ≡ none)
unfolding new_bolt5
reset_connection-Recovers_example =
    reset_connection-Recovers host (λ k. refl) cleared (answer ∷ []) failed_one refl refl refl tt
      ignoring_two refl

abbrev values : List Items
values = Items.item (Value.boolean true) Items.end ∷ Items.end ∷ []

-- One stream is open, with the two records of `values` to come.
abbrev pulling : Bolt5
pulling = record connection {
  state = BoltState.streaming;
  streams = record { curr = some 0; num = pos 1; key = 3; store = λ i. new_stream (pos 1000) };
  handlers = Handler.pull 0 ∷ [];
  arrivals =
      Message.record_message (Items.item (Value.boolean true) Items.end)
      ∷ Message.record_message Items.end
      ∷ answer
      ∷ [];
}

pulling-Pulls :
    Pulls 0 BoltState.streaming (new_stream (pos 1000)) (records values (answer ∷ [])) pulling
unfolding records new_bolt5
pulling-Pulls = record {
  handlers = refl;
  arrivals = refl;
  queue_err = refl;
  err = refl;
  stream = refl;
  current = refl;
  alone = refl;
  state = refl;
}

buffer_stream-records_example :
    (c : Bolt5) × (buffer_stream host pulling ≡ done tt c)
    × ((stream_of 0 c).fifo ≡ [] ++ map (row []) values)
    × ((r : StreamSummary) × ((stream_of 0 c).sum ≡ some r) × (r.of_success ≡ cleared))
    × (c.streams.curr ≡ none)
    × (c.handlers ≡ [])
    × (c.arrivals ≡ [])
    × (c.err ≡ none)
    × (c.state ≡ not_streaming BoltState.streaming)
buffer_stream-records_example =
    buffer_stream-records host 0 BoltState.streaming (new_stream (pos 1000)) values cleared []
      pulling refl refl pulling-Pulls
