-- ===== src/Bolt/Connection/State.antt =====
-- neo4j/internal/bolt/bolt5.go and message_queue.go: the state of a connection, and the functions
-- that change it when something fails. The reader is the messages that incoming.next will still
-- answer and the error behind them; what was written is a list of writes, as in Framing. The dates
-- and the log are left out.
use neo4j_go_driver.Base.{
  ℕ, zero, suc, Bool, true, false, Option, none, some, List, [], ◌∷◌, ◌++◌, if◌then◌else◌,
}
use neo4j_go_driver.Base.Int.{ℤ, pos, negsuc}
use neo4j_go_driver.Bolt.Framing.Chunker.{IoFault}
use neo4j_go_driver.Bolt.Streams.Stream.{Stream, OpenStreams, detach, point}
use neo4j_go_driver.Bolt.Values.Value.{Text, Items}
use neo4j_go_driver.Bolt.Values.Times.{Zones}
use neo4j_go_driver.Bolt.Values.Any.{Entries}
use neo4j_go_driver.Bolt.Values.Pack.{Outgoing}
use neo4j_go_driver.Bolt.Values.Failure.{Neo4jError}
use neo4j_go_driver.Bolt.Values.Success.{Success, RoutingTable}
use neo4j_go_driver.Bolt.Connection.Errors.{
  BoltState, BoltError, context_terminated_err, is_fatal_error,
}

pub data Message : Type 0 where
  record_message : Items → Message
  success_message : Success → Message
  failure_message : Neo4jError → Message
  ignored_message : Message

-- db.Record: the keys of its stream, and its values.
pub record Row : Type 0 where
  pub keys : List Text
  pub values : Items

-- The success that ended a stream, with what extractSummary adds to its summary.
pub record StreamSummary : Type 0 where
  pub of_success : Success
  pub agent : Text
  pub minor : ℕ
  pub server_name : Text
  pub tfirst : ℤ
  pub had_record : Bool
  pub had_key : Bool

abbrev pub BoltStream : Type 0
BoltStream = Stream Row StreamSummary BoltError

-- A stream and a routing table are pointers; a telemetry call may have a callback.
pub data Handler : Type 0 where
  hello logoff logon begin commit rollback reset : Handler
  route run discard pull : ℕ → Handler
  telemetry : Bool → Handler

-- What the connection tells others: its listener, the callback that pins a database, the callbacks
-- of telemetry, and that it closes its socket.
pub data Notice : Type 0 where
  neo4j_error : Neo4jError → Notice
  io_error : BoltError → Notice
  pinned : Text → Notice
  telemetry_sent : Notice
  closed : Notice

pub record Bolt5 : Type 0 where
  pub state : BoltState
  pub tx_id : ℕ
  pub streams : OpenStreams Row StreamSummary BoltError
  -- Pointers from here on are unused.
  pub fresh : ℕ
  pub tables : ℕ → Option RoutingTable
  pub server_name : Text
  pub connection_id : Text
  pub server_version : Text
  pub bookmark : Text
  pub database_name : Text
  pub err : Option BoltError
  pub minor : ℕ
  pub last_qid : ℤ
  pub auth : Entries
  pub auth_manager : Option ℕ
  pub reset_auth : Bool
  pub telemetry_enabled : Bool
  pub ssr_enabled : Bool
  pub pins : Bool
  -- -1 unless the server gave a hint.
  pub read_timeout : ℤ
  -- The queue of messages.
  pub handlers : List Handler
  pub queue_err : Option BoltError
  pub arrivals : List Message
  pub broken : BoltError
  pub out : Outgoing
  pub writes : List (List ℕ)
  pub notices : List Notice

-- What other parts answer: the k-th write, Close of the socket, and the listener on a failure.
-- `now` is the time of the call in nanoseconds.
pub record Host : Type 0 where
  pub zones : Zones
  pub write_fault : ℕ → Option IoFault
  pub close_fault : Option ℕ
  pub on_neo4j_error : Neo4jError → Option ℕ
  pub now : ℕ

abbrev pub notice : Notice → Bolt5 → Bolt5
notice n b = record b { notices = b.notices ++ (n ∷ []) }

abbrev pub set_state : BoltState → Bolt5 → Bolt5
set_state s b = record b { state = s }

-- A change of the stream that a pointer points to.
abbrev pub with_stream : ℕ → (BoltStream → BoltStream) → Bolt5 → Bolt5
with_stream i f b = record b {
  streams = record b.streams { store = point i (f (b.streams.store i)) b.streams.store };
}

abbrev pub is_positive : ℤ → Bool
is_positive (pos zero) = false
is_positive (pos (suc n)) = true
is_positive (negsuc n) = false

abbrev pub not_streaming : BoltState → BoltState
not_streaming BoltState.streaming_tx = BoltState.tx
not_streaming BoltState.streaming = BoltState.ready
not_streaming s = s

unfoldable pub check_streams : Bolt5 → Bolt5
check_streams b =
    if is_positive b.streams.num then b else record b { state = not_streaming b.state }

abbrev pub with_close_error : BoltError → Option ℕ → Bolt5 → Bolt5
with_close_error e none b = b
with_close_error e (some c) b = record b { err = some (BoltError.close_after e c) }

abbrev pub set_first : Option BoltError → BoltError → Bolt5 → Bolt5
set_first none e b = record b { err = some e; state = BoltState.failed }
set_first (some old) e b = b

abbrev pub detach_from : Option ℕ → BoltError → Bolt5 → Bolt5
detach_from none e b = b
detach_from (some i) e b = check_streams (record b { streams = detach none (some e) b.streams })

module _ (host : Host) where
  -- handleTerminatedContextError, and the assignment of its answer to `b.err`.
  unfoldable pub terminated : BoltError → Bolt5 → Bolt5
  unfolding context_terminated_err
  terminated e b =
      if context_terminated_err e
      then with_close_error e host.close_fault (notice Notice.closed b)
      else b

  abbrev pub fatal_error : Bool → BoltError → Bolt5 → Bolt5
  fatal_error true e b = set_state BoltState.dead (terminated e b)
  fatal_error false e b = b

  -- The error is forwarded to the current stream.
  unfoldable pub set_error : BoltError → (fatal : Bool) → Bolt5 → Bolt5
  unfolding terminated check_streams detach
  set_error e fatal b =
      let c = fatal_error fatal e (set_first b.err e b) in detach_from c.streams.curr e c

  abbrev pub seen_by_listener : BoltState → BoltError → Bolt5 → Bolt5
  seen_by_listener BoltState.failed e b = b
  seen_by_listener BoltState.dead e b = b
  seen_by_listener s e b = notice (Notice.io_error e) b

  unfoldable pub on_io_error : BoltError → Bolt5 → Bolt5
  unfolding set_error
  on_io_error e b = set_error e true (seen_by_listener b.state e b)

  abbrev pub combined : Option ℕ → Neo4jError → BoltError
  combined none e = BoltError.failure e
  combined (some c) e = BoltError.failure_after c e

  unfoldable pub on_failure : Neo4jError → Bolt5 → Bolt5
  unfolding set_error is_fatal_error
  on_failure e b =
      set_error (combined (host.on_neo4j_error e) e) (is_fatal_error e)
        (notice (Notice.neo4j_error e) b)
