-- ===== src/Bolt/Connection/Errors.antt =====
-- The errors that a connection of neo4j/internal/bolt/bolt5.go returns or keeps.
use neo4j_go_driver.Base.{ℕ, Bool, true, false, List}
use neo4j_go_driver.Bolt.Framing.Chunker.{WriteError}
use neo4j_go_driver.Bolt.Framing.Dechunker.{ReadError}
use neo4j_go_driver.Bolt.Values.Value.{ascii, text_beq}
use neo4j_go_driver.Bolt.Values.Run.{HydrateError}
use neo4j_go_driver.Bolt.Values.Pack.{PackProblem}
use neo4j_go_driver.Bolt.Values.Failure.{Neo4jError, ServerError}

-- The constants bolt5Ready to bolt5Unauthorized.
pub data BoltState : Type 0 where
  ready streaming tx streaming_tx failed dead unauthorized : BoltState

abbrev pub state_beq : BoltState → BoltState → Bool
state_beq BoltState.ready BoltState.ready = true
state_beq BoltState.streaming BoltState.streaming = true
state_beq BoltState.tx BoltState.tx = true
state_beq BoltState.streaming_tx BoltState.streaming_tx = true
state_beq BoltState.failed BoltState.failed = true
state_beq BoltState.dead BoltState.dead = true
state_beq BoltState.unauthorized BoltState.unauthorized = true
state_beq s t = false

-- What other parts answer (an error of a callback, of a token manager, of closing a socket) is a
-- number.
pub data BoltError : Type 0 where
  -- A FAILURE of the server, alone and behind the error of a callback.
  failure : Neo4jError → BoltError
  failure_after : ℕ → Neo4jError → BoltError
  writing : WriteError → BoltError
  reading : ReadError → BoltError
  -- CombineErrors of an error and that of Close.
  close_after : BoltError → ℕ → BoltError
  hydrating : HydrateError → BoltError
  bad_message : BoltError
  packing : PackProblem → BoltError
  of_manager : ℕ → BoltError
  invalid_transaction : BoltError
  invalid_state : BoltState → List BoltState → BoltError
  invalid_stream : BoltError
  -- FeatureNotSupportedError: session auth and notification filtering.
  no_session_auth no_notification_filtering : BoltError
  no_callback : BoltError
  unexpected_record unexpected_ignored : BoltError
  interrupted_discard interrupted_pull : BoltError
  more_results : BoltError

-- connections.go
unfoldable pub context_terminated_err : BoltError → Bool
context_terminated_err (BoltError.writing (WriteError.connection_write_timeout e)) = true
context_terminated_err (BoltError.writing (WriteError.connection_write_canceled e)) = true
context_terminated_err (BoltError.reading (ReadError.connection_read_timeout e)) = true
context_terminated_err (BoltError.reading (ReadError.connection_read_canceled e)) = true
context_terminated_err e = false

abbrev pub top_error : Neo4jError → ServerError
top_error (Neo4jError.uncaused e) = e
top_error (Neo4jError.caused_by e cause) = e

-- bolt4.go
unfoldable pub is_fatal_error : Neo4jError → Bool
is_fatal_error e = text_beq (top_error e).code (ascii "Status.Security.AuthorizationExpired")
