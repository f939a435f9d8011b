-- ===== src/Bolt/Connection/Setup.antt =====
-- neo4j/internal/bolt/bolt5.go: a new connection, and the methods that set or read one field.
use neo4j_go_driver.Base.{Bool, true, false, not, none, List, []}
use neo4j_go_driver.Base.Int.{pos, negsuc}
use neo4j_go_driver.Packstream.Packer
use neo4j_go_driver.Bolt.Framing.Chunker.{new_chunker}
use neo4j_go_driver.Bolt.Values.Value.{Text}
use neo4j_go_driver.Bolt.Values.Any.{Entries}
use neo4j_go_driver.Bolt.Connection.Errors.{BoltState, BoltError, state_beq}
use neo4j_go_driver.Bolt.Connection.State.{Message, Bolt5}
use neo4j_go_driver.Bolt.Connection.Streaming.{new_stream}

-- `messages` and `e` are what the socket will give.
unfoldable pub new_bolt5 : Text → List Message → BoltError → Bolt5
unfolding new_chunker
new_bolt5 server_name messages e = record {
  state = BoltState.unauthorized;
  tx_id = 0;
  streams = record { curr = none; num = pos 0; key = 0; store = λ i. new_stream (pos 0) };
  fresh = 0;
  tables = λ i. none;
  server_name = server_name;
  connection_id = [];
  server_version = [];
  bookmark = [];
  database_name = [];
  err = none;
  minor = 0;
  last_qid = negsuc 0;
  auth = Entries.no_entries;
  auth_manager = none;
  reset_auth = false;
  telemetry_enabled = false;
  ssr_enabled = false;
  pins = false;
  read_timeout = negsuc 0;
  handlers = [];
  queue_err = none;
  arrivals = messages;
  broken = e;
  out = record {
    chunker = new_chunker;
    packer = Packer.begin [];
    told = [];
    use_utc = true;
    supports_uuid = false;
  };
  writes = [];
  notices = [];
}

unfoldable select_database : Text → Bolt5 → Bolt5
select_database database b = record b { database_name = database }

-- ResetAuth
unfoldable expire_auth : Bolt5 → Bolt5
expire_auth b = record b { reset_auth = true }

-- With a callback that is not nil.
unfoldable set_pin_home_database_callback : Bolt5 → Bolt5
set_pin_home_database_callback b = record b { pins = true }

unfoldable is_alive : Bolt5 → Bool
is_alive b = not (state_beq b.state BoltState.dead)

unfoldable has_failed : Bolt5 → Bool
has_failed b = state_beq b.state BoltState.failed
