-- ===== src/Bolt/Connection/Responses.antt =====
-- neo4j/internal/bolt/bolt5.go: what the response handlers do.
use neo4j_go_driver.Base.{ℕ, Bool, true, false, Option, none, some, List, [], ◌∷◌, if◌then◌else◌}
use neo4j_go_driver.Base.Int.{ℤ, pos, negsuc}
use neo4j_go_driver.Bolt.Streams.Stream.{attach, remove, push, empty_records, to_summary, point}
use neo4j_go_driver.Bolt.Values.Value.{Value, Fields, Items, Text, ascii, get_field}
use neo4j_go_driver.Bolt.Values.Failure.{Neo4jError}
use neo4j_go_driver.Bolt.Values.Success.{Success}
use neo4j_go_driver.Bolt.Connection.Errors.{BoltState, BoltError}
use neo4j_go_driver.Bolt.Connection.State.{
  StreamSummary, BoltStream, Handler, Notice, Bolt5, Host, notice, set_state, with_stream,
  is_positive, check_streams, on_failure,
}

abbrev hint_of : Text → Option Fields → Option Value
hint_of name none = none
hint_of name (some m) = get_field name m

abbrev timeout_of : ℤ → Option Value → ℤ
timeout_of old (some (Value.int n)) = if is_positive n then n else old
timeout_of old v = old

abbrev flag_of : Bool → Option Value → Bool
flag_of old (some (Value.boolean x)) = x
flag_of old v = old

unfoldable pub initialize_read_timeout_hint : Option Fields → Bolt5 → Bolt5
initialize_read_timeout_hint hints b = record b {
  read_timeout =
      timeout_of b.read_timeout (hint_of (ascii "connection.recv_timeout_seconds") hints);
}

unfoldable pub initialize_telemetry_enabled_hint : Option Fields → Bolt5 → Bolt5
initialize_telemetry_enabled_hint hints b = record b {
  telemetry_enabled = flag_of b.telemetry_enabled (hint_of (ascii "telemetry.enabled") hints);
}

unfoldable pub initialize_ssr_enabled_hint : Option Fields → Bolt5 → Bolt5
initialize_ssr_enabled_hint hints b = record b {
  ssr_enabled = flag_of b.ssr_enabled (hint_of (ascii "ssr.enabled") hints);
}

unfoldable pub on_hello_success : Success → Bolt5 → Bolt5
unfolding initialize_read_timeout_hint initialize_telemetry_enabled_hint initialize_ssr_enabled_hint
on_hello_success s b = initialize_ssr_enabled_hint s.configuration_hints (
    initialize_telemetry_enabled_hint s.configuration_hints (
      initialize_read_timeout_hint s.configuration_hints
        (record b { connection_id = s.connection_id; server_version = s.server })))

-- `if len(bookmark) > 0 { b.bookmark = bookmark }`
abbrev pub newer_bookmark : Text → Text → Text
newer_bookmark [] old = old
newer_bookmark (c ∷ t) old = c ∷ t

abbrev pub keep_bookmark : Text → Bolt5 → Bolt5
keep_bookmark t b = record b { bookmark = newer_bookmark t b.bookmark }

unfoldable pub on_commit_success : Success → Bolt5 → Bolt5
on_commit_success s b = keep_bookmark s.bookmark b

-- Both handlers that pin the database of an answer begin with this.
unfoldable pub pin_home_database : Text → Bolt5 → Bolt5
pin_home_database [] b = b
pin_home_database (c ∷ t) b = if b.pins then notice (Notice.pinned (c ∷ t)) b else b

unfoldable pub extract_summary : Success → BoltStream → Bolt5 → StreamSummary
unfolding to_summary
extract_summary s stream b = record {
  of_success = s;
  agent = b.server_version;
  minor = b.minor;
  server_name = b.server_name;
  tfirst = stream.tfirst;
  had_record = (to_summary stream).0;
  had_key = (to_summary stream).1;
}

abbrev pub fields_of : Option (List Text) → List Text
fields_of none = []
fields_of (some keys) = keys

abbrev pub newer_qid : ℤ → ℤ → ℤ
newer_qid (pos n) old = pos n
newer_qid (negsuc n) old = old

unfoldable pub on_run_success : ℕ → Success → Bolt5 → Bolt5
unfolding pin_home_database
on_run_success i s b =
    let c =
      with_stream i
        (λ t. record t {
          attached = true;
          keys = fields_of s.fields;
          qid = s.qid;
          tfirst = s.tfirst;
        })
        (pin_home_database s.db b) in
    record c { last_qid = newer_qid s.qid c.last_qid; streams = attach i c.streams }

abbrev pub end_stream : ℕ → Bolt5 → Bolt5
end_stream i b = check_streams (record b { streams = remove i b.streams })

abbrev pub set_summary : ℕ → StreamSummary → Bolt5 → Bolt5
set_summary i summary = with_stream i (λ t. record t { sum = some summary })

-- The last SUCCESS of a stream: its summary, and the bookmark.
unfoldable pub finish_stream : ℕ → Success → Bolt5 → Bolt5
unfolding extract_summary check_streams
finish_stream i s b =
    let summary = extract_summary s (b.streams.store i) b in
    end_stream i (set_summary i summary (keep_bookmark s.bookmark b))

unfoldable pub on_discard_success : ℕ → Success → Bolt5 → Bolt5
unfolding finish_stream
on_discard_success i s b =
    if s.has_more
    then with_stream i (λ t. record t { end_of_batch = true }) b
    else finish_stream i s b

abbrev pub drop_records : BoltStream → BoltStream
drop_records t = if t.discarding then empty_records t else t

unfoldable pub on_pull_success : ℕ → Success → Bolt5 → Bolt5
unfolding on_discard_success
on_pull_success i s b = on_discard_success i s (with_stream i drop_records b)

abbrev pub take_record : Items → BoltStream → BoltStream
take_record vs t =
    let seen = record t { had_record = true } in
    if t.discarding then empty_records seen else push (record { keys = t.keys; values = vs }) seen

-- The handler is put back in front of the others.
unfoldable pub on_pull_record : ℕ → Items → Bolt5 → Bolt5
unfolding push empty_records
on_pull_record i vs b =
    let c = with_stream i (take_record vs) b in record c { handlers = Handler.pull i ∷ c.handlers }

unfoldable pub on_success : Handler → Success → Bolt5 → Bolt5
unfolding on_hello_success on_commit_success on_run_success on_discard_success on_pull_success
    pin_home_database
on_success Handler.hello s b = on_hello_success s b
on_success Handler.logoff s b = b
on_success Handler.logon s b = b
on_success Handler.begin s b = pin_home_database s.db b
on_success Handler.commit s b = on_commit_success s b
on_success Handler.rollback s b = b
on_success Handler.reset s b = set_state BoltState.ready b
on_success (Handler.route i) s b = record b { tables = point i s.routing_table b.tables }
on_success (Handler.run i) s b = on_run_success i s b
on_success (Handler.discard i) s b = on_discard_success i s b
on_success (Handler.pull i) s b = on_pull_success i s b
on_success (Handler.telemetry true) s b = notice Notice.telemetry_sent b
on_success (Handler.telemetry false) s b = b

-- `stream.err = e`
abbrev pub fail_stream : ℕ → BoltError → Bolt5 → Bolt5
fail_stream i e = with_stream i (λ t. record t { err = some e })

-- `none` where the handler has no function for an IGNORED.
unfoldable pub on_ignored : Handler → Bolt5 → Option Bolt5
unfolding check_streams
on_ignored Handler.reset b = none
on_ignored (Handler.discard i) b =
    some (end_stream i (fail_stream i BoltError.interrupted_discard b))
on_ignored (Handler.pull i) b = some (end_stream i (fail_stream i BoltError.interrupted_pull b))
on_ignored h b = some b

unfoldable pub handle_failure : Host → Handler → Neo4jError → Bolt5 → Bolt5
unfolding on_failure
handle_failure host Handler.reset e b = set_state BoltState.dead (notice (Notice.neo4j_error e) b)
handle_failure host (Handler.discard i) e b =
    on_failure host e (fail_stream i (BoltError.failure e) b)
handle_failure host (Handler.pull i) e b = on_failure host e (fail_stream i (BoltError.failure e) b)
handle_failure host h e b = on_failure host e b
