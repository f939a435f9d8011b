-- ===== src/Bolt/Connection/Performing.antt =====
-- Every call of a connection but those that buffer a stream ends, whatever the server sends.
use neo4j_go_driver.Base.{some, ℕ, ◌≡◌, ◌≢◌, refl, ◌∙◌, Bool, true, false, Option, none, List}
use neo4j_go_driver.Bolt.Values.Value.{Text}
use neo4j_go_driver.Bolt.Values.Requests.{append_goodbye}
use neo4j_go_driver.Bolt.Values.Any.{Entries}
use neo4j_go_driver.Bolt.Streams.Stream.{resume}
use neo4j_go_driver.Bolt.Connection.Errors.{BoltState, state_beq}
use neo4j_go_driver.Bolt.Connection.Meta.{NotificationConfig}
use neo4j_go_driver.Bolt.Connection.State.{Bolt5, Host, set_state}
use neo4j_go_driver.Bolt.Connection.Queue.{
  Outcome, Run, done, failed, out_of_fuel, pure, ◌>>◌, change, early, append_out,
}
use neo4j_go_driver.Bolt.Connection.Arrivals.{send_queue-SameQueue, append_out-SameQueue}
use neo4j_go_driver.Bolt.Connection.Streaming.{
  append_pull, pause_current, pause_stream, resume_stream,
}
use neo4j_go_driver.Bolt.Connection.Calls.{
  tx_commit, tx_rollback, force_reset, reset_connection, get_routing_table, close, part,
}
use neo4j_go_driver.Bolt.Connection.Results.{Stream, keys, next, make_current, own_stream, consume}
use neo4j_go_driver.Bolt.Connection.Auth.{
  ReAuthToken, connect, fallback_re_auth, log_on_again, re_auth_logged_on, re_auth,
}
use neo4j_go_driver.Bolt.Connection.Calling.{
  tx_commit-Ends, tx_rollback-Ends, next-Ends, check_re_auth-Ends,
  check_notification_filtering-Ends, get_token-Ends, the_stream-Ends, safe_stream-Ends,
}
use neo4j_go_driver.Bolt.Connection.Ending.{
  append_pull-arrivals, discard_stream-Ends, send-Ends, exchange-Ends, enqueue-Ends, end_rules,
}
use neo4j_go_driver.Bolt.Connection.Terminates.{
  Within, Ends, >>=-Ends, >>-Ends, pure-Ends, get-Ends, change-Ends, choose-Ends, branch-Ends,
  check_err-Ends, early-Ends, with_current-Ends, assert_state-Ends, receive_all-Ends,
}

-- A call with its arguments.
pub data Call : Type 0 where
  commit_call rollback_call : ℕ → Call
  next_call consume_call keys_call : Stream → Call
  force_reset_call reset_call : Call
  route_call : List (Text × Text) → List Text → Text → Text → Call
  re_auth_call : ReAuthToken → Call
  connect_call :
      ℕ
      → ReAuthToken
      → Text
      → Option (List (Text × Text))
      → List (Text × Text)
      → NotificationConfig
      → Call

module _ (host : Host) (same : Entries → Entries → Bool) where
  unfoldable pub perform : Call → Run (Unit {0})
  perform (Call.commit_call h) = tx_commit host h
  perform (Call.rollback_call h) = tx_rollback host h
  perform (Call.next_call s) = next host s >> pure tt
  perform (Call.consume_call s) = consume host s >> pure tt
  perform (Call.keys_call s) = keys host s >> pure tt
  perform Call.force_reset_call = force_reset host
  perform Call.reset_call = reset_connection host
  perform (Call.route_call c m d u) = get_routing_table host c m d u >> pure tt
  perform (Call.re_auth_call a) = re_auth host same a
  perform (Call.connect_call v a u r g n) = connect host v a u r g n

  pause_current-Ends : (i : ℕ) → Ends (pause_current host i)
  unfolding pause_current
  pause_current-Ends i =
      >>-Ends _ _ (receive_all-Ends host)
        (>>-Ends _ _ check_err-Ends (choose-Ends _ _ _ (change-Ends _ (λ b. refl)) (pure-Ends tt)))

  pause_stream-Ends : Ends (pause_stream host)
  unfolding pause_stream
  pause_stream-Ends = record {
    run = λ b.
        (with_current-Ends b.streams.curr (λ i. early (pause_current host i))
            (λ i. early-Ends _ (pause_current-Ends i))).run
          b;
  }

  resume_stream-arrivals : (i : ℕ) (b : Bolt5) → (resume_stream host i b).arrivals ≡ b.arrivals
  unfolding resume_stream
  resume_stream-arrivals i b =
      let c = record b { streams = resume i b.streams } in
      (send_queue-SameQueue host (append_pull host i c)).arrivals ∙ append_pull-arrivals host i c

  own_stream-Ends : (i : ℕ) → Ends (own_stream host i)
  unfolding own_stream make_current
  own_stream-Ends i = >>-Ends _ _ (safe_stream-Ends i) (
      >>-Ends _ _ (assert_state-Ends _) (
        choose-Ends _ _ _ (pure-Ends tt) (
          >>-Ends _ _ pause_stream-Ends (
            >>-Ends _ _ check_err-Ends
              (change-Ends (resume_stream host i) (resume_stream-arrivals i))))))

  consume-Ends : (s : Stream) → Ends (consume host s)
  unfolding consume
  consume-Ends s =
      search (end_rules, the_stream-Ends, own_stream-Ends, discard_stream-Ends) depth 30

  keys-Ends : (s : Stream) → Ends (keys host s)
  unfolding keys
  keys-Ends s = search (end_rules, the_stream-Ends) depth 30

  clear_err-Ends : Ends (change (λ b. record b { err = none }))
  clear_err-Ends = change-Ends _ (λ b. refl)

  force_reset-Ends : Ends (force_reset host)
  unfolding force_reset
  force_reset-Ends = search (end_rules, clear_err-Ends, enqueue-Ends, send-Ends) depth 30

  reset_connection-Ends : Ends (reset_connection host)
  unfolding reset_connection
  reset_connection-Ends =
      >>-Ends _ _ (choose-Ends _ _ _ (pure-Ends tt) force_reset-Ends) (change-Ends _ (λ b. refl))

  get_routing_table-Ends :
      (c : List (Text × Text)) (m : List Text) (d u : Text) → Ends (get_routing_table host c m d u)
  unfolding get_routing_table
  get_routing_table-Ends c m d u = >>-Ends _ _ (assert_state-Ends _) (
      >>=-Ends _ _ (get-Ends _) (λ i.
        >>-Ends _ _ (change-Ends _ (λ b. refl))
          (>>-Ends _ _ (enqueue-Ends host _ _) (>>-Ends _ _ (exchange-Ends host) (get-Ends _)))))

  part-arrivals : (t : Bool) (b : Bolt5) → (part host t b).arrivals ≡ b.arrivals
  part-arrivals true b = refl
  part-arrivals false b =
      (send_queue-SameQueue host
        (append_out host append_goodbye (set_state BoltState.dead b))).arrivals
      ∙ (append_out-SameQueue host append_goodbye (set_state BoltState.dead b)).arrivals

  close-arrivals : (b : Bolt5) → (close host b).arrivals ≡ b.arrivals
  unfolding close
  close-arrivals b = part-arrivals (state_beq b.state BoltState.dead) b

  fallback_re_auth-Ends : (a : ReAuthToken) → Ends (fallback_re_auth host same a)
  unfolding fallback_re_auth
  fallback_re_auth-Ends a =
      let closing = change-Ends (close host) close-arrivals in
      >>-Ends _ _ (check_re_auth-Ends a) (
        choose-Ends _ _ _ closing
          (>>=-Ends _ _ (get_token-Ends a.answer) (λ t. choose-Ends _ _ _ (pure-Ends tt) closing)))

  abbrev logged_on : ReAuthToken → Entries → Bolt5 → Bolt5
  logged_on a t b = record b { auth = t; auth_manager = some a.manager }

  log_on_again-Ends : (a : ReAuthToken) (t : Entries) → Ends (log_on_again host same a t)
  unfolding log_on_again
  log_on_again-Ends a t = >>-Ends _ _ (enqueue-Ends host _ _) (
      >>-Ends _ _ (enqueue-Ends host _ _) (
        >>-Ends _ _ (send-Ends host) (
          >>-Ends _ _ (change-Ends (logged_on a t) (λ b. refl)) (
            branch-Ends _ _ _ (>>-Ends _ _ (receive_all-Ends host) check_err-Ends)
              (pure-Ends tt)))))

  re_auth-Ends : (a : ReAuthToken) → Ends (re_auth host same a)
  unfolding re_auth re_auth_logged_on
  re_auth-Ends a = choose-Ends _ _ _ (fallback_re_auth-Ends a) (
      >>=-Ends _ _ (get_token-Ends a.answer)
        (λ t. choose-Ends _ _ _ (pure-Ends tt) (log_on_again-Ends a t)))

  connect-Ends :
      (v : ℕ) (a : ReAuthToken) (u : Text) (r : Option (List (Text × Text)))
      (g : List (Text × Text)) (n : NotificationConfig)
      → Ends (connect host v a u r g n)
  unfolding connect
  connect-Ends v a u r g n = >>-Ends _ _ (assert_state-Ends _) (
      >>-Ends _ _ (change-Ends _ (λ b. refl)) (
        >>-Ends _ _ (check_re_auth-Ends a) (
          >>=-Ends _ _ (get_token-Ends a.answer) (λ t. >>-Ends _ _ (change-Ends _ (λ b. refl)) (
            >>-Ends _ _ (check_notification_filtering-Ends n) (
              >>-Ends _ _ (enqueue-Ends host _ _) (
                >>-Ends _ _ (branch-Ends _ _ _ (enqueue-Ends host _ _) (pure-Ends tt))
                  (>>-Ends _ _ (exchange-Ends host) (change-Ends _ (λ b. refl))))))))))

  perform-Ends : (c : Call) → Ends (perform c)
  unfolding perform
  perform-Ends (Call.commit_call h) = tx_commit-Ends host h
  perform-Ends (Call.rollback_call h) = tx_rollback-Ends host h
  perform-Ends (Call.next_call s) = >>-Ends _ _ (next-Ends host s) (pure-Ends tt)
  perform-Ends (Call.consume_call s) = >>-Ends _ _ (consume-Ends s) (pure-Ends tt)
  perform-Ends (Call.keys_call s) = >>-Ends _ _ (keys-Ends s) (pure-Ends tt)
  perform-Ends Call.force_reset_call = force_reset-Ends
  perform-Ends Call.reset_call = reset_connection-Ends
  perform-Ends (Call.route_call c m d u) =
      >>-Ends _ _ (get_routing_table-Ends c m d u) (pure-Ends tt)
  perform-Ends (Call.re_auth_call a) = re_auth-Ends a
  perform-Ends (Call.connect_call v a u r g n) = connect-Ends v a u r g n

  ne-out_of_fuel : {A : Type 0} (n : ℕ) (o : Outcome A) → Within n o → o ≢ out_of_fuel
  ne-out_of_fuel n (done x c) w e = cc
  ne-out_of_fuel n (failed x c) w e = cc
  ne-out_of_fuel n out_of_fuel w e = absurd w

  -- In every state of a connection, each of these calls ends with a result or an error, whatever
  -- messages are still to come: the fuel of no loop runs out. The calls are those of `Call`.
  pub perform-ne-out_of_fuel : (c : Call) (b : Bolt5) → perform c b ≢ out_of_fuel
  perform-ne-out_of_fuel c b = ne-out_of_fuel _ (perform c b) ((perform-Ends c).run b)
