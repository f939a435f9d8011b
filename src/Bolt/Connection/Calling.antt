-- ===== src/Bolt/Connection/Calling.antt =====
-- The calls of a connection that end on any messages.
use neo4j_go_driver.Base.{ℕ, Bool, true, false, zero, suc, refl, arith, none, some, length}
use neo4j_go_driver.Bolt.Streams.Stream.{Next, get_unsafe}
use neo4j_go_driver.Bolt.Connection.Errors.{BoltError}
use neo4j_go_driver.Bolt.Connection.Meta.{NotificationConfig}
use neo4j_go_driver.Bolt.Connection.State.{Host, Row, StreamSummary}
use neo4j_go_driver.Bolt.Connection.Queue.{
  Run, pure, branch, choose, ◌>>=◌, ◌>>◌, get, check_err, receive,
}
use neo4j_go_driver.Bolt.Connection.Streaming.{append_pull, attach_rounds, stream_of}
use neo4j_go_driver.Bolt.Connection.Calls.{
  check_notification_filtering, assert_tx_handle, tx_commit, tx_rollback,
}
use neo4j_go_driver.Bolt.Connection.Results.{
  Stream, the_stream, safe_stream, pull_batch, some_more, found, take_buffered, next_rounds, next,
}
use neo4j_go_driver.Bolt.Connection.Auth.{ReAuthToken, TokenAnswer, get_token, check_re_auth}
use neo4j_go_driver.Bolt.Connection.Ending.{
  append_pull-arrivals, discard_all_streams-Ends, send-Ends, exchange-Ends, enqueue-Ends,
  set_state-Ends, end_rules,
}
use neo4j_go_driver.Bolt.Connection.Terminates.{
  Ends, EndsBelow, proceed-Within, proceed-Below, >>-Ends, pure-Ends, throw-Ends, change-Ends,
  choose-Ends, check_err-Ends, receive-Below,
}

assert_tx_handle-Ends : (h : ℕ) → Ends (assert_tx_handle h)
unfolding assert_tx_handle
assert_tx_handle-Ends h = search end_rules

pub check_re_auth-Ends : (auth : ReAuthToken) → Ends (check_re_auth auth)
unfolding check_re_auth
check_re_auth-Ends auth = search end_rules

pub check_notification_filtering-Ends :
    (n : NotificationConfig) → Ends (check_notification_filtering n)
unfolding check_notification_filtering
check_notification_filtering-Ends n = search end_rules

pub get_token-Ends : (a : TokenAnswer) → Ends (get_token a)
unfolding get_token
get_token-Ends (TokenAnswer.token t) = search end_rules
get_token-Ends (TokenAnswer.no_token e) = search end_rules

pub the_stream-Ends : (s : Stream) → Ends (the_stream s)
unfolding the_stream get_unsafe
the_stream-Ends none = search end_rules
the_stream-Ends (some i) = search end_rules

pub safe_stream-Ends : (i : ℕ) → Ends (safe_stream i)
unfolding safe_stream
safe_stream-Ends i = search end_rules

module _ (host : Host) where
  pub tx_commit-Ends : (h : ℕ) → Ends (tx_commit host h)
  unfolding tx_commit
  tx_commit-Ends h =
      search
        (
          end_rules, assert_tx_handle-Ends, enqueue-Ends, set_state-Ends, exchange-Ends,
          discard_all_streams-Ends,
        )
        depth 30

  pub tx_rollback-Ends : (h : ℕ) → Ends (tx_rollback host h)
  unfolding tx_rollback
  tx_rollback-Ends h =
      search
        (
          end_rules, assert_tx_handle-Ends, enqueue-Ends, set_state-Ends, exchange-Ends,
          discard_all_streams-Ends,
        )
        depth 30

  pull_batch-Ends : (i : ℕ) → Ends (pull_batch host i)
  unfolding pull_batch
  pull_batch-Ends i =
      choose-Ends _ _ _
        (>>-Ends _ _ (change-Ends (append_pull host i) (append_pull-arrivals host i))
          (>>-Ends _ _ (send-Ends host) (change-Ends _ (λ b. refl))))
        (pure-Ends tt)

  some_more-Ends : Ends (some_more host)
  unfolding some_more
  some_more-Ends = search end_rules

  take_buffered-Ends : (i : ℕ) → Ends (take_buffered host i)
  unfolding take_buffered
  take_buffered-Ends i = record { run = λ b. omega arith }

  -- The rest of a round of `next`: it takes a message.
  abbrev again : ℕ → Run (Next Row StreamSummary BoltError) → Run (Next Row StreamSummary BoltError)
  again i k = pull_batch host i >> (some_more host >> (receive host >> (check_err >> k)))

  EndsBelow-of-Ends : {A : Type 0} (n : ℕ) (m : Run A) → Ends m → EndsBelow n m
  EndsBelow-of-Ends n m e = record { run = λ b l. e.run b }

  >>-EndsBelow :
      {A B : Type 0} (n : ℕ) (m : Run A) (k : Run B) → Ends m → EndsBelow n k → EndsBelow n (m >> k)
  unfolding ◌>>◌
  >>-EndsBelow n m k p q = record {
    run = λ b l. proceed-Within _ (m b) (λ _. k) (p.run b) (λ x c le. q.run c (omega arith));
  }

  receive-EndsBelow :
      {A : Type 0} (n : ℕ) (k : Run A) → EndsBelow n k → EndsBelow (suc n) (receive host >> k)
  unfolding ◌>>◌
  receive-EndsBelow n k q = record {
    run = λ b l.
        proceed-Below _ (receive host b) (λ _. k) (receive-Below host b)
          (λ x c lt. q.run c (omega arith));
  }

  found-EndsBelow :
      (n : ℕ) (x : Next Row StreamSummary BoltError) (k : Run (Next Row StreamSummary BoltError))
      → EndsBelow n k
      → EndsBelow n (found host x k)
  unfolding found
  found-EndsBelow n (Next.next_record r) k q = EndsBelow-of-Ends n _ (pure-Ends _)
  found-EndsBelow n (Next.next_error e) k q = EndsBelow-of-Ends n _ (throw-Ends e)
  found-EndsBelow n (Next.next_summary s) k q = EndsBelow-of-Ends n _ (pure-Ends _)
  found-EndsBelow n Next.not_buffered k q = q

  next_rounds-EndsBelow : (fuel i : ℕ) → EndsBelow fuel (next_rounds host fuel i)
  unfolding next_rounds ◌>>=◌
  next_rounds-EndsBelow zero i = record { run = λ b l. elim l [ ] }
  next_rounds-EndsBelow (suc fuel) i =
      let rest = next_rounds-EndsBelow fuel i in
      record {
        run = λ b l.
            proceed-Within _ (take_buffered host i b) _ ((take_buffered-Ends i).run b) (λ x c le.
              (found-EndsBelow (suc fuel) x (again i (next_rounds host fuel i)) (
                  >>-EndsBelow _ _ _ (pull_batch-Ends i) (
                    >>-EndsBelow _ _ _ some_more-Ends
                      (receive-EndsBelow fuel _ (>>-EndsBelow _ _ _ check_err-Ends rest))))).run
                c (omega arith));
      }

  pub next-Ends : (s : Stream) → Ends (next host s)
  unfolding next ◌>>=◌ get
  next-Ends s = record {
    run = λ b.
        proceed-Within _ (the_stream s b) _ ((the_stream-Ends s).run b)
          (λ i c le. (next_rounds-EndsBelow (suc (length c.arrivals)) i).run c (omega arith));
  }

  branch-EndsBelow :
      {A : Type 0} (n : ℕ) (t : Bool) (m k : Run A)
      → EndsBelow n m
      → EndsBelow n k
      → EndsBelow n (branch t m k)
  unfolding branch
  branch-EndsBelow n true m k p q = p
  branch-EndsBelow n false m k p q = q

  -- The loop of run ends where its fuel is more than the messages to come.
  attach_rounds-EndsBelow : (fuel i : ℕ) → EndsBelow fuel (attach_rounds host fuel i)
  unfolding attach_rounds choose
  attach_rounds-EndsBelow zero i = record { run = λ b l. elim l [ ] }
  attach_rounds-EndsBelow (suc fuel) i =
      let rest = attach_rounds-EndsBelow fuel i in
      record {
        run = λ b l.
            (branch-EndsBelow (suc fuel) (stream_of i b).attached (pure tt)
                (receive host >> (check_err >> attach_rounds host fuel i))
                (EndsBelow-of-Ends (suc fuel) _ (pure-Ends tt))
                (receive-EndsBelow fuel _ (>>-EndsBelow _ _ _ check_err-Ends rest))).run
              b l;
      }
