-- ===== src/Bolt/Connection/Arrivals.antt =====
-- What the functions of a connection do to the messages that are still to come: only `receive`
-- takes one.
use neo4j_go_driver.Base.{
  ℕ, ◌+◌, ◌≡◌, refl, ap, ◌∙◌, Bool, true, false, Option, none, some, List, [], ◌∷◌, ◌++◌, length,
  if◌then◌else◌,
}
use neo4j_go_driver.Bolt.Streams.Stream.{remove}
use neo4j_go_driver.Bolt.Framing.Chunker.{SendResult, send as send_chunks}
use neo4j_go_driver.Bolt.Values.Value.{Text}
use neo4j_go_driver.Bolt.Values.Success.{Success}
use neo4j_go_driver.Bolt.Values.Failure.{Neo4jError}
use neo4j_go_driver.Bolt.Values.Pack.{Outgoing, PackProblem}
use neo4j_go_driver.Bolt.Connection.Errors.{
  BoltState, BoltError, context_terminated_err, is_fatal_error,
}
use neo4j_go_driver.Bolt.Connection.State.{
  Notice, notice, combined, with_stream, is_positive, with_close_error, set_first, detach_from,
  fatal_error, seen_by_listener, Handler, Bolt5, Host, set_error, terminated, check_streams,
  on_io_error, on_failure,
}
use neo4j_go_driver.Bolt.Connection.Responses.{
  on_success, on_ignored, handle_failure, on_hello_success, on_commit_success, pin_home_database,
  on_run_success, on_discard_success, on_pull_success, finish_stream, keep_bookmark, set_summary,
  extract_summary, end_stream, fail_stream, drop_records, initialize_read_timeout_hint,
  initialize_telemetry_enabled_hint, initialize_ssr_enabled_hint,
}
use neo4j_go_driver.Bolt.Connection.Queue.{
  append, append_out, enqueue_callback, report, send_queue, sent,
}

-- The queue is as it was, and so are the messages to come.
pub record SameQueue (b c : Bolt5) : Type 0 where
  pub arrivals : c.arrivals ≡ b.arrivals
  pub handlers : c.handlers ≡ b.handlers
  pub queue_err : c.queue_err ≡ b.queue_err

pub SameQueue-refl : (b : Bolt5) → SameQueue b b
SameQueue-refl b = record { arrivals = refl; handlers = refl; queue_err = refl }

pub SameQueue-trans : {b c d : Bolt5} → SameQueue b c → SameQueue c d → SameQueue b d
SameQueue-trans p q = record {
  arrivals = q.arrivals ∙ p.arrivals;
  handlers = q.handlers ∙ p.handlers;
  queue_err = q.queue_err ∙ p.queue_err;
}

SameQueue-if :
    {b c d : Bolt5} (t : Bool) → SameQueue b c → SameQueue b d → SameQueue b (if t then c else d)
SameQueue-if true p q = p
SameQueue-if false p q = q

pub same_queue :
    (b c : Bolt5)
    → c.arrivals ≡ b.arrivals
    → c.handlers ≡ b.handlers
    → c.queue_err ≡ b.queue_err
    → SameQueue b c
same_queue b c p q r = record { arrivals = p; handlers = q; queue_err = r }

pub check_streams-SameQueue : (b : Bolt5) → SameQueue b (check_streams b)
unfolding check_streams
check_streams-SameQueue b =
    SameQueue-if (is_positive b.streams.num) (SameQueue-refl b) (same_queue b _ refl refl refl)

detach_from-SameQueue : (o : Option ℕ) (e : BoltError) (b : Bolt5) → SameQueue b (detach_from o e b)
detach_from-SameQueue none e b = SameQueue-refl b
detach_from-SameQueue (some i) e b =
    SameQueue-trans (same_queue b _ refl refl refl) (check_streams-SameQueue _)

with_close_error-SameQueue :
    (e : BoltError) (o : Option ℕ) (b : Bolt5) → SameQueue b (with_close_error e o b)
with_close_error-SameQueue e none b = SameQueue-refl b
with_close_error-SameQueue e (some c) b = same_queue b _ refl refl refl

set_first-SameQueue :
    (o : Option BoltError) (e : BoltError) (b : Bolt5) → SameQueue b (set_first o e b)
set_first-SameQueue none e b = same_queue b _ refl refl refl
set_first-SameQueue (some old) e b = SameQueue-refl b

seen_by_listener-SameQueue :
    (host : Host) (s : BoltState) (e : BoltError) (b : Bolt5)
    → SameQueue b (seen_by_listener host s e b)
seen_by_listener-SameQueue host BoltState.failed e b = SameQueue-refl b
seen_by_listener-SameQueue host BoltState.dead e b = SameQueue-refl b
seen_by_listener-SameQueue host s e b = same_queue b _ refl refl refl

fail_stream-SameQueue : (i : ℕ) (e : BoltError) (b : Bolt5) → SameQueue b (fail_stream i e b)
fail_stream-SameQueue i e b = same_queue b _ refl refl refl

module _ (host : Host) where
  terminated-SameQueue : (e : BoltError) (b : Bolt5) → SameQueue b (terminated host e b)
  unfolding terminated
  terminated-SameQueue e b =
      SameQueue-if (context_terminated_err e)
        (SameQueue-trans (same_queue b _ refl refl refl)
          (with_close_error-SameQueue e host.close_fault _))
        (SameQueue-refl b)

  fatal_error-SameQueue :
      (f : Bool) (e : BoltError) (b : Bolt5) → SameQueue b (fatal_error host f e b)
  fatal_error-SameQueue true e b =
      SameQueue-trans (terminated-SameQueue e b) (same_queue _ _ refl refl refl)
  fatal_error-SameQueue false e b = SameQueue-refl b

  pub set_error-SameQueue :
      (e : BoltError) (fatal : Bool) (b : Bolt5) → SameQueue b (set_error host e fatal b)
  unfolding set_error
  set_error-SameQueue e f b =
      SameQueue-trans (set_first-SameQueue b.err e b)
        (SameQueue-trans (fatal_error-SameQueue f e _) (detach_from-SameQueue _ e _))

  pub on_io_error-SameQueue : (e : BoltError) (b : Bolt5) → SameQueue b (on_io_error host e b)
  unfolding on_io_error
  on_io_error-SameQueue e b =
      SameQueue-trans (seen_by_listener-SameQueue host b.state e b) (set_error-SameQueue e true _)

  notice-SameQueue : (n : Notice) (b : Bolt5) → SameQueue b (notice n b)
  notice-SameQueue n b = same_queue b _ refl refl refl

  pub on_failure-SameQueue : (e : Neo4jError) (b : Bolt5) → SameQueue b (on_failure host e b)
  unfolding on_failure
  on_failure-SameQueue e b =
      SameQueue-trans (notice-SameQueue (Notice.neo4j_error e) b)
        (set_error-SameQueue (combined host (host.on_neo4j_error e) e) (is_fatal_error e) _)

  pub handle_failure-SameQueue :
      (h : Handler) (e : Neo4jError) (b : Bolt5) → SameQueue b (handle_failure host h e b)
  unfolding handle_failure
  handle_failure-SameQueue Handler.reset e b = same_queue b _ refl refl refl
  handle_failure-SameQueue (Handler.discard i) e b =
      SameQueue-trans (fail_stream-SameQueue i (BoltError.failure e) b) (on_failure-SameQueue e _)
  handle_failure-SameQueue (Handler.pull i) e b =
      SameQueue-trans (fail_stream-SameQueue i (BoltError.failure e) b) (on_failure-SameQueue e _)
  handle_failure-SameQueue h e b = on_failure-SameQueue e b

keep_bookmark-SameQueue : (t : Text) (b : Bolt5) → SameQueue b (keep_bookmark t b)
keep_bookmark-SameQueue t b = same_queue b _ refl refl refl

pin_home_database-SameQueue : (t : Text) (b : Bolt5) → SameQueue b (pin_home_database t b)
unfolding pin_home_database
pin_home_database-SameQueue [] b = SameQueue-refl b
pin_home_database-SameQueue (c ∷ t) b =
    SameQueue-if b.pins (same_queue b _ refl refl refl) (SameQueue-refl b)

end_stream-SameQueue : (i : ℕ) (b : Bolt5) → SameQueue b (end_stream i b)
end_stream-SameQueue i b =
    SameQueue-trans (same_queue b (record b { streams = remove i b.streams }) refl refl refl)
      (check_streams-SameQueue _)

finish_stream-SameQueue : (i : ℕ) (s : Success) (b : Bolt5) → SameQueue b (finish_stream i s b)
unfolding finish_stream
finish_stream-SameQueue i s b = SameQueue-trans (keep_bookmark-SameQueue s.bookmark b) (
    SameQueue-trans
      (same_queue (keep_bookmark s.bookmark b)
        (set_summary i (extract_summary s (b.streams.store i) b) (keep_bookmark s.bookmark b)) refl
        refl refl)
      (end_stream-SameQueue i _))

on_discard_success-SameQueue :
    (i : ℕ) (s : Success) (b : Bolt5) → SameQueue b (on_discard_success i s b)
unfolding on_discard_success
on_discard_success-SameQueue i s b =
    SameQueue-if s.has_more (same_queue b _ refl refl refl) (finish_stream-SameQueue i s b)

on_run_success-SameQueue : (i : ℕ) (s : Success) (b : Bolt5) → SameQueue b (on_run_success i s b)
unfolding on_run_success
on_run_success-SameQueue i s b =
    SameQueue-trans (pin_home_database-SameQueue s.db b) (same_queue _ _ refl refl refl)

pub on_success-SameQueue : (h : Handler) (s : Success) (b : Bolt5) → SameQueue b (on_success h s b)
unfolding on_success on_hello_success on_commit_success on_pull_success initialize_read_timeout_hint
    initialize_telemetry_enabled_hint initialize_ssr_enabled_hint
on_success-SameQueue Handler.hello s b = same_queue b _ refl refl refl
on_success-SameQueue Handler.logoff s b = SameQueue-refl b
on_success-SameQueue Handler.logon s b = SameQueue-refl b
on_success-SameQueue Handler.begin s b = pin_home_database-SameQueue s.db b
on_success-SameQueue Handler.commit s b = keep_bookmark-SameQueue s.bookmark b
on_success-SameQueue Handler.rollback s b = SameQueue-refl b
on_success-SameQueue Handler.reset s b = same_queue b _ refl refl refl
on_success-SameQueue (Handler.route i) s b = same_queue b _ refl refl refl
on_success-SameQueue (Handler.run i) s b = on_run_success-SameQueue i s b
on_success-SameQueue (Handler.discard i) s b = on_discard_success-SameQueue i s b
on_success-SameQueue (Handler.pull i) s b =
    SameQueue-trans (same_queue b (with_stream i drop_records b) refl refl refl)
      (on_discard_success-SameQueue i s _)
on_success-SameQueue (Handler.telemetry true) s b = same_queue b _ refl refl refl
on_success-SameQueue (Handler.telemetry false) s b = SameQueue-refl b

-- What on_ignored gives, where it gives anything.
abbrev pub SameQueueIf : Bolt5 → Option Bolt5 → Type 0
SameQueueIf b none = Unit
SameQueueIf b (some c) = SameQueue b c

pub on_ignored-SameQueue : (h : Handler) (b : Bolt5) → SameQueueIf b (on_ignored h b)
unfolding on_ignored
on_ignored-SameQueue Handler.reset b = tt
on_ignored-SameQueue (Handler.discard i) b =
    SameQueue-trans (fail_stream-SameQueue i BoltError.interrupted_discard b)
      (end_stream-SameQueue i _)
on_ignored-SameQueue (Handler.pull i) b =
    SameQueue-trans (fail_stream-SameQueue i BoltError.interrupted_pull b)
      (end_stream-SameQueue i _)
on_ignored-SameQueue h b = SameQueue-refl b

module _ (host : Host) where
  report-SameQueue : (ps : List PackProblem) (b : Bolt5) → SameQueue b (report host ps b)
  unfolding report
  report-SameQueue [] b = SameQueue-refl b
  report-SameQueue (p ∷ ps) b =
      SameQueue-trans (set_error-SameQueue host (BoltError.packing p) true b)
        (report-SameQueue ps _)

  abbrev packed : Outgoing → Bolt5 → Bolt5
  packed o b = record b { out = record o { told = [] } }

  pub append_out-SameQueue :
      (f : Outgoing → Outgoing) (b : Bolt5) → SameQueue b (append_out host f b)
  unfolding append_out
  append_out-SameQueue f b =
      SameQueue-trans (same_queue b (packed (f b.out) b) refl refl refl)
        (report-SameQueue (f b.out).told _)

  sent-SameQueue : (r : SendResult) (b : Bolt5) → SameQueue b (sent host r b)
  sent-SameQueue (SendResult.done c ws) b = same_queue b _ refl refl refl
  sent-SameQueue (SendResult.write_failed e c ws) b =
      SameQueue-trans
        (same_queue b (record b { out = record b.out { chunker = c }; writes = b.writes ++ ws })
          refl refl refl)
        (on_io_error-SameQueue host (BoltError.writing e) _)

  pub send_queue-SameQueue : (b : Bolt5) → SameQueue b (send_queue host b)
  unfolding send_queue
  send_queue-SameQueue b =
      sent-SameQueue (send_chunks (λ k. host.write_fault (length b.writes + k)) b.out.chunker) b

  -- A handler joins the end of the queue.
  pub append-handlers :
      (f : Outgoing → Outgoing) (h : Handler) (b : Bolt5)
      → (append host f h b).handlers ≡ b.handlers ++ (h ∷ [])
  unfolding append enqueue_callback
  append-handlers f h b =
      ap (λ (l : List Handler). l ++ (h ∷ [])) (append_out-SameQueue f b).handlers

  pub append-arrivals :
      (f : Outgoing → Outgoing) (h : Handler) (b : Bolt5)
      → (append host f h b).arrivals ≡ b.arrivals
  unfolding append enqueue_callback
  append-arrivals f h b = (append_out-SameQueue f b).arrivals
