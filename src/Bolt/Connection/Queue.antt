-- ===== src/Bolt/Connection/Queue.antt =====
-- neo4j/internal/bolt/message_queue.go. An action on a connection gives a result, or it returns an
-- error, or the model's fuel runs out.
use neo4j_go_driver.Base.{
  ℕ, zero, suc, ◌+◌, Bool, true, false, Option, none, some, List, [], ◌∷◌, ◌++◌, length,
}
use neo4j_go_driver.Bolt.Framing.Chunker.{SendResult, send as send_chunks}
use neo4j_go_driver.Bolt.Values.Pack.{Outgoing, PackProblem}
use neo4j_go_driver.Bolt.Connection.Errors.{BoltState, BoltError, state_beq}
use neo4j_go_driver.Bolt.Connection.State.{Message, Handler, Bolt5, Host, set_error, on_io_error}
use neo4j_go_driver.Bolt.Connection.Responses.{
  on_success, on_ignored, on_pull_record, handle_failure,
}

pub data Outcome (A : Type 0) : Type 0 where
  done : A → Bolt5 → Outcome A
  failed : BoltError → Bolt5 → Outcome A
  out_of_fuel : Outcome A

abbrev pub Run : Type 0 → Type 0
Run A = Bolt5 → Outcome A

unfoldable pub pure : {A : Type 0} → A → Run A
pure a b = done a b

abbrev pub proceed : {A B : Type 0} → Outcome A → (A → Run B) → Outcome B
proceed (done a b) f = f a b
proceed (failed e b) f = failed e b
proceed out_of_fuel f = out_of_fuel

infixl 5 ◌>>=◌ ◌>>◌
unfoldable pub ◌>>=◌ : {A B : Type 0} → Run A → (A → Run B) → Run B
◌>>=◌ m f b = proceed (m b) f

unfoldable pub ◌>>◌ : {A B : Type 0} → Run A → Run B → Run B
(m >> k) b = proceed (m b) (λ _. k)

unfoldable pub change : (Bolt5 → Bolt5) → Run (Unit {0})
change f b = done tt (f b)

unfoldable pub get : {A : Type 0} → (Bolt5 → A) → Run A
get f b = done (f b) b

unfoldable pub throw : {A : Type 0} → BoltError → Run A
throw e b = failed e b

unfoldable pub branch : {A : Type 0} → Bool → Run A → Run A → Run A
branch true m k = m
branch false m k = k

-- `if m { … } else { … }` for a test of the state.
unfoldable pub choose : {A : Type 0} → (Bolt5 → Bool) → Run A → Run A → Run A
unfolding branch
choose test m k b = branch (test b) m k b

unfoldable pub raise : Option BoltError → Run (Unit {0})
raise none b = done tt b
raise (some e) b = failed e b

-- `if e != nil { return e }`
unfoldable pub unless_error : (Bolt5 → Option BoltError) → Run (Unit {0})
unfolding raise
unless_error error b = raise (error b) b

unfoldable pub check_err : Run (Unit {0})
unfolding unless_error
check_err = unless_error (λ b. b.err)

-- A function that returns nothing, where an error of a callee made it return early.
abbrev pub ended : Outcome (Unit {0}) → Outcome (Unit {0})
ended (done a b) = done a b
ended (failed e b) = done tt b
ended out_of_fuel = out_of_fuel

unfoldable pub early : Run (Unit {0}) → Run (Unit {0})
early m b = ended (m b)

-- What is done with the current stream, if there is one.
abbrev pub with_current : Option ℕ → (ℕ → Run (Unit {0})) → Run (Unit {0})
with_current none m b = done tt b
with_current (some i) m b = m i b

unfoldable pub enqueue_callback : Handler → Bolt5 → Bolt5
enqueue_callback h b = record b { handlers = b.handlers ++ (h ∷ []) }

abbrev pub is_empty : Bolt5 → Bool
is_empty b = elim b.handlers [ [] ↦ true | h ∷ hs ↦ false ]

-- `if q.handlers.Len() == 0 { return nil }`
abbrev pub while_waiting : List Handler → Run (Unit {0}) → Run (Unit {0})
while_waiting [] again b = done tt b
while_waiting (h ∷ hs) again b = again b

module _ (host : Host) where
  unfoldable pub report : List PackProblem → Bolt5 → Bolt5
  unfolding set_error
  report [] b = b
  report (p ∷ ps) b = report ps (set_error host (BoltError.packing p) true b)

  -- A message goes to the chunker, and onPackErr is told what could not be packed.
  unfoldable pub append_out : (Outgoing → Outgoing) → Bolt5 → Bolt5
  unfolding report
  append_out f b = let o = f b.out in report o.told (record b { out = record o { told = [] } })

  unfoldable pub append : (Outgoing → Outgoing) → Handler → Bolt5 → Bolt5
  unfolding append_out enqueue_callback
  append f h b = enqueue_callback h (append_out f b)

  unfoldable pub enqueue : (Outgoing → Outgoing) → Handler → Run (Unit {0})
  unfolding append
  enqueue f h = change (append f h)

  abbrev pub sent : SendResult → Bolt5 → Bolt5
  sent (SendResult.done c ws) b = record b {
    out = record b.out { chunker = c };
    writes = b.writes ++ ws;
  }
  sent (SendResult.write_failed e c ws) b =
      on_io_error host (BoltError.writing e)
        (record b { out = record b.out { chunker = c }; writes = b.writes ++ ws })

  unfoldable pub send_queue : Bolt5 → Bolt5
  unfolding on_io_error
  send_queue b = sent (send_chunks (λ k. host.write_fault (length b.writes + k)) b.out.chunker) b

  abbrev pub ignored : Option Bolt5 → Bolt5 → Outcome (Unit {0})
  ignored none b = failed BoltError.unexpected_ignored b
  ignored (some c) b = done tt c

  unfoldable pub respond : Message → Handler → Run (Unit {0})
  unfolding on_success on_ignored on_pull_record handle_failure
  respond (Message.record_message vs) (Handler.pull i) b = done tt (on_pull_record i vs b)
  respond (Message.record_message vs) h b = failed BoltError.unexpected_record b
  respond (Message.success_message s) h b = done tt (on_success h s b)
  respond (Message.failure_message e) h b = failed (BoltError.failure e) (handle_failure host h e b)
  respond Message.ignored_message h b = ignored (on_ignored h b) b

  abbrev pub to_first : Message → List Handler → Run (Unit {0})
  to_first m [] b = failed BoltError.no_callback b
  to_first m (h ∷ hs) b = respond m h (record b { handlers = hs })

  abbrev pub take_message : List Message → Run (Unit {0})
  take_message [] b =
      failed b.broken (on_io_error host b.broken (record b { queue_err = some b.broken }))
  take_message (m ∷ ms) b = to_first m b.handlers (record b { arrivals = ms })

  -- Nothing is read any more once reading has failed.
  abbrev pub receive_from : Option BoltError → Run (Unit {0})
  receive_from none b = take_message b.arrivals b
  receive_from (some e) b = failed e b

  unfoldable pub receive : Run (Unit {0})
  unfolding respond on_io_error
  receive b = receive_from b.queue_err b

  -- Each round takes a message; the fuel is one more than there are.
  unfoldable pub receive_rounds : ℕ → Run (Unit {0})
  unfolding receive
  receive_rounds zero b = out_of_fuel
  receive_rounds (suc fuel) b = while_waiting b.handlers (receive >> receive_rounds fuel) b

  unfoldable pub receive_all : Run (Unit {0})
  unfolding receive_rounds
  receive_all = get (λ b. length b.arrivals) >>= λ n. receive_rounds (suc n)

-- Does not change the connection, which is still valid.
abbrev pub state_in : BoltState → List BoltState → Bool
state_in s [] = false
state_in s (t ∷ ts) = elim (state_beq s t) [ true ↦ true | false ↦ state_in s ts ]

abbrev pub deny : List BoltState → Run (Unit {0})
deny allowed b = failed (BoltError.invalid_state b.state allowed) b

unfoldable pub assert_state : List BoltState → Run (Unit {0})
assert_state allowed = check_err >> choose (λ b. state_in b.state allowed) (pure tt) (deny allowed)
