-- ===== src/Bolt/Connection/Auth.antt =====
-- neo4j/internal/bolt/bolt5.go and reauth.go: logging on, from Connect to ReAuth.
use neo4j_go_driver.Base.{
  ℕ, Bool, true, false, not, Option, none, some, List, [], ◌∷◌, ◌&&◌, leb, nat_beq,
}
use neo4j_go_driver.Bolt.Streams.Stream.{reset}
use neo4j_go_driver.Bolt.Values.Value.{Text, ascii}
use neo4j_go_driver.Bolt.Values.Any.{Any, Entries}
use neo4j_go_driver.Bolt.Values.Requests.{append_hello, append_logon, append_logoff}
use neo4j_go_driver.Bolt.Connection.Errors.{BoltState, BoltError}
use neo4j_go_driver.Bolt.Connection.Meta.{
  NotificationConfig, set_entry, merge_entries, notifications_to_meta,
}
use neo4j_go_driver.Bolt.Connection.State.{Handler, Host, set_state}
use neo4j_go_driver.Bolt.Connection.Queue.{
  Run, pure, change, throw, ◌>>=◌, ◌>>◌, check_err, choose, branch, enqueue, receive_all,
  assert_state,
}
use neo4j_go_driver.Bolt.Connection.Streaming.{send, reset_streams}
use neo4j_go_driver.Bolt.Connection.Calls.{check_notification_filtering, exchange, close}

-- What a token manager answers.
pub data TokenAnswer : Type 0 where
  token : Entries → TokenAnswer
  no_token : ℕ → TokenAnswer

pub record ReAuthToken : Type 0 where
  pub manager : ℕ
  pub answer : TokenAnswer
  pub from_session : Bool
  pub force_re_auth : Bool

unfoldable pub get_token : TokenAnswer → Run Entries
get_token (TokenAnswer.token t) = pure t
get_token (TokenAnswer.no_token e) = throw (BoltError.of_manager e)

-- reauth.go
unfoldable pub check_re_auth : ReAuthToken → Run (Unit {0})
check_re_auth auth =
    choose (λ b. auth.from_session && nat_beq b.minor 0) (throw BoltError.no_session_auth) (pure tt)

abbrev when : Bool → (Entries → Entries) → Entries → Entries
when true f m = f m
when false f m = m

abbrev with_routing : Option (List (Text × Text)) → Entries → Entries
with_routing none m = m
with_routing (some c) m = set_entry (ascii "routing") (Any.string_map c) m

-- `agent` is what boltagent.New tells of the runtime.
unfoldable pub hello_map :
    (minor : ℕ) (user_agent : Text) (routing : Option (List (Text × Text)))
    (agent : List (Text × Text)) (tokens : Entries) (n : NotificationConfig)
    → Entries
unfolding set_entry merge_entries notifications_to_meta
hello_map minor user_agent routing agent tokens n = notifications_to_meta 5 minor n (
    when (nat_beq minor 0) (merge_entries tokens) (
      when (leb 3 minor) (set_entry (ascii "bolt_agent") (Any.string_map agent)) (
        with_routing routing
          (Entries.entry (ascii "user_agent") (Any.text user_agent) Entries.no_entries))))

module _ (host : Host) where
  unfoldable pub connect :
      ℕ
      → ReAuthToken
      → Text
      → Option (List (Text × Text))
      → List (Text × Text)
      → NotificationConfig
      → Run (Unit {0})
  unfolding assert_state get_token check_re_auth check_notification_filtering hello_map exchange
      reset
  connect minor auth user_agent routing agent n = do
    assert_state (BoltState.unauthorized ∷ [])
    change (λ b. record b { minor = minor })
    check_re_auth auth
    tokens ← get_token auth.answer
    change (λ b. record b { auth = tokens; auth_manager = some auth.manager })
    check_notification_filtering n
    enqueue host (append_hello host.zones (hello_map minor user_agent routing agent tokens n))
        Handler.hello
    branch (leb 1 minor) (enqueue host (append_logon host.zones tokens) Handler.logon) (pure tt)
    exchange host
    change (λ b. reset_streams host (set_state BoltState.ready b))

  -- `same` is reflect.DeepEqual.
  module _ (same : Entries → Entries → Bool) where
    unfoldable pub fallback_re_auth : ReAuthToken → Run (Unit {0})
    unfolding check_re_auth close get_token
    fallback_re_auth auth = do
      check_re_auth auth
      choose (λ b. b.reset_auth) (change (close host))
          (do
            tokens ← get_token auth.answer
            choose (λ b. same b.auth tokens) (pure tt) (change (close host)))

    unfoldable pub log_on_again : ReAuthToken → Entries → Run (Unit {0})
    unfolding exchange
    log_on_again auth tokens = do
      enqueue host append_logoff Handler.logoff
      enqueue host (append_logon host.zones tokens) Handler.logon
      send host
      change (λ b. record b { auth = tokens; auth_manager = some auth.manager })
      branch auth.force_re_auth (receive_all host >> check_err) (pure tt)

    unfoldable pub re_auth_logged_on : ReAuthToken → Run (Unit {0})
    unfolding get_token log_on_again
    re_auth_logged_on auth = do
      tokens ← get_token auth.answer
      choose (λ b. not b.reset_auth && (same b.auth tokens && not auth.force_re_auth)) (pure tt)
          (log_on_again auth tokens)

    unfoldable pub re_auth : ReAuthToken → Run (Unit {0})
    unfolding fallback_re_auth re_auth_logged_on
    re_auth auth = choose (λ b. nat_beq b.minor 0) (fallback_re_auth auth) (re_auth_logged_on auth)
