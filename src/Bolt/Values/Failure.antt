-- ===== src/Bolt/Values/Failure.antt =====
-- neo4j/internal/bolt/hydrator.go, `failure`, with PolyfillGqlError of
-- neo4j/internal/errorutil/errors.go. An error with a cause calls `failure` again for the cause.
use neo4j_go_driver.Base.{ℕ, zero, suc, Option, none, some, [], ◌∷◌, ◌++◌, if◌then◌else◌}
use neo4j_go_driver.Packstream.Unpacker
use neo4j_go_driver.Bolt.Values.Value.{Value, Fields, Text, ascii, text_beq, get_field, set_field}
use neo4j_go_driver.Bolt.Values.Times.{Zones}
use neo4j_go_driver.Bolt.Values.Run.{
  Run, out_of_fuel, pure, ◌>>=◌, ◌>>◌, call, next, assert_length, unless_err, next_string,
}
use neo4j_go_driver.Bolt.Values.Struct.{amap, as_string}
use neo4j_go_driver.Bolt.Values.Hydrate.{value}

pub data Classification : Type 0 where
  no_classification client_error database_error transient_error unknown_error : Classification

-- db.Neo4jError without its cause.
pub record ServerError : Type 0 where
  pub code : Text
  pub msg : Text
  pub gql_status : Text
  pub gql_status_description : Text
  pub gql_raw_classification : Text
  pub gql_classification : Classification
  pub gql_diagnostic_record : Option Fields

pub data Neo4jError : Type 0 where
  uncaused : ServerError → Neo4jError
  caused_by : ServerError → Neo4jError → Neo4jError

unfoldable pub classify : Text → Classification
classify s =
    if text_beq s (ascii "CLIENT_ERROR")
    then Classification.client_error
    else if text_beq s (ascii "DATABASE_ERROR")
    then Classification.database_error
    else if text_beq s (ascii "TRANSIENT_ERROR")
    then Classification.transient_error
    else Classification.unknown_error

abbrev unless_empty : Text → Text → Text
unless_empty [] other = other
unless_empty (c ∷ s) other = c ∷ s

-- NewDefaultDiagnosticRecord
unfoldable pub default_record : Fields
default_record = Fields.field (ascii "OPERATION") (Value.text []) (
    Fields.field (ascii "OPERATION_CODE") (Value.text (ascii "0"))
      (Fields.field (ascii "CURRENT_SCHEMA") (Value.text (ascii "/")) Fields.end_fields))

-- `for key, value := range defaultRecord { if _, exists := m[key]; !exists { m[key] = value } }`
unfoldable pub fill_missing : Fields → Fields → Fields
fill_missing Fields.end_fields m = m
fill_missing (Fields.field key value rest) m =
    fill_missing rest (elim (get_field key m) [ some v ↦ m | none ↦ set_field key value m ])

abbrev polyfill_record : Option Fields → Fields
polyfill_record none = default_record
polyfill_record (some m) = fill_missing default_record m

unfoldable pub polyfill_gql_error : ServerError → ServerError
unfolding default_record fill_missing classify
polyfill_gql_error e =
    let msg = unless_empty e.msg (ascii "An unknown error occurred") in
    let filled = polyfill_record e.gql_diagnostic_record in
    let named = as_string (get_field (ascii "_classification") filled) in
    record {
      code = unless_empty e.code (ascii "Neo.DatabaseError.General.UnknownError");
      msg = msg;
      gql_status = unless_empty e.gql_status (ascii "50N42");
      gql_status_description =
          unless_empty e.gql_status_description
            (ascii "error: general processing exception - unexpected error. " ++ msg);
      gql_raw_classification = elim named [ some s ↦ s | none ↦ [] ];
      gql_classification = elim named [ some s ↦ classify s | none ↦ Classification.unknown_error ];
      gql_diagnostic_record = some filled;
    }

-- What the loop has collected so far.
pub record Failing : Type 0 where
  pub found : ServerError
  pub cause : Option Neo4jError

abbrev no_failing : Failing
no_failing = record {
  found = record {
    code = [];
    msg = [];
    gql_status = [];
    gql_status_description = [];
    gql_raw_classification = [];
    gql_classification = Classification.no_classification;
    gql_diagnostic_record = none;
  };
  cause = none;
}

pub data FailureKey : Type 0 where
  status_key description_key code_key message_key diagnostic_key cause_key other_key : FailureKey

unfoldable pub failure_key : Text → FailureKey
failure_key key =
    if text_beq key (ascii "gql_status")
    then FailureKey.status_key
    else if text_beq key (ascii "description")
    then FailureKey.description_key
    else if text_beq key (ascii "neo4j_code")
    then FailureKey.code_key
    else if text_beq key (ascii "code")
    then FailureKey.code_key
    else if text_beq key (ascii "message")
    then FailureKey.message_key
    else if text_beq key (ascii "diagnostic_record")
    then FailureKey.diagnostic_key
    else if text_beq key (ascii "cause")
    then FailureKey.cause_key
    else FailureKey.other_key

abbrev with_found : (ServerError → Text → ServerError) → Failing → Text → Failing
with_found f p s = record p { found = f p.found s }

abbrev finished : Failing → Neo4jError
finished p = elim p.cause [
  | none ↦ uncaused (polyfill_gql_error p.found)
  | some c ↦ caused_by (polyfill_gql_error p.found) c
]

-- `value` and `nested` are the calls of value and of failure for a cause.
module _ (value : Run Value) (nested : Run (Option Neo4jError)) where
  unfoldable pub failure_field : FailureKey → Failing → Run Failing
  failure_field FailureKey.status_key p = do
    s ← call Unpacker.string
    pure (with_found (λ e t. record e { gql_status = t }) p s)
  failure_field FailureKey.description_key p = do
    s ← call Unpacker.string
    pure (with_found (λ e t. record e { gql_status_description = t }) p s)
  failure_field FailureKey.code_key p = do
    s ← call Unpacker.string
    pure (with_found (λ e t. record e { code = t }) p s)
  failure_field FailureKey.message_key p = do
    s ← call Unpacker.string
    pure (with_found (λ e t. record e { msg = t }) p s)
  failure_field FailureKey.diagnostic_key p = do
    m ← amap value
    pure (record p { found = record p.found { gql_diagnostic_record = some m } })
  failure_field FailureKey.cause_key p = do c ← nested; pure (record p { cause = c })
  failure_field FailureKey.other_key p = do v ← value; pure p

  unfoldable pub read_failure : ℕ → Failing → Run Failing
  unfolding failure_field failure_key
  read_failure zero p = pure p
  read_failure (suc n) p = do
    key ← next_string
    next
    q ← failure_field (failure_key key) p
    read_failure n q

  -- The map of a failure, whose marker is read already.
  unfoldable pub failure_map : Run (Option Neo4jError)
  unfolding polyfill_gql_error
  failure_map = do n ← call Unpacker.len_of; p ← read_failure n no_failing; pure (some (finished p))

module _ (zones : Zones) where
  -- `h.failure(1, true)`, in which the length is as it has to be.
  unfoldable pub cause_of : ℕ → ℕ → Run (Option Neo4jError)
  cause_of inner zero h = out_of_fuel
  cause_of inner (suc fuel) h =
      (assert_length "failure" 1 1
          >> unless_err none (failure_map (value zones inner) (cause_of inner fuel)))
        h

  unfoldable pub failure : ℕ → ℕ → Run (Option Neo4jError)
  failure fuel n =
      assert_length "failure" 1 n
      >> unless_err none (next >> failure_map (value zones fuel) (cause_of fuel fuel))
