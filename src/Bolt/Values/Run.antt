-- ===== src/Bolt/Values/Run.antt =====
-- The hydrator of neo4j/internal/bolt/hydrator.go as a state, and the calls of its unpacker. An
-- outcome is a result with the new state, a Go panic, or that the fuel of the model ran out.
use neo4j_go_driver.Base.{
  ℕ, String, zero, suc, Bool, true, false, Option, none, some, List, [], ◌∷◌, nat_beq,
  if◌then◌else◌,
}
use neo4j_go_driver.Base.Int.{ℤ}
use neo4j_go_driver.Packstream.Unpacker
use neo4j_go_driver.Packstream.Unpacker.{Unpacker, UnpackError, PackedType}
use neo4j_go_driver.Bolt.Values.Value.{Text}

-- db.ProtocolError, by what is wrong.
pub data ProtocolError : Type 0 where
  invalid_length : String → ℕ → ℕ → ProtocolError
  unknown_struct : ℕ → ProtocolError
  unknown_type : PackedType → ProtocolError
  early_uuid : ProtocolError
  not_a_node not_a_rel_node : ProtocolError
  odd_indices : ℕ → ProtocolError
  vector_marker_type vector_marker_size vector_values_type : ProtocolError
  vector_values_size : ℕ → ProtocolError
  vector_marker : ℕ → ProtocolError
  query_type : Text → ProtocolError

pub data HydrateError : Type 0 where
  unpacking : UnpackError → HydrateError
  protocol : ProtocolError → HydrateError

pub record Hydrator : Type 0 where
  pub unp : Unpacker
  pub err : Option ProtocolError
  pub bolt_major : ℕ
  pub use_utc : Bool
  pub supports_uuid : Bool

pub data Outcome {ℓ} (A : Type ℓ) : Type ℓ where
  done : A → Hydrator → Outcome A
  panic : Outcome A
  out_of_fuel : Outcome A

abbrev pub Run {ℓ} : Type ℓ → Type ℓ
Run A = Hydrator → Outcome A

unfoldable pub pure {ℓ} : {A : Type ℓ} → A → Run A
pure a h = done a h

-- What comes after an outcome.
abbrev pub proceed {ℓ κ} : {A : Type ℓ} {B : Type κ} → Outcome A → (A → Run B) → Outcome B
proceed (done a h) f = f a h
proceed panic f = panic
proceed out_of_fuel f = out_of_fuel

infixl 5 ◌>>=◌ ◌>>◌
unfoldable pub ◌>>=◌ {ℓ κ} : {A : Type ℓ} {B : Type κ} → Run A → (A → Run B) → Run B
◌>>=◌ m f h = proceed (m h) f

unfoldable pub ◌>>◌ {ℓ κ} : {A : Type ℓ} {B : Type κ} → Run A → Run B → Run B
(m >> k) h = proceed (m h) (λ _. k)

-- `if b { m } else { k }`
unfoldable pub branch {ℓ} : {A : Type ℓ} → Bool → Run A → Run A → Run A
branch true m k = m
branch false m k = k

abbrev pub with_result {ℓ} : {A : Type ℓ} → Hydrator → Option (A × Unpacker) → Outcome A
with_result h none = panic
with_result h (some (a, u)) = done a (record h { unp = u })

-- A call of the unpacker that answers.
unfoldable pub call {ℓ} : {A : Type ℓ} → (Unpacker → Option (A × Unpacker)) → Run A
call f h = with_result h (f h.unp)

abbrev pub with_unpacker : Hydrator → Option Unpacker → Outcome (Unit {0})
with_unpacker h none = panic
with_unpacker h (some u) = done tt (record h { unp = u })

unfoldable pub next : Run (Unit {0})
next h = with_unpacker h (Unpacker.next h.unp)

unfoldable pub set_err : ProtocolError → Run (Unit {0})
set_err e h = elim h.err [ none ↦ done tt (record h { err = some e }) | some f ↦ done tt h ]

unfoldable pub get_err : Hydrator → Option HydrateError
get_err h = elim h.unp.err [
  | some e ↦ some (unpacking e)
  | none ↦ elim h.err [ none ↦ none | some e ↦ some (protocol e) ]
]

unfoldable pub assert_length : String → (expected actual : ℕ) → Run (Unit {0})
assert_length name expected actual h =
    if nat_beq expected actual then done tt h else set_err (invalid_length name expected actual) h

-- `if h.getErr() != nil { return nil }`, and else the rest of the method.
unfoldable pub unless_err {ℓ} : {A : Type ℓ} → A → Run A → Run A
unless_err a m h = elim (get_err h) [ none ↦ m h | some e ↦ done a h ]

-- `h.unp.Next()` and then the value of a type that is not checked.
unfoldable pub next_int : Run ℤ
next_int = do next; call Unpacker.int

unfoldable pub next_float : Run ℕ
next_float = do next; call Unpacker.float

unfoldable pub next_string : Run Text
next_string = do next; call Unpacker.string

unfoldable pub next_len : Run ℕ
next_len = do next; call Unpacker.len_of

-- `for i := range slice { h.unp.Next(); slice[i] = h.unp.String() }`
unfoldable pub read_strings : ℕ → Run (List Text)
read_strings zero = pure []
read_strings (suc n) = do s ← next_string; ss ← read_strings n; pure (s ∷ ss)

unfoldable pub strings : Run (List Text)
strings = do n ← call Unpacker.len_of; read_strings n
