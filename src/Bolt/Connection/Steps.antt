-- ===== src/Bolt/Connection/Steps.antt =====
-- What an action on a connection gives, step by step.
use neo4j_go_driver.Base.{◌≡◌, refl, ap, Bool, true, false, Option, none, some, List}
use neo4j_go_driver.Bolt.Connection.Errors.{BoltState, BoltError}
use neo4j_go_driver.Bolt.Connection.State.{Bolt5}
use neo4j_go_driver.Bolt.Connection.Queue.{
  Outcome, Run, done, failed, proceed, pure, ◌>>=◌, ◌>>◌, get, change, choose, branch, unless_error,
  raise, check_err, ended, early, assert_state,
}

raise-fails :
    (o : Option BoltError) (b : Bolt5) (e : BoltError) → o ≡ some e → raise o b ≡ failed e b
unfolding raise
raise-fails none b e h = cc
raise-fails (some d) b e h = cc

pub check_err-fails : (b : Bolt5) (e : BoltError) → b.err ≡ some e → check_err b ≡ failed e b
unfolding check_err unless_error
check_err-fails b e h = raise-fails b.err b e h

-- A first action that changes nothing, and one that fails.
pub >>-passes :
    {A B : Type 0} (m : Run A) (k : Run B) (b c : Bolt5) (x : A) → m b ≡ done x c → (m >> k) b ≡ k c
unfolding ◌>>◌
>>-passes m k b c x h = ap (λ (o : Outcome _). proceed o (λ _. k)) h

pub >>-fails :
    {A B : Type 0} (m : Run A) (k : Run B) (b c : Bolt5) (e : BoltError)
    → m b ≡ failed e c
    → (m >> k) b ≡ failed e c
unfolding ◌>>◌
>>-fails m k b c e h = ap (λ (o : Outcome _). proceed o (λ _. k)) h

pub assert_state-fails :
    (l : List BoltState) (b : Bolt5) (e : BoltError)
    → b.err ≡ some e
    → assert_state l b ≡ failed e b
unfolding assert_state
assert_state-fails l b e h = >>-fails _ _ b b e (check_err-fails b e h)

pub get_then :
    {A B : Type 0} (f : Bolt5 → A) (k : A → Run B) (b : Bolt5) → (get f >>= k) b ≡ k (f b) b
unfolding get ◌>>=◌
get_then f k b = refl

pub change_lem : (f : Bolt5 → Bolt5) (b : Bolt5) → change f b ≡ done tt (f b)
unfolding change
change_lem f b = refl

pub pure_lem : (b : Bolt5) → pure tt b ≡ done tt b
unfolding pure
pure_lem b = refl

raise-passes : (o : Option BoltError) (b : Bolt5) → o ≡ none → raise o b ≡ done tt b
unfolding raise
raise-passes none b h = refl
raise-passes (some e) b h = cc

pub check_err-passes : (b : Bolt5) → b.err ≡ none → check_err b ≡ done tt b
unfolding check_err unless_error
check_err-passes b h = raise-passes b.err b h

pub choose-true :
    {A : Type 0} (t : Bolt5 → Bool) (m k : Run A) (b : Bolt5) → t b ≡ true → choose t m k b ≡ m b
unfolding choose branch
choose-true t m k b h = ap (λ (v : Bool). branch v m k b) h

pub choose-false :
    {A : Type 0} (t : Bolt5 → Bool) (m k : Run A) (b : Bolt5) → t b ≡ false → choose t m k b ≡ k b
unfolding choose branch
choose-false t m k b h = ap (λ (v : Bool). branch v m k b) h

pub early-passes : (m : Run (Unit {0})) (b c : Bolt5) → m b ≡ done tt c → early m b ≡ done tt c
unfolding early
early-passes m b c h = ap ended h
