-- ===== src/Bolt/Streams/Stream.antt =====
-- neo4j/internal/bolt/stream.go. Records, summaries and errors are any types. A pointer to a stream
-- is a number, and the store of the set says what it points to.
use neo4j_go_driver.Base.{
  ℕ, ◌+◌, ◌-◌, Bool, false, Option, none, some, List, [], ◌∷◌, ◌++◌, length, nat_beq, ltb,
  if◌then◌else◌,
}
use neo4j_go_driver.Base.Int.{ℤ, pos, negsuc}

pub record Stream (R S E : Type 0) : Type 0 where
  pub attached : Bool
  pub keys : List (List ℕ)
  pub fifo : List R
  pub sum : Option S
  pub err : Option E
  pub qid : ℤ
  pub fetch_size : ℤ
  pub key : ℕ
  pub end_of_batch : Bool
  pub discarding : Bool
  pub tfirst : ℤ
  pub had_record : Bool

-- What bufferedNext finds: a record, an error, a summary, or that nothing is buffered.
pub data Next (R S E : Type 0) : Type 0 where
  next_record : R → Next R S E
  next_error : E → Next R S E
  next_summary : S → Next R S E
  not_buffered : Next R S E

abbrev pub ending : {R S E : Type 0} → Option E → Option S → Next R S E
ending (some e) sum = next_error e
ending none (some sum) = next_summary sum
ending none none = not_buffered

-- curr is nil or a pointer.
pub record OpenStreams (R S E : Type 0) : Type 0 where
  pub curr : Option ℕ
  pub num : ℤ
  pub key : ℕ
  pub store : ℕ → Stream R S E

abbrev pub add_one : ℤ → ℤ
add_one (pos n) = pos (n + 1)
add_one (negsuc n) = if nat_beq n 0 then pos 0 else negsuc (n - 1)

abbrev pub sub_one : ℤ → ℤ
sub_one (pos n) = if nat_beq n 0 then negsuc 0 else pos (n - 1)
sub_one (negsuc n) = negsuc (n + 1)

abbrev pub point : {A : Type 0} → ℕ → A → (ℕ → A) → ℕ → A
point i a f j = if nat_beq i j then a else f j

abbrev pub is_curr : ℕ → Option ℕ → Bool
is_curr i none = false
is_curr i (some j) = nat_beq j i

-- A handle that is no stream, or a nil one, is an error.
unfoldable pub get_unsafe : Option ℕ → Option ℕ
get_unsafe handle = handle

module _ {R S E : Type 0} where
  unfoldable pub buffered_next : Stream R S E → Next R S E × Stream R S E
  buffered_next s = elim s.fifo [
    | [] ↦ (ending s.err s.sum, s)
    | r ∷ rs ↦ (next_record r, record s { fifo = rs })
  ]

  unfoldable pub empty_records : Stream R S E → Stream R S E
  empty_records s = record s { fifo = [] }

  unfoldable pub err_of : Stream R S E → Option E
  err_of s = if ltb 0 (length s.fifo) then none else s.err

  unfoldable pub push : R → Stream R S E → Stream R S E
  push r s = record s { fifo = s.fifo ++ (r ∷ []) }

  -- HadRecord and HadKey.
  unfoldable pub to_summary : Stream R S E → Bool × Bool
  to_summary s = (s.had_record, ltb 0 (length s.keys))

  unfoldable pub attach : ℕ → OpenStreams R S E → OpenStreams R S E
  attach i o = elim o.curr [
    | some j ↦ o
    | none ↦ record o {
      num = add_one o.num;
      curr = some i;
      store = point i (record (o.store i) { key = o.key }) o.store;
    }
  ]

  unfoldable pub remove : ℕ → OpenStreams R S E → OpenStreams R S E
  remove i o = record o {
    num = sub_one o.num;
    store = point i (record (o.store i) { key = 0 }) o.store;
    curr = if is_curr i o.curr then none else o.curr;
  }

  unfoldable pub detach : Option S → Option E → OpenStreams R S E → OpenStreams R S E
  detach sum err o = elim o.curr [
    | none ↦ o
    | some i ↦
        remove i
          (record o { store = point i (record (o.store i) { sum = sum; err = err }) o.store })
  ]

  unfoldable pub pause : OpenStreams R S E → OpenStreams R S E
  pause o = record o { curr = none }

  unfoldable pub resume : ℕ → OpenStreams R S E → OpenStreams R S E
  resume i o = elim o.curr [ some j ↦ o | none ↦ record o { curr = some i } ]

  -- `now` is the time in nanoseconds.
  unfoldable pub reset : (now : ℕ) → OpenStreams R S E → OpenStreams R S E
  reset now o = record o { num = pos 0; curr = none; key = now }

  unfoldable pub is_safe : ℕ → OpenStreams R S E → Bool
  is_safe i o = nat_beq (o.store i).key o.key
