-- ===== src/Bolt/Values/Stale.antt =====
-- The hydrator with an error of its own: `hydrate` resets the unpacker and leaves this error.
use neo4j_go_driver.Base.{
  ℕ, suc, ◌+◌, ◌^◌, ◌<◌, ◌≡◌, refl, ap, ◌∙◌, Bool, true, false, none, some, List, [], ◌∷◌, String,
  arith, length,
}
use neo4j_go_driver.Packstream.Unpacker.{Unpacker, struct_tag, len_of, reset}
use neo4j_go_driver.Packstream.Position.{skip, after, after-IsAt, skip-IsAt, next_at, pop_at}
use neo4j_go_driver.Packstream.RoundTrip.{reset-IsAt}
use neo4j_go_driver.Bolt.Values.Times.{Zones}
use neo4j_go_driver.Bolt.Values.Run.{
  Run, Hydrator, done, protocol, ProtocolError, pure, ◌>>=◌, ◌>>◌, proceed, branch, get_err,
  set_err, assert_length, unless_err,
}
use neo4j_go_driver.Bolt.Values.Failure.{failure}
use neo4j_go_driver.Bolt.Values.Message.{
  Answer, by_tag, success, record_message, ignored, top_level, hydrate_with, hydrate, is_struct,
}
use neo4j_go_driver.Bolt.Values.Parses.{call_bind, next_then}
use neo4j_go_driver.Bolt.Values.Detect.{struct_marker, short_len}

-- The four messages of a server.
pub data Reply : Type 0 where
  success_reply ignored_reply failure_reply record_reply : Reply

abbrev pub tag_of : Reply → ℕ
tag_of Reply.success_reply = 0x70
tag_of Reply.ignored_reply = 0x7e
tag_of Reply.failure_reply = 0x7f
tag_of Reply.record_reply = 0x71

-- nil, as the answer to a message.
abbrev pub nil_of : Reply → Answer
nil_of Reply.success_reply = Answer.success_message none
nil_of Reply.ignored_reply = Answer.ignored_message false
nil_of Reply.failure_reply = Answer.failure_message none
nil_of Reply.record_reply = Answer.record_values none

module _ (h : Hydrator) (e : ProtocolError) (stale : h.err ≡ some e) where
  -- What every message begins with.
  guard-stale {ℓ} :
      {A : Type ℓ} (name : String) (i j : ℕ) (a : A) (m : Run A)
      → (assert_length name i j >> unless_err a m) h ≡ done a h
  unfolding ◌>>◌ assert_length set_err unless_err get_err
  guard-stale name i j a m = ground arith

  then_pure {ℓ} :
      {A : Type ℓ} (m : Run A) (f : A → Answer) (a : A)
      → m h ≡ done a h
      → (m >>= λ x. pure (f x)) h ≡ done (f a) h
  unfolding ◌>>=◌ pure
  then_pure m f a p = ap (λ r. proceed r (λ x. pure (f x))) p

  by_tag-stale :
      (zones : Zones) (fuel n : ℕ) (r : Reply)
      → by_tag zones fuel n (tag_of r) h ≡ done (nil_of r) h
  unfolding by_tag branch success record_message ignored failure
  by_tag-stale zones fuel n Reply.success_reply =
      then_pure _ _ none (guard-stale "success" 1 n none _)
  by_tag-stale zones fuel n Reply.ignored_reply =
      then_pure _ _ false (guard-stale "ignored" 0 n false _)
  by_tag-stale zones fuel n Reply.failure_reply =
      then_pure _ _ none (guard-stale "failure" 1 n none _)
  by_tag-stale zones fuel n Reply.record_reply =
      then_pure _ _ none (guard-stale "record" 1 n none _)

  get_err-stale : h.unp.err ≡ none → get_err h ≡ some (protocol e)
  unfolding get_err
  get_err-stale clean = ground arith

struct_curr : (n : ℕ) (u : Unpacker) → n < 16 → is_struct (after (0xb0 + n) u).curr ≡ true
struct_curr n u l = rw (struct_marker n l) refl

if_struct : {A : Type 0} (b : Bool) (m k : Run A) (h : Hydrator) → b ≡ true → branch b m k h ≡ m h
unfolding branch
if_struct b m k h e = ap (λ (v : Bool). branch v m k h) e

-- Once the hydrator has noted an error of its own, every later message of the four kinds, whatever
-- its number of fields and its content, is answered with nil and with that error. Only the unpacker
-- changes: the hydrator still has the error, for the message after it too.
pub hydrate-stale :
    (zones : Zones) (h : Hydrator) (e : ProtocolError) (r : Reply) (n : ℕ) (rest : List ℕ)
    → h.err ≡ some e
    → n < 16
    → length rest + 10 < 2 ^ 32
    → (u : Unpacker) × (hydrate zones ((0xb0 + n) ∷ tag_of r ∷ rest) h
        ≡ done (nil_of r) (record h { unp = u }))
      × (get_err (record h { unp = u }) ≡ some (protocol e))
unfolding hydrate hydrate_with top_level struct_tag
hydrate-stale zones h e r n rest stale few small =
    let buf = (0xb0 + n) ∷ tag_of r ∷ rest in
    let start = record h { unp = reset buf h.unp } in
    let at = reset-IsAt buf h.unp (omega arith) in
    let v = after (0xb0 + n) start.unp in
    let at1 = after-IsAt (0xb0 + n) (tag_of r ∷ rest) at in
    let w = skip 1 v in
    let at2 = skip-IsAt (tag_of r ∷ []) rest 1 refl at1 in
    (
      w,
      next_then _ start v (next_at (0xb0 + n) (tag_of r ∷ rest) at)
          ∙ if_struct (is_struct v.curr) _ _ (record h { unp = v }) (struct_curr n start.unp few)
          ∙ call_bind len_of _ (record h { unp = v }) n v (short_len v n few (struct_marker n few))
          ∙ call_bind struct_tag _ (record h { unp = v }) (tag_of r) w (pop_at (tag_of r) rest at1)
          ∙ by_tag-stale (record h { unp = w }) e stale zones (suc (length buf + 1)) n r,
      get_err-stale (record h { unp = w }) e stale at2.clean,
    )
