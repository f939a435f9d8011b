-- ===== src/Bolt/Values/Parses.antt =====
-- What a method of the hydrator gives on bytes of a known form: `Parses m bytes a` says that `m`
-- before these bytes answers `a`, and stands behind them with nothing amiss.
use neo4j_go_driver.Base.{
  ℕ, ◌-◌, ◌^◌, ◌<◌, ◌≡◌, refl, Bool, Option, none, some, List, [], ◌∷◌, ◌++◌, arith, ap, ◌∙◌,
  append_assoc, length, String,
}
use neo4j_go_driver.Base.Int.{ℤ, IsInt64}
use neo4j_go_driver.Packstream.Unpacker
use neo4j_go_driver.Packstream.Unpacker.{Unpacker, PackedType}
use neo4j_go_driver.Packstream.Bytes.{be_bytes}
use neo4j_go_driver.Packstream.Encoding.{int_encoding, string_encoding}
use neo4j_go_driver.Packstream.Position.{IsAt}
use neo4j_go_driver.Packstream.Ints.{Yields, int-Yields}
use neo4j_go_driver.Packstream.Lengths.{float-Yields, string-Yields}
use neo4j_go_driver.Bolt.Values.Value.{Text}
use neo4j_go_driver.Bolt.Values.Run.{
  Run, Hydrator, Outcome, done, panic, out_of_fuel, pure, ◌>>=◌, ◌>>◌, proceed, with_unpacker,
  with_result, call, next, get_err, assert_length, unless_err, next_int, next_float, next_string,
}

-- A hydrator with no error, on a connection with these settings.
pub record IsReady (utc uuids : Bool) (h : Hydrator) : Type 0 where
  pub clean : h.err ≡ none
  pub same_utc : h.use_utc ≡ utc
  pub same_uuids : h.supports_uuid ≡ uuids

pub record Parses {ℓ} {A : Type ℓ} (utc uuids : Bool) (m : Run A) (bytes : List ℕ) (a : A)
    : Type ℓ where
  pub run :
      (h : Hydrator) (rest : List ℕ)
      → IsReady utc uuids h
      → IsAt h.unp (bytes ++ rest)
      → (u : Unpacker) × (m h ≡ done a (record h { unp = u })) × IsAt u rest

next_assoc {ℓ κ} :
    {A : Type ℓ} {B : Type κ} (m : Run A) (f : A → Run B) (r : Outcome (Unit {0}))
    → proceed r (λ _ k. proceed (m k) f) ≡ proceed (proceed r (λ _. m)) f
next_assoc m f (done x k) = refl
next_assoc m f panic = refl
next_assoc m f out_of_fuel = refl

-- A method of the unpacker, and what comes after it.
pub call_bind {ℓ κ} :
    {A : Type ℓ} {B : Type κ} (f : Unpacker → Option (A × Unpacker)) (k : A → Run B) (h : Hydrator)
    (a : A) (u : Unpacker)
    → f h.unp ≡ some (a, u)
    → (call f >>= k) h ≡ k a (record h { unp = u })
unfolding call ◌>>=◌
call_bind f k h a u e = ap (λ r. proceed (with_result h r) k) e

pub next_then {ℓ} :
    {A : Type ℓ} (m : Run A) (h : Hydrator) (u : Unpacker)
    → Unpacker.next h.unp ≡ some u
    → (next >> m) h ≡ m (record h { unp = u })
unfolding next ◌>>◌
next_then m h u e = ap (λ r. proceed (with_unpacker h r) (λ _. m)) e

proceed_assoc {ℓ κ ι} :
    {A : Type ℓ} {B : Type κ} {C : Type ι} (r : Outcome A) (f : A → Run B) (g : B → Run C)
    → proceed (proceed r f) g ≡ proceed r (λ a h. proceed (f a h) g)
proceed_assoc (done a h) f g = refl
proceed_assoc panic f g = refl
proceed_assoc out_of_fuel f g = refl

pub bind_assoc {ℓ κ ι} :
    {A : Type ℓ} {B : Type κ} {C : Type ι} (m : Run A) (f : A → Run B) (g : B → Run C)
    → ((m >>= f) >>= g) ≡ (m >>= λ a. f a >>= g)
unfolding ◌>>=◌
bind_assoc m f g i h = proceed_assoc (m h) f g i

no_err : (h : Hydrator) → h.unp.err ≡ none → h.err ≡ none → get_err h ≡ none
unfolding get_err
no_err h e f = ground arith

module _ {utc uuids : Bool} where
  pub pure-Parses {ℓ} : {A : Type ℓ} (a : A) → Parses utc uuids (pure a) [] a
  unfolding pure
  pure-Parses a = record { run = λ h rest i at. (h.unp, refl, at) }

  pub unp-IsReady :
      {h : Hydrator} (u : Unpacker) → IsReady utc uuids h → IsReady utc uuids (record h { unp = u })
  unp-IsReady u i = record { clean = i.clean; same_utc = i.same_utc; same_uuids = i.same_uuids }

  module _ {ℓ κ} {A : Type ℓ} {B : Type κ} where
    pub bind-Parses :
        {m : Run A} (f : A → Run B) {xs ys : List ℕ} {a : A} {b : B}
        → Parses utc uuids m xs a
        → Parses utc uuids (f a) ys b
        → Parses utc uuids (m >>= f) (xs ++ ys) b
    unfolding ◌>>=◌
    bind-Parses {m = m} f {xs} {ys} p q = record {
      run = λ h rest i at.
          let (u, e, at2) = p.run h (ys ++ rest) i (rw append_assoc at at) in
          let (v, e2, at3) = q.run (record h { unp = u }) rest (unp-IsReady u i) at2 in
          (v, rw (e, e2), at3);
    }

    pub then-Parses :
        {m : Run A} {k : Run B} {xs ys : List ℕ} {a : A} {b : B}
        → Parses utc uuids m xs a
        → Parses utc uuids k ys b
        → Parses utc uuids (m >> k) (xs ++ ys) b
    unfolding ◌>>◌
    then-Parses {xs = xs} {ys = ys} p q = record {
      run = λ h rest i at.
          let (u, e, at2) = p.run h (ys ++ rest) i (rw append_assoc at at) in
          let (v, e2, at3) = q.run (record h { unp = u }) rest (unp-IsReady u i) at2 in
          (v, rw (e, e2), at3);
    }

    -- `next` belongs to what comes after it.
    pub next_bind-Parses :
        (m : Run A) (f : A → Run B) {xs ys : List ℕ} {a : A} {b : B}
        → Parses utc uuids (next >> m) xs a
        → Parses utc uuids (f a) ys b
        → Parses utc uuids (next >> (m >>= f)) (xs ++ ys) b
    unfolding ◌>>=◌ ◌>>◌
    next_bind-Parses m f p q = record {
      run = λ h rest i at.
          let (u, e, at2) = (bind-Parses f p q).run h rest i at in
          (u, next_assoc m f (next h) ∙ e, at2);
    }

  -- A method of the unpacker on the value that `next` has detected.
  pub Yields-Parses {ℓ} :
      {A : Type ℓ} (t : PackedType) (get : Unpacker → Option (A × Unpacker)) (xs : List ℕ) (a : A)
      → ((u : Unpacker) (rest : List ℕ) → IsAt u (xs ++ rest) → Yields u t get a rest)
      → Parses utc uuids (next >> call get) xs a
  unfolding ◌>>◌ next call
  Yields-Parses t get xs a y = record {
    run = λ h rest i at. let (v, w, n, c, g, at2) = y h.unp rest at in (w, rw (n, g, call), at2);
  }

  pub next_int-Parses : (i : ℤ) → IsInt64 i → Parses utc uuids next_int (int_encoding i) i
  unfolding next_int
  next_int-Parses i range =
      Yields-Parses _ Unpacker.int (int_encoding i) i (λ u rest at. int-Yields u i rest range at)

  pub next_float-Parses : (x : ℕ) → x < 2 ^ 64 → Parses utc uuids next_float (0xc1 ∷ be_bytes 8 x) x
  unfolding next_float
  next_float-Parses x fits =
      Yields-Parses _ Unpacker.float (0xc1 ∷ be_bytes 8 x) x
        (λ u rest at. float-Yields u x rest fits at)

  pub next_string-Parses :
      (s : Text) → length s < 2 ^ 32 - 1 → Parses utc uuids next_string (string_encoding s) s
  unfolding next_string
  next_string-Parses s fits =
      Yields-Parses _ Unpacker.string (string_encoding s) s
        (λ u rest at. string-Yields u s rest fits at)

  pub assert_length-Parses :
      (name : String) (n : ℕ) → Parses utc uuids (assert_length name n n) [] tt
  unfolding assert_length
  assert_length-Parses name n = record { run = λ h rest i at. (h.unp, ground arith, at) }

  pub unless_err-Parses {ℓ} :
      {A : Type ℓ} (d : A) {m : Run A} {xs : List ℕ} {a : A}
      → Parses utc uuids m xs a
      → Parses utc uuids (unless_err d m) xs a
  unfolding unless_err
  unless_err-Parses d p = record {
    run = λ h rest i at.
        let (u, e, at2) = p.run h rest i at in
        (u, rw (no_err h at.clean i.clean, unless_err) e, at2);
  }
