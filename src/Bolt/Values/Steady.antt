-- ===== src/Bolt/Values/Steady.antt =====
-- The hydrator on any bytes: it moves forward in its buffer, and it asks for a nested value only
-- behind a byte that it has read, or with the buffer at its end.
use neo4j_go_driver.Base.{ℕ, ◌+◌, ◌≤◌, ◌<◌, Option, none, some, arith, String, ◌⊎◌, inl, inr}
use neo4j_go_driver.Packstream.Unpacker
use neo4j_go_driver.Packstream.Unpacker.{Unpacker, PackedType, packed_int}
use neo4j_go_driver.Packstream.Safety.{IsSound}
use neo4j_go_driver.Packstream.Forward.{
  IsAhead, refl-IsAhead, IsAhead-trans, Reads, IsPastEnd, ReadsNext, next-ReadsNext,
}
use neo4j_go_driver.Bolt.Values.Run.{
  Run, Hydrator, Outcome, done, panic, out_of_fuel, ProtocolError, pure, ◌>>=◌, ◌>>◌, proceed,
  with_unpacker, with_result, call, next, set_err, assert_length, unless_err,
}

-- A result or a Go panic, but not the end of the fuel.
abbrev pub Ends {ℓ} : {A : Type ℓ} → Hydrator → Outcome A → Type 0
Ends h (done a k) = IsAhead h.unp k.unp
Ends h panic = Unit
Ends h out_of_fuel = ⊥

-- Where at most `n` bytes are left, `m` ends.
pub record IsSteady {ℓ} {A : Type ℓ} (n : ℕ) (m : Run A) : Type 0 where
  pub run : (h : Hydrator) → IsSound h.unp → h.unp.len ≤ h.unp.off + n → Ends h (m h)

-- The same for a method that is called on a value just detected: of the `n` bytes one is read
-- already, or the buffer is at its end.
pub record IsSteadyOn {ℓ} {A : Type ℓ} (n : ℕ) (m : Run A) : Type 0 where
  pub run :
      (h : Hydrator)
      → IsSound h.unp
      → h.unp.len ≤ h.unp.off + n
      → (h.unp.len < h.unp.off + n) ⊎ IsPastEnd h.unp
      → Ends h (m h)

through-Ends {ℓ} :
    {A : Type ℓ} (h k : Hydrator) → IsAhead h.unp k.unp → (r : Outcome A) → Ends k r → Ends h r
through-Ends h k f (done b j) e = IsAhead-trans f e
through-Ends h k f panic e = tt
through-Ends h k f out_of_fuel e = elim e [ ]

call-Ends {ℓ} :
    {A : Type ℓ} (h : Hydrator) (r : Option (A × Unpacker))
    → Reads h.unp r
    → Ends h (with_result h r)
call-Ends h none f = tt
call-Ends h (some (a, u)) f = f

next-Ends : (h : Hydrator) (r : Option Unpacker) → ReadsNext h.unp r → Ends h (with_unpacker h r)
next-Ends h none f = tt
next-Ends h (some u) f = f.ahead

module _ {n : ℕ} where
  pub pure-IsSteady {ℓ} : {A : Type ℓ} (a : A) → IsSteady n (pure a)
  unfolding pure
  pure-IsSteady a = record { run = λ h s l. refl-IsAhead s }

  module _ {ℓ κ} {A : Type ℓ} {B : Type κ} where
    bind-Ends :
        (f : A → Run B) (h : Hydrator) (r : Outcome A)
        → h.unp.len ≤ h.unp.off + n
        → ((a : A) → IsSteady n (f a))
        → Ends h r
        → Ends h (proceed r f)
    bind-Ends f h panic l g e = tt
    bind-Ends f h (done a k) l g e =
        through-Ends h k e (f a k) ((g a).run k e.sound (omega (arith, e.same_len, e.forward, l)))
    bind-Ends f h out_of_fuel l g e = elim e [ ]

    pub bind-IsSteady :
        (m : Run A) (f : A → Run B)
        → IsSteady n m
        → ((a : A) → IsSteady n (f a))
        → IsSteady n (m >>= f)
    unfolding ◌>>=◌
    bind-IsSteady m f s g = record { run = λ h i l. bind-Ends f h (m h) l g (s.run h i l) }

    pub then-IsSteady : (m : Run A) (k : Run B) → IsSteady n m → IsSteady n k → IsSteady n (m >> k)
    unfolding ◌>>◌
    then-IsSteady m k s g = record {
      run = λ h i l. bind-Ends (λ _. k) h (m h) l (λ _. g) (s.run h i l);
    }

  pub call-IsSteady {ℓ} :
      {A : Type ℓ} (f : Unpacker → Option (A × Unpacker))
      → ((u : Unpacker) → IsSound u → Reads u (f u))
      → IsSteady n (call f)
  unfolding call
  call-IsSteady f g = record { run = λ h s l. call-Ends h (f h.unp) (g h.unp s) }

  pub next-IsSteady : IsSteady n next
  unfolding next
  next-IsSteady = record {
    run = λ h s l. next-Ends h (Unpacker.next h.unp) (next-ReadsNext h.unp s);
  }

  pub set_err-IsSteady : (e : ProtocolError) → IsSteady n (set_err e)
  unfolding set_err
  set_err-IsSteady e = record { run = λ h s l. ground (arith, refl-IsAhead s) }

  pub assert_length-IsSteady : (name : String) (i j : ℕ) → IsSteady n (assert_length name i j)
  unfolding assert_length set_err
  assert_length-IsSteady name i j = record { run = λ h s l. ground (arith, refl-IsAhead s) }

  pub unless_err-IsSteady {ℓ} :
      {A : Type ℓ} (a : A) (m : Run A) → IsSteady n m → IsSteady n (unless_err a m)
  unfolding unless_err
  unless_err-IsSteady a m s = record { run = λ h i l. ground (arith, refl-IsAhead i, s.run h i l) }

  -- The method called on what `next` detected.
  next_then-Ends {ℓ} :
      {A : Type ℓ} (m : Run A) (h : Hydrator) (r : Option Unpacker)
      → h.unp.len ≤ h.unp.off + n
      → IsSteadyOn n m
      → ReadsNext h.unp r
      → Ends h (proceed (with_unpacker h r) (λ _. m))
  next_then-Ends m h none l g f = tt
  next_then-Ends m h (some u) l g f =
      let k = record h { unp = u } in
      through-Ends h k f.ahead (m k) (
        g.run k f.ahead.sound (omega (arith, f.ahead.same_len, f.ahead.forward))
          (on_progress u f.ahead f.progress))
    where
      on_progress :
          (v : Unpacker)
          → IsAhead h.unp v
          → (h.unp.off < v.off) ⊎ IsPastEnd v
          → (v.len < v.off + n) ⊎ IsPastEnd v
      on_progress v f (inl p) = inl (omega (arith, f.same_len))
      on_progress v f (inr e) = inr e

  pub next_then-IsSteady {ℓ} : {A : Type ℓ} (m : Run A) → IsSteadyOn n m → IsSteady n (next >> m)
  unfolding ◌>>◌ ◌>>=◌ next
  next_then-IsSteady m g = record {
    run = λ h s l. next_then-Ends m h (Unpacker.next h.unp) l g (next-ReadsNext h.unp s);
  }

  pub bind-IsSteadyOn {ℓ κ} :
      {A : Type ℓ} {B : Type κ} (m : Run A) (f : A → Run B)
      → IsSteadyOn n m
      → ((a : A) → IsSteady n (f a))
      → IsSteadyOn n (m >>= f)
  unfolding ◌>>=◌
  bind-IsSteadyOn m f s g = record { run = λ h i l d. bind-Ends f h (m h) l g (s.run h i l d) }

  pub weaken-IsSteadyOn {ℓ} : {A : Type ℓ} (m : Run A) → IsSteady n m → IsSteadyOn n m
  weaken-IsSteadyOn m s = record { run = λ h i l d. s.run h i l }

  pub then-IsSteadyOn {ℓ κ} :
      {A : Type ℓ} {B : Type κ} (m : Run A) (k : Run B)
      → IsSteadyOn n m
      → IsSteady n k
      → IsSteadyOn n (m >> k)
  unfolding ◌>>◌
  then-IsSteadyOn m k s g = record {
    run = λ h i l d. bind-Ends (λ _. k) h (m h) l (λ _. g) (s.run h i l d);
  }
