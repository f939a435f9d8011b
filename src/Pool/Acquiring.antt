-- ===== src/Pool/Acquiring.antt =====
-- The first locked section of tryBorrow, by each of its outcomes.
use neo4j_go_driver.Base.{
  ℕ, ◌+◌, ◌<◌, ◌≡◌, refl, arith, Bool, true, false, List, [], ◌∷◌, String, name_comparable, ◌==◌,
  leb, All, if◌then◌else◌, Bool-cases, Option-cases, inl, inr,
}
use neo4j_go_driver.Base.Dict.{lookup}
use neo4j_go_driver.Pool.Server.{Conn, Server, new_server, size, get_idle, get_front}
use neo4j_go_driver.Pool.State.{
  Pool, Config, put_server, close_each, reserve, Acquired, pool_closed, full, connecting, idle_conn,
  acquire, acquire_again, acquire_on,
}
use neo4j_go_driver.Pool.System.{count, lent_count}
use neo4j_go_driver.Pool.Ownership.{server_at, IsKept, Holds, settle-Holds}
use neo4j_go_driver.Pool.Sections
use neo4j_go_driver.Pool.Threads

-- What a round of tryBorrow leaves, for each of its outcomes.
abbrev pub After : ℕ → String → List String → List Conn → Acquired × Pool → Type 0
After max n connects lent (idle_conn c, q) = (c.server_name ≡ n) × Holds max q connects (c ∷ lent)
After max n connects lent (connecting, q) = Holds max q (n ∷ connects) lent
After max n connects lent (full, q) = Holds max q connects lent
After max n connects lent (pool_closed, q) = Holds max q connects lent

module _ (max : ℕ) (p : Pool) (connects : List String) (lent : List Conn)
    (h : Holds max p connects lent) where
  -- The others, when `n` begins a connect or a connection of `n` is lent.
  begins :
      (n m : String)
      → (n == m) ≡ false
      → (count m (n ∷ connects) ≡ count m connects)
        × ((i : ℕ) → lent_count m i lent ≡ lent_count m i lent)
  unfolding count
  begins n m e = (ground arith, λ i. refl)

  lends :
      (n m : String) (c : Conn)
      → c.server_name ≡ n
      → (n == m) ≡ false
      → (count m connects ≡ count m connects)
        × ((i : ℕ) → lent_count m i (c ∷ lent) ≡ lent_count m i lent)
  unfolding lent_count
  lends n m c own e = (refl, λ i. ground (arith, own))

  one_more : (n : String) → count n connects + 1 ≡ count n (n ∷ connects)
  unfolding count
  one_more n = ground (arith, name_comparable.same_iff n n)

  reserve-Holds :
      (n : String) (s : Server)
      → IsKept max n (count n connects) lent s
      → size s < max
      → Holds max (put_server n (reserve s) p) (n ∷ connects) lent
  unfolding close_each
  reserve-Holds n s k room =
      settle-Holds max n (reserve s) [] false p connects (n ∷ connects) lent lent h (begins n)
        (rw (one_more n) at (Sections.reserve-IsKept k room)) (λ b. ground arith)

  lend-Holds :
      (n : String) (c : Conn) (s : Server)
      → c.server_name ≡ n
      → IsKept max n (count n connects) (c ∷ lent) s
      → Holds max (put_server n s p) connects (c ∷ lent)
  unfolding close_each
  lend-Holds n c s own k =
      settle-Holds max n s [] false p connects connects lent (c ∷ lent) h (λ m e. lends n m c own e)
        k (λ b. ground arith)

  keep-Holds :
      (n : String) (s : Server)
      → IsKept max n (count n connects) lent s
      → Holds max (put_server n s p) connects lent
  unfolding close_each
  keep-Holds n s k = Threads.same-Holds max p connects lent h n s [] false k (λ b. ground arith)

acquire_on-After :
    (cfg : Config) (n : String) (s : Server) (p : Pool) (connects : List String) (lent : List Conn)
    → Holds cfg.max_connection_pool_size p connects lent
    → IsKept cfg.max_connection_pool_size n (count n connects) lent s
    → After cfg.max_connection_pool_size n connects lent
        (acquire_on cfg n (get_idle (record s { closing = false })) p)
unfolding get_idle
acquire_on-After cfg n s p connects lent h k = go s.idle refl
  where
    go :
        (l : List Conn)
        → s.idle ≡ l
        → After cfg.max_connection_pool_size n connects lent
            (acquire_on cfg n (get_front (record s { closing = false }) l) p)
    go (c ∷ rest) e =
        let own : All (λ x. x.server_name ≡ n) (c ∷ rest) = rw e at k.homed in
        (
          own.0,
          lend-Holds cfg.max_connection_pool_size p connects lent h n c _ own.0
              (Sections.take_idle-IsKept (Sections.reopen-IsKept k) c rest e),
        )
    go [] e =
        let t : Server = record s { closing = false } in
        elim (Bool-cases (leb cfg.max_connection_pool_size (size t))) [
          | inl over ↦ rw over (
              keep-Holds cfg.max_connection_pool_size p connects lent h n t
                (Sections.reopen-IsKept k))
          | inr room ↦ rw room (
              reserve-Holds cfg.max_connection_pool_size p connects lent h n t
                (Sections.reopen-IsKept k) (ground arith))
        ]

pub acquire_again-After :
    (cfg : Config) (n : String) (p : Pool) (connects : List String) (lent : List Conn)
    → 0 < cfg.max_connection_pool_size
    → Holds cfg.max_connection_pool_size p connects lent
    → After cfg.max_connection_pool_size n connects lent (acquire_again cfg n p)
unfolding acquire_again Holds server_at new_server size
acquire_again-After cfg n p connects lent pos h =
    let max = cfg.max_connection_pool_size in
    elim (Option-cases (lookup n p.servers)) [
      | inl e ↦
          let k : IsKept max n (count n connects) lent new_server = rw (server_at, e) at (h n) in
          rw (acquire_again, e) (reserve-Holds max p connects lent h n new_server k pos)
      | inr (s, e) ↦
          let k = Threads.found-IsKept max p connects lent h n s e in
          rw (acquire_again, e) (acquire_on-After cfg n s p connects lent h k)
    ]

either-After :
    (b : Bool) (max : ℕ) (n : String) (connects : List String) (lent : List Conn)
    (x y : Acquired × Pool)
    → After max n connects lent x
    → After max n connects lent y
    → After max n connects lent (if b then x else y)
either-After true max n connects lent x y h k = h
either-After false max n connects lent x y h k = k

pub acquire-After :
    (cfg : Config) (n : String) (p : Pool) (connects : List String) (lent : List Conn)
    → 0 < cfg.max_connection_pool_size
    → Holds cfg.max_connection_pool_size p connects lent
    → After cfg.max_connection_pool_size n connects lent (acquire cfg n p)
unfolding acquire
acquire-After cfg n p connects lent pos h =
    either-After p.closed _ n connects lent (pool_closed, p) (acquire_again cfg n p) h
      (acquire_again-After cfg n p connects lent pos h)
