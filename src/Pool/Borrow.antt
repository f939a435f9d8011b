-- ===== src/Pool/Borrow.antt =====
-- neo4j/internal/pool/pool.go: tryBorrow as one thread runs it, with nobody between its sections,
-- and the pass of Borrow over the servers. What connections answer in a health check and what a
-- connect answers are arguments.
use neo4j_go_driver.Base.{
  ℕ, zero, suc, Bool, true, false, Option, none, some, List, [], ◌∷◌, String, name_comparable, ◌⊎◌,
  inl, inr, length, if◌then◌else◌,
}
use neo4j_go_driver.Base.Int.{ℤ}
use neo4j_go_driver.Base.Dict.{lookup}
use neo4j_go_driver.Pool.Server.{Conn, Health, health_check}
use neo4j_go_driver.Pool.State.{
  Pool, Config, Acquired, pool_closed, full, connecting, idle_conn, put_server, acquire,
  acquire_again, connected, connect_failed, unreg_locked, get_penalties_for_servers,
  update_cache_state,
}

-- A failed connect: its error, and whether it is a FeatureNotSupportedError.
pub record ConnectError : Type 0 where
  pub error : ℕ
  pub feature_not_supported : Bool

pub record World : Type 0 where
  pub now : ℕ
  pub idleness_timeout : ℤ
  pub health : Conn → Health
  pub connect : String → ConnectError ⊎ Conn
  -- errorutil.IsTimeoutError and errorutil.IsFatalDuringDiscovery, on the errors of the two above.
  pub is_timeout : ℕ → Bool
  pub is_fatal : ℕ → Bool

pub data Borrowed : Type 0 where
  borrowed : Conn → Borrowed
  no_connection : Borrowed
  closed_error out_of_servers : Borrowed
  failed : ℕ → Borrowed
  -- PoolTimeout around the error.
  timed_out : ℕ → Borrowed
  out_of_fuel : Borrowed

-- How many connections of a server are idle.
unfoldable pub idle_at : String → Pool → ℕ
idle_at n p = elim (lookup n p.servers) [ none ↦ 0 | some s ↦ length s.idle ]

-- A closed pool, and no server to try.
abbrev pub before_pass : (closed : Bool) → List String → Pool → Borrowed × Pool → Borrowed × Pool
before_pass true names p tried = (closed_error, p)
before_pass false [] p tried = (out_of_servers, p)
before_pass false (n ∷ ns) p tried = tried

module _ (cfg : Config) (w : World) where
  abbrev pub after_connect : String → ConnectError ⊎ Conn → Pool → Borrowed × Pool
  after_connect n (inl e) p = (failed e.error, connect_failed n w.now e.feature_not_supported p)
  after_connect n (inr c) p = (borrowed c, connected n c p)

  -- The health check of a connection that was idle. The server is the one that the map holds.
  abbrev pub check_health : String → Conn → Pool → Bool × Option ℕ × Pool
  check_health n c p = elim (lookup n p.servers) [
    | none ↦ (false, none, p)
    | some s ↦
        let r = health_check (w.health c) w.now w.idleness_timeout p.shared_round_robin s in
        (r.0, r.1, put_server n r.2 (record p { shared_round_robin = r.3 }))
  ]

  -- The rounds of the loop, each from what its locked section ended with.
  unfoldable pub try_rounds : ℕ → String → Acquired × Pool → Borrowed × Pool
  try_rounds zero n r = (out_of_fuel, r.1)
  try_rounds (suc fuel) n (pool_closed, p) = (closed_error, p)
  try_rounds (suc fuel) n (full, p) = (no_connection, p)
  try_rounds (suc fuel) n (connecting, p) = after_connect n (w.connect n) p
  try_rounds (suc fuel) n (idle_conn c, p) =
      let checked = check_health n c p in
      let dropped = unreg_locked n c w.now checked.2 in
      let again = try_rounds fuel n (acquire_again cfg n dropped) in
      if checked.0
      then (borrowed c, checked.2)
      else elim checked.1 [ some e ↦ (failed e, dropped) | none ↦ again ]

  unfoldable pub try_borrow : String → Pool → Borrowed × Pool
  try_borrow n p = try_rounds (suc (idle_at n p)) n (acquire cfg n p)

  -- What a pass does with the answer of a server: a connection ends it, and so does a timeout or an
  -- error that is fatal.
  abbrev pub after_try : Borrowed × Pool → (Borrowed → Pool → Borrowed × Pool) → Borrowed × Pool
  after_try (borrowed c, q) later = (borrowed c, update_cache_state q)
  after_try (failed n, q) later =
      if w.is_timeout n
      then (timed_out n, q)
      else if w.is_fatal n
      then (failed n, q)
      else later (failed n) q
  after_try (no_connection, q) later = later no_connection q
  after_try (closed_error, q) later = later closed_error q
  after_try (out_of_servers, q) later = later out_of_servers q
  after_try (timed_out n, q) later = later (timed_out n) q
  after_try (out_of_fuel, q) later = later out_of_fuel q

  -- The loop over the servers; without a connection the last server's answer stays.
  unfoldable pub try_each : List (String × ℕ) → Borrowed → Pool → Borrowed × Pool
  unfolding try_borrow
  try_each [] last p = (last, p)
  try_each (e ∷ es) last p = after_try (try_borrow e.0 p) (λ l q. try_each es l q)

  -- One pass of Borrow's loop over servers, up to the point where it gives up or waits. `sort` is
  -- sort.Slice by penalty.
  unfoldable pub borrow_pass :
      (sort : List (String × ℕ) → List (String × ℕ)) → List String → Pool → Borrowed × Pool
  unfolding try_each
  borrow_pass sort names p =
      let r = get_penalties_for_servers cfg w.now names p in
      let tried = try_each (sort r.0) no_connection r.1 in before_pass p.closed names p tried
