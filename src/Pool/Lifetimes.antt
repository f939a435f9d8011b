-- ===== src/Pool/Lifetimes.antt =====
-- What becomes of connections: lent, expired, returned, closed.
use neo4j_go_driver.Base.{
  zero, Option, ◌≢◌, suc, none, nat_beq, nat_beq_iff, Bool-cases, length, ap, ℕ, ◌+◌, ◌<◌, ◌≡◌,
  refl, ◌∙◌, arith, true, false, some, List, [], ◌∷◌, ◌++◌, String, name_comparable, All,
  if◌then◌else◌, Option-cases, inl, inr, map,
}
use neo4j_go_driver.Base.Int.{ℤ}
use neo4j_go_driver.Base.Dict.{lookup}
use neo4j_go_driver.Pool.Server.{
  Conn, Server, remove_idle_older_than, all_connections, is_older_than, split_older, start_closing,
  return_busy, unregister_busy, remove_first,
}
use neo4j_go_driver.Pool.Counting.{
  occurrences, occurrences-append, occurrences-remove_first, occurrences-split_older,
  split_older-is_older_than,
}
use neo4j_go_driver.Pool.State.{
  Pool, Config, deactivate, close_each, close_connection, close_pool, close_servers, wake_each,
  front, next_waiter, remove_waiter, put_server,
}
use neo4j_go_driver.Pool.System.{System, Reachable, count, lent_count}
use neo4j_go_driver.Pool.Threads
use neo4j_go_driver.Pool.Reach.{Reachable-Holds}

-- In every reachable state a server that a connect is under way to is in the map, so that the
-- server the code holds across its connect is the one that the map holds when it is done.
pub Reachable-waits_known :
    (cfg : Config) (s : System) (n : String)
    → 0 < cfg.max_connection_pool_size
    → Reachable cfg s
    → 0 < count n s.connects
    → (t : Server) × (lookup n s.pool.servers ≡ some t)
Reachable-waits_known cfg s n pos r waits =
    Threads.waits_known _ s.pool s.connects s.lent (Reachable-Holds cfg s pos r) n waits

-- In every reachable state a connection that is lent is busy on a server of the map.
pub Reachable-lent_busy :
    (cfg : Config) (s : System) (c : Conn)
    → 0 < cfg.max_connection_pool_size
    → Reachable cfg s
    → 0 < lent_count c.server_name c.id s.lent
    → (t : Server) × (lookup c.server_name s.pool.servers ≡ some t) × (0 < occurrences c.id t.busy)
Reachable-lent_busy cfg s c pos r lent =
    let h = Reachable-Holds cfg s pos r in
    elim (Option-cases (lookup c.server_name s.pool.servers)) [
      | inl e ↦ absurd (Threads.unknown _ s.pool s.connects s.lent h c lent e)
      | inr (t, e) ↦
          let k = Threads.found-IsKept _ s.pool s.connects s.lent h c.server_name t e in
          (t, e, omega (arith, k.owned c.id, lent))
    ]

-- removeIdleOlderThan leaves idle the connections younger than the bound and closes the others;
-- each connection of the server is still there or closed, exactly as often as before, and the
-- busy ones stay.
pub remove_idle_older_than-split :
    (now : ℕ) (max_age : ℤ) (s : Server)
    → (All (λ c. is_older_than now max_age c ≡ false) (remove_idle_older_than now max_age s).0.idle)
      × (All (λ c. is_older_than now max_age c ≡ true) (remove_idle_older_than now max_age s).1)
      × ((remove_idle_older_than now max_age s).0.busy ≡ s.busy)
      × ((i : ℕ)
          → occurrences i (all_connections (remove_idle_older_than now max_age s).0)
              + occurrences i (remove_idle_older_than now max_age s).1
            ≡ occurrences i (all_connections s))
unfolding remove_idle_older_than all_connections
remove_idle_older_than-split now max_age s =
    let (young, old) = split_older-is_older_than now max_age s.idle in
    (
      young,
      old,
      refl,
      λ i. omega (
        arith,
        occurrences-append i s.busy (split_older now max_age s.idle).0,
        occurrences-append i s.busy s.idle,
        occurrences-split_older i now max_age s.idle,
      ),
    )

-- returnBusy of a busy connection loses none: afterwards each connection of the server is idle,
-- busy or closed exactly as often as before, and what a server closes then is the returned
-- connection of a server that is closing.
pub return_busy-all_connections :
    (c : Conn) (s : Server)
    → 0 < occurrences c.id s.busy
    → ((i : ℕ)
        → occurrences i (all_connections (return_busy c s).0) + occurrences i (return_busy c s).1
          ≡ occurrences i (all_connections s))
      × ((return_busy c s).1 ≡ (if s.closing then c ∷ [] else []))
unfolding return_busy unregister_busy all_connections occurrences
return_busy-all_connections c s busy = (
  (λ i. ground (
    arith,
    occurrences-append i (remove_first c s.busy) s.idle,
    occurrences-append i (remove_first c s.busy) (c ∷ s.idle),
    occurrences-append i s.busy s.idle,
    occurrences-remove_first i c s.busy busy,
  )),
  ground arith,
)

close_each-queue :
    (cs : List Conn) (p : Pool)
    → ((close_each cs p).queue ≡ p.queue) × ((close_each cs p).woken ≡ p.woken)
unfolding close_each close_connection
close_each-queue [] p = (refl, refl)
close_each-queue (c ∷ cs) p = close_each-queue cs (close_connection c p)

deactivate-queue :
    (n : String) (p : Pool)
    → ((deactivate n p).queue ≡ p.queue) × ((deactivate n p).woken ≡ p.woken)
unfolding deactivate
deactivate-queue n p = elim (Option-cases (lookup n p.servers)) [
  | inl e ↦ rw (deactivate, e) (refl, refl)
  | inr (s, e) ↦
      let r = start_closing s in rw (deactivate, e) (close_each-queue r.1 (put_server n r.0 p))
]

close_servers-queue :
    (ns : List String) (p : Pool)
    → ((close_servers ns p).queue ≡ p.queue) × ((close_servers ns p).woken ≡ p.woken)
unfolding close_servers
close_servers-queue [] p = (refl, refl)
close_servers-queue (n ∷ ns) p =
    let (q, w) = deactivate-queue n p in
    let (q', w') = close_servers-queue ns (deactivate n p) in (q' ∙ q, w' ∙ w)

next_waiter-absent : (e : ℕ) (l : List ℕ) → All (λ w. w ≢ e) l → next_waiter e l ≡ none
unfolding next_waiter
next_waiter-absent e [] h = refl
next_waiter-absent e (w ∷ ws) h = elim (Bool-cases (nat_beq w e)) [
  | inl same ↦ absurd (h.0 ((nat_beq_iff w e).0 same))
  | inr other ↦ rw (next_waiter, other) (next_waiter-absent e ws h.1)
]

remove_waiter-front : (w : ℕ) (ws : List ℕ) → remove_waiter w (w ∷ ws) ≡ ws
unfolding remove_waiter
remove_waiter-front w ws = rw (remove_waiter, (nat_beq_iff w w).1 refl) refl

wake_each-none : (fuel : ℕ) (p : Pool) → wake_each fuel none p ≡ p
unfolding wake_each
wake_each-none zero p = refl
wake_each-none (suc fuel) p = refl

-- The loop ends behind its first round: the element that was removed has no next.
wake_each-front :
    (fuel w : ℕ) (ws : List ℕ) (p : Pool)
    → p.queue ≡ w ∷ ws
    → All (λ v. v ≢ w) ws
    → wake_each (suc fuel) (some w) p ≡ record p { queue = ws; woken = p.woken ++ (w ∷ []) }
unfolding wake_each
wake_each-front fuel w ws p queued once =
    let left : List ℕ → Pool = λ l. record p { queue = l; woken = p.woken ++ (w ∷ []) } in
    ap (λ (q : Pool). wake_each fuel (next_waiter w q.queue) q)
      (ap (λ (l : List ℕ). left (remove_waiter w l)) queued ∙ ap left (remove_waiter-front w ws))
    ∙ ap (λ (o : Option ℕ). wake_each fuel o (left ws)) (next_waiter-absent w ws once)
    ∙ wake_each-none fuel (left ws)

-- Close wakes the first waiter of the queue only, and the others stay in the queue. The waiters are
-- distinct, as the elements of a list are.
pub close_pool-queue :
    (p : Pool) (w : ℕ) (ws : List ℕ)
    → p.queue ≡ w ∷ ws
    → All (λ v. v ≢ w) ws
    → ((close_pool p).queue ≡ ws) × ((close_pool p).woken ≡ p.woken ++ (w ∷ []))
unfolding close_pool
close_pool-queue p w ws queued once =
    let shut : Pool = record p { closed = true } in
    let q : Pool = wake_each (suc (length p.queue)) (front p.queue) shut in
    let woken =
      ap (λ (l : List ℕ). wake_each (suc (length l)) (front l) shut) queued
      ∙ wake_each-front (length (w ∷ ws)) w ws shut queued once in
    let (same_queue, same_woken) = close_servers-queue (map (λ e. e.0) q.servers) q in
    (same_queue ∙ ap (λ (r : Pool). r.queue) woken, same_woken ∙ ap (λ (r : Pool). r.woken) woken)
