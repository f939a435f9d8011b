-- ===== src/Pool/Reach.antt =====
-- The account of the pool in every state that threads can bring it to.
use neo4j_go_driver.Base.{
  zero, suc, Option, length, none, some, ℕ, ◌<◌, ◌≡◌, refl, arith, true, List, [], ◌∷◌, String,
  name_comparable, inl, inr, ◌⊎◌,
}
use neo4j_go_driver.Base.Dict.{lookup}
use neo4j_go_driver.Pool.Server.{Conn, new_server, size}
use neo4j_go_driver.Pool.State.{
  Pool, Config, new_pool, Acquired, full, connecting, idle_conn, acquire, acquire_again,
  clean_up_each, clean_up, close_servers, wake_each, wake, front, close_pool, deactivate,
  clean_up_server,
}
use neo4j_go_driver.Pool.System.{
  System, Step, Reachable, start, begun, and_then, count, lent_count, lend_idle, begin_connect,
  find_full, connect_ok, connect_error, drop, return_alive, expire, prune, deactivated, closed_all,
}
use neo4j_go_driver.Pool.Counting.{occurrences}
use neo4j_go_driver.Pool.Ownership.{server_at, IsKept, Holds}
use neo4j_go_driver.Pool.Threads
use neo4j_go_driver.Pool.Acquiring.{After, acquire-After, acquire_again-After}

new_server-IsKept : (max : ℕ) (n : String) → IsKept max n 0 [] new_server
unfolding new_server size lent_count occurrences
new_server-IsKept max n = record {
  reserved = refl;
  owned = λ i. refl;
  homed = tt;
  bounded = omega arith;
}

clean_up_each-Holds :
    (cfg : Config) (now : ℕ) (ns : List String) (max : ℕ) (p : Pool) (connects : List String)
    (lent : List Conn)
    → Holds max p connects lent
    → Holds max (clean_up_each cfg now ns p) connects lent
unfolding clean_up_each
clean_up_each-Holds cfg now [] max p connects lent h = h
clean_up_each-Holds cfg now (n ∷ ns) max p connects lent h =
    clean_up_each-Holds cfg now ns max (clean_up_server cfg now n p) connects lent
      (Threads.clean_up_server-Holds max p connects lent h cfg now n)

close_servers-Holds :
    (ns : List String) (max : ℕ) (p : Pool) (connects : List String) (lent : List Conn)
    → Holds max p connects lent
    → Holds max (close_servers ns p) connects lent
unfolding close_servers
close_servers-Holds [] max p connects lent h = h
close_servers-Holds (n ∷ ns) max p connects lent h =
    close_servers-Holds ns max (deactivate n p) connects lent
      (Threads.deactivate-Holds max p connects lent h n)

wake_each-servers : (fuel : ℕ) (o : Option ℕ) (p : Pool) → (wake_each fuel o p).servers ≡ p.servers
unfolding wake_each
wake_each-servers zero none p = refl
wake_each-servers zero (some e) p = refl
wake_each-servers (suc fuel) none p = refl
wake_each-servers (suc fuel) (some e) p = wake_each-servers fuel _ (wake e p)

close_pool-Holds :
    (max : ℕ) (p : Pool) (connects : List String) (lent : List Conn)
    → Holds max p connects lent
    → Holds max (close_pool p) connects lent
unfolding close_pool Holds server_at
close_pool-Holds max p connects lent h = close_servers-Holds _ max _ connects lent (λ m.
    rw
      (
        server_at,
        wake_each-servers (suc (length p.queue)) (front p.queue) (record p { closed = true }),
      )
      (h m))

abbrev Accounted : Config → System → Type 0
Accounted cfg s = Holds cfg.max_connection_pool_size s.pool s.connects s.lent

acquires-After :
    (cfg : Config) (n : String) (p q : Pool) (a : Acquired) (connects : List String)
    (lent : List Conn)
    → 0 < cfg.max_connection_pool_size
    → Holds cfg.max_connection_pool_size p connects lent
    → ((acquire cfg n p ≡ (a, q)) ⊎ (acquire_again cfg n p ≡ (a, q)))
    → After cfg.max_connection_pool_size n connects lent (a, q)
acquires-After cfg n p q a connects lent pos h (inl e) =
    rw e at (acquire-After cfg n p connects lent pos h)
acquires-After cfg n p q a connects lent pos h (inr e) =
    rw e at (acquire_again-After cfg n p connects lent pos h)

Step-Accounted :
    (cfg : Config) {s t : System}
    → 0 < cfg.max_connection_pool_size
    → Step cfg s t
    → Accounted cfg s
    → Accounted cfg t
unfolding clean_up
Step-Accounted cfg pos (lend_idle s n c q e) h =
    (acquires-After cfg n s.pool q (idle_conn c) s.connects s.lent pos h e).1
Step-Accounted cfg pos (begin_connect s n q e) h =
    acquires-After cfg n s.pool q connecting s.connects s.lent pos h e
Step-Accounted cfg pos (find_full s n q e) h =
    acquires-After cfg n s.pool q full s.connects s.lent pos h e
Step-Accounted cfg pos (connect_ok s n c waits own) h =
    Threads.connected-Holds _ s.pool s.connects s.lent h n c waits own
Step-Accounted cfg pos (connect_error s n now b waits) h =
    Threads.connect_failed-Holds _ s.pool s.connects s.lent h n now b waits
Step-Accounted cfg pos (drop s c now isLent) h =
    Threads.unreg_locked-Holds _ s.pool s.connects s.lent h c now isLent
Step-Accounted cfg pos (return_alive s c isLent) h =
    Threads.give_back-Holds _ s.pool s.connects s.lent h c isLent
Step-Accounted cfg pos (expire s n now max_age) h =
    Threads.remove_idle_older_than_on_server-Holds _ s.pool s.connects s.lent h n now max_age
Step-Accounted cfg pos (prune s now) h = clean_up_each-Holds cfg now _ _ s.pool s.connects s.lent h
Step-Accounted cfg pos (deactivated s n) h = Threads.deactivate-Holds _ s.pool s.connects s.lent h n
Step-Accounted cfg pos (closed_all s) h = close_pool-Holds _ s.pool s.connects s.lent h

-- In every reachable state each server of a pool of at least one connection per server has one
-- reservation for each connect under way to it, has as busy exactly the connections that are lent
-- from it, keeps only its own connections idle, and holds at most the configured number in all.
pub Reachable-Holds :
    (cfg : Config) (s : System)
    → 0 < cfg.max_connection_pool_size
    → Reachable cfg s
    → Holds cfg.max_connection_pool_size s.pool s.connects s.lent
unfolding start new_pool Holds server_at count lookup
Reachable-Holds cfg s pos begun = λ m. new_server-IsKept cfg.max_connection_pool_size m
Reachable-Holds cfg s pos (and_then r step) =
    Step-Accounted cfg pos step (Reachable-Holds cfg _ pos r)
