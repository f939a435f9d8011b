-- ===== src/Pool/Tests.antt =====
-- The theorems of this tree at concrete servers and pools.
use neo4j_go_driver.Base.{
  ℕ, ◌+◌, ◌<◌, ◌≡◌, ◌≢◌, String, refl, arith, true, false, none, some, [], ◌∷◌, inl, inr, All, ◌++◌,
  ◌≤◌, ◌==◌, if◌then◌else◌, name_comparable,
}
use neo4j_go_driver.Pool.Server.{
  health_check, unregister_busy, remove_first, new_server, get_idle, size, register_busy,
  notify_successful_connect, is_older_than, remove_idle_older_than, all_connections, return_busy,
  Conn, Server, has_failed_connect, calculate_penalty,
}
use neo4j_go_driver.Base.Int.{pos}
use neo4j_go_driver.Base.Dict.{lookup, insert, delete}
use neo4j_go_driver.Pool.State.{
  Pool, Config, new_pool, acquire, acquire_again, connected, close_pool, unreg_locked,
  close_connection, get_penalties_for_servers, update_cache_state,
}
use neo4j_go_driver.Pool.System.{
  System, Reachable, start, begun, and_then, begin_connect, connect_ok, count, remove_name,
  lent_count,
}
use neo4j_go_driver.Pool.Ownership.{Holds}
use neo4j_go_driver.Pool.Counting.{occurrences}
use neo4j_go_driver.Pool.Reach.{Reachable-Holds}
use neo4j_go_driver.Pool.Lifetimes.{
  Reachable-waits_known, Reachable-lent_busy, remove_idle_older_than-split,
  return_busy-all_connections, close_pool-queue,
}
use mathlib.Core.List.{List, Perm}
use neo4j_go_driver.Pool.BorrowOrder.{Refused, borrow_pass-lowest}
use neo4j_go_driver.Pool.Sorting
use neo4j_go_driver.Pool.State
use neo4j_go_driver.Pool.Sorting.{sort_by_penalty, sort_by_penalty-IsByPenalty}
use neo4j_go_driver.Pool.Borrow.{
  World, Borrowed, borrowed, borrow_pass, try_each, try_borrow, try_rounds, idle_at, failed,
  out_of_fuel,
}
use neo4j_go_driver.Pool.BorrowEnds.{try_borrow-ne-out_of_fuel}
use neo4j_go_driver.Pool.Penalty.{penalty-failed, penalty-busy, penalty-idle}

abbrev conn : ℕ → Conn
conn i = record { id = i; server_name = "a:7687"; birthdate = 100; is_ssr_enabled = true }

abbrev a_conn : Conn
a_conn = record (conn 1) { server_name = "a" }

abbrev rested : Server
rested = record {
  idle = conn 1 ∷ [];
  busy = [];
  reservations = 0;
  failed_connect_at = none;
  round_robin = 300;
  closing = false;
}

abbrev worked : Server
worked = record rested { idle = []; busy = conn 1 ∷ [] }

abbrev empty : Server
empty = record rested { idle = [] }

abbrev refused : Server
refused = record rested { failed_connect_at = some 5 }

penalty-failed_example : calculate_penalty 9 worked < calculate_penalty 9 refused
unfolding has_failed_connect
penalty-failed_example = penalty-failed 9 worked refused refl refl

penalty-busy_example : calculate_penalty 9 rested < calculate_penalty 9 worked
unfolding has_failed_connect
penalty-busy_example = penalty-busy 9 rested worked refl (omega arith) (omega arith) (omega arith)

penalty-idle_example : calculate_penalty 9 rested < calculate_penalty 9 empty
unfolding has_failed_connect
penalty-idle_example = penalty-idle 9 rested empty refl refl (omega arith) refl

abbrev cfg : Config
cfg = record { max_connection_pool_size = 2; max_connection_lifetime = pos 1000 }

-- A connect to "a" is begun, answered, and begun again.
abbrev one_lent : System
one_lent = record {
  pool = connected "a" a_conn (acquire cfg "a" new_pool).1;
  connects = [];
  lent = a_conn ∷ [];
}

abbrev connecting_too : System
connecting_too = record one_lent { pool = (acquire cfg "a" one_lent.pool).1; connects = "a" ∷ [] }

one_lent-Reachable : Reachable cfg one_lent
unfolding start new_pool acquire acquire_again lookup insert new_server count remove_name
one_lent-Reachable =
    and_then (and_then begun (begin_connect start "a" _ (inl refl)))
      (connect_ok _ "a" a_conn (omega arith) refl)

connecting_too-Reachable : Reachable cfg connecting_too
unfolding new_pool acquire acquire_again lookup insert new_server get_idle size connected
    register_busy notify_successful_connect
connecting_too-Reachable = and_then one_lent-Reachable (begin_connect one_lent "a" _ (inl refl))

Reachable-Holds_example : Holds 2 connecting_too.pool connecting_too.connects connecting_too.lent
Reachable-Holds_example = Reachable-Holds cfg connecting_too (omega arith) connecting_too-Reachable

Reachable-waits_known_example : (t : Server) × (lookup "a" connecting_too.pool.servers ≡ some t)
unfolding count
Reachable-waits_known_example =
    Reachable-waits_known cfg connecting_too "a" (omega arith) connecting_too-Reachable
      (omega arith)

Reachable-lent_busy_example :
    (t : Server) × (lookup "a" connecting_too.pool.servers ≡ some t) × (0 < occurrences 1 t.busy)
unfolding lent_count
Reachable-lent_busy_example =
    Reachable-lent_busy cfg connecting_too a_conn (omega arith) connecting_too-Reachable
      (omega arith)

remove_idle_older_than-split_example :
    (All
      (λ c. is_older_than 150 (pos 50) c ≡ false)
      (remove_idle_older_than 150 (pos 50) rested).0.idle)
    × (All
        (λ c. is_older_than 150 (pos 50) c ≡ true)
        (remove_idle_older_than 150 (pos 50) rested).1)
    × ((remove_idle_older_than 150 (pos 50) rested).0.busy ≡ rested.busy)
    × ((i : ℕ)
        → occurrences i (all_connections (remove_idle_older_than 150 (pos 50) rested).0)
            + occurrences i (remove_idle_older_than 150 (pos 50) rested).1
          ≡ occurrences i (all_connections rested))
remove_idle_older_than-split_example = remove_idle_older_than-split 150 (pos 50) rested

return_busy-all_connections_example :
    ((i : ℕ)
      → occurrences i (all_connections (return_busy (conn 1) worked).0)
          + occurrences i (return_busy (conn 1) worked).1
        ≡ occurrences i (all_connections worked))
    × ((return_busy (conn 1) worked).1 ≡ [])
unfolding occurrences
return_busy-all_connections_example = return_busy-all_connections (conn 1) worked (omega arith)

abbrev crowded : Pool
crowded = record new_pool { queue = 1 ∷ 2 ∷ 3 ∷ [] }

close_pool-queue_example :
    ((close_pool crowded).queue ≡ 2 ∷ 3 ∷ []) × ((close_pool crowded).woken ≡ 1 ∷ [])
unfolding new_pool
close_pool-queue_example =
    close_pool-queue crowded 1 (2 ∷ 3 ∷ []) refl
      (λ e. omega (arith, e), (λ e. omega (arith, e), tt))

-- A world in which every idle connection is found dead and every connect fails.
abbrev dead : World
dead = record {
  now = 9;
  idleness_timeout = pos 100;
  health = λ c. record {
    is_peer_alive = false;
    idle_date = 0;
    is_alive_after_reset = false;
    re_auth = none;
    is_alive = false;
    ctx_err = none;
  };
  connect = λ n. inl (record { error = 5; feature_not_supported = false });
  is_timeout = λ e. false;
  is_fatal = λ e. false;
}

abbrev one_idle : Pool
one_idle = record new_pool { servers = ("a:7687", rested) ∷ [] }

dead_run : (try_borrow cfg dead "a:7687" one_idle).0 ≡ failed 5
unfolding try_borrow try_rounds idle_at acquire acquire_again lookup insert delete get_idle size
    new_pool health_check unreg_locked unregister_busy remove_first close_connection
    has_failed_connect
dead_run = refl

try_borrow-ne-out_of_fuel_example : (try_borrow cfg dead "a:7687" one_idle).0 ≢ out_of_fuel
try_borrow-ne-out_of_fuel_example = try_borrow-ne-out_of_fuel cfg dead "a:7687" one_idle

-- The connect to "a" fails, and the one to "b" does not.
abbrev half : World
half = record dead {
  connect = λ n.
      if n == "a"
      then inl (record { error = 5; feature_not_supported = false })
      else inr (record (conn 2) { server_name = "b" });
}

abbrev passed : Borrowed × Pool
passed = borrow_pass cfg half sort_by_penalty ("a" ∷ "b" ∷ []) new_pool

passes : passed ≡ (borrowed (record (conn 2) { server_name = "b" }), passed.1)
unfolding borrow_pass try_each try_borrow new_pool sort_by_penalty get_penalties_for_servers
    Sorting.insert_by_penalty lookup State.remove_idle_older_than_on_server try_rounds acquire
    acquire_again State.connect_failed insert
passes = refl

borrow_pass-lowest_example :
    let r = get_penalties_for_servers cfg half.now ("a" ∷ "b" ∷ []) new_pool in
    (before : List (String × ℕ)) × (server : String × ℕ) × (after : List (String × ℕ))
    × (reached : Pool) × Perm (before ++ (server ∷ after)) r.0
    × Refused cfg half r.1 before reached
    × ((try_borrow cfg half server.0 reached).0 ≡ borrowed (record (conn 2) { server_name = "b" }))
    × (passed.1 ≡ update_cache_state (try_borrow cfg half server.0 reached).1)
    × All (λ f. server.1 ≤ f.1) after
borrow_pass-lowest_example =
    borrow_pass-lowest cfg half sort_by_penalty sort_by_penalty-IsByPenalty ("a" ∷ "b" ∷ [])
      new_pool (record (conn 2) { server_name = "b" }) passed.1 passes
