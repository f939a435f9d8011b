-- ===== src/Pool/State.antt =====
-- neo4j/internal/pool/pool.go and ssr_tracker.go. A function is one section that the code runs
-- under `serversMut` (or `queueMut`), or a method composed of such sections. The connections for
-- which closeConnection was called are kept in order. A waiter is the number of its queue item.
use neo4j_go_driver.Base.{
  zero, suc, length, ℕ, ◌+◌, ◌-◌, ◌%◌, ◌^◌, Bool, true, false, not, ◌&&◌, ◌||◌, Option, none, some,
  List, [], ◌∷◌, ◌++◌, String, ltb, leb, nat_beq, name_comparable, if◌then◌else◌, map,
}
use neo4j_go_driver.Base.Int.{ℤ, ltb_ℤ, leb_ℤ, sub_ℕ}
use neo4j_go_driver.Base.Dict.{lookup, insert, delete}
use neo4j_go_driver.Pool.Server.{
  Conn, Server, new_server, get_idle, has_failed_connect, notify_failed_connect,
  notify_successful_connect, calculate_penalty, new_connection_penalty, unregister_busy,
  return_busy, num_idle, register_busy, size, remove_idle_older_than, start_closing,
}

pub record SsrTracker : Type 0 where
  pub ssr_enabled_count : ℕ
  pub ssr_disabled_count : ℕ

unfoldable pub add_connection : Conn → SsrTracker → SsrTracker
add_connection c t =
    if c.is_ssr_enabled
    then record t { ssr_enabled_count = (t.ssr_enabled_count + 1) % 2 ^ 64 }
    else record t { ssr_disabled_count = (t.ssr_disabled_count + 1) % 2 ^ 64 }

-- Adding `^uint64(0)` wraps around.
unfoldable pub remove_connection : Conn → SsrTracker → SsrTracker
remove_connection c t =
    if c.is_ssr_enabled
    then record t { ssr_enabled_count = (t.ssr_enabled_count + (2 ^ 64 - 1)) % 2 ^ 64 }
    else record t { ssr_disabled_count = (t.ssr_disabled_count + (2 ^ 64 - 1)) % 2 ^ 64 }

unfoldable pub ssr_enabled : SsrTracker → Bool
ssr_enabled t = ltb 0 t.ssr_enabled_count && nat_beq t.ssr_disabled_count 0

pub record Config : Type 0 where
  pub max_connection_pool_size : ℕ
  pub max_connection_lifetime : ℤ

pub record Pool : Type 0 where
  pub servers : List (String × Server)
  pub queue : List ℕ
  pub woken : List ℕ
  pub closed : Bool
  pub shared_round_robin : ℕ
  pub ssr_tracker : SsrTracker
  pub cache_enabled : Bool
  pub discarded : List Conn

unfoldable pub new_pool : Pool
new_pool = record {
  servers = [];
  queue = [];
  woken = [];
  closed = false;
  shared_round_robin = 0;
  ssr_tracker = record { ssr_enabled_count = 0; ssr_disabled_count = 0 };
  cache_enabled = false;
  discarded = [];
}

abbrev pub put_server : String → Server → Pool → Pool
put_server n s p = record p { servers = insert n s p.servers }

abbrev pub drop_server : String → Pool → Pool
drop_server n p = record p { servers = delete n p.servers }

unfoldable pub close_connection : Conn → Pool → Pool
close_connection c p = record p {
  ssr_tracker = remove_connection c p.ssr_tracker;
  discarded = p.discarded ++ (c ∷ []);
}

unfoldable pub close_each : List Conn → Pool → Pool
close_each [] p = p
close_each (c ∷ cs) p = close_each cs (close_connection c p)

abbrev pub settle : String → Server × List Conn → Pool → Pool
settle n r p = close_each r.1 (put_server n r.0 p)

-- `size() == 0 && !hasFailedConnect(now)`
abbrev pub is_spent : ℕ → Server → Bool
is_spent now s = nat_beq (size s) 0 && not (has_failed_connect now s)

abbrev pub drop_if : Bool → String → Pool → Pool
drop_if b n p = if b then drop_server n p else p

-- One round of the loop in CleanUp.
unfoldable pub clean_up_server : Config → ℕ → String → Pool → Pool
clean_up_server cfg now n p = elim (lookup n p.servers) [
  | none ↦ p
  | some s ↦
      let r = remove_idle_older_than now cfg.max_connection_lifetime s in
      drop_if (is_spent now r.0) n (settle n r p)
]

unfoldable pub clean_up_each : Config → ℕ → List String → Pool → Pool
clean_up_each cfg now [] p = p
clean_up_each cfg now (n ∷ ns) p = clean_up_each cfg now ns (clean_up_server cfg now n p)

unfoldable pub clean_up : Config → ℕ → Pool → Pool
clean_up cfg now p = clean_up_each cfg now (map (λ e. e.0) p.servers) p

unfoldable pub remove_idle_older_than_on_server : String → ℕ → ℤ → Pool → Pool
remove_idle_older_than_on_server n now max_age p = elim (lookup n p.servers) [
  | none ↦ p
  | some s ↦ settle n (remove_idle_older_than now max_age s) p
]

unfoldable pub get_penalties_for_servers :
    Config → ℕ → List String → Pool → List (String × ℕ) × Pool
get_penalties_for_servers cfg now [] p = ([], p)
get_penalties_for_servers cfg now (n ∷ ns) p =
    let p' = remove_idle_older_than_on_server n now cfg.max_connection_lifetime p in
    let penalty : ℕ = elim (lookup n p'.servers) [
      | none ↦ new_connection_penalty
      | some s ↦ calculate_penalty now s
    ] in
    let rest = get_penalties_for_servers cfg now ns p' in ((n, penalty) ∷ rest.0, rest.1)

unfoldable pub any_has_capacity : Config → List String → Pool → Bool
any_has_capacity cfg [] p = false
any_has_capacity cfg (n ∷ ns) p =
    let rest = any_has_capacity cfg ns p in
    elim (lookup n p.servers) [
      | none ↦ rest
      | some s ↦
          if ltb 0 (num_idle s) || ltb (size s) cfg.max_connection_pool_size then true else rest
    ]

-- What the first locked section of tryBorrow ends with.
pub data Acquired : Type 0 where
  pool_closed full connecting : Acquired
  idle_conn : Conn → Acquired

abbrev pub reserve : Server → Server
reserve s = record s { reservations = s.reservations + 1 }

abbrev pub acquire_on : Config → String → Option Conn × Server → Pool → Acquired × Pool
acquire_on cfg n (some c, s) p = (idle_conn c, put_server n s p)
acquire_on cfg n (none, s) p =
    if leb cfg.max_connection_pool_size (size s)
    then (full, put_server n s p)
    else (connecting, put_server n (reserve s) p)

-- The locked section of a round of tryBorrow's loop.
unfoldable pub acquire_again : Config → String → Pool → Acquired × Pool
acquire_again cfg n p = elim (lookup n p.servers) [
  | none ↦ (connecting, put_server n (reserve new_server) p)
  | some s ↦ acquire_on cfg n (get_idle (record s { closing = false })) p
]

-- The first round looks at `closed` before.
unfoldable pub acquire : Config → String → Pool → Acquired × Pool
acquire cfg n p = if p.closed then (pool_closed, p) else acquire_again cfg n p

abbrev pub release : Server → Server
release s = record s { reservations = s.reservations - 1 }

-- The locked section after the connect, for each of its outcomes. The server that the code holds
-- is the one that the map holds, or one that the map no longer knows.
unfoldable pub connected : String → Conn → Pool → Pool
connected n c p =
    let q = record p { ssr_tracker = add_connection c p.ssr_tracker } in
    elim (lookup n p.servers) [
      | none ↦ q
      | some s ↦
          let r = register_busy c p.shared_round_robin (release s) in
          put_server n (notify_successful_connect r.0) (record q { shared_round_robin = r.1 })
    ]

unfoldable pub connect_failed : String → (now : ℕ) → (feature_not_supported : Bool) → Pool → Pool
connect_failed n now feature_not_supported p = elim (lookup n p.servers) [
  | none ↦ p
  | some s ↦
      put_server n
        (if feature_not_supported then release s else notify_failed_connect now (release s)) p
]

unfoldable pub unreg_locked : String → Conn → ℕ → Pool → Pool
unreg_locked n c now p = elim (lookup n p.servers) [
  | none ↦ close_connection c p
  | some s ↦
      let s' = unregister_busy c s in
      close_connection c (drop_if (is_spent now s') n (put_server n s' p))
]

-- The locked section of Return for a connection that is alive.
unfoldable pub give_back : Conn → Pool → Pool
give_back c p = elim (lookup c.server_name p.servers) [
  | none ↦ close_connection c p
  | some s ↦
      let r = return_busy c s in
      drop_if (r.0.closing && nat_beq (size r.0) 0) c.server_name (settle c.server_name r p)
]

unfoldable pub update_cache_state : Pool → Pool
update_cache_state p = record p { cache_enabled = ssr_enabled p.ssr_tracker }

-- The front of the queue is removed and gets a wake-up.
unfoldable pub wake_front : Pool → Pool
wake_front p = elim p.queue [
  | [] ↦ p
  | w ∷ ws ↦ record p { queue = ws; woken = p.woken ++ (w ∷ []) }
]

-- Return; the connection tells whether it is alive, before and after its Reset.
unfoldable pub return_conn :
    Config → (now : ℕ) → (is_alive is_alive_after_reset : Bool) → Conn → Pool → Pool
return_conn cfg now is_alive is_alive_after_reset c p =
    let age = sub_ℕ now c.birthdate in
    let max_age =
      if not is_alive && ltb_ℤ age cfg.max_connection_lifetime
      then age
      else cfg.max_connection_lifetime in
    let cleaned = remove_idle_older_than_on_server c.server_name now max_age p in
    let stays = is_alive && is_alive_after_reset && not (leb_ℤ cfg.max_connection_lifetime age) in
    wake_front (
      update_cache_state
        (if stays then give_back c cleaned else unreg_locked c.server_name c now cleaned))

-- The pool's part of deactivate; the router is told before.
unfoldable pub deactivate : String → Pool → Pool
deactivate n p = elim (lookup n p.servers) [ none ↦ p | some s ↦ settle n (start_closing s) p ]

unfoldable pub close_servers : List String → Pool → Pool
close_servers [] p = p
close_servers (n ∷ ns) p = close_servers ns (deactivate n p)

abbrev pub front : List ℕ → Option ℕ
front [] = none
front (w ∷ ws) = some w

-- `e.Next()`: list.Remove clears the links of an element, so that one that is no longer in the list
-- has no next.
unfoldable pub next_waiter : ℕ → List ℕ → Option ℕ
next_waiter e [] = none
next_waiter e (w ∷ ws) = elim (nat_beq w e) [ true ↦ front ws | false ↦ next_waiter e ws ]

unfoldable pub remove_waiter : ℕ → List ℕ → List ℕ
remove_waiter e [] = []
remove_waiter e (w ∷ ws) = elim (nat_beq w e) [ true ↦ ws | false ↦ w ∷ remove_waiter e ws ]

abbrev pub wake : ℕ → Pool → Pool
wake e p = record p { queue = remove_waiter e p.queue; woken = p.woken ++ (e ∷ []) }

-- The loop of Close over the queue; a round takes an element from it, and the fuel is one more than
-- there are.
unfoldable pub wake_each : ℕ → Option ℕ → Pool → Pool
unfolding next_waiter remove_waiter
wake_each fuel none p = p
wake_each zero (some e) p = p
wake_each (suc fuel) (some e) p = let q = wake e p in wake_each fuel (next_waiter e q.queue) q

unfoldable pub close_pool : Pool → Pool
unfolding wake_each
close_pool p =
    let q = wake_each (suc (length p.queue)) (front p.queue) (record p { closed = true }) in
    close_servers (map (λ e. e.0) q.servers) q
