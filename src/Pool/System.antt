-- ===== src/Pool/System.antt =====
-- The threads that use a pool: connects under way, connections lent to borrowers, and the sections
-- of neo4j/internal/pool/pool.go in any order that the threads may run them.
use neo4j_go_driver.Base.{
  ℕ, ◌<◌, ◌≡◌, Bool, List, [], ◌∷◌, String, ◌==◌, ◌&&◌, ◌+◌, nat_beq, name_comparable,
  if◌then◌else◌, ◌⊎◌,
}
use neo4j_go_driver.Base.Int.{ℤ}
use neo4j_go_driver.Pool.Server.{Conn}
use neo4j_go_driver.Pool.State.{
  Pool, Config, new_pool, Acquired, connecting, idle_conn, acquire, acquire_again, full, connected,
  connect_failed, unreg_locked, give_back, remove_idle_older_than_on_server, clean_up, deactivate,
  close_pool,
}

-- How often a name occurs.
unfoldable pub count : String → List String → ℕ
count n [] = 0
count n (m ∷ ms) = if m == n then count n ms + 1 else count n ms

unfoldable pub remove_name : String → List String → List String
remove_name n [] = []
remove_name n (m ∷ ms) = if m == n then ms else m ∷ remove_name n ms

-- How often the connection `i` of the server `n` is lent.
unfoldable pub lent_count : String → ℕ → List Conn → ℕ
lent_count n i [] = 0
lent_count n i (c ∷ cs) =
    if c.server_name == n && nat_beq c.id i then lent_count n i cs + 1 else lent_count n i cs

unfoldable pub take_back : Conn → List Conn → List Conn
take_back c [] = []
take_back c (x ∷ xs) =
    if x.server_name == c.server_name && nat_beq x.id c.id then xs else x ∷ take_back c xs

pub record System : Type 0 where
  pub pool : Pool
  pub connects : List String
  pub lent : List Conn

unfoldable pub start : System
start = record { pool = new_pool; connects = []; lent = [] }

-- A round of tryBorrow, its first one or a later one.
abbrev Acquires : Config → String → Pool → Acquired → Pool → Type 0
Acquires cfg n p a q = ((acquire cfg n p ≡ (a, q)) ⊎ (acquire_again cfg n p ≡ (a, q)))

abbrev IsLent : System → Conn → Type 0
IsLent s c = 0 < lent_count c.server_name c.id s.lent

-- A connect answers with a connection of the server that was asked for; a borrower returns or
-- drops a connection that it has.
pub data Step (cfg : Config) : System → System → Type 0 where
  lend_idle :
      (s : System) (n : String) (c : Conn) (q : Pool)
      → Acquires cfg n s.pool (idle_conn c) q
      → Step cfg s (record s { pool = q; lent = c ∷ s.lent })
  begin_connect :
      (s : System) (n : String) (q : Pool)
      → Acquires cfg n s.pool connecting q
      → Step cfg s (record s { pool = q; connects = n ∷ s.connects })
  find_full :
      (s : System) (n : String) (q : Pool)
      → Acquires cfg n s.pool full q
      → Step cfg s (record s { pool = q })
  connect_ok :
      (s : System) (n : String) (c : Conn)
      → 0 < count n s.connects
      → c.server_name ≡ n
      → Step cfg s (record {
        pool = connected n c s.pool;
        connects = remove_name n s.connects;
        lent = c ∷ s.lent;
      })
  connect_error :
      (s : System) (n : String) (now : ℕ) (feature_not_supported : Bool)
      → 0 < count n s.connects
      → Step cfg s (record s {
        pool = connect_failed n now feature_not_supported s.pool;
        connects = remove_name n s.connects;
      })
  drop :
      (s : System) (c : Conn) (now : ℕ)
      → IsLent s c
      → Step cfg s
          (record s { pool = unreg_locked c.server_name c now s.pool; lent = take_back c s.lent })
  return_alive :
      (s : System) (c : Conn)
      → IsLent s c
      → Step cfg s (record s { pool = give_back c s.pool; lent = take_back c s.lent })
  expire :
      (s : System) (n : String) (now : ℕ) (max_age : ℤ)
      → Step cfg s (record s { pool = remove_idle_older_than_on_server n now max_age s.pool })
  prune : (s : System) (now : ℕ) → Step cfg s (record s { pool = clean_up cfg now s.pool })
  deactivated : (s : System) (n : String) → Step cfg s (record s { pool = deactivate n s.pool })
  closed_all : (s : System) → Step cfg s (record s { pool = close_pool s.pool })

pub data Reachable (cfg : Config) : System → Type 0 where
  begun : Reachable cfg start
  and_then : {s t : System} → Reachable cfg s → Step cfg s t → Reachable cfg t
