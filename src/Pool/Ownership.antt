-- ===== src/Pool/Ownership.antt =====
-- What holds of a pool whatever its threads do: each server's lists and reservations agree with
-- what the threads hold, and no server exceeds the configured size.
use neo4j_go_driver.Base.{
  ℕ, ◌≤◌, ◌≡◌, refl, sym, ◌∙◌, arith, Bool, true, false, none, some, List, [], ◌∷◌, String,
  name_comparable, ◌==◌, length, All, if◌then◌else◌, Bool-cases, inl, inr,
}
use neo4j_go_driver.Base.Dict.{lookup, lookup-insert, lookup-delete}
use neo4j_go_driver.Pool.Server.{Conn, Server, new_server, size}
use neo4j_go_driver.Pool.State.{
  Pool, put_server, drop_server, drop_if, close_each, close_connection,
}
use neo4j_go_driver.Pool.System.{count, lent_count}
use neo4j_go_driver.Pool.Counting.{occurrences}

-- The server of a name; a name that the map does not know stands for a server that holds nothing.
unfoldable pub server_at : String → Pool → Server
server_at n p = elim (lookup n p.servers) [ none ↦ new_server | some s ↦ s ]

-- What a server of the pool has: one reservation per connect under way, as busy connections
-- exactly those that are lent, as idle ones its own, and at most `max` in all.
pub record IsKept (max : ℕ) (n : String) (r : ℕ) (lent : List Conn) (s : Server) : Type 0 where
  pub reserved : s.reservations ≡ r
  pub owned : (i : ℕ) → occurrences i s.busy ≡ lent_count n i lent
  pub homed : All (λ c. c.server_name ≡ n) s.idle
  pub bounded : size s ≤ max

unfoldable pub Holds : ℕ → Pool → List String → List Conn → Type 0
Holds max p connects lent = (m : String) → IsKept max m (count m connects) lent (server_at m p)

server_at-put_server :
    (n m : String) (s : Server) (p : Pool)
    → server_at m (put_server n s p) ≡ (if n == m then s else server_at m p)
unfolding server_at
server_at-put_server n m s p = ground (arith, lookup-insert n m s p.servers)

server_at-drop_server :
    (n m : String) (p : Pool)
    → server_at m (drop_server n p) ≡ (if n == m then new_server else server_at m p)
unfolding server_at
server_at-drop_server n m p = ground (arith, lookup-delete n m p.servers)

server_at-close_each :
    (m : String) (cs : List Conn) (p : Pool) → server_at m (close_each cs p) ≡ server_at m p
unfolding server_at close_each close_connection
server_at-close_each m [] p = refl
server_at-close_each m (c ∷ cs) p = server_at-close_each m cs (close_connection c p)

nothing_busy : (l : List Conn) → length l ≡ 0 → (i : ℕ) → occurrences i l ≡ 0
unfolding occurrences
nothing_busy [] h i = refl
nothing_busy (c ∷ cs) h i = absurd (omega (arith, h))

-- A server that holds nothing can be forgotten.
new_server-IsKept :
    (max : ℕ) (n : String) (r : ℕ) (lent : List Conn) (s : Server)
    → size s ≡ 0
    → IsKept max n r lent s
    → IsKept max n r lent new_server
unfolding new_server size occurrences
new_server-IsKept max n r lent s h k = record {
  reserved = omega (arith, h, k.reserved);
  owned = λ i. sym (nothing_busy s.busy (omega (arith, h)) i) ∙ k.owned i;
  homed = tt;
  bounded = omega arith;
}

-- From one list of connects and lent connections to another that agrees with it on a server.
carry :
    {max : ℕ} {m : String} {r r' : ℕ} {lent lent' : List Conn} {s : Server}
    → r' ≡ r
    → ((i : ℕ) → lent_count m i lent' ≡ lent_count m i lent)
    → IsKept max m r lent s
    → IsKept max m r' lent' s
carry e f k = record {
  reserved = k.reserved ∙ sym e;
  owned = λ i. k.owned i ∙ sym (f i);
  homed = k.homed;
  bounded = k.bounded;
}

server_at-drop_if :
    (n m : String) (dropped : Bool) (p : Pool)
    → server_at m (drop_if dropped n p)
      ≡ (if n == m then (if dropped then new_server else server_at m p) else server_at m p)
server_at-drop_if n m dropped p = ground (arith, server_at-drop_server n m p)

-- A section that changes one server, and may drop it if it holds nothing.
pub settle-Holds :
    (max : ℕ) (n : String) (s : Server) (gone : List Conn) (dropped : Bool) (p : Pool)
    (connects connects' : List String) (lent lent' : List Conn)
    → Holds max p connects lent
    → ((m : String)
        → (n == m) ≡ false
        → (count m connects' ≡ count m connects)
          × ((i : ℕ) → lent_count m i lent' ≡ lent_count m i lent))
    → IsKept max n (count n connects') lent' s
    → (dropped ≡ true → size s ≡ 0)
    → Holds max (drop_if dropped n (close_each gone (put_server n s p))) connects' lent'
unfolding Holds
settle-Holds max n s gone dropped p connects connects' lent lent' all others here spent m =
    let e = server_at-drop_if n m dropped (close_each gone (put_server n s p)) in
    let f = server_at-close_each m gone (put_server n s p) ∙ server_at-put_server n m s p in
    elim (Bool-cases (n == m)) [
      | inr other ↦ let (c, l) = others m other in rw (e, other, f, other) (carry c l (all m))
      | inl same ↦
          rw (e, same, f, same, ← (name_comparable.same_iff n m).0 same)
            (elim (Bool-cases dropped) [
              | inl gone ↦
                  rw gone (new_server-IsKept max n (count n connects') lent' s (spent gone) here)
              | inr stays ↦ rw stays here
            ])
    ]

-- Closing touches no list of a server.
pub close_connection-Holds :
    (max : ℕ) (c : Conn) (p : Pool) (connects : List String) (lent : List Conn)
    → Holds max p connects lent
    → Holds max (close_connection c p) connects lent
unfolding Holds server_at close_connection
close_connection-Holds max c p connects lent h = h
