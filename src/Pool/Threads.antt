-- ===== src/Pool/Threads.antt =====
-- Whatever the order in which threads run the locked sections, the pool keeps its account.
use neo4j_go_driver.Base.{
  ℕ, ◌-◌, ◌<◌, ◌≡◌, refl, arith, Bool, true, false, none, some, List, [], ◌∷◌, String,
  name_comparable, ◌==◌, Option-cases, inl, inr,
}
use neo4j_go_driver.Base.Int.{ℤ}
use neo4j_go_driver.Base.Dict.{lookup}
use neo4j_go_driver.Pool.Server.{
  Conn, Server, new_server, size, remove_idle_older_than, unregister_busy, return_busy,
  register_busy,
}
use neo4j_go_driver.Pool.State.{
  Pool, Config, drop_if, close_each, settle, is_spent, release, add_connection, connected,
  connect_failed, unreg_locked, give_back, remove_idle_older_than_on_server, clean_up_server,
  deactivate,
}
use neo4j_go_driver.Pool.System.{count, lent_count, take_back, remove_name}
use neo4j_go_driver.Pool.Ownership.{server_at, IsKept, Holds, settle-Holds, close_connection-Holds}
use neo4j_go_driver.Pool.Sections
use neo4j_go_driver.Pool.Counting.{occurrences}

module _ (max : ℕ) (p : Pool) (connects : List String) (lent : List Conn)
    (h : Holds max p connects lent) where
  -- The server that the map has.
  pub found-IsKept :
      (n : String) (s : Server)
      → lookup n p.servers ≡ some s
      → IsKept max n (count n connects) lent s
  unfolding Holds server_at
  found-IsKept n s e = rw (server_at, e) at (h n)

  -- A section that changes nothing that the threads hold.
  pub same-Holds :
      (n : String) (s : Server) (gone : List Conn) (dropped : Bool)
      → IsKept max n (count n connects) lent s
      → (dropped ≡ true → size s ≡ 0)
      → Holds max (drop_if dropped n (settle n (s, gone) p)) connects lent
  same-Holds n s gone dropped k spent =
      settle-Holds max n s gone dropped p connects connects lent lent h (λ m e. (refl, λ i. refl)) k
        spent

  pub remove_idle_older_than_on_server-Holds :
      (n : String) (now : ℕ) (max_age : ℤ)
      → Holds max (remove_idle_older_than_on_server n now max_age p) connects lent
  unfolding remove_idle_older_than_on_server
  remove_idle_older_than_on_server-Holds n now max_age = elim (Option-cases (lookup n p.servers)) [
    | inl e ↦ rw (remove_idle_older_than_on_server, e) h
    | inr (s, e) ↦
        let k = Sections.remove_idle_older_than-IsKept (found-IsKept n s e) now max_age in
        rw (remove_idle_older_than_on_server, e) (same-Holds n _ _ false k (λ b. ground arith))
  ]

  pub deactivate-Holds : (n : String) → Holds max (deactivate n p) connects lent
  unfolding deactivate
  deactivate-Holds n = elim (Option-cases (lookup n p.servers)) [
    | inl e ↦ rw (deactivate, e) h
    | inr (s, e) ↦
        let k = Sections.start_closing-IsKept (found-IsKept n s e) in
        rw (deactivate, e) (same-Holds n _ _ false k (λ b. ground arith))
  ]

  pub clean_up_server-Holds :
      (cfg : Config) (now : ℕ) (n : String) → Holds max (clean_up_server cfg now n p) connects lent
  unfolding clean_up_server
  clean_up_server-Holds cfg now n = elim (Option-cases (lookup n p.servers)) [
    | inl e ↦ rw (clean_up_server, e) h
    | inr (s, e) ↦
        let r = remove_idle_older_than now cfg.max_connection_lifetime s in
        let k =
          Sections.remove_idle_older_than-IsKept (found-IsKept n s e) now
            cfg.max_connection_lifetime in
        rw (clean_up_server, e) (same-Holds n r.0 r.1 (is_spent now r.0) k (λ b. ground arith))
  ]

  -- What is lent is busy on a server that the map has.
  pub unknown :
      (c : Conn)
      → 0 < lent_count c.server_name c.id lent
      → lookup c.server_name p.servers ≡ none
      → ⊥
  unfolding Holds server_at new_server occurrences
  unknown c isLent e =
      let k : IsKept max c.server_name (count c.server_name connects) lent new_server =
        rw (server_at, e) at (h c.server_name) in
      omega (arith, k.owned c.id, isLent)

  others :
      (c : Conn)
      → 0 < lent_count c.server_name c.id lent
      → (m : String) → (c.server_name == m) ≡ false
      → (count m connects ≡ count m connects)
        × ((i : ℕ) → lent_count m i (take_back c lent) ≡ lent_count m i lent)
  others c isLent m e = (refl, λ i. ground (arith, Sections.lent_count-take_back m i c lent isLent))

  pub unreg_locked-Holds :
      (c : Conn) (now : ℕ)
      → 0 < lent_count c.server_name c.id lent
      → Holds max (unreg_locked c.server_name c now p) connects (take_back c lent)
  unfolding unreg_locked close_each
  unreg_locked-Holds c now isLent = elim (Option-cases (lookup c.server_name p.servers)) [
    | inl e ↦ absurd (unknown c isLent e)
    | inr (s, e) ↦
        let k = Sections.unregister_busy-IsKept (found-IsKept c.server_name s e) c refl isLent in
        let t = unregister_busy c s in
        rw (unreg_locked, e)
          (close_connection-Holds max c _ connects (take_back c lent) (
            settle-Holds max c.server_name t [] (is_spent now t) p connects connects lent
              (take_back c lent) h (others c isLent) k (λ b. ground arith)))
  ]

  pub give_back-Holds :
      (c : Conn)
      → 0 < lent_count c.server_name c.id lent
      → Holds max (give_back c p) connects (take_back c lent)
  unfolding give_back
  give_back-Holds c isLent = elim (Option-cases (lookup c.server_name p.servers)) [
    | inl e ↦ absurd (unknown c isLent e)
    | inr (s, e) ↦
        let k = Sections.return_busy-IsKept (found-IsKept c.server_name s e) c refl isLent in
        let r = return_busy c s in
        rw (give_back, e)
          (settle-Holds max c.server_name r.0 r.1 _ p connects connects lent (take_back c lent) h
            (others c isLent) k (λ b. ground arith))
  ]

  -- A connect under way has its server in the map.
  pub waits_known :
      (n : String) → 0 < count n connects → (s : Server) × (lookup n p.servers ≡ some s)
  unfolding Holds server_at new_server
  waits_known n waits = elim (Option-cases (lookup n p.servers)) [
    | inl e ↦
        let k : IsKept max n (count n connects) lent new_server = rw (server_at, e) at (h n) in
        absurd (omega (arith, k.reserved, waits))
    | inr found ↦ found
  ]

  one_less :
      (n : String) → 0 < count n connects → count n connects - 1 ≡ count n (remove_name n connects)
  one_less n waits =
      ground (arith, Sections.count-remove_name n n connects waits, name_comparable.same_iff n n)

  answered :
      (n : String)
      → 0 < count n connects
      → (m : String) → (n == m) ≡ false
      → count m (remove_name n connects) ≡ count m connects
  answered n waits m e = ground (arith, Sections.count-remove_name n m connects waits)

  pub connected-Holds :
      (n : String) (c : Conn)
      → 0 < count n connects
      → c.server_name ≡ n
      → Holds max (connected n c p) (remove_name n connects) (c ∷ lent)
  unfolding connected Holds server_at close_each lent_count
  connected-Holds n c waits e =
      let (s, found) = waits_known n waits in
      let k =
        Sections.register_busy-IsKept (found-IsKept n s found) c p.shared_round_robin waits e in
      let r = register_busy c p.shared_round_robin (release s) in
      let q : Pool = record p {
        ssr_tracker = add_connection c p.ssr_tracker;
        shared_round_robin = r.1;
      } in
      rw (connected, found)
        (settle-Holds max n _ [] false q connects (remove_name n connects) lent (c ∷ lent) h
          (λ m f. (answered n waits m f, λ i. ground (arith, e))) (rw (one_less n waits) at k)
          (λ b. ground arith))

  pub connect_failed-Holds :
      (n : String) (now : ℕ) (b : Bool)
      → 0 < count n connects
      → Holds max (connect_failed n now b p) (remove_name n connects) lent
  unfolding connect_failed close_each
  connect_failed-Holds n now b waits =
      let (s, found) = waits_known n waits in
      let k = Sections.release-IsKept (found-IsKept n s found) waits in
      let kt = Sections.either-IsKept b k (Sections.notify_failed_connect-IsKept k now) in
      rw (connect_failed, found)
        (settle-Holds max n _ [] false p connects (remove_name n connects) lent lent h
          (λ m f. (answered n waits m f, λ i. refl)) (rw (one_less n waits) at kt)
          (λ b. ground arith))
