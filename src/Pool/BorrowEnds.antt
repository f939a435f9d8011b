-- ===== src/Pool/BorrowEnds.antt =====
-- tryBorrow ends: each round that goes on has taken one idle connection away.
use neo4j_go_driver.Base.{
  ℕ, zero, suc, ◌+◌, ◌≤◌, ◌<◌, ◌≡◌, ◌≢◌, refl, ap, arith, Bool, true, false, some, List, [], ◌∷◌,
  String, name_comparable, ◌⊎◌, inl, inr, Option-cases, length, if◌then◌else◌, leb,
}
use neo4j_go_driver.Base.Dict.{lookup, lookup-insert, lookup-delete}
use neo4j_go_driver.Pool.Server.{
  Conn, Server, Health, get_idle, get_front, health_check, unregister_busy, size,
}
use neo4j_go_driver.Pool.State.{
  Pool, Config, Acquired, pool_closed, full, connecting, idle_conn, put_server, drop_if, reserve,
  close_connection, acquire, acquire_again, acquire_on, unreg_locked, is_spent,
}
use neo4j_go_driver.Pool.Borrow.{
  World, ConnectError, out_of_fuel, try_rounds, try_borrow, idle_at, check_health, after_connect,
}

put_server-idle_at :
    (n : String) (s : Server) (p : Pool) → idle_at n (put_server n s p) ≡ length s.idle
unfolding idle_at
put_server-idle_at n s p =
    ground (arith, lookup-insert n n s p.servers, name_comparable.same_iff n n)

drop_if-idle_at : (b : Bool) (n : String) (p : Pool) → idle_at n (drop_if b n p) ≤ idle_at n p
unfolding idle_at
drop_if-idle_at b n p = ground (arith, lookup-delete n n p.servers, name_comparable.same_iff n n)

idle_at-found :
    (n : String) (s : Server) (p : Pool) → lookup n p.servers ≡ some s → idle_at n p ≡ length s.idle
unfolding idle_at
idle_at-found n s p e = rw (idle_at, e) refl

close_connection-idle_at :
    (n : String) (c : Conn) (p : Pool) → idle_at n (close_connection c p) ≡ idle_at n p
unfolding close_connection idle_at
close_connection-idle_at n c p = refl

unregister_busy-idle : (c : Conn) (s : Server) → (unregister_busy c s).idle ≡ s.idle
unfolding unregister_busy
unregister_busy-idle c s = refl

unreg_locked-idle_at :
    (n : String) (c : Conn) (now : ℕ) (p : Pool) → idle_at n (unreg_locked n c now p) ≤ idle_at n p
unfolding unreg_locked
unreg_locked-idle_at n c now p = elim (Option-cases (lookup n p.servers)) [
  | inl e ↦ rw (unreg_locked, e) (omega (arith, close_connection-idle_at n c p))
  | inr (s, e) ↦
      let t = unregister_busy c s in
      let q = drop_if (is_spent now t) n (put_server n t p) in
      rw (unreg_locked, e)
        (omega (
          arith,
          close_connection-idle_at n c q,
          drop_if-idle_at (is_spent now t) n (put_server n t p),
          put_server-idle_at n t p,
          ap length (unregister_busy-idle c s),
          idle_at-found n s p e,
        ))
]

-- A round that finds an idle connection has one less idle on the server.
abbrev Takes : String → Pool → Acquired × Pool → Type 0
Takes n p (idle_conn c, q) = idle_at n q + 1 ≡ idle_at n p
Takes n p (connecting, q) = Unit
Takes n p (full, q) = Unit
Takes n p (pool_closed, q) = Unit

either-Takes :
    (b : Bool) (n : String) (p : Pool) (x y : Acquired × Pool)
    → Takes n p x
    → Takes n p y
    → Takes n p (if b then x else y)
either-Takes true n p x y h k = h
either-Takes false n p x y h k = k

module _ (cfg : Config) (w : World) where
  acquire_again-Takes : (n : String) (p : Pool) → Takes n p (acquire_again cfg n p)
  unfolding acquire_again get_idle
  acquire_again-Takes n p = elim (Option-cases (lookup n p.servers)) [
    | inl e ↦ rw (acquire_again, e) tt
    | inr (s, e) ↦ rw (acquire_again, e) (go s e s.idle refl)
  ]
    where
      go :
          (s : Server)
          → lookup n p.servers ≡ some s
          → (l : List Conn) → s.idle ≡ l
          → Takes n p (acquire_on cfg n (get_front (record s { closing = false }) l) p)
      go s e [] f =
          let t : Server = record s { closing = false } in
          either-Takes (leb cfg.max_connection_pool_size (size t)) n p (full, put_server n t p)
            (connecting, put_server n (reserve t) p) tt tt
      go s e (c ∷ rest) f =
          let t : Server = record s { closing = false; idle = rest; busy = c ∷ s.busy } in
          omega (arith, put_server-idle_at n t p, idle_at-found n s p e, ap length f)

  acquire-Takes : (n : String) (p : Pool) → Takes n p (acquire cfg n p)
  unfolding acquire
  acquire-Takes n p =
      either-Takes p.closed n p (pool_closed, p) (acquire_again cfg n p) tt
        (acquire_again-Takes n p)

  health_check-idle :
      (h : Health) (shared : ℕ) (s : Server)
      → (health_check h w.now w.idleness_timeout shared s).2.idle ≡ s.idle
  unfolding health_check
  health_check-idle h shared s = ground arith

  check_health-idle_at :
      (n : String) (c : Conn) (p : Pool) → idle_at n (check_health cfg w n c p).2 ≡ idle_at n p
  check_health-idle_at n c p = elim (Option-cases (lookup n p.servers)) [
    | inl e ↦ rw (check_health, e) refl
    | inr (s, e) ↦
        let r = health_check (w.health c) w.now w.idleness_timeout p.shared_round_robin s in
        let q : Pool = record p { shared_round_robin = r.3 } in
        rw (check_health, e)
          (omega (
            arith,
            put_server-idle_at n r.2 q,
            idle_at-found n s p e,
            ap length (health_check-idle (w.health c) p.shared_round_robin s),
          ))
  ]

  after_connect-ne-out_of_fuel :
      (n : String) (r : ConnectError ⊎ Conn) (p : Pool)
      → (after_connect cfg w n r p).0 ≢ out_of_fuel
  after_connect-ne-out_of_fuel n (inl f) p = λ e. ground (arith, e)
  after_connect-ne-out_of_fuel n (inr c) p = λ e. ground (arith, e)

  try_rounds-ne-out_of_fuel :
      (fuel : ℕ) (n : String) (p : Pool) (r : Acquired × Pool)
      → Takes n p r
      → idle_at n p < fuel
      → (try_rounds cfg w fuel n r).0 ≢ out_of_fuel
  unfolding try_rounds
  try_rounds-ne-out_of_fuel zero n p r t h = absurd (omega arith)
  try_rounds-ne-out_of_fuel (suc fuel) n p (pool_closed, q) t h = λ e. ground (arith, e)
  try_rounds-ne-out_of_fuel (suc fuel) n p (full, q) t h = λ e. ground (arith, e)
  try_rounds-ne-out_of_fuel (suc fuel) n p (connecting, q) t h =
      after_connect-ne-out_of_fuel n (w.connect n) q
  try_rounds-ne-out_of_fuel (suc fuel) n p (idle_conn c, q) t h =
      let checked = check_health cfg w n c q in
      let dropped = unreg_locked n c w.now checked.2 in
      let again =
        try_rounds-ne-out_of_fuel fuel n dropped (acquire_again cfg n dropped)
          (acquire_again-Takes n dropped)
          (omega
            (arith, t, h, check_health-idle_at n c q, unreg_locked-idle_at n c w.now checked.2)) in
      λ e. ground (arith, e, again)

  -- tryBorrow ends, with a connection, an error or a full server, whatever the connections answer:
  -- a round that finds a dead connection leaves one less idle on the server.
  pub try_borrow-ne-out_of_fuel : (n : String) (p : Pool) → (try_borrow cfg w n p).0 ≢ out_of_fuel
  unfolding try_borrow
  try_borrow-ne-out_of_fuel n p =
      try_rounds-ne-out_of_fuel (suc (idle_at n p)) n p (acquire cfg n p) (acquire-Takes n p)
        (omega arith)
