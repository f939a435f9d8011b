-- ===== src/Pool/BorrowOrder.antt =====
-- The order in which a pass of Borrow tries the servers, and the one that it borrows from.
use neo4j_go_driver.Base.{
  ℕ, ◌≤◌, ◌≡◌, refl, ap, Bool, true, false, if◌then◌else◌, List, [], ◌∷◌, ◌++◌, String, All, ◌⊎◌,
  inl, inr,
}
use neo4j_go_driver.Pool.Server.{Conn}
use neo4j_go_driver.Pool.State.{Pool, Config, get_penalties_for_servers, update_cache_state}
use neo4j_go_driver.Pool.Borrow.{
  World, Borrowed, borrowed, no_connection, closed_error, out_of_servers, failed, timed_out,
  out_of_fuel, try_borrow, after_try, before_pass, try_each, borrow_pass,
}
use mathlib.Core.Path.{subst}
use mathlib.Core.List.{Perm}

-- Each server comes before all that have a higher penalty.
unfoldable pub IsByPenalty : List (String × ℕ) → Type 0
IsByPenalty [] = Unit
IsByPenalty (e ∷ es) = All (λ f. e.1 ≤ f.1) es × IsByPenalty es

IsByPenalty-after :
    (before : List (String × ℕ)) (e : String × ℕ) (after : List (String × ℕ))
    → IsByPenalty (before ++ (e ∷ after))
    → All (λ f. e.1 ≤ f.1) after
unfolding IsByPenalty
IsByPenalty-after [] e after h = h.0
IsByPenalty-after (f ∷ fs) e after h = IsByPenalty-after fs e after h.1

-- An answer without a connection.
abbrev pub IsRefusal : Borrowed → Type 0
IsRefusal (borrowed c) = ⊥
IsRefusal no_connection = Unit
IsRefusal closed_error = Unit
IsRefusal out_of_servers = Unit
IsRefusal (failed n) = Unit
IsRefusal (timed_out n) = Unit
IsRefusal out_of_fuel = Unit

not_given-up :
    (late fatal : Bool) (n : ℕ) (q : Pool) (rest : Borrowed × Pool) (c : Conn) (o : Pool)
    → (if late then (timed_out n, q) else if fatal then (failed n, q) else rest) ≡ (borrowed c, o)
    → rest ≡ (borrowed c, o)
not_given-up true fatal n q rest c o h = cc
not_given-up false true n q rest c o h = cc
not_given-up false false n q rest c o h = h

not_early :
    (closed : Bool) (names : List String) (p : Pool) (tried : Borrowed × Pool) (c : Conn) (o : Pool)
    → before_pass closed names p tried ≡ (borrowed c, o)
    → tried ≡ (borrowed c, o)
not_early true names p tried c o h = cc
not_early false [] p tried c o h = cc
not_early false (n ∷ ns) p tried c o h = h

module _ (cfg : Config) (w : World) where
  -- Each of the servers was tried in turn, and none gave a connection.
  pub data Refused : Pool → List (String × ℕ) → Pool → Type 0 where
    none_tried : (p : Pool) → Refused p [] p
    tried :
        (p q : Pool) (e : String × ℕ) (es : List (String × ℕ))
        → IsRefusal (try_borrow cfg w e.0 p).0
        → Refused (try_borrow cfg w e.0 p).1 es q
        → Refused p (e ∷ es) q

  -- What is known where a list of servers gave the connection `c`.
  pub record IsBorrowed (l : List (String × ℕ)) (p : Pool) (c : Conn) (o : Pool) : Type 0 where
    pub before : List (String × ℕ)
    pub server : String × ℕ
    pub after : List (String × ℕ)
    pub reached : Pool
    pub parts : l ≡ before ++ (server ∷ after)
    pub refused : Refused p before reached
    pub gave : (try_borrow cfg w server.0 reached).0 ≡ borrowed c
    pub pool : o ≡ update_cache_state (try_borrow cfg w server.0 reached).1

  after_try-borrowed :
      (r : Borrowed × Pool) (later : Borrowed → Pool → Borrowed × Pool) (c : Conn) (o : Pool)
      → after_try cfg w r later ≡ (borrowed c, o)
      → ((r.0 ≡ borrowed c) × (o ≡ update_cache_state r.1))
        ⊎ (IsRefusal r.0 × (later r.0 r.1 ≡ (borrowed c, o)))
  after_try-borrowed (borrowed d, q) later c o h = inl (cc, cc)
  after_try-borrowed (failed n, q) later c o h =
      inr (tt, not_given-up (w.is_timeout n) (w.is_fatal n) n q _ c o h)
  after_try-borrowed (no_connection, q) later c o h = inr (tt, h)
  after_try-borrowed (closed_error, q) later c o h = inr (tt, h)
  after_try-borrowed (out_of_servers, q) later c o h = inr (tt, h)
  after_try-borrowed (timed_out n, q) later c o h = inr (tt, h)
  after_try-borrowed (out_of_fuel, q) later c o h = inr (tt, h)

  try_each-borrowed :
      (l : List (String × ℕ)) (last : Borrowed) (p : Pool) (c : Conn) (o : Pool)
      → IsRefusal last
      → try_each cfg w l last p ≡ (borrowed c, o)
      → IsBorrowed l p c o
  unfolding try_each
  try_each-borrowed [] last p c o d h = absurd (subst IsRefusal (ap (λ r. r.0) h) d)
  try_each-borrowed (e ∷ es) last p c o d h =
      elim (after_try-borrowed (try_borrow cfg w e.0 p) (λ l q. try_each cfg w es l q) c o h) [
        | inl (gave, pool) ↦ record {
          before = [];
          server = e;
          after = es;
          reached = p;
          parts = refl;
          refused = none_tried p;
          gave = gave;
          pool = pool;
        }
        | inr (refusal, later) ↦
            let b = try_each-borrowed es _ _ c o refusal later in
            record {
              before = e ∷ b.before;
              server = b.server;
              after = b.after;
              reached = b.reached;
              parts = ap (λ t. e ∷ t) b.parts;
              refused = tried p b.reached e b.before refusal b.refused;
              gave = b.gave;
              pool = b.pool;
            }
      ]

  -- A pass of Borrow that gives a connection, with a sort by penalty: the servers that were given,
  -- with their penalties, are some that were tried in turn without giving a connection, the one
  -- that gave it, and others, none of which has a lower penalty than that one.
  pub borrow_pass-lowest :
      (sort : List (String × ℕ) → List (String × ℕ))
      → ((l : List (String × ℕ)) → IsByPenalty (sort l) × Perm (sort l) l)
      → (names : List String) (p : Pool) (c : Conn) (o : Pool)
      → borrow_pass cfg w sort names p ≡ (borrowed c, o)
      → let r = get_penalties_for_servers cfg w.now names p in
        (before : List (String × ℕ)) × (server : String × ℕ) × (after : List (String × ℕ))
        × (reached : Pool) × Perm (before ++ (server ∷ after)) r.0
        × Refused r.1 before reached
        × ((try_borrow cfg w server.0 reached).0 ≡ borrowed c)
        × (o ≡ update_cache_state (try_borrow cfg w server.0 reached).1)
        × All (λ f. server.1 ≤ f.1) after
  unfolding borrow_pass
  borrow_pass-lowest sort sorts names p c o h =
      let r = get_penalties_for_servers cfg w.now names p in
      let b =
        try_each-borrowed (sort r.0) no_connection r.1 c o tt
          (not_early p.closed names p _ c o h) in
      let (ordered, same) = sorts r.0 in
      (
        b.before,
        b.server,
        b.after,
        b.reached,
        subst (λ l. Perm l r.0) b.parts same,
        b.refused,
        b.gave,
        b.pool,
        IsByPenalty-after b.before b.server b.after (subst IsByPenalty b.parts ordered),
      )
