-- ===== src/Pool/Sections.antt =====
-- The locked sections of the pool, one by one, keep what Pool/Ownership states.
use neo4j_go_driver.Base.{
  ℕ, ◌+◌, ◌-◌, ◌<◌, ◌≡◌, ap, arith, Bool, true, false, List, [], ◌∷◌, String, name_comparable, ◌==◌,
  ◌&&◌, nat_beq, length, All, if◌then◌else◌, Bool-cases, inl, inr,
}
use neo4j_go_driver.Base.Int.{ℤ}
use neo4j_go_driver.Pool.Server.{
  Conn, Server, size, remove_idle_older_than, start_closing, unregister_busy, return_busy,
  register_busy, notify_failed_connect, notify_successful_connect,
}
use neo4j_go_driver.Pool.State.{reserve, release}
use neo4j_go_driver.Pool.System.{count, lent_count, take_back, remove_name}
use neo4j_go_driver.Pool.Counting.{
  occurrences, occurrences-remove_first, length-remove_first, All-split_older,
  length-split_older-le,
}
use neo4j_go_driver.Pool.Ownership.{IsKept}

pub count-remove_name :
    (n m : String) (l : List String)
    → 0 < count n l
    → count m (remove_name n l) + (if n == m then 1 else 0) ≡ count m l
unfolding count remove_name
count-remove_name n m [] h = absurd (omega arith)
count-remove_name n m (x ∷ xs) h = ground (
  arith,
  count-remove_name n m xs,
  name_comparable.same_iff x n,
  name_comparable.same_iff x m,
  name_comparable.same_iff n m,
)

pub lent_count-take_back :
    (n : String) (i : ℕ) (c : Conn) (l : List Conn)
    → 0 < lent_count c.server_name c.id l
    → lent_count n i (take_back c l) + (if c.server_name == n && nat_beq c.id i then 1 else 0)
      ≡ lent_count n i l
unfolding lent_count take_back
lent_count-take_back n i c [] h = absurd (omega arith)
lent_count-take_back n i c (x ∷ xs) h = ground (
  arith,
  lent_count-take_back n i c xs,
  name_comparable.same_iff x.server_name c.server_name,
  name_comparable.same_iff x.server_name n,
  name_comparable.same_iff c.server_name n,
)

module _ {max : ℕ} {n : String} {r : ℕ} {lent : List Conn} {s : Server}
    (k : IsKept max n r lent s) where
  pub remove_idle_older_than-IsKept :
      (now : ℕ) (max_age : ℤ) → IsKept max n r lent (remove_idle_older_than now max_age s).0
  unfolding remove_idle_older_than size
  remove_idle_older_than-IsKept now max_age = record {
    reserved = k.reserved;
    owned = k.owned;
    homed = All-split_older _ now max_age s.idle k.homed;
    bounded = omega (arith, k.bounded, length-split_older-le now max_age s.idle);
  }

  pub start_closing-IsKept : IsKept max n r lent (start_closing s).0
  unfolding start_closing size
  start_closing-IsKept = record {
    reserved = k.reserved;
    owned = k.owned;
    homed = tt;
    bounded = omega (arith, k.bounded);
  }

  pub reserve-IsKept : size s < max → IsKept max n (r + 1) lent (reserve s)
  unfolding size
  reserve-IsKept h = record {
    reserved = omega (arith, k.reserved);
    owned = k.owned;
    homed = k.homed;
    bounded = omega (arith, h);
  }

  pub release-IsKept : 0 < r → IsKept max n (r - 1) lent (release s)
  unfolding size
  release-IsKept h = record {
    reserved = omega (arith, k.reserved);
    owned = k.owned;
    homed = k.homed;
    bounded = omega (arith, k.bounded);
  }

  -- A connection of the server that is now busy and lent, in the place of a reservation.
  pub register_busy-IsKept :
      (c : Conn) (shared : ℕ)
      → 0 < r
      → c.server_name ≡ n
      → IsKept max n
          (r - 1)
          (c ∷ lent)
          (notify_successful_connect (register_busy c shared (release s)).0)
  unfolding notify_successful_connect register_busy size occurrences lent_count
  register_busy-IsKept c shared h e = record {
    reserved = omega (arith, k.reserved);
    owned = λ i. ground (arith, k.owned i, name_comparable.same_iff c.server_name n);
    homed = k.homed;
    bounded = omega (arith, k.bounded, k.reserved);
  }

  pub unregister_busy-IsKept :
      (c : Conn)
      → c.server_name ≡ n
      → 0 < lent_count n c.id lent
      → IsKept max n r (take_back c lent) (unregister_busy c s)
  unfolding unregister_busy size
  unregister_busy-IsKept c e h = record {
    reserved = k.reserved;
    owned = λ i. ground (
      arith,
      k.owned i,
      k.owned c.id,
      e,
      occurrences-remove_first i c s.busy,
      lent_count-take_back n i c lent,
      name_comparable.same_iff c.server_name n,
    );
    homed = k.homed;
    bounded = ground (arith, k.bounded, k.owned c.id, length-remove_first c s.busy);
  }

  pub return_busy-IsKept :
      (c : Conn)
      → c.server_name ≡ n
      → 0 < lent_count n c.id lent
      → IsKept max n r (take_back c lent) (return_busy c s).0
  unfolding return_busy unregister_busy size
  return_busy-IsKept c e h =
      let t = unregister_busy-IsKept c e h in
      elim (Bool-cases s.closing) [
        | inl closing ↦ rw closing (record {
          reserved = t.reserved;
          owned = t.owned;
          homed = t.homed;
          bounded = t.bounded;
        })
        | inr opened ↦ rw opened (record {
          reserved = t.reserved;
          owned = t.owned;
          homed = (e, t.homed);
          bounded = omega (
            arith,
            k.bounded,
            k.owned c.id,
            h,
            length-remove_first c s.busy (omega (arith, k.owned c.id, h)),
          );
        })
      ]

  pub notify_failed_connect-IsKept : (now : ℕ) → IsKept max n r lent (notify_failed_connect now s)
  unfolding notify_failed_connect size
  notify_failed_connect-IsKept now = record {
    reserved = k.reserved;
    owned = k.owned;
    homed = k.homed;
    bounded = k.bounded;
  }

  pub reopen-IsKept : IsKept max n r lent (record s { closing = false })
  unfolding size
  reopen-IsKept = record {
    reserved = k.reserved;
    owned = k.owned;
    homed = k.homed;
    bounded = k.bounded;
  }

  -- The front idle connection is the server's own, and is lent when it is taken.
  pub take_idle-IsKept :
      (c : Conn) (rest : List Conn)
      → s.idle ≡ c ∷ rest
      → IsKept max n r (c ∷ lent) (record s { idle = rest; busy = c ∷ s.busy })
  unfolding size occurrences lent_count
  take_idle-IsKept c rest e =
      let own : All (λ x. x.server_name ≡ n) (c ∷ rest) = rw e at k.homed in
      record {
        reserved = k.reserved;
        owned = λ i. ground (arith, k.owned i, own.0, name_comparable.same_iff c.server_name n);
        homed = own.1;
        bounded = omega (arith, k.bounded, ap length e);
      }

pub either-IsKept :
    {max : ℕ} {n : String} {r : ℕ} {lent : List Conn} {s t : Server} (b : Bool)
    → IsKept max n r lent s
    → IsKept max n r lent t
    → IsKept max n r lent (if b then s else t)
either-IsKept true k l = k
either-IsKept false k l = l
