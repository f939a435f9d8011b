-- ===== src/Homedb/Size.antt =====
-- The cache never holds more than its size, and what it forgets is what was used least recently.
use neo4j_go_driver.Base.{
  ℕ, zero, suc, ◌≢◌, ◌+◌, ◌≤◌, ◌<◌, ◌≡◌, refl, arith, true, none, some, List, [], ◌∷◌, String, ◌==◌,
  name_comparable, length, take, if◌then◌else◌, All,
}
use neo4j_go_driver.Base.Dict.{
  lookup, insert, delete, lookup-insert, length-delete-le, length-insert-le, length-delete-lt,
}
use neo4j_go_driver.Homedb.Cache.{
  Cache, Entry, get, set, prune, sort_by_use, insert_by_use, delete_each,
}

length-insert_by_use :
    (e : String × Entry) (l : List (String × Entry)) → length (insert_by_use e l) ≡ length l + 1
unfolding insert_by_use
length-insert_by_use e [] = refl
length-insert_by_use e (f ∷ fs) = ground (arith, length-insert_by_use e fs)

length-sort_by_use : (l : List (String × Entry)) → length (sort_by_use l) ≡ length l
unfolding sort_by_use
length-sort_by_use [] = refl
length-sort_by_use (e ∷ es) =
    omega (arith, length-sort_by_use es, length-insert_by_use e (sort_by_use es))

length-delete_each-le : (es m : List (String × Entry)) → length (delete_each es m) ≤ length m
unfolding delete_each
length-delete_each-le [] m = omega arith
length-delete_each-le (e ∷ es) m =
    omega (arith, length-delete-le e.0 m, length-delete_each-le es (delete e.0 m))

-- Of a list that is not empty the first key is in the map that it was sorted from.
insert_by_use-first :
    (P : String × Entry → Type 0) (e : String × Entry) (l : List (String × Entry))
    → P e
    → All P l
    → All P (insert_by_use e l)
unfolding insert_by_use
insert_by_use-first P e [] h k = (h, tt)
insert_by_use-first P e (f ∷ fs) h k = ground (arith, h, k.0, k.1, insert_by_use-first P e fs h k.1)

sort_by_use-All :
    (P : String × Entry → Type 0) (l : List (String × Entry)) → All P l → All P (sort_by_use l)
unfolding sort_by_use
sort_by_use-All P [] h = tt
sort_by_use-All P (e ∷ es) h =
    insert_by_use-first P e (sort_by_use es) h.0 (sort_by_use-All P es h.1)

abbrev IsKey : List (String × Entry) → String × Entry → Type 0
IsKey m e = lookup e.0 m ≢ none

keys_weaken :
    (e : String × Entry) (m l : List (String × Entry)) → All (IsKey m) l → All (IsKey (e ∷ m)) l
unfolding lookup
keys_weaken e m [] h = tt
keys_weaken e m (f ∷ fs) h = (ground (arith, h.0), keys_weaken e m fs h.1)

keys-IsKey : (m : List (String × Entry)) → All (IsKey m) m
unfolding lookup
keys-IsKey [] = tt
keys-IsKey (e ∷ es) =
    (ground (arith, name_comparable.same_iff e.0 e.0), keys_weaken e es es (keys-IsKey es))

-- Deleting the keys of a list that is not empty makes the map smaller.
delete_each-lt :
    (n : ℕ) (l m : List (String × Entry))
    → All (IsKey m) l
    → 0 < n
    → 0 < length l
    → length (delete_each (take n l) m) < length m
unfolding delete_each
delete_each-lt zero l m keys some_n some_l = absurd (omega arith)
delete_each-lt (suc n) [] m keys some_n some_l = absurd (omega arith)
delete_each-lt (suc n) (e ∷ es) m keys some_n some_l =
    omega (arith, length-delete-lt e.0 m keys.0, length-delete_each-le (take n es) (delete e.0 m))

-- A cache that holds at most its size, and prunes at least one entry at a time, still holds at
-- most its size after any Set.
pub set-size :
    (now : ℕ) (user database : String) (c : Cache)
    → 1 ≤ c.prune_factor
    → length c.cache ≤ c.max_size
    → length (set now user database c).cache ≤ c.max_size
unfolding set prune
set-size now user database c factor fits =
    let e : Entry = record { database = database; last_used = now } in
    let m = insert user e c.cache in
    let sorted = sort_by_use m in
    ground (
      arith,
      length-insert-le user e c.cache,
      length-sort_by_use m,
      delete_each-lt c.prune_factor sorted m (sort_by_use-All (IsKey m) m (keys-IsKey m)),
      delete_each-lt (length sorted) sorted m (sort_by_use-All (IsKey m) m (keys-IsKey m)),
    )

-- While an entry still fits, a Set is what the next Get of the same user finds, and a Get of
-- another user finds what it found before, if the cache is enabled.
pub get-set :
    (now later : ℕ) (user other database : String) (c : Cache)
    → c.enabled ≡ true
    → length c.cache < c.max_size
    → (get later other (set now user database c)).0
      ≡ (if user == other then some database else (get later other c).0)
unfolding get set prune
get-set now later user other database c on fits =
    let e : Entry = record { database = database; last_used = now } in
    ground (arith, length-insert-le user e c.cache, lookup-insert user other e c.cache)
