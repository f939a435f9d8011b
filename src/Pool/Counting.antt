-- ===== src/Pool/Counting.antt =====
-- How often a connection occurs in a list, by its identity, and what the lists of a server do to it.
use neo4j_go_driver.Base.{
  ℕ, ◌+◌, ◌≤◌, ◌<◌, ◌≡◌, refl, arith, true, false, List, [], ◌∷◌, ◌++◌, nat_beq, length, All,
  if◌then◌else◌, Bool-cases, inl, inr,
}
use neo4j_go_driver.Base.Int.{ℤ}
use neo4j_go_driver.Pool.Server.{Conn, remove_first, split_older, is_older_than}

unfoldable pub occurrences : ℕ → List Conn → ℕ
occurrences i [] = 0
occurrences i (c ∷ cs) = if nat_beq c.id i then occurrences i cs + 1 else occurrences i cs

pub occurrences-append :
    (i : ℕ) (xs ys : List Conn) → occurrences i (xs ++ ys) ≡ occurrences i xs + occurrences i ys
unfolding occurrences
occurrences-append i [] ys = omega arith
occurrences-append i (x ∷ xs) ys = ground (arith, occurrences-append i xs ys)

pub occurrences-remove_first :
    (i : ℕ) (c : Conn) (l : List Conn)
    → 0 < occurrences c.id l
    → occurrences i (remove_first c l) + (if nat_beq c.id i then 1 else 0) ≡ occurrences i l
unfolding occurrences remove_first
occurrences-remove_first i c [] h = absurd (omega arith)
occurrences-remove_first i c (x ∷ xs) h = ground (arith, occurrences-remove_first i c xs)

pub length-remove_first :
    (c : Conn) (l : List Conn) → 0 < occurrences c.id l → length (remove_first c l) + 1 ≡ length l
unfolding occurrences remove_first
length-remove_first c [] h = absurd (omega arith)
length-remove_first c (x ∷ xs) h = ground (arith, length-remove_first c xs)

pub length-remove_first-le : (c : Conn) (l : List Conn) → length (remove_first c l) ≤ length l
unfolding remove_first
length-remove_first-le c [] = omega arith
length-remove_first-le c (x ∷ xs) = ground (arith, length-remove_first-le c xs)

-- Splitting by age keeps the connections, and a property that all of them have.
pub occurrences-split_older :
    (i now : ℕ) (max_age : ℤ) (l : List Conn)
    → occurrences i (split_older now max_age l).0 + occurrences i (split_older now max_age l).1
      ≡ occurrences i l
unfolding occurrences split_older
occurrences-split_older i now max_age [] = refl
occurrences-split_older i now max_age (c ∷ cs) =
    ground (arith, occurrences-split_older i now max_age cs)

pub length-split_older-le :
    (now : ℕ) (max_age : ℤ) (l : List Conn) → length (split_older now max_age l).0 ≤ length l
unfolding split_older
length-split_older-le now max_age [] = omega arith
length-split_older-le now max_age (c ∷ cs) = ground (arith, length-split_older-le now max_age cs)

pub All-split_older :
    (P : Conn → Type 0) (now : ℕ) (max_age : ℤ) (l : List Conn)
    → All P l
    → All P (split_older now max_age l).0
unfolding split_older
All-split_older P now max_age [] h = tt
All-split_older P now max_age (c ∷ cs) h = ground (arith, h.0, All-split_older P now max_age cs h.1)

-- What stays is younger than the bound and what goes is not.
pub split_older-is_older_than :
    (now : ℕ) (max_age : ℤ) (l : List Conn)
    → All (λ c. is_older_than now max_age c ≡ false) (split_older now max_age l).0
      × All (λ c. is_older_than now max_age c ≡ true) (split_older now max_age l).1
unfolding split_older
split_older-is_older_than now max_age [] = (tt, tt)
split_older-is_older_than now max_age (c ∷ cs) =
    let ih = split_older-is_older_than now max_age cs in
    elim (Bool-cases (is_older_than now max_age c)) [
      | inl old ↦ rw old (ih.0, (old, ih.1))
      | inr young ↦ rw young ((young, ih.0), ih.1)
    ]
