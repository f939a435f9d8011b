-- ===== src/Pool/Sorting.antt =====
-- A sort by penalty, which shows that one is there as a pass of Borrow relies on.
use neo4j_go_driver.Base.{
  ℕ, ◌≤◌, arith, List, [], ◌∷◌, String, if◌then◌else◌, ltb, All, Bool-cases, inl, inr,
}
use neo4j_go_driver.Pool.BorrowOrder.{IsByPenalty}
use mathlib.Core.List.{Perm}
use mathlib.Core.List.Perm

unfoldable pub insert_by_penalty : String × ℕ → List (String × ℕ) → List (String × ℕ)
insert_by_penalty e [] = e ∷ []
insert_by_penalty e (f ∷ fs) =
    let rest = insert_by_penalty e fs in if ltb f.1 e.1 then f ∷ rest else e ∷ f ∷ fs

unfoldable pub sort_by_penalty : List (String × ℕ) → List (String × ℕ)
sort_by_penalty [] = []
sort_by_penalty (e ∷ es) = insert_by_penalty e (sort_by_penalty es)

insert_by_penalty-All :
    (b : ℕ) (e : String × ℕ) (l : List (String × ℕ))
    → b ≤ e.1
    → All (λ f. b ≤ f.1) l
    → All (λ f. b ≤ f.1) (insert_by_penalty e l)
unfolding insert_by_penalty
insert_by_penalty-All b e [] h k = (h, tt)
insert_by_penalty-All b e (f ∷ fs) h k =
    ground (arith, h, k.0, k.1, insert_by_penalty-All b e fs h k.1)

All-weaken : (a b : ℕ) (l : List (String × ℕ)) → a ≤ b → All (λ f. b ≤ f.1) l → All (λ f. a ≤ f.1) l
All-weaken a b [] h k = tt
All-weaken a b (f ∷ fs) h k = (omega (arith, h, k.0), All-weaken a b fs h k.1)

insert_by_penalty-IsByPenalty :
    (e : String × ℕ) (l : List (String × ℕ)) → IsByPenalty l → IsByPenalty (insert_by_penalty e l)
unfolding insert_by_penalty IsByPenalty
insert_by_penalty-IsByPenalty e [] h = (tt, tt)
insert_by_penalty-IsByPenalty e (f ∷ fs) h = elim (Bool-cases (ltb f.1 e.1)) [
  | inl after ↦
      rw after
        (insert_by_penalty-All f.1 e fs (ground arith) h.0, insert_by_penalty-IsByPenalty e fs h.1)
  | inr before ↦
      let le : e.1 ≤ f.1 = ground arith in rw before ((le, All-weaken e.1 f.1 fs le h.0), h)
]

insert_by_penalty-Perm :
    (e : String × ℕ) (l : List (String × ℕ)) → Perm (insert_by_penalty e l) (e ∷ l)
unfolding insert_by_penalty
insert_by_penalty-Perm e [] = Perm.refl (e ∷ [])
insert_by_penalty-Perm e (f ∷ fs) = elim (Bool-cases (ltb f.1 e.1)) [
  | inl after ↦ rw after (Perm.trans (Perm.cons f (insert_by_penalty-Perm e fs)) (Perm.swap e f fs))
  | inr before ↦ rw before (Perm.refl (e ∷ f ∷ fs))
]

pub sort_by_penalty-IsByPenalty :
    (l : List (String × ℕ)) → IsByPenalty (sort_by_penalty l) × Perm (sort_by_penalty l) l
unfolding sort_by_penalty IsByPenalty
sort_by_penalty-IsByPenalty [] = (tt, Perm.refl [])
sort_by_penalty-IsByPenalty (e ∷ es) =
    let (sorted, perm) = sort_by_penalty-IsByPenalty es in
    (
      insert_by_penalty-IsByPenalty e (sort_by_penalty es) sorted,
      Perm.trans (insert_by_penalty-Perm e (sort_by_penalty es)) (Perm.cons e perm),
    )
