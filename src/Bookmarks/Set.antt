-- ===== src/Bookmarks/Set.antt =====
-- neo4j/internal/collections/set.go: a map to nothing, as a list of its keys without duplicates.
use neo4j_go_driver.Base.{
  ◌≡◌, refl, arith, Bool, false, not, ◌&&◌, ◌||◌, List, [], ◌∷◌, Comparable, ◌==◌, if◌then◌else◌,
}

module _ {κ} {T : Type κ} ⦃e : Comparable T⦄ where
  unfoldable pub contains : T → List T → Bool
  contains v [] = false
  contains v (x ∷ xs) = x == v || contains v xs

  unfoldable pub add : T → List T → List T
  add v set = if contains v set then set else v ∷ set

  unfoldable pub add_all : List T → List T → List T
  add_all [] set = set
  add_all (v ∷ vs) set = add_all vs (add v set)

  unfoldable pub new_set : List T → List T
  new_set vs = add_all vs []

  unfoldable pub remove : T → List T → List T
  remove v [] = []
  remove v (x ∷ xs) = if x == v then remove v xs else x ∷ remove v xs

  unfoldable pub remove_all : List T → List T → List T
  remove_all [] set = set
  remove_all (v ∷ vs) set = remove_all vs (remove v set)

  -- The values in the order of an iteration.
  unfoldable pub values : List T → List T
  values set = set

  unfoldable pub union : List T → List T → List T
  union set other = add_all (values other) set

  unfoldable pub copy : List T → List T
  copy set = set

  pub contains-add : (v w : T) (set : List T) → contains w (add v set) ≡ (v == w || contains w set)
  unfolding add contains
  contains-add v w set = ground (arith, e.same_iff v w)

  pub contains-add_all :
      (w : T) (vs set : List T) → contains w (add_all vs set) ≡ (contains w vs || contains w set)
  unfolding add_all contains
  contains-add_all w [] set = refl
  contains-add_all w (v ∷ vs) set =
      ground (arith, contains-add_all w vs (add v set), contains-add v w set)

  pub contains-remove :
      (v w : T) (set : List T) → contains w (remove v set) ≡ (not (v == w) && contains w set)
  unfolding remove contains
  contains-remove v w [] = ground arith
  contains-remove v w (x ∷ xs) =
      ground (arith, e.same_iff v w, e.same_iff x v, e.same_iff x w, contains-remove v w xs)

  pub contains-remove_all :
      (w : T) (vs set : List T)
      → contains w (remove_all vs set) ≡ (not (contains w vs) && contains w set)
  unfolding remove_all contains
  contains-remove_all w [] set = refl
  contains-remove_all w (v ∷ vs) set =
      ground (arith, contains-remove_all w vs (remove v set), contains-remove v w set)
