-- ===== src/Bookmarks/Updates.antt =====
-- Which bookmarks are known after an update.
use neo4j_go_driver.Base.{
  ◌≡◌, ◌≢◌, refl, arith, inr, not, ◌&&◌, ◌||◌, none, some, [], ◌∷◌, String, name_comparable, false,
  Option, Bool-cases, inl, ◌==◌,
}
use neo4j_go_driver.Bookmarks.Set.{
  contains, contains-add_all, contains-remove_all, values, remove_all, copy,
}
use neo4j_go_driver.Bookmarks.Manager.{
  BookmarkManager, Bookmarks, merged, update_bookmarks, get_bookmarks, SessionBookmarks,
  cleanup_bookmarks, has_bad, cleaned, new_session_bookmarks, replace_bookmarks,
  replace_session_bookmarks, last_bookmark, current_bookmarks,
}

-- After an update with new bookmarks the manager tracks a bookmark if it is new, or if it was
-- tracked and is not a previous one; an update without new bookmarks changes nothing.
pub contains-update_bookmarks :
    (b : String) (previous new : Bookmarks) (m : BookmarkManager)
    → (new ≢ []
        → contains b (update_bookmarks previous new m).1.bookmarks
          ≡ (contains b new || (not (contains b previous) && contains b m.bookmarks)))
      × (new ≡ [] → update_bookmarks previous new m ≡ (none, m))
unfolding update_bookmarks
contains-update_bookmarks b previous [] m = (λ h. absurd (h refl), λ h. refl)
contains-update_bookmarks b previous (n ∷ ns) m = (
  (λ h. ground (
    arith,
    contains-add_all b (n ∷ ns) (remove_all previous m.bookmarks),
    contains-remove_all b previous m.bookmarks,
  )),
  λ h. ground (arith, h),
)

contains-merged :
    (b : String) (bs extra : Bookmarks)
    → contains b (merged bs extra) ≡ (contains b bs || contains b extra)
unfolding contains values copy
contains-merged b [] extra = refl
contains-merged b (c ∷ cs) [] = ground arith
contains-merged b (c ∷ cs) (x ∷ xs) = ground (arith, contains-add_all b (x ∷ xs) (c ∷ cs))

-- GetBookmarks of a manager whose supplier gives bookmarks returns a list that has exactly the
-- tracked bookmarks and the supplied ones.
pub contains-get_bookmarks :
    (m : BookmarkManager) (extra : Bookmarks)
    → m.supply_bookmarks ≡ some (inr extra)
    → (all : Bookmarks) × (get_bookmarks m ≡ inr all)
      × ((b : String) → contains b all ≡ (contains b m.bookmarks || contains b extra))
unfolding get_bookmarks
contains-get_bookmarks m extra supplied =
    (merged m.bookmarks extra, rw supplied refl, λ b. contains-merged b m.bookmarks extra)

-- The second list is the first without its empty bookmarks, in the same order.
pub data IsCleaned : Bookmarks → Bookmarks → Type 0 where
  no_bookmarks : IsCleaned [] []
  left_out : (bs cs : Bookmarks) → IsCleaned bs cs → IsCleaned ("" ∷ bs) cs
  kept : (b : String) (bs cs : Bookmarks) → b ≢ "" → IsCleaned bs cs → IsCleaned (b ∷ bs) (b ∷ cs)

cleaned-IsCleaned : (bs : Bookmarks) → IsCleaned bs (cleaned bs)
unfolding cleaned
cleaned-IsCleaned [] = no_bookmarks
cleaned-IsCleaned (b ∷ bs) = elim (Bool-cases (b == "")) [
  | inl bad ↦
      let e : b ≡ "" = (name_comparable.same_iff b "").0 bad in
      rw bad (rw e (left_out bs (cleaned bs) (cleaned-IsCleaned bs)))
  | inr good ↦ rw good (
      kept b bs (cleaned bs) (λ e. ground (arith, good, (name_comparable.same_iff b "").1 e))
        (cleaned-IsCleaned bs))
]

good-IsCleaned : (bs : Bookmarks) → has_bad bs ≡ false → IsCleaned bs bs
unfolding has_bad
good-IsCleaned [] h = no_bookmarks
good-IsCleaned (b ∷ bs) h =
    kept b bs bs (λ e. ground (arith, h, (name_comparable.same_iff b "").1 e))
      (good-IsCleaned bs (ground (arith, h)))

-- A new session has the manager of its configuration and, in their order, exactly the bookmarks of
-- its configuration that are not empty.
pub new_session_bookmarks-IsCleaned :
    (m : Option BookmarkManager) (bs : Bookmarks)
    → ((new_session_bookmarks m bs).bookmark_manager ≡ m)
      × IsCleaned bs (current_bookmarks (new_session_bookmarks m bs))
unfolding new_session_bookmarks cleanup_bookmarks current_bookmarks
new_session_bookmarks-IsCleaned m bs = elim (Bool-cases (has_bad bs)) [
  | inl bad ↦ rw bad (refl, cleaned-IsCleaned bs)
  | inr good ↦ rw good (refl, good-IsCleaned bs good)
]

-- After a transaction with a bookmark, and a consumer without an error, the session's bookmarks
-- are that bookmark alone, and its last bookmark is it.
pub replace_bookmarks-last_bookmark :
    (previous : Bookmarks) (new : String) (sb : SessionBookmarks)
    → new ≢ ""
    → (replace_bookmarks previous new sb).0 ≡ none
    → ((replace_bookmarks previous new sb).1.bookmarks ≡ new ∷ [])
      × (last_bookmark (replace_bookmarks previous new sb).1 ≡ new)
unfolding replace_bookmarks replace_session_bookmarks last_bookmark current_bookmarks
replace_bookmarks-last_bookmark previous new sb some_new ok =
    ground (arith, some_new, ok, name_comparable.same_iff new "")
