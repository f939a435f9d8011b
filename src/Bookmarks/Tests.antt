-- ===== src/Bookmarks/Tests.antt =====
-- The theorems on bookmarks at concrete inputs.
use neo4j_go_driver.Base.{
  ◌≡◌, ◌≢◌, refl, arith, inr, not, ◌&&◌, ◌||◌, none, some, [], ◌∷◌, String, name_comparable,
}
use neo4j_go_driver.Bookmarks.Set.{contains}
use neo4j_go_driver.Bookmarks.Manager.{
  BookmarkManager, Bookmarks, update_bookmarks, get_bookmarks, SessionBookmarks,
  new_session_bookmarks, current_bookmarks, replace_bookmarks, last_bookmark,
}
use neo4j_go_driver.Bookmarks.Updates.{
  contains-update_bookmarks, contains-get_bookmarks, IsCleaned, new_session_bookmarks-IsCleaned,
  replace_bookmarks-last_bookmark,
}

abbrev manager : BookmarkManager
manager = record {
  bookmarks = "b1" ∷ "b2" ∷ [];
  consume_bookmarks = none;
  supply_bookmarks = some (inr ("b9" ∷ []));
}

abbrev session : SessionBookmarks
session = record { bookmark_manager = some manager; bookmarks = "b1" ∷ [] }

abbrev older : Bookmarks
older = "b1" ∷ []

abbrev newer : Bookmarks
newer = "b3" ∷ []

contains-update_bookmarks_example :
    (newer ≢ []
      → contains "b2" (update_bookmarks older newer manager).1.bookmarks
        ≡ (contains "b2" newer || (not (contains "b2" older) && contains "b2" manager.bookmarks)))
    × (newer ≡ [] → update_bookmarks older newer manager ≡ (none, manager))
contains-update_bookmarks_example = contains-update_bookmarks "b2" older newer manager

contains-get_bookmarks_example :
    (all : Bookmarks) × (get_bookmarks manager ≡ inr all)
    × ((b : String) → contains b all ≡ (contains b manager.bookmarks || contains b ("b9" ∷ [])))
contains-get_bookmarks_example = contains-get_bookmarks manager ("b9" ∷ []) refl

new_session_bookmarks-IsCleaned_example :
    ((new_session_bookmarks (some manager) ("" ∷ "b1" ∷ [])).bookmark_manager ≡ some manager)
    × IsCleaned
        ("" ∷ "b1" ∷ [])
        (current_bookmarks (new_session_bookmarks (some manager) ("" ∷ "b1" ∷ [])))
new_session_bookmarks-IsCleaned_example =
    new_session_bookmarks-IsCleaned (some manager) ("" ∷ "b1" ∷ [])

replace_bookmarks-last_bookmark_example :
    ((replace_bookmarks ("b1" ∷ []) "b3" session).1.bookmarks ≡ "b3" ∷ [])
    × (last_bookmark (replace_bookmarks ("b1" ∷ []) "b3" session).1 ≡ "b3")
unfolding replace_bookmarks update_bookmarks
replace_bookmarks-last_bookmark_example =
    replace_bookmarks-last_bookmark ("b1" ∷ []) "b3" session
      (ground (arith, name_comparable.same_iff "b3" "")) refl
