-- ===== src/Bookmarks/Manager.antt =====
-- neo4j/bookmarks.go and neo4j/session_bookmarks.go. A consumer or a supplier is what it answers:
-- its error, or its bookmarks. What a consumer is told is part of the result. A manager that is
-- absent is `none`.
use neo4j_go_driver.Base.{
  ℕ, Bool, true, false, Option, none, some, List, [], ◌∷◌, ◌++◌, String, ◌==◌, name_comparable,
  last?, ◌⊎◌, inl, inr, if◌then◌else◌,
}
use neo4j_go_driver.Bookmarks.Set.{add_all, remove_all, values, copy, new_set}

abbrev pub Bookmarks : Type 0
Bookmarks = List String

pub record BookmarkManager : Type 0 where
  pub bookmarks : List String
  -- The error that the consumer returns, if there is a consumer.
  pub consume_bookmarks : Option (Bookmarks → Option ℕ)
  -- The bookmarks or the error that the supplier returns, if there is a supplier.
  pub supply_bookmarks : Option (ℕ ⊎ Bookmarks)

unfoldable pub new_bookmark_manager :
    Bookmarks → Option (Bookmarks → Option ℕ) → Option (ℕ ⊎ Bookmarks) → BookmarkManager
new_bookmark_manager initial consumer supplier = record {
  bookmarks = new_set initial;
  consume_bookmarks = consumer;
  supply_bookmarks = supplier;
}

abbrev notified : Option (Bookmarks → Option ℕ) → Bookmarks → Option ℕ
notified none bs = none
notified (some consume) bs = consume bs

abbrev is_empty {ℓ} : {A : Type ℓ} → List A → Bool
is_empty [] = true
is_empty (x ∷ xs) = false

-- The error, and the manager.
unfoldable pub update_bookmarks :
    (previous new : Bookmarks) → BookmarkManager → Option ℕ × BookmarkManager
update_bookmarks previous new m =
    let updated = add_all new (remove_all previous m.bookmarks) in
    if is_empty new
    then (none, m)
    else (notified m.consume_bookmarks (values updated), record m { bookmarks = updated })

-- A nil slice is the empty list.
abbrev pub merged : List String → Bookmarks → Bookmarks
merged [] extra = extra
merged (b ∷ bs) [] = values (b ∷ bs)
merged (b ∷ bs) (x ∷ xs) = values (add_all (x ∷ xs) (copy (b ∷ bs)))

unfoldable pub get_bookmarks : BookmarkManager → ℕ ⊎ Bookmarks
get_bookmarks m = elim m.supply_bookmarks [
  | none ↦ inr (merged m.bookmarks [])
  | some (inl e) ↦ inl e
  | some (inr extra) ↦ inr (merged m.bookmarks extra)
]

unfoldable pub combine_bookmarks : List Bookmarks → Bookmarks
combine_bookmarks [] = []
combine_bookmarks (b ∷ bs) = b ++ combine_bookmarks bs

pub record SessionBookmarks : Type 0 where
  pub bookmark_manager : Option BookmarkManager
  pub bookmarks : Bookmarks

unfoldable pub has_bad : Bookmarks → Bool
has_bad [] = false
has_bad (b ∷ bs) = elim (b == "") [ true ↦ true | false ↦ has_bad bs ]

unfoldable pub cleaned : Bookmarks → Bookmarks
cleaned [] = []
cleaned (b ∷ bs) = if b == "" then cleaned bs else b ∷ cleaned bs

-- The list itself, if no bookmark of it is empty.
unfoldable pub cleanup_bookmarks : Bookmarks → Bookmarks
cleanup_bookmarks bs = if has_bad bs then cleaned bs else bs

unfoldable pub new_session_bookmarks : Option BookmarkManager → Bookmarks → SessionBookmarks
new_session_bookmarks m bs = record { bookmark_manager = m; bookmarks = cleanup_bookmarks bs }

unfoldable pub current_bookmarks : SessionBookmarks → Bookmarks
current_bookmarks sb = sb.bookmarks

unfoldable pub last_bookmark : SessionBookmarks → String
last_bookmark sb = elim (last? (current_bookmarks sb)) [ none ↦ "" | some b ↦ b ]

unfoldable pub replace_session_bookmarks : String → SessionBookmarks → SessionBookmarks
replace_session_bookmarks b sb = if b == "" then sb else record sb { bookmarks = b ∷ [] }

abbrev pub replaced :
    String → SessionBookmarks → Option ℕ × BookmarkManager → Option ℕ × SessionBookmarks
replaced b sb (some e, m) = (some e, record sb { bookmark_manager = some m })
replaced b sb (none, m) =
    (none, replace_session_bookmarks b (record sb { bookmark_manager = some m }))

unfoldable pub replace_bookmarks :
    (previous : Bookmarks) (new : String) → SessionBookmarks → Option ℕ × SessionBookmarks
replace_bookmarks previous new sb = if new == "" then (none, sb) else elim sb.bookmark_manager [
  | none ↦ (none, replace_session_bookmarks new sb)
  | some m ↦ replaced new sb (update_bookmarks previous (new ∷ []) m)
]

-- Without a manager there are none.
unfoldable pub manager_bookmarks : SessionBookmarks → ℕ ⊎ Bookmarks
manager_bookmarks sb = elim sb.bookmark_manager [ none ↦ inr [] | some m ↦ get_bookmarks m ]
