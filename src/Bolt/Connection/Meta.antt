-- ===== src/Bolt/Connection/Meta.antt =====
-- The maps that neo4j/internal/bolt/bolt5.go sends beside a query, `toMeta` of bolt5.go and `ToMeta`
-- of neo4j/internal/db/connection.go, and the check of notifications.go.
use neo4j_go_driver.Base.{
  ℕ, ◌+◌, ◌/◌, Bool, true, false, not, Option, none, some, List, [], ◌∷◌, ◌&&◌, ◌||◌, ltb, leb,
  if◌then◌else◌,
}
use neo4j_go_driver.Base.Int.{ℤ, pos, negsuc}
use neo4j_go_driver.Bolt.Values.Value.{Text, ascii, text_beq}
use neo4j_go_driver.Bolt.Values.Any.{Any, Entries}

-- `meta[key] = value`
unfoldable pub set_entry : Text → Any → Entries → Entries
set_entry key value Entries.no_entries = Entries.entry key value Entries.no_entries
set_entry key value (Entries.entry name old more) =
    let later = set_entry key value more in
    if text_beq name key then Entries.entry name value more else Entries.entry name old later

unfoldable pub has_entry : Text → Entries → Bool
has_entry key Entries.no_entries = false
has_entry key (Entries.entry name value more) = text_beq name key || has_entry key more

-- `for k, v := range more { if _, exists := m[k]; !exists { m[k] = v } }`
unfoldable pub merge_entries : Entries → Entries → Entries
unfolding has_entry set_entry
merge_entries Entries.no_entries m = m
merge_entries (Entries.entry k v more) m =
    merge_entries more (if has_entry k m then m else set_entry k v m)

-- The severity is empty by default; the categories and classes are those that are disabled, and
-- whether none is to be.
pub record NotificationConfig : Type 0 where
  pub min_sev : Text
  pub dis_cats : List Text
  pub cats_none : Bool
  pub dis_clas : List Text
  pub clas_none : Bool

abbrev pub is_empty : {A : Type 0} → List A → Bool
is_empty [] = true
is_empty (x ∷ xs) = false

-- `if !empty { meta[key] = value }`
abbrev unless_in : Bool → Text → Any → Entries → Entries
unless_in empty key value m = if empty then m else set_entry key value m

module _ (major minor : ℕ) where
  abbrev pub disabled_key : Text
  disabled_key =
      if leb 6 major || (leb 5 major && leb 5 minor)
      then ascii "notifications_disabled_classifications"
      else ascii "notifications_disabled_categories"

  unfoldable pub notifications_to_meta : NotificationConfig → Entries → Entries
  unfolding set_entry
  notifications_to_meta n meta =
      let m =
        unless_in (is_empty n.min_sev) (ascii "notifications_minimum_severity") (Any.text n.min_sev)
          meta in
      if n.cats_none || n.clas_none
      then set_entry disabled_key (Any.strings []) m
      else unless_in (is_empty n.dis_clas) disabled_key (Any.strings n.dis_clas)
          (unless_in (is_empty n.dis_cats) disabled_key (Any.strings n.dis_cats) m)

  -- Whether checkNotificationFiltering lets the configuration pass.
  unfoldable pub notifications_supported : NotificationConfig → Bool
  notifications_supported n =
      (is_empty n.min_sev
        && not n.cats_none
        && is_empty n.dis_cats
        && not n.clas_none
        && is_empty n.dis_clas)
      || not (ltb major 5 || (leb major 5 && ltb minor 2))

-- internalTx5; the timeout is in nanoseconds.
pub record InternalTx : Type 0 where
  pub read_mode : Bool
  pub bookmarks : List Text
  pub timeout : ℤ
  pub tx_meta : Entries
  pub database_name : Text
  pub impersonated_user : Text
  pub notification_config : NotificationConfig

abbrev pub no_entry : Entries → Bool
no_entry Entries.no_entries = true
no_entry (Entries.entry k v m) = false

-- Go divides towards zero: a negative timeout gives no whole millisecond above zero, and a fraction
-- of a millisecond counts as one.
abbrev pub timeout_millis : ℤ → ℕ
timeout_millis (pos n) = (n + 999999) / 1000000
timeout_millis (negsuc n) = 0

unfoldable pub to_meta : ℕ → Option InternalTx → Entries
unfolding set_entry notifications_to_meta
to_meta minor none = Entries.no_entries
to_meta minor (some i) =
    let ms = timeout_millis i.timeout in
    let mode =
      unless_in (not i.read_mode) (ascii "mode") (Any.text (ascii "r")) Entries.no_entries in
    let marks =
      unless_in (is_empty i.bookmarks) (ascii "bookmarks") (Any.strings i.bookmarks) mode in
    let timed = unless_in (leb ms 0) (ascii "tx_timeout") (Any.int (pos ms)) marks in
    let said = unless_in (no_entry i.tx_meta) (ascii "tx_metadata") (Any.dict i.tx_meta) timed in
    let named = unless_in (is_empty i.database_name) (ascii "db") (Any.text i.database_name) said in
    let asked =
      unless_in (is_empty i.impersonated_user) (ascii "imp_user") (Any.text i.impersonated_user)
        named in
    notifications_to_meta 5 minor i.notification_config asked
