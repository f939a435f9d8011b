-- ===== src/Homedb/Cache.antt =====
-- neo4j/internal/homedb/cache.go. The prune factor, a rounding of floats, and the JSON of a token
-- are parameters. sort.Slice is an insertion sort; times are numbers.
use neo4j_go_driver.Base.{
  ℕ, Bool, false, not, Option, none, some, List, [], ◌∷◌, String, ◌==◌, name_comparable, length,
  take, ltb, leb, if◌then◌else◌,
}
use neo4j_go_driver.Base.Dict.{lookup, insert, delete}
use Prim.Native.String.{◌++◌ as join}

pub record Entry : Type 0 where
  pub database : String
  pub last_used : ℕ

pub record Cache : Type 0 where
  pub max_size : ℕ
  pub prune_factor : ℕ
  pub cache : List (String × Entry)
  pub enabled : Bool

-- A size that is not positive is a usage error.
unfoldable pub new_cache : (prune_factor_of : ℕ → ℕ) → ℕ → Option Cache
new_cache prune_factor_of max_size =
    if leb max_size 0
    then none
    else some (record {
      max_size = max_size;
      prune_factor = prune_factor_of max_size;
      cache = [];
      enabled = false;
    })

unfoldable pub get : (now : ℕ) → String → Cache → Option String × Cache
get now user c = if not c.enabled then (none, c) else elim (lookup user c.cache) [
  | none ↦ (none, c)
  | some e ↦
      (some e.database, record c { cache = insert user (record e { last_used = now }) c.cache })
]

unfoldable pub insert_by_use : String × Entry → List (String × Entry) → List (String × Entry)
insert_by_use e [] = e ∷ []
insert_by_use e (f ∷ fs) =
    let rest = insert_by_use e fs in
    if ltb e.1.last_used f.1.last_used then e ∷ f ∷ fs else f ∷ rest

-- The oldest first.
unfoldable pub sort_by_use : List (String × Entry) → List (String × Entry)
sort_by_use [] = []
sort_by_use (e ∷ es) = insert_by_use e (sort_by_use es)

unfoldable pub delete_each : List (String × Entry) → List (String × Entry) → List (String × Entry)
delete_each [] m = m
delete_each (e ∷ es) m = delete_each es (delete e.0 m)

unfoldable pub prune : Cache → Cache
prune c =
    let entries = sort_by_use c.cache in
    let prune_count =
      if ltb (length entries) c.prune_factor then length entries else c.prune_factor in
    if leb (length c.cache) c.max_size
    then c
    else record c { cache = delete_each (take prune_count entries) c.cache }

unfoldable pub set : (now : ℕ) → String → String → Cache → Cache
set now user database c =
    prune
      (record c { cache = insert user (record { database = database; last_used = now }) c.cache })

unfoldable pub set_enabled : Bool → Cache → Cache
set_enabled b c = record c { enabled = b }

unfoldable pub is_enabled : Cache → Bool
is_enabled c = c.enabled

-- The value of a token's key: a text, or anything else.
pub data TokenValue : Type 0 where
  text : String → TokenValue
  other : ℕ → TokenValue

-- `tokens[key].(string)`
abbrev pub text_at : String → List (String × TokenValue) → Option String
text_at k m = elim (lookup k m) [ none ↦ none | some (text s) ↦ some s | some (other n) ↦ none ]

abbrev pub prefixed : String → Option String → Option String → Option String
prefixed p none otherwise = otherwise
prefixed p (some s) otherwise = some (join p s)

-- `marshal` is the JSON of a scheme and its tokens, `none` if there is none.
unfoldable pub compute_key :
    (marshal : String → List (String × TokenValue) → Option String)
    → (impersonated_user : String) → (session_auth : Option (List (String × TokenValue)))
    → Option String
compute_key marshal impersonated_user session_auth =
    if not (impersonated_user == "")
    then some (join "basic:" impersonated_user)
    else elim session_auth [
      | none ↦ some "DEFAULT"
      | some tokens ↦
          let unknown = marshal "unknown" tokens in
          elim (text_at "scheme" tokens) [
            | none ↦ unknown
            | some scheme ↦
                if scheme == "basic"
                then prefixed "basic:" (text_at "principal" tokens) (some "basic:")
                else if scheme == "kerberos"
                then prefixed "kerberos:" (text_at "credentials" tokens) unknown
                else if scheme == "bearer"
                then prefixed "bearer:" (text_at "credentials" tokens) unknown
                else if scheme == "none"
                then some "none"
                else marshal scheme tokens
          ]
    ]
