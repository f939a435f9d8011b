-- ===== src/Homedb/Tests.antt =====
-- Runs of the cache, and its theorems at concrete inputs.
use neo4j_go_driver.Base.{◌≤◌, ◌≡◌, refl, arith, true, none, some, [], ◌∷◌, length}
use neo4j_go_driver.Homedb.Cache.{Cache, get, set, compute_key, text}
use neo4j_go_driver.Base.Dict.{lookup}
use neo4j_go_driver.Homedb.Size.{set-size, get-set}

abbrev small : Cache
small = record {
  max_size = 2;
  prune_factor = 1;
  cache =
      ("ann", record { database = "movies"; last_used = 4 })
      ∷ ("bob", record { database = "people"; last_used = 3 })
      ∷ [];
  enabled = true;
}

abbrev roomy : Cache
roomy = record small { max_size = 5 }

key_run :
    compute_key (λ s m. none) "" (some (("scheme", text "basic") ∷ ("principal", text "ann") ∷ []))
    ≡ some "basic:ann"
unfolding compute_key lookup
key_run = refl

set-size_example : length (set 9 "eve" "other" small).cache ≤ 2
set-size_example = set-size 9 "eve" "other" small (omega arith) (omega arith)

get-set_example : (get 10 "eve" (set 9 "eve" "other" roomy)).0 ≡ some "other"
get-set_example = get-set 9 10 "eve" "eve" "other" roomy refl (omega arith)
