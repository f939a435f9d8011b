-- ===== src/Bolt/Values/Dicts.antt =====
-- Entries that the hydrator sets one after another in a map, each under a new key.
use neo4j_go_driver.Base.{◌≡◌, refl, ap, false}
use neo4j_go_driver.Bolt.Values.Value.{Value, Fields, Text, text_beq, set_field}
use neo4j_go_driver.Bolt.Values.Any.{Entries}
use neo4j_go_driver.Bolt.Values.Format.{IsAbsent}

unfoldable pub append_fields : Fields → Fields → Fields
append_fields Fields.end_fields gs = gs
append_fields (Fields.field k v fs) gs = Fields.field k v (append_fields fs gs)

pub append_none : (fs : Fields) → append_fields fs Fields.end_fields ≡ fs
unfolding append_fields
append_none Fields.end_fields = refl
append_none (Fields.field k v fs) = ap (Fields.field k v) (append_none fs)

pub append_fields_assoc :
    (fs gs hs : Fields)
    → append_fields (append_fields fs gs) hs ≡ append_fields fs (append_fields gs hs)
unfolding append_fields
append_fields_assoc Fields.end_fields gs hs = refl
append_fields_assoc (Fields.field k v fs) gs hs =
    ap (Fields.field k v) (append_fields_assoc fs gs hs)

-- No field has this key.
unfoldable pub Misses : Text → Fields → Type 0
Misses k Fields.end_fields = Unit
Misses k (Fields.field j v fs) = (text_beq j k ≡ false) × Misses k fs

pub set_field-Misses :
    (k : Text) (v : Value) (fs : Fields)
    → Misses k fs
    → set_field k v fs ≡ append_fields fs (Fields.field k v Fields.end_fields)
unfolding set_field append_fields Misses
set_field-Misses k v Fields.end_fields m = refl
set_field-Misses k v (Fields.field j w fs) (e, m) =
    rw e (ap (Fields.field j w) (set_field-Misses k v fs m))

-- The keys of `m` are not in `fs`.
unfoldable pub AreNew : Entries → Fields → Type 0
AreNew Entries.no_entries fs = Unit
AreNew (Entries.entry k x m) fs = Misses k fs × AreNew m fs

append-Misses :
    (j k : Text) (v : Value) (fs : Fields)
    → Misses j fs
    → text_beq k j ≡ false
    → Misses j (append_fields fs (Fields.field k v Fields.end_fields))
unfolding append_fields Misses
append-Misses j k v Fields.end_fields m e = (e, tt)
append-Misses j k v (Fields.field i w fs) (f, m) e = (f, append-Misses j k v fs m e)

-- One more key that is not among the entries leaves their keys new.
pub append-AreNew :
    (k : Text) (v : Value) (m : Entries) (fs : Fields)
    → AreNew m fs
    → IsAbsent k m
    → AreNew m (append_fields fs (Fields.field k v Fields.end_fields))
unfolding AreNew IsAbsent
append-AreNew k v Entries.no_entries fs a b = tt
append-AreNew k v (Entries.entry j x m) fs (miss, a) (e, b) =
    (append-Misses j k v fs miss e, append-AreNew k v m fs a b)

pub AreNew-empty : (m : Entries) → AreNew m Fields.end_fields
unfolding AreNew Misses
AreNew-empty Entries.no_entries = tt
AreNew-empty (Entries.entry k x m) = (tt, AreNew-empty m)
