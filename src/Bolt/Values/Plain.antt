-- ===== src/Bolt/Values/Plain.antt =====
-- The packer's forms for lists and maps of one type write what the general form writes.
use neo4j_go_driver.Base.{suc, ◌≡◌, refl, sym, ap, ◌∙◌, List, [], ◌∷◌, arith, length}
use neo4j_go_driver.Packstream.Packer
use neo4j_go_driver.Packstream.Packer.{Packer, pack_each}
use neo4j_go_driver.Bolt.Values.Value.{Text}
use neo4j_go_driver.Bolt.Values.Times.{Zones}
use neo4j_go_driver.Bolt.Values.Any.{Any, Anys, Entries, count_anys, count_entries}
use neo4j_go_driver.Bolt.Values.Pack.{Outgoing, packs, pack_x, pack_all, pack_entries}
use neo4j_go_driver.Bolt.Values.Format.{each, each_entry, plain, plain_all, plain_entries}

count_each {ℓ} : {A : Type ℓ} (f : A → Any) (xs : List A) → count_anys (each f xs) ≡ length xs
unfolding count_anys each
count_each f [] = refl
count_each f (x ∷ xs) = omega (arith, count_each f xs)

count_each_entry {ℓ} :
    {A : Type ℓ} (f : A → Any) (m : List (Text × A)) → count_entries (each_entry f m) ≡ length m
unfolding count_entries each_entry
count_each_entry f [] = refl
count_each_entry f ((k, x) ∷ m) = omega (arith, count_each_entry f m)

mutual
  unfolding plain count_anys count_entries

  count_plain_all : (xs : Anys) → count_anys (plain_all xs) ≡ count_anys xs
  count_plain_all Anys.none_left = refl
  count_plain_all (Anys.also x xs) = ap suc (count_plain_all xs)

  count_plain_entries : (m : Entries) → count_entries (plain_entries m) ≡ count_entries m
  count_plain_entries Entries.no_entries = refl
  count_plain_entries (Entries.entry k x m) = ap suc (count_plain_entries m)

module _ (zones : Zones) where
  -- One element after another, where the element's form is that of its method.
  pack_all-each {ℓ} :
      {A : Type ℓ} (f : A → Any) (g : A → Packer → Packer)
      → ((x : A) (o : Outgoing) → pack_x zones (f x) o ≡ packs (g x) o)
      → (xs : List A) (o : Outgoing) → pack_all zones (each f xs) o ≡ packs (pack_each g xs) o
  unfolding pack_x each pack_each
  pack_all-each f g e [] o = refl
  pack_all-each f g e (x ∷ xs) o =
      ap (pack_all zones (each f xs)) (e x o) ∙ pack_all-each f g e xs (packs (g x) o)

  pack_entries-each {ℓ} :
      {A : Type ℓ} (f : A → Any) (g : A → Packer → Packer)
      → ((x : A) (o : Outgoing) → pack_x zones (f x) o ≡ packs (g x) o)
      → (m : List (Text × A)) (o : Outgoing)
      → pack_entries zones (each_entry f m) o ≡ packs (pack_each (Packer.entry g) m) o
  unfolding pack_x each_entry pack_each Packer.entry
  pack_entries-each f g e [] o = refl
  pack_entries-each f g e ((k, x) ∷ m) o =
      ap (pack_entries zones (each_entry f m)) (e x (packs (Packer.string k) o))
      ∙ pack_entries-each f g e m (packs (Packer.entry g (k, x)) o)

  list-plain {ℓ} :
      {A : Type ℓ} (f : A → Any) (g : A → Packer → Packer) (xs : List A) (o : Outgoing)
      → ((x : A) (o : Outgoing) → pack_x zones (f x) o ≡ packs (g x) o)
      → packs (λ p. pack_each g xs (Packer.array_header (length xs) p)) o
        ≡ pack_x zones (Any.slice (each f xs)) o
  unfolding pack_x
  list-plain f g xs o e =
      sym (pack_all-each f g e xs (packs (Packer.array_header (length xs)) o))
      ∙ ap (λ n. pack_all zones (each f xs) (packs (Packer.array_header n) o))
          (sym (count_each f xs))

  map-plain {ℓ} :
      {A : Type ℓ} (f : A → Any) (g : A → Packer → Packer) (m : List (Text × A)) (o : Outgoing)
      → ((x : A) (o : Outgoing) → pack_x zones (f x) o ≡ packs (g x) o)
      → packs (λ p. pack_each (Packer.entry g) m (Packer.map_header (length m) p)) o
        ≡ pack_x zones (Any.dict (each_entry f m)) o
  unfolding pack_x
  map-plain f g m o e =
      sym (pack_entries-each f g e m (packs (Packer.map_header (length m)) o))
      ∙ ap (λ n. pack_entries zones (each_entry f m) (packs (Packer.map_header n) o))
          (sym (count_each_entry f m))

  mutual
    unfolding pack_x plain Packer.ints Packer.int64s Packer.strings Packer.float64s Packer.bytes_map
        Packer.int_map Packer.int64_map Packer.string_map Packer.float64_map Packer.array_header
        Packer.map_header Packer.int Packer.uint32

    each-plain : (x : Any) (o : Outgoing) → pack_x zones x o ≡ pack_x zones (plain x) o
    each-plain (Any.ints xs) o = list-plain Any.int Packer.int xs o (λ i p. refl)
    each-plain (Any.int64s xs) o = list-plain Any.int Packer.int64 xs o (λ i p. refl)
    each-plain (Any.strings xs) o = list-plain Any.text Packer.string xs o (λ i p. refl)
    each-plain (Any.float64s xs) o = list-plain Any.float Packer.float64 xs o (λ i p. refl)
    each-plain (Any.bytes_map m) o = map-plain Any.bytes Packer.bytes m o (λ i p. refl)
    each-plain (Any.int_map m) o = map-plain Any.int Packer.int m o (λ i p. refl)
    each-plain (Any.int64_map m) o = map-plain Any.int Packer.int64 m o (λ i p. refl)
    each-plain (Any.string_map m) o = map-plain Any.text Packer.string m o (λ i p. refl)
    each-plain (Any.float64_map m) o = map-plain Any.float Packer.float64 m o (λ i p. refl)
    each-plain (Any.slice xs) o =
        rw (count_plain_all xs) (pack_all-plain xs (packs (Packer.array_header (count_anys xs)) o))
    each-plain (Any.dict m) o =
        rw (count_plain_entries m)
          (pack_entries-plain m (packs (Packer.map_header (count_entries m)) o))
    each-plain (Any.struct m) o =
        rw (count_plain_entries m)
          (pack_entries-plain m (packs (Packer.map_header (count_entries m)) o))
    each-plain x o = refl

    pack_all-plain :
        (xs : Anys) (o : Outgoing) → pack_all zones xs o ≡ pack_all zones (plain_all xs) o
    pack_all-plain Anys.none_left o = refl
    pack_all-plain (Anys.also x xs) o =
        pack_all-plain xs (pack_x zones x o) ∙ ap (pack_all zones (plain_all xs)) (each-plain x o)

    pack_entries-plain :
        (m : Entries) (o : Outgoing)
        → pack_entries zones m o ≡ pack_entries zones (plain_entries m) o
    pack_entries-plain Entries.no_entries o = refl
    pack_entries-plain (Entries.entry k x m) o =
        pack_entries-plain m (pack_x zones x (packs (Packer.string k) o))
        ∙ ap (pack_entries zones (plain_entries m)) (each-plain x (packs (Packer.string k) o))

  -- Whatever is packed, the methods for []int, map[string]string and their like, and the one for a
  -- struct of the user's, leave the packer, and what is told of errors, as if each element, entry or
  -- field had been packed by itself, on every level.
  pub pack_x-plain : (x : Any) (o : Outgoing) → pack_x zones x o ≡ pack_x zones (plain x) o
  pack_x-plain = each-plain
