-- ===== src/Store/Inventory/Examples.antt =====
-- The inventory of an empty store, filled, read and emptied.
use mathlib.Core.List.{Mem}
use mathlib.Core.Option
use zarf_api.Records.{Package}
use zarf_api.Store.Listing.{by_id}
use zarf_api.Store.Inventory.Listing.{list-Shelves}
use zarf_api.Prelude.{
  ◌≡◌, ◌↔◌, IsSorted, refl, true, none, some, List, [], ◌∷◌, lookup, lit, nat_eq, list_eq, ℕ, arith,
}
use zarf_api.Os.{World, dir, ok}
use zarf_api.Store.{verify_never, list}
use zarf_api.Store.Places.{package_places}
use zarf_api.Store.Examples.{store, zarf, body}
use zarf_api.Store.Inventory.{
  Inventory, Item, Call, Request, to_import, to_get, to_delete, to_locate, perform_all, expect_all,
}
use zarf_api.Store.Inventory.Shelves.{Shelves}
use zarf_api.Store.Inventory.Calls.{perform_all-expect_all}

abbrev pub blank : World
blank = record { fs = (lit "p" ∷ [], dir) ∷ []; faults = []; clock = 0; entropy = []; temps = [] }

abbrev pub nothing : Inventory
nothing id = none

pub blank-Shelves : Shelves store zarf blank nothing
unfolding lookup
blank-Shelves = record {
  quiet = refl;
  rooted = refl;
  named = λ id i. refl;
  kept = λ id v. let place = package_places store id id v v in (rw place.0 refl, rw place.1 refl);
  only = λ p pkg e. ground (arith, e);
  clean = λ r. refl;
}

abbrev at : ℕ → Request → Call
at n q = record { request = q; clock = n; random = n; more = [] }

-- a package is imported, imported once more, read, deleted and looked up
abbrev calls : List Call
calls =
    at 1 (to_import body [] [] true verify_never)
    ∷ at 2 (to_import body [] [] true verify_never)
    ∷ at 3 (to_get (lit "b.tar"))
    ∷ at 4 (to_delete (lit "b.tar"))
    ∷ at 5 (to_locate (lit "b.tar"))
    ∷ []

perform_all-expect_all_example :
    let out = perform_all store zarf calls blank in
    let want = expect_all store zarf calls nothing in
    (out.0 ≡ want.0) × Shelves store zarf out.1 want.1
perform_all-expect_all_example = perform_all-expect_all store zarf calls blank nothing blank-Shelves

-- what is left of the inventory once a package has been imported
abbrev one : List Call
one = at 1 (to_import body [] [] true verify_never) ∷ []

one-Shelves :
    Shelves store zarf (perform_all store zarf one blank).1 (expect_all store zarf one nothing).1
one-Shelves = (perform_all-expect_all store zarf one blank nothing blank-Shelves).1

list-Shelves_example :
    let w = (perform_all store zarf one blank).1 in
    (out : List Package) × (list store w ≡ (ok out, w))
    × IsSorted by_id out
    × ((pkg : Package)
        → Mem pkg out ↔ (
            Option.map (λ (i : Item). i.doc) ((expect_all store zarf one nothing).1 pkg.id)
            ≡ some pkg))
list-Shelves_example =
    list-Shelves store zarf (perform_all store zarf one blank).1
      (expect_all store zarf one nothing).1 one-Shelves
