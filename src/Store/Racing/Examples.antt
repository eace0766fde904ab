-- ===== src/Store/Racing/Examples.antt =====
-- Two different uploads of one name, in an empty store.
use zarf_api.Prelude.{
  ℕ, zero, suc, ◌≡◌, refl, true, false, some, [], ◌∷◌, lookup, lit, nat_eq, list_eq, arith,
}
use zarf_api.Regex.{matches, derive, nullable}
use zarf_api.Os.{World, bytes, package_doc, file, ok}
use zarf_api.Os.Paths.{join}
use zarf_api.Store.{Layout, verify_never, valid_id, meta_path}
use zarf_api.Records.{Package}
use zarf_api.Store.Import.{package_of}
use zarf_api.Store.Examples.{store, zarf, body}
use zarf_api.Store.Inventory.{Call, to_get, arrive, accept}
use zarf_api.Store.Inventory.Shelves.{Shelves, arrive-Shelves}
use zarf_api.Store.Inventory.Examples.{blank, nothing, blank-Shelves}
use zarf_api.Store.Racing.{Import, answered, go, begun}
use zarf_api.Store.Racing.Mixed.{go-mixed}

abbrev both : ℕ → Import
both zero = record { reader = body; hint = []; shasum = []; validate = true; verify = verify_never }
both (suc k) = record {
  reader = record { payload = 9 ∷ []; broken = false };
  hint = [];
  shasum = [];
  validate = true;
  verify = verify_never;
}

abbrev layout : Layout
layout = record {
  name = lit "b";
  version = [];
  architecture = [];
  kind = [];
  description = [];
  yolo = false;
  components = [];
  file_name = some (lit "b.tar");
}

-- the answer at a time
abbrev stored : ℕ → Package
stored clock = package_of layout (lit "b.tar") 1 (lit "ab") clock

abbrev instant : Call
instant = record { request = to_get []; clock = 4; random = 1; more = 2 ∷ [] }

abbrev world : World
world = arrive instant blank

world-Shelves : Shelves store zarf world nothing
world-Shelves = arrive-Shelves store zarf blank nothing blank-Shelves instant

go-mixed_example :
    let out = go store zarf both (0 ∷ 1 ∷ 0 ∷ 1 ∷ 1 ∷ 0 ∷ []) (begun world) in
    (out.phase 0 ≡ answered (ok (stored 5)))
    × (out.phase 1 ≡ answered (ok (stored 4)))
    × (lookup (join store.packages_dir (lit "b.tar")) out.world.fs ≡ some (file (bytes (9 ∷ []))))
    × (lookup (meta_path store (lit "b.tar")) out.world.fs ≡ some (file (package_doc (stored 5))))
unfolding accept valid_id matches derive nullable
go-mixed_example =
    go-mixed store zarf both world nothing world-Shelves 1 2 [] refl (omega arith) (lit "b.tar")
      layout layout refl refl refl refl refl
