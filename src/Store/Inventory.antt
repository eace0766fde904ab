-- ===== src/Store/Inventory.antt =====
-- internal/store/store.go: what the store promises. An inventory says which package is stored under
-- which id; `expect` is what a call answers of it and what it makes of it, with no disk, no temporary
-- file and no sidecar. `perform` is the same call of the store itself.
pub mod Accepting
pub mod Shelves
pub mod Imports
pub mod Calls
pub mod Listing
pub mod Examples
use zarf_api.Prelude.{
  ℕ, Bool, true, false, not, ◌||◌, Option, none, some, List, [], ◌∷◌, Text, ◌==◌, nat_eq, list_eq,
  length, lit, has_suffix, if◌then◌else◌,
}
use zarf_api.Records.{
  Package, Error, exists, not_found, io, sha256_mismatch, validation_failed, no_canonical_name,
  no_file_name, invalid_file_name, invalid_root_name, zstd_failed,
}
use zarf_api.Os.{FilePath, World, Content, bytes, Result, ok, err}
use zarf_api.Os.Paths.{join}
use zarf_api.Os.Files.{Reader}
use zarf_api.Store.{Store, Zarf, Verification, Layout, valid_id, get, path, delete}
use zarf_api.Store.Import.{
  equal_fold, no_layout, package_of, import_reader, read_package_root_file, is_root_name,
  decompressed, find_entry,
}

-- a stored package: its bytes, and what is known of it
pub record Item : Type 0 where
  pub payload : Text
  pub doc : Package

abbrev pub Inventory : Type 0
Inventory = Text → Option Item

abbrev pub put : Text → Option Item → Inventory → Inventory
put name item inv id = if name == id then item else inv id

pub data Request : Type 0 where
  to_import : Reader → Text → Text → Bool → Verification → Request
  to_get to_locate to_delete : Text → Request
  to_read : Text → Text → Request

pub data Reply : Type 0 where
  described : Result Package → Reply
  located : Result FilePath → Reply
  deleted : Result (Unit {0}) → Reply
  extracted : Result Text → Reply

-- A request, with the time and the random numbers that it meets, one at least.
pub record Call : Type 0 where
  pub request : Request
  pub clock : ℕ
  pub random : ℕ
  pub more : List ℕ

abbrev pub arrive : Call → World → World
arrive c w = record w { clock = c.clock; temps = c.random ∷ c.more }

unfoldable pub perform : Store → Zarf → Request → World → Reply × World
perform s zarf (to_import r hint shasum validate verify) w =
    let (a, w') = import_reader s zarf r hint shasum validate verify w in (described a, w')
perform s zarf (to_get id) w = let (a, w') = get s id w in (described a, w')
perform s zarf (to_locate id) w = let (a, w') = path s id w in (located a, w')
perform s zarf (to_delete id) w = let (a, w') = delete s id w in (deleted a, w')
perform s zarf (to_read id name) w =
    let (a, w') = read_package_root_file s zarf id name w in (extracted a, w')

unfoldable pub perform_all : Store → Zarf → List Call → World → List Reply × World
perform_all s zarf [] w = ([], w)
perform_all s zarf (c ∷ cs) w =
    let (a, w') = perform s zarf c.request (arrive c w) in
    let (rest, w'') = perform_all s zarf cs w' in (a ∷ rest, w'')

-- What an upload is taken for: its metadata and its file name, if it is accepted at all.
abbrev pub only_if : {A : Type 0} → Bool → Error → Result A → Result A
only_if true e r = r
only_if false e r = err e

abbrev pub titled : Layout → Option Text → Result (Layout × Text)
titled l none = err no_canonical_name
titled l (some name) = ok (l, name)

abbrev pub examined : Option Layout → Result (Layout × Text)
examined none = err validation_failed
examined (some l) = titled l l.file_name

abbrev pub read_as : Zarf → Text → Text → Bool → Verification → Result (Layout × Text)
read_as zarf payload hint true verify = examined (zarf.load_from_tar (bytes payload) verify)
read_as zarf payload hint false verify = ok (no_layout, hint)

abbrev pub well_named : Result (Layout × Text) → Result (Layout × Text)
well_named (err e) = err e
well_named (ok (meta, name)) =
    only_if (not (name == [])) no_file_name
      (only_if (valid_id name) (invalid_file_name name) (ok (meta, name)))

unfoldable pub accept : Zarf → Text → Text → Text → Bool → Verification → Result (Layout × Text)
accept zarf payload hint shasum validate verify =
    only_if (shasum == [] || equal_fold shasum (zarf.sha256_hex payload))
      (sha256_mismatch shasum (zarf.sha256_hex payload))
      (well_named (read_as zarf payload hint validate verify))

-- An accepted upload is stored if its name is free.
abbrev pub shelve : Text → Item → Option Item → Inventory → Reply × Inventory
shelve name item (some _) inv = (described (err (exists name)), inv)
shelve name item none inv = (described (ok item.doc), put name (some item) inv)

abbrev pub admit : Zarf → Text → ℕ → Result (Layout × Text) → Inventory → Reply × Inventory
admit zarf payload clock (err e) inv = (described (err e), inv)
admit zarf payload clock (ok (meta, name)) inv =
    shelve name
      (record {
        payload = payload;
        doc = package_of meta name (length payload) (zarf.sha256_hex payload) clock;
      })
      (inv name) inv

abbrev pub wanted : {A : Type 0} → Text → (Item → Result A) → Option Item → Result A
wanted id f none = err (not_found id)
wanted id f (some item) = f item

abbrev pub discard : Text → Option Item → Inventory → Reply × Inventory
discard id none inv = (deleted (err (not_found id)), inv)
discard id (some item) inv = (deleted (ok tt), put id none inv)

-- a file at the root of the package
abbrev pub searched : Zarf → Text → Text → Option Content → Result Text
searched zarf name id none = err zstd_failed
searched zarf name id (some c) = find_entry name id (zarf.tar_read c).entries (zarf.tar_read c).ends

abbrev pub found_in : Zarf → Text → Text → Item → Result Text
found_in zarf id name item =
    searched zarf name id (decompressed (has_suffix id (lit ".zst")) zarf (bytes item.payload))

abbrev pub received : Zarf → Reader → ℕ → Result (Layout × Text) → Inventory → Reply × Inventory
received zarf r clock accepted inv =
    if r.broken then (described (err io), inv) else admit zarf r.payload clock accepted inv

unfoldable pub expect : Store → Zarf → Request → ℕ → Inventory → Reply × Inventory
unfolding accept find_entry
expect s zarf (to_import r hint shasum validate verify) clock inv =
    received zarf r clock (accept zarf r.payload hint shasum validate verify) inv
expect s zarf (to_get id) clock inv = (described (wanted id (λ i. ok i.doc) (inv id)), inv)
expect s zarf (to_locate id) clock inv =
    (located (wanted id (λ i. ok (join s.packages_dir id)) (inv id)), inv)
expect s zarf (to_delete id) clock inv = discard id (inv id) inv
expect s zarf (to_read id name) clock inv = (
  extracted (
      only_if (is_root_name name) (invalid_root_name name)
        (wanted id (found_in zarf id name) (inv id))),
  inv,
)

unfoldable pub expect_all : Store → Zarf → List Call → Inventory → List Reply × Inventory
expect_all s zarf [] inv = ([], inv)
expect_all s zarf (c ∷ cs) inv =
    let (a, inv') = expect s zarf c.request c.clock inv in
    let (rest, inv'') = expect_all s zarf cs inv' in (a ∷ rest, inv'')
