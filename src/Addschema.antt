-- ===== src/Addschema.antt =====
-- tools/addschema/main.go: puts a config.schema.json into a package, a list of archive entries. The
-- formats of tar and zstd and the modification times are left out; SHA-256 and yaml.v3 are the
-- parameter `Tools`, with a YAML document as the map of its top-level keys. `none` is a panic.
pub mod Lines
pub mod Reading
pub mod Injected
mod Examples
use zarf_api.Prelude.{
  ℕ, Bool, true, false, Option, none, some, List, [], ◌∷◌, ◌++◌, Text, Map, lit, ◌==◌, nat_eq,
  list_eq, lookup, insert, sort, text_leb, length, if◌then◌else◌,
}

-- `entry`, with what is read or written of its header
pub record Entry : Type 0 where
  pub name : Text
  pub size : ℕ
  pub contents : Text

-- a value of the document: a map, whose values are any, or something else
pub data Yaml : Type 0 where
  table : Map Text Text → Yaml
  plain : Text → Yaml

pub record Tools : Type 0 where
  pub sha256_hex : Text → Text
  pub unmarshal : Text → Option (Map Text Yaml)
  pub marshal : Map Text Yaml → Option Text

infixl 5 ◌>>=◌
abbrev pub ◌>>=◌ {ℓ κ} : {A : Type ℓ} {B : Type κ} → Option A → (A → Option B) → Option B
none >>= f = none
some a >>= f = f a

-- the last entry of that name counts
unfoldable pub checksums_of : List Entry → Text → Text
checksums_of [] found = found
checksums_of (e ∷ entries) found =
    checksums_of entries (if e.name == lit "checksums.txt" then e.contents else found)

abbrev pub attach : ℕ → List Text → List Text
attach c [] = (c ∷ []) ∷ []
attach c (l ∷ lines) = (c ∷ l) ∷ lines

-- `strings.Split` at one byte
unfoldable pub split : ℕ → Text → List Text
split c [] = [] ∷ []
split c (d ∷ s) = let rest = split c s in if d == c then [] ∷ rest else attach d rest

-- `strings.Join`
unfoldable pub join : Text → List Text → Text
join separator [] = []
join separator (l ∷ []) = l
join separator (l ∷ k ∷ lines) = l ++ (separator ++ join separator (k ∷ lines))

-- the loop over the lines
unfoldable pub non_empty : List Text → List Text
non_empty [] = []
non_empty (l ∷ lines) = let rest = non_empty lines in if l == [] then rest else l ∷ rest

unfoldable pub sums_of : Text → List Text
unfolding non_empty split
sums_of checksums = non_empty (split b'\n' checksums)

unfoldable pub schema_line : Tools → Text → Text
schema_line t schema = t.sha256_hex schema ++ lit " config.schema.json"

unfoldable pub new_checksums : Tools → Text → Text → Text
unfolding join sort
new_checksums t checksums schema =
    join (b'\n' ∷ []) (sort text_leb (sums_of checksums ++ schema_line t schema ∷ []))
    ++ (b'\n' ∷ [])

abbrev pub with_checksum : Text → Map Text Yaml → Option Yaml → Option (Map Text Yaml)
with_checksum sum doc (some (table meta)) =
    some (insert (lit "metadata") (table (insert (lit "aggregateChecksum") sum meta)) doc)
with_checksum sum doc (some (plain _)) = none
with_checksum sum doc none = none

-- the contents of `zarf.yaml` with the new aggregate checksum
unfoldable pub update_yaml : Tools → Text → Text → Option Text
update_yaml t sum contents = do
  doc ← t.unmarshal contents
  doc' ← with_checksum sum doc (lookup (lit "metadata") doc)
  t.marshal doc'

abbrev pub filled : Entry → Text → Entry
filled e contents = record e { size = length contents; contents = contents }

unfoldable pub update_entry : Tools → Text → Entry → Option Entry
unfolding update_yaml
update_entry t sum e =
    if e.name == lit "zarf.yaml"
    then (do contents ← update_yaml t sum e.contents; some (filled e contents))
    else some e

unfoldable pub update_entries : Tools → Text → List Entry → Option (List Entry)
unfolding update_entry
update_entries t sum [] = some []
update_entries t sum (e ∷ entries) = do
  e' ← update_entry t sum e
  rest ← update_entries t sum entries
  some (e' ∷ rest)

unfoldable pub write_entry : Text → Entry → Entry
write_entry checksums e = if e.name == lit "checksums.txt" then filled e checksums else e

unfoldable pub write_entries : Text → List Entry → List Entry
unfolding write_entry
write_entries checksums [] = []
write_entries checksums (e ∷ entries) = write_entry checksums e ∷ write_entries checksums entries

abbrev pub schema_entry : Text → Entry
schema_entry schema =
    filled (record { name = lit "config.schema.json"; size = 0; contents = [] }) schema

-- `main`, from the entries and the schema that were read to the entries that are written
unfoldable pub inject : Tools → List Entry → Text → Option (List Entry)
unfolding checksums_of new_checksums update_entries write_entries
inject t entries schema = do
  let checksums : Text = new_checksums t (checksums_of entries []) schema
  entries' ← update_entries t (t.sha256_hex checksums) entries
  some (schema_entry schema ∷ write_entries checksums entries')
