-- ===== src/Addschema/Reading.antt =====
-- tools/addschema/main.go: `main` with the reading of the archive and of the schema. A call that
-- fails is a panic, `none`.
use zarf_api.Prelude.{Bool, true, false, Option, none, some, List, [], ◌∷◌, Text}
use zarf_api.Addschema.{Entry, Tools, inject, ◌>>=◌}

-- What `tar.Reader` yields: a header with its contents, or with contents that break off.
pub record TarItem : Type 0 where
  pub entry : Entry
  pub whole : Bool

-- `ends` is whether the items end with `io.EOF` and not with an error
pub record TarStream : Type 0 where
  pub items : List TarItem
  pub ends : Bool

abbrev pub must : {A : Type 0} → Bool → A → Option A
must true a = some a
must false a = none

-- the loop over `tr.Next`
unfoldable pub read_entries : List TarItem → Bool → Option (List Entry)
read_entries [] ends = must ends []
read_entries (item ∷ items) ends = do
  e ← must item.whole item.entry
  rest ← read_entries items ends
  some (e ∷ rest)

-- `source` is none when the package cannot be opened or decoded, `schema` when it cannot be read
unfoldable pub read_and_inject : Tools → Option TarStream → Option Text → Option (List Entry)
unfolding read_entries inject
read_and_inject t source schema = do
  stream ← source
  entries ← read_entries stream.items stream.ends
  s ← schema
  inject t entries s
