-- ===== src/Addschema/Examples.antt =====
-- A package of three entries that gets a schema.
use mathlib.Core.List.{Perm}
use zarf_api.Prelude.{
  ◌≡◌, refl, some, List, [], ◌∷◌, ◌++◌, Text, lit, lookup, insert, nat_eq, list_eq, text_leb,
  IsSorted,
}
use zarf_api.Addschema.{
  Entry, table, plain, Tools, filled, schema_entry, sums_of, schema_line, checksums_of,
  new_checksums, update_yaml, update_entry, update_entries, write_entry, write_entries, inject,
}
use zarf_api.Addschema.Lines.{sums_of-new_checksums}
use zarf_api.Addschema.Injected.{AllCarried, inject_lem}

abbrev tools : Tools
tools = record {
  sha256_hex = λ s. lit "5c";
  unmarshal =
      λ s. some ((lit "kind", plain (lit "ZarfPackageConfig")) ∷ (lit "metadata", table []) ∷ []);
  marshal = λ doc. some (lit "metadata: {}");
}

abbrev sums : Text
sums = lit "a1 z.tar" ++ b'\n' ∷ (lit "77 b.tar" ++ b'\n' ∷ [])

abbrev entries : List Entry
entries =
    record { name = lit "checksums.txt"; size = 18; contents = sums }
    ∷ record { name = lit "zarf.yaml"; size = 1; contents = lit "-" }
    ∷ record { name = lit "z.tar"; size = 1; contents = lit "z" }
    ∷ []

sums_of-new_checksums_example :
    let lines = sums_of (new_checksums tools sums (lit "{}")) in
    Perm lines (schema_line tools (lit "{}") ∷ sums_of sums) × IsSorted text_leb lines
sums_of-new_checksums_example = sums_of-new_checksums tools sums (lit "{}") refl

abbrev written : List Entry
written =
    filled (record { name = lit "checksums.txt"; size = 18; contents = sums })
      (new_checksums tools sums (lit "{}"))
    ∷ record { name = lit "zarf.yaml"; size = 12; contents = lit "metadata: {}" }
    ∷ record { name = lit "z.tar"; size = 1; contents = lit "z" }
    ∷ []

injects : inject tools entries (lit "{}") ≡ some (schema_entry (lit "{}") ∷ written)
unfolding inject checksums_of update_entries update_entry update_yaml write_entries write_entry
    lookup insert
injects = refl

inject_lem_example :
    (rest : List Entry) × (schema_entry (lit "{}") ∷ written ≡ schema_entry (lit "{}") ∷ rest)
    × AllCarried tools (new_checksums tools (checksums_of entries []) (lit "{}")) entries rest
inject_lem_example = inject_lem tools entries (lit "{}") (schema_entry (lit "{}") ∷ written) injects
