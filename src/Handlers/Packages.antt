-- ===== src/Handlers/Packages.antt =====
-- internal/server/handlers/packages.go: the handlers of the package store.
use zarf_api.Prelude.{Text, lit, true, false}
use zarf_api.Records.{is_not_found}
use zarf_api.Os.{Result, ok, err, World}
use zarf_api.Os.Files.{Reader}
use zarf_api.Store.{Store, Zarf, list, get, delete}
use zarf_api.Store.Import.{import_reader, read_package_root_file}
use zarf_api.Handlers.{
  no_body, bad_request, package_info, packages, schema, Response, respond, write_store_error,
  answering, internal_error, Parsed, strategy, invalid_verify, parse_verify, validates,
}

abbrev pub import_with :
    Store → Zarf → Text → Text → Text → Reader → Parsed → World → Response × World
import_with s zarf validate file_name shasum body (invalid_verify mode) w =
    (respond 400 (bad_request mode), w)
import_with s zarf validate file_name shasum body (strategy verify) w =
    answering (import_reader s zarf body file_name shasum (validates validate) verify)
      write_store_error (λ pkg. respond 201 (package_info pkg)) w

-- the query parameters `validate`, `verify`, `fileName` and `shasum`, and the body
unfoldable pub package_import :
    Store → Zarf → Text → Text → Text → Text → Reader → World → Response × World
package_import s zarf validate verify file_name shasum body =
    import_with s zarf validate file_name shasum body (parse_verify verify)

unfoldable pub package_list : Store → World → Response × World
package_list s = answering (list s) internal_error (λ pkgs. respond 200 (packages pkgs))

unfoldable pub package_get : Store → Text → World → Response × World
package_get s id = answering (get s id) write_store_error (λ pkg. respond 200 (package_info pkg))

unfoldable pub package_delete : Store → Text → World → Response × World
package_delete s id = answering (delete s id) write_store_error (λ u. respond 204 no_body)

-- `packageConfigSchema`: the native schema, or the fallback when there is none
abbrev pub fallback : Store → Zarf → Text → World → Response × World
fallback s zarf id =
    answering (read_package_root_file s zarf id (lit "config.schema.json")) write_store_error
      (λ found. respond 200 (schema (lit "overrides") found))

abbrev pub after_native : Store → Zarf → Text → Result Text → World → Response × World
after_native s zarf id (ok found) w = (respond 200 (schema (lit "values") found), w)
after_native s zarf id (err e) w = elim (is_not_found e) [
  | true ↦ fallback s zarf id w
  | false ↦ (write_store_error e, w)
]

unfoldable pub package_config_schema : Store → Zarf → Text → World → Response × World
package_config_schema s zarf id w =
    let (r, w') = read_package_root_file s zarf id (lit "values.schema.json") w in
    after_native s zarf id r w'
