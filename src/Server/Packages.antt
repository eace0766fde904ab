-- ===== src/Server/Packages.antt =====
-- The package routes of the API over the store (internal/server/handlers/handlers.go, packages.go):
-- requests as they come to the server, and what an inventory answers to them.
pub mod Answered
pub mod Served
mod Examples
use zarf_api.Prelude.{
  ℕ, Bool, true, false, not, Option, none, some, List, [], ◌∷◌, ◌++◌, Text, lit, ◌==◌, nat_eq,
  list_eq, length, if◌then◌else◌,
}
use zarf_api.Records.{Package, Error, not_found, exists, is_not_found}
use zarf_api.Os.{World, Result, ok, err}
use zarf_api.Os.Files.{Reader}
use zarf_api.Config.{Config}
use zarf_api.Store.{Store, Zarf}
use zarf_api.Store.Inventory.{
  Item, Inventory, Reply, described, located, deleted, extracted, put, found_in, received, accept,
}
use zarf_api.Handlers.{
  Response, respond, no_body, bad_request, store_error, package_info, schema, answer_with, Parsed,
  strategy, invalid_verify, parse_verify, validates,
}
use zarf_api.Handlers.Packages.{
  package_import, package_list, package_get, package_delete, package_config_schema,
}
use zarf_api.Handlers.Routes.{
  Target, on_package_import, on_package_list, on_package_get, on_package_config_schema,
  on_package_delete,
}
use zarf_api.Handlers.Routes.Mux.{Values}
use zarf_api.Handlers.Routes.Patterns.{is_name}
use zarf_api.Server.{HttpRequest, RequestLine, Handler, Logged, log_line, handler}

-- `r.PathValue`
abbrev pub path_value : Text → Values → Text
path_value n [] = []
path_value n (v ∷ vs) = if v.0 == n then v.1 else path_value n vs

-- The handlers of the packages; `others` are those of the other routes.
unfoldable pub package_targets :
    Store
    → Zarf
    → (Target → Values → Handler World Response)
    → Target
    → Values
    → Handler World Response
package_targets s zarf others on_package_import vs r =
    package_import s zarf (r.query (lit "validate")) (r.query (lit "verify"))
      (r.query (lit "fileName")) (r.query (lit "shasum")) r.body
package_targets s zarf others on_package_list vs r = package_list s
package_targets s zarf others on_package_get vs r = package_get s (path_value (lit "{id}") vs)
package_targets s zarf others on_package_config_schema vs r =
    package_config_schema s zarf (path_value (lit "{id}") vs)
package_targets s zarf others on_package_delete vs r = package_delete s (path_value (lit "{id}") vs)
package_targets s zarf others target vs r = others target vs r

pub data Ask : Type 0 where
  imports : Ask
  gets schemas deletes : Text → Ask

-- A request of the API, with the time and the random numbers that it meets, one at least.
pub record HttpCall : Type 0 where
  pub ask : Ask
  pub query : Text → Text
  pub body : Reader
  pub remote : Text
  pub clock : ℕ
  pub random : ℕ
  pub more : List ℕ

abbrev pub meet : HttpCall → World → World
meet c w = record w { clock = c.clock; temps = c.random ∷ c.more }

abbrev pub method_of : Ask → Text
method_of imports = lit "POST"
method_of (gets id) = lit "GET"
method_of (schemas id) = lit "GET"
method_of (deletes id) = lit "DELETE"

abbrev pub path_of : Ask → List Text
path_of imports = lit "api" ∷ lit "v1" ∷ lit "packages" ∷ []
path_of (gets id) = lit "api" ∷ lit "v1" ∷ lit "packages" ∷ id ∷ []
path_of (schemas id) = lit "api" ∷ lit "v1" ∷ lit "packages" ∷ id ∷ lit "config-schema" ∷ []
path_of (deletes id) = lit "api" ∷ lit "v1" ∷ lit "packages" ∷ id ∷ []

-- An id in a path is a name.
abbrev pub has_id : Ask → Bool
has_id imports = true
has_id (gets id) = is_name id
has_id (schemas id) = is_name id
has_id (deletes id) = is_name id

abbrev pub request_of : List Text → HttpCall → HttpRequest
request_of bs c = record {
  method = method_of c.ask;
  path = bs ++ path_of c.ask;
  escaped = bs ++ path_of c.ask;
  query = c.query;
  body = c.body;
  remote = c.remote;
}

abbrev pub failed : Error → Response
failed (not_found id) = respond 404 (store_error (not_found id))
failed (exists id) = respond 409 (store_error (exists id))
failed e = respond 500 (store_error e)

-- What an inventory answers; `created` is for the reply to an import.
abbrev pub created : Reply → Response
created (described r) = answer_with failed (λ pkg. respond 201 (package_info pkg)) r
created (located r) = respond 500 no_body
created (deleted r) = respond 500 no_body
created (extracted r) = respond 500 no_body

abbrev pub missing : Text → Response
missing id = respond 404 (store_error (not_found id))

abbrev pub shown : Text → Option Item → Response
shown id none = missing id
shown id (some item) = respond 200 (package_info item.doc)

-- the schema of the values, or else of the overrides
abbrev pub schema_of : Result Text → Result Text → Response
schema_of (ok found) overrides = respond 200 (schema (lit "values") found)
schema_of (err e) overrides =
    if is_not_found e
    then answer_with failed (λ found. respond 200 (schema (lit "overrides") found)) overrides
    else failed e

abbrev pub described_by : Zarf → Text → Option Item → Response
described_by zarf id none = missing id
described_by zarf id (some item) =
    schema_of (found_in zarf id (lit "values.schema.json") item)
      (found_in zarf id (lit "config.schema.json") item)

abbrev pub dropped : Text → Option Item → Inventory → Response × Inventory
dropped id none inv = (missing id, inv)
dropped id (some item) inv = (respond 204 no_body, put id none inv)

abbrev pub import_asked :
    Zarf → (Text → Text) → Reader → ℕ → Parsed → Inventory → Response × Inventory
import_asked zarf query body clock (invalid_verify mode) inv = (respond 400 (bad_request mode), inv)
import_asked zarf query body clock (strategy verify) inv =
    let (a, inv') =
      received zarf body clock
        (accept zarf body.payload (query (lit "fileName")) (query (lit "shasum"))
          (validates (query (lit "validate"))) verify)
        inv in
    (created a, inv')

unfoldable pub answer : Zarf → Ask → (Text → Text) → Reader → ℕ → Inventory → Response × Inventory
unfolding accept
answer zarf imports query body clock inv =
    import_asked zarf query body clock (parse_verify (query (lit "verify"))) inv
answer zarf (gets id) query body clock inv = (shown id (inv id), inv)
answer zarf (schemas id) query body clock inv = (described_by zarf id (inv id), inv)
answer zarf (deletes id) query body clock inv = dropped id (inv id) inv

unfoldable pub answer_all :
    Zarf → List Text → List HttpCall → Logged Inventory → List Response × Logged Inventory
answer_all zarf bs [] (lines, inv) = ([], (lines, inv))
answer_all zarf bs (c ∷ cs) (lines, inv) =
    let (a, inv') = answer zarf c.ask c.query c.body c.clock inv in
    let (rest, out) = answer_all zarf bs cs (log_line (request_of bs c) lines, inv') in
    (a ∷ rest, out)

-- The server handles one request after another.
unfoldable pub serve_all :
    Handler (Logged World) Response
    → List Text
    → List HttpCall
    → Logged World
    → List Response × Logged World
serve_all serve bs [] st = ([], st)
serve_all serve bs (c ∷ cs) (lines, w) =
    let (a, st) = serve (request_of bs c) (lines, meet c w) in
    let (rest, out) = serve_all serve bs cs st in (a ∷ rest, out)
