-- ===== src/Server/Packages/Examples.antt =====
-- Requests for packages to a server over an empty store, one of them with an import that has a
-- strategy which there is not.
use zarf_api.Prelude.{
  some, ◌==◌, nat_eq, list_eq, if◌then◌else◌, ◌≡◌, refl, ap, ◌∙◌, List, [], ◌∷◌, Text, lit, ℕ,
}
use zarf_api.Os.{World}
use zarf_api.Store.Examples.{store, zarf, body}
use zarf_api.Store.{valid_id}
use zarf_api.Store.Import.{find_entry}
use zarf_api.Regex.{matches}
use zarf_api.Store.Inventory.Shelves.{Shelves}
use zarf_api.Store.Inventory.Examples.{blank, nothing, blank-Shelves}
use zarf_api.Handlers.{Response, respond, no_body, parse_verify}
use zarf_api.Handlers.Routes.{Target}
use zarf_api.Handlers.Routes.Mux.{Values}
use zarf_api.Server.{Handler, Logged, handler}
use zarf_api.Server.Examples.{cfg, careful_mux, careful_mux-IsServeMux}
use zarf_api.Server.Packages.{
  Ask, imports, gets, schemas, deletes, HttpCall, package_targets, answer, answer_all, serve_all,
}
use zarf_api.Server.Packages.Served.{serve_all-answer_all}

abbrev others : Target → Values → Handler World Response
others target values r w = (respond 501 no_body, w)

abbrev unmatched : Handler World Response
unmatched r w = (respond 404 no_body, w)

-- the query `verify`, and no other
abbrev verifying : Text → Text → Text
verifying verify n = if n == lit "verify" then verify else []

abbrev at : ℕ → Ask → Text → HttpCall
at n a verify = record {
  ask = a;
  query = verifying verify;
  body = body;
  remote = lit "peer";
  clock = n;
  random = n;
  more = [];
}

-- an import, the same again, one with a wrong query, lookups, a deletion and a lookup
abbrev calls : List HttpCall
calls =
    at 1 imports (lit "never")
    ∷ at 2 imports []
    ∷ at 3 imports (lit "sometimes")
    ∷ at 4 (gets (lit "b.tar")) []
    ∷ at 5 (schemas (lit "b.tar")) []
    ∷ at 6 (deletes (lit "b.tar")) []
    ∷ at 7 (gets (lit "b.tar")) []
    ∷ []

serve_all-answer_all_example :
    let want = answer_all zarf (lit "zarf" ∷ []) calls ([], nothing) in
    (serve : Handler (Logged World) Response) × (handler careful_mux
        (package_targets store zarf others)
        unmatched
        cfg
      ≡ some serve)
    × (let out = serve_all serve (lit "zarf" ∷ []) calls ([], blank) in
        (out.0 ≡ want.0) × (out.1.0 ≡ want.1.0) × Shelves store zarf out.1.1 want.1.1)
serve_all-answer_all_example =
    serve_all-answer_all careful_mux careful_mux-IsServeMux store zarf others unmatched cfg
      (lit "zarf" ∷ []) refl refl refl calls [] blank nothing refl blank-Shelves

abbrev codes : List Response → List ℕ
codes [] = []
codes (r ∷ rs) = r.status ∷ codes rs

statuses :
    codes (answer_all zarf (lit "zarf" ∷ []) calls ([], nothing)).0
    ≡ 201 ∷ 409 ∷ 400 ∷ 200 ∷ 404 ∷ 204 ∷ 404 ∷ []
unfolding answer_all answer parse_verify valid_id matches find_entry
statuses = refl

-- so a server answers with these
served_statuses :
    (serve : Handler (Logged World) Response) × (handler careful_mux
        (package_targets store zarf others)
        unmatched
        cfg
      ≡ some serve)
    × (codes (serve_all serve (lit "zarf" ∷ []) calls ([], blank)).0
        ≡ 201 ∷ 409 ∷ 400 ∷ 200 ∷ 404 ∷ 204 ∷ 404 ∷ [])
served_statuses =
    let (serve, mounted, (same, _, _)) = serve_all-answer_all_example in
    (serve, mounted, ap codes same ∙ statuses)
