-- ===== src/Server/Packages/Served.antt =====
-- Requests for packages, from the server down to the disk, against an inventory.
use zarf_api.Prelude.{
  ℕ, ◌&&◌, ◌==◌, false, some, get_elem?, if◌then◌else◌, ◌++◌, ◌≡◌, refl, true, List, [], ◌∷◌, Text,
  lit, nat_eq, list_eq, all, arith,
}
use zarf_api.Os.{World}
use zarf_api.Os.Files.{Reader}
use zarf_api.Config.{Config}
use zarf_api.Store.{Store, Zarf}
use zarf_api.Store.Inventory.{Inventory}
use zarf_api.Store.Inventory.Shelves.{Shelves, SameDisk-Shelves}
use zarf_api.Handlers.{Response}
use zarf_api.Handlers.Routes.{
  Target, Route, api, register, route, on_package_import, on_package_get, on_package_config_schema,
  on_package_delete,
}
use zarf_api.Handlers.Routes.Mux.{Values, pattern_of}
use zarf_api.Handlers.Routes.Patterns.{base, is_name}
use zarf_api.Handlers.Routes.Serving.{ServeMux, IsServeMux}
use zarf_api.Handlers.Routes.Unique.{is_probe}
use zarf_api.Handlers.Routes.Filled.{fill, suits}
use zarf_api.Server.{
  HttpRequest, RequestLine, Handler, Logged, handler, log_line, with_logging, serve_mux,
}
use zarf_api.Server.Reached.{handler-mounted, handler-reached}
use zarf_api.Server.Packages.{
  Ask, imports, gets, schemas, deletes, HttpCall, meet, package_targets, method_of, path_of, has_id,
  request_of, answer_all, serve_all,
}
use zarf_api.Server.Packages.Answered.{run, run-answer}

module _ (mux : ServeMux) (laws : IsServeMux mux) (s : Store) (zarf : Zarf)
    (others : Target → Values → Handler World Response) (unmatched : Handler World Response)
    (cfg : Config) (bs : List Text) (at : cfg.base_path ≡ base bs) (plain : all is_name bs ≡ true)
    (free : (cfg.ui_enabled && is_probe bs) ≡ false) where
  abbrev mounted : Handler (Logged World) Response
  mounted = with_logging (
      serve_mux mux (package_targets s zarf others) unmatched
        (register cfg.base_path cfg.ui_enabled))

  -- where a request for a pattern of the API comes to
  reached :
      (k : ℕ) (r : Route) (vs : Values) (request : HttpRequest)
      → get_elem? api k ≡ some r
      → suits (pattern_of r.path) vs ≡ true
      → all (λ (v : Text × Text). is_name v.1) vs ≡ true
      → request.method ≡ r.method
      → request.escaped ≡ bs ++ fill (pattern_of r.path) vs
      → (lines : List RequestLine) (w : World)
      → let out = package_targets s zarf others r.target vs request w in
        mounted request (lines, w)
        ≡ (out.0, (if r.method == lit "PUT" then lines else log_line request lines, out.1))
  reached = handler-reached mux laws (package_targets s zarf others) unmatched cfg bs at plain free

  mounted-run :
      (a : Ask) (q : Text → Text) (body : Reader) (remote : Text)
      → has_id a ≡ true
      → (lines : List RequestLine) (w : World)
      → let request : HttpRequest = record {
        method = method_of a;
        path = bs ++ path_of a;
        escaped = bs ++ path_of a;
        query = q;
        body = body;
        remote = remote;
      } in
        let out = run s zarf a q body w in
        mounted request (lines, w) ≡ (out.0, (log_line request lines, out.1))
  unfolding package_targets fill pattern_of suits
  mounted-run imports q body remote h lines w =
      reached 1 (route (lit "POST") (lit "/api/v1/packages") on_package_import) [] _ refl refl refl
        refl refl lines w
  mounted-run (gets id) q body remote h lines w =
      reached 3 (route (lit "GET") (lit "/api/v1/packages/{id}") on_package_get)
        ((lit "{id}", id) ∷ []) _ refl (ground (arith, h)) (ground (arith, h)) refl refl lines w
  mounted-run (schemas id) q body remote h lines w =
      reached 5
        (route (lit "GET") (lit "/api/v1/packages/{id}/config-schema") on_package_config_schema)
        ((lit "{id}", id) ∷ []) _ refl (ground (arith, h)) (ground (arith, h)) refl refl lines w
  mounted-run (deletes id) q body remote h lines w =
      reached 6 (route (lit "DELETE") (lit "/api/v1/packages/{id}") on_package_delete)
        ((lit "{id}", id) ∷ []) _ refl (ground (arith, h)) (ground (arith, h)) refl refl lines w

  mounted-answer_all :
      (cs : List HttpCall) (lines : List RequestLine) (w : World) (inv : Inventory)
      → all (λ (c : HttpCall). has_id c.ask) cs ≡ true
      → Shelves s zarf w inv
      → let out = serve_all mounted bs cs (lines, w) in
        let want = answer_all zarf bs cs (lines, inv) in
        (out.0 ≡ want.0) × (out.1.0 ≡ want.1.0) × Shelves s zarf out.1.1 want.1.1
  unfolding serve_all answer_all
  mounted-answer_all [] lines w inv ids h = (refl, refl, h)
  mounted-answer_all (c ∷ cs) lines w inv ids h =
      let (a, h') =
        run-answer s zarf (meet c w) inv
          (SameDisk-Shelves s zarf w inv h (meet c w) h.quiet (λ p. refl)) c.ask c.query c.body
          c.random c.more refl in
      let (rest, log, h'') =
        mounted-answer_all cs (log_line (request_of bs c) lines) _ _ (ground (arith, ids)) h' in
      rw (mounted-run c.ask c.query c.body c.remote (ground (arith, ids)) lines (meet c w))
        (ground (arith, a, rest), log, h'')

  -- The mux being as documented and no call of the operating system failing, below a base path of
  -- names, which are not empty, no `.` or `..`, and without a brace or a percent sign, and which is
  -- not `/healthz` or `/readyz` when the UI is enabled: the server is put together without a panic,
  -- and when its disk holds an inventory, it answers any imports, lookups, schemas and deletions of
  -- packages, whose ids are such names, in any order, just as the inventory does, statuses and
  -- bodies; it logs each request once, in that order, and in the end its disk holds what has become
  -- of the inventory.
  pub serve_all-answer_all :
      (cs : List HttpCall) (lines : List RequestLine) (w : World) (inv : Inventory)
      → all (λ (c : HttpCall). has_id c.ask) cs ≡ true
      → Shelves s zarf w inv
      → let want = answer_all zarf bs cs (lines, inv) in
        (serve : Handler (Logged World) Response) × (handler mux
            (package_targets s zarf others)
            unmatched
            cfg
          ≡ some serve)
        × (let out = serve_all serve bs cs (lines, w) in
            (out.0 ≡ want.0) × (out.1.0 ≡ want.1.0) × Shelves s zarf out.1.1 want.1.1)
  serve_all-answer_all cs lines w inv ids h = (
    mounted,
    handler-mounted mux laws (package_targets s zarf others) unmatched cfg bs at plain free,
    mounted-answer_all cs lines w inv ids h,
  )
