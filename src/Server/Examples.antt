-- ===== src/Server/Examples.antt =====
-- A lookup of a job below a base path, with handlers that answer with what they were called for.
use zarf_api.Prelude.{
  ◌&&◌, all, true, false, ◌≡◌, refl, Option, none, some, [], ◌∷◌, ◌++◌, nat_eq, list_eq, lit,
}
use zarf_api.Config.{Config}
use zarf_api.Config.Examples.{accepted}
use zarf_api.Handlers.Routes.{Target, Route, route, on_job_get}
use zarf_api.Handlers.Routes.Mux.{Values, pattern_of, dispatch, are_apart}
use zarf_api.Handlers.Routes.Serving.{ServeMux, IsServeMux, is_well_formed}
use zarf_api.Handlers.Routes.Patterns.{base}
use zarf_api.Handlers.Routes.Filled.{fill, suits}
use zarf_api.Server.{HttpRequest, Handler, Logged, log_line, handler}
use zarf_api.Server.Reached.{handler-fill}

abbrev called : Target → Values → Handler (Unit {0}) (Option (Target × Values))
called target values r s = (some (target, values), s)

abbrev unmatched : Handler (Unit {0}) (Option (Target × Values))
unmatched r s = (none, s)

abbrev pub cfg : Config
cfg = record accepted { base_path = base (lit "zarf" ∷ []); ui_enabled = true }

abbrev job_route : Route
job_route = route (lit "GET") (lit "/api/v1/jobs/{id}") on_job_get

abbrev values : Values
values = (lit "{id}", lit "7") ∷ []

-- a mux that goes by its documentation, and refuses every other table
abbrev pub careful_mux : ServeMux
careful_mux = record {
  accepts = λ routes. all is_well_formed routes && are_apart routes;
  find = dispatch;
}

pub careful_mux-IsServeMux : IsServeMux careful_mux
careful_mux-IsServeMux = record {
  registers = λ routes formed apart. rw (formed, apart) refl;
  finds = λ routes m path formed apart filled clean. refl;
}

abbrev request : HttpRequest
request = record {
  method = lit "GET";
  path = (lit "zarf" ∷ []) ++ fill (pattern_of job_route.path) values;
  escaped = (lit "zarf" ∷ []) ++ fill (pattern_of job_route.path) values;
  query = λ n. [];
  body = record { payload = []; broken = false };
  remote = lit "peer";
}

handler-fill_example :
    (serve : Handler (Logged (Unit {0})) (Option (Target × Values))) × (handler careful_mux called
        unmatched cfg
      ≡ some serve)
    × (serve request ([], tt) ≡ (some (on_job_get, values), (log_line request [], tt)))
handler-fill_example =
    handler-fill careful_mux careful_mux-IsServeMux called unmatched cfg (lit "zarf" ∷ []) refl refl
      refl 19 job_route values request refl (unfold suits pattern_of in refl) refl refl refl [] tt
