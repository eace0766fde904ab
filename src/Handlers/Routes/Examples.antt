-- ===== src/Handlers/Routes/Examples.antt =====
-- The routes below a base path, and one that is a pattern of the server's own.
use zarf_api.Prelude.{◌≡◌, refl, ◌≤◌, true, false, some, [], ◌∷◌, length, lit, all, List, Text}
use zarf_api.Handlers.Routes.{register, api, on_job_get}
use zarf_api.Handlers.Routes.Distinct.{are_distinct, register_lem}
use zarf_api.Handlers.Routes.Mux.{dispatch, fitting}
use zarf_api.Handlers.Routes.Patterns.{base}
use zarf_api.Handlers.Routes.Serving.{is_well_formed}
use zarf_api.Handlers.Routes.Unique.{register_unique}

register_lem_example : are_distinct (register (lit "/zarf") true) ≡ true
register_lem_example = register_lem (lit "/zarf") true

register-healthz : are_distinct (register (lit "/healthz") true) ≡ false
register-healthz = register_lem (lit "/healthz") true

register_unique_example :
    (all is_well_formed (register (base (lit "zarf" ∷ [])) true) ≡ true)
    × ((m : Text) (path : List Text)
        → length (fitting (register (base (lit "zarf" ∷ [])) true) m path) ≤ 1)
register_unique_example = register_unique (lit "zarf" ∷ []) true refl refl

job_path :
    dispatch api (lit "GET") (lit "api" ∷ lit "v1" ∷ lit "jobs" ∷ lit "7" ∷ [])
    ≡ some (on_job_get, (lit "{id}", lit "7") ∷ [])
unfolding dispatch
job_path = refl
