-- ===== src/Server.antt =====
-- internal/server/server.go: the handler of the HTTP server, the mux of the routes with the request
-- log around it. The mux itself, and what the handlers and net/http's own answers do, are arguments; a
-- path is the list of what stands between its slashes.
pub mod Reached
pub mod Packages
pub mod Examples
use zarf_api.Prelude.{
  Bool, true, false, Option, none, some, List, [], ◌∷◌, ◌++◌, Text, lit, ◌==◌, nat_eq, list_eq,
  if◌then◌else◌,
}
use zarf_api.Config.{Config}
use zarf_api.Os.Files.{Reader}
use zarf_api.Handlers.Routes.{Target, Route, register}
use zarf_api.Handlers.Routes.Mux.{Values}
use zarf_api.Handlers.Routes.Serving.{ServeMux}

-- `path` is `r.URL.Path`, `escaped` is `r.URL.EscapedPath()`, and `query` is `r.URL.Query().Get`.
pub record HttpRequest : Type 0 where
  pub method : Text
  pub path : List Text
  pub escaped : List Text
  pub query : Text → Text
  pub body : Reader
  pub remote : Text

-- a line of the request log: the method, the path and the peer
pub record RequestLine : Type 0 where
  pub method : Text
  pub path : List Text
  pub remote : Text

-- What a handler answers, and the state that it leaves.
abbrev pub Handler : Type 0 → Type 0 → Type 0
Handler S A = HttpRequest → S → A × S

abbrev pub Logged : Type 0 → Type 0
Logged S = List RequestLine × S

-- the line of a request, behind the others
abbrev pub log_line : HttpRequest → List RequestLine → List RequestLine
log_line r lines = lines ++ record { method = r.method; path = r.path; remote = r.remote } ∷ []

module _ {S A : Type 0} where
  -- `ServeHTTP` of the mux; `unmatched` is its own answer
  abbrev pub serve_found :
      (Target → Values → Handler S A) → Handler S A → Option (Target × Values) → Handler S A
  serve_found targets unmatched none = unmatched
  serve_found targets unmatched (some (target, values)) = targets target values

  unfoldable pub serve_mux :
      ServeMux → (Target → Values → Handler S A) → Handler S A → List Route → Handler S A
  serve_mux mux targets unmatched routes r =
      serve_found targets unmatched (mux.find routes r.method r.escaped) r

  -- `withLogging`: pushes of chunks are not logged
  unfoldable pub with_logging : Handler S A → Handler (Logged S) A
  with_logging next r (lines, s) =
      let (a, s') = next r s in (a, (if r.method == lit "PUT" then lines else log_line r lines, s'))

  -- `Handler`; `none` when `Register` panics
  unfoldable pub handler :
      ServeMux
      → (Target → Values → Handler S A)
      → Handler S A
      → Config
      → Option (Handler (Logged S) A)
  unfolding serve_mux with_logging
  handler mux targets unmatched cfg =
      let routes = register cfg.base_path cfg.ui_enabled in
      if mux.accepts routes
      then some (with_logging (serve_mux mux targets unmatched routes))
      else none
