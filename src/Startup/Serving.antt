-- ===== src/Startup/Serving.antt =====
-- cmd/zarf-api/main.go: what `run` does once it has set up, and `main`. What happens to the process is
-- a list of events; the outcome of `Shutdown` is an argument.
use zarf_api.Prelude.{ℕ, Option, none, some, List, [], ◌∷◌, Text}
use zarf_api.Os.{FilePath, World}
use zarf_api.Handlers.Routes.Serving.{ServeMux}
use zarf_api.Startup.{
  Loggers, Setup, ready, bad_config, bad_log_level, bad_log_format, failed, panicked, setup,
}

-- The error that `ListenAndServe` returns with.
pub data ListenError : Type 0 where
  server_closed : ListenError
  listen_failed : Text → ListenError

pub data Event : Type 0 where
  returned : Option ListenError → Event
  signalled : Event  -- SIGINT or SIGTERM

-- `run` still waits, or it returns: an error, or nil.
pub data Running : Type 0 where
  waiting : Running
  returns : Option Text → Running
  not_started : Setup → Running

-- the `select`; what `ListenAndServe` returns with after `Shutdown` goes nowhere
unfoldable pub serve : Option Text → List Event → Running
serve shutdown [] = waiting
serve shutdown (returned none ∷ events) = serve shutdown events
serve shutdown (returned (some server_closed) ∷ events) = serve shutdown events
serve shutdown (returned (some (listen_failed e)) ∷ events) = returns (some e)
serve shutdown (signalled ∷ events) = returns shutdown

abbrev pub after_setup : Option Text → List Event → Setup → Running
after_setup shutdown events (ready r) = serve shutdown events
after_setup shutdown events (bad_config e) = not_started (bad_config e)
after_setup shutdown events (bad_log_level t) = not_started (bad_log_level t)
after_setup shutdown events (bad_log_format t) = not_started (bad_log_format t)
after_setup shutdown events (failed e) = not_started (failed e)
after_setup shutdown events panicked = not_started panicked

unfoldable pub run :
    ServeMux
    → Loggers
    → Text
    → (Text → Text)
    → Option FilePath
    → Option Text
    → List Event
    → World
    → Running × World
unfolding setup serve
run mux loggers version getenv cwd shutdown events w =
    let (r, w') = setup mux loggers version getenv cwd w in (after_setup shutdown events r, w')

-- the status that the process ends with, as `main` has it; after a panic it is the runtime's
abbrev pub exit_status : Running → Option ℕ
exit_status waiting = none
exit_status (returns none) = some 0
exit_status (returns (some e)) = some 1
exit_status (not_started panicked) = some 2
exit_status (not_started r) = some 1
