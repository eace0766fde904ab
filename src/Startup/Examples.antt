-- ===== src/Startup/Examples.antt =====
-- A start where nothing but an old package is on the disk.
use zarf_api.Prelude.{
  ◌≡◌, refl, true, some, [], ◌∷◌, ◌++◌, lit, lookup, ◌==◌, nat_eq, list_eq, if◌then◌else◌,
}
use zarf_api.Os.{World, dir, file, bytes}
use zarf_api.Os.Paths.{join}
use zarf_api.Config.{trim, parse_base_path, parse_port, parse_sessions, env_or, abs, from_env}
use zarf_api.Config.Examples.{environment, accepted}
use zarf_api.Server.Examples.{careful_mux, careful_mux-IsServeMux}
use zarf_api.Startup.{Loggers, Ready, ready, setup, zarf_version}
use zarf_api.Startup.Dirs.{opened, Prepared, setup_lem}

abbrev loggers : Loggers
loggers = record { parse_level = λ l. l == lit "info"; makes = λ f. true }

abbrev disk : World
disk = record {
  fs =
      (lit "srv" ∷ [], dir)
      ∷ (lit "srv" ∷ lit "data" ∷ [], dir)
      ∷ (lit "srv" ∷ lit "data" ∷ lit "packages" ∷ [], dir)
      ∷ (lit "srv" ∷ lit "data" ∷ lit "packages" ∷ lit "a.tar" ∷ [], file (bytes (7 ∷ [])))
      ∷ [];
  faults = [];
  clock = 0;
  entropy = [];
  temps = [];
}

setup_lem_example :
    (r : Ready) × (w' : World) × (setup careful_mux loggers
        (lit "1.2.3")
        environment
        (some (lit "srv" ∷ []))
        disk
      ≡ (ready r, w'))
    × (r.store ≡ opened accepted)
    × Prepared accepted disk w'
    × (r.cli_version
        ≡ zarf_version
          ++ lit "+zarf-api."
          ++ (if accepted.version == lit "0.1.0-dev" then lit "1.2.3" else accepted.version))
unfolding from_env parse_base_path trim env_or parse_port parse_sessions abs join lookup
setup_lem_example =
    setup_lem careful_mux careful_mux-IsServeMux loggers (lit "1.2.3") environment
      (some (lit "srv" ∷ [])) accepted (lit "srv" ∷ lit "data" ∷ lit "tmp" ∷ []) disk refl
      (lit "zarf" ∷ []) refl refl refl refl refl (λ w. refl) refl
      ((λ d h. cc), ((λ d h. cc), ((λ d h. cc), tt)))
      ((λ d h. cc), ((λ d h. cc), ((λ d h. cc), tt)))
      ((λ d h. cc), ((λ d h. cc), ((λ d h. cc), tt)))
      ((λ d h. cc), ((λ d h. cc), ((λ d h. cc), tt)))
