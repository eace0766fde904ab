-- ===== src/Startup/Dirs.antt =====
-- The directories that are there when the server starts to listen.
use zarf_api.Prelude.{
  ◌≡◌, refl, sym, subst, ◌∙◌, ap, true, false, ◌&&◌, all, List, Option, some, [], ◌∷◌, ◌++◌, Text,
  lit, lookup, nat_eq, list_eq, ◌==◌, Map, if◌then◌else◌, arith, Bool-cases, inl, inr,
}
use zarf_api.Os.{FilePath, Node, dir, World, ok}
use zarf_api.Os.Dirs.{Clear, Made, Made-at, Grown, mkdir_all-Clear}
use zarf_api.Os.Files.{write}
use zarf_api.Config.{Config, Outcome, from_env}
use zarf_api.Config
use zarf_api.Config.Bounds.{IsSound, from_env-IsSound}
use zarf_api.Store.{Store, open_store}
use zarf_api.Handlers.Routes.{register}
use zarf_api.Handlers.Routes.Patterns.{base, is_name}
use zarf_api.Handlers.Routes.Serving.{ServeMux, IsServeMux}
use zarf_api.Handlers.Routes.Formed.{register-well_formed}
use zarf_api.Handlers.Routes.Unique.{is_probe, register-are_apart}
use zarf_api.Startup.{
  zarf_version, ready_with, Loggers, Ready, ready, versioned, cli_version_of, temp_path, make_store,
  setup,
}

Grown-trans : {a b c : _} → Grown a b → Grown b c → Grown a c
Grown-trans g h = record {
  kept = λ q n e. h.kept q n (g.kept q n e);
  files = λ q c e. g.files q c (h.files q c e);
}

-- Directories that are added stand in nobody's way.
Grown-Clear : {a b : _} (base p : FilePath) → Grown a b → Clear a base p → Clear b base p
Grown-Clear base [] g h = tt
Grown-Clear base (c ∷ p) g h =
    (λ d e. h.0 d (g.files (base ++ c ∷ []) d e), Grown-Clear (base ++ c ∷ []) p g h.1)

make_store-versioned :
    (cwd : Option FilePath) (version : Text) (cfg : Config)
    → make_store cwd (versioned version cfg) ≡ make_store cwd cfg
unfolding make_store versioned
make_store-versioned cwd version cfg = elim (Bool-cases (cfg.version == lit "0.1.0-dev")) [
  | inl dev ↦ rw dev refl
  | inr other ↦ rw other refl
]

-- `os.MkdirAll` of an entry of the data directory makes it.
entry-Made :
    (fs : Map FilePath Node) (d data_dir : FilePath) (name : Text)
    → d ≡ data_dir ++ name ∷ []
    → Made fs [] d
    → lookup d fs ≡ some dir
entry-Made fs d data_dir name e m =
    subst (λ p. lookup p fs ≡ some dir) (sym e)
      (Made-at fs [] data_dir name [] (subst (Made fs []) e m))

abbrev pub opened : Config → Store
opened cfg = record { packages_dir = cfg.packages_dir; uploads_dir = cfg.uploads_dir }

-- The disk of `w'` has the store's two directories, and all that was on the disk of `w`.
pub record Prepared (cfg : Config) (w w' : World) : Type 0 where
  pub packages : lookup cfg.packages_dir w'.fs ≡ some dir
  pub uploads : lookup cfg.uploads_dir w'.fs ≡ some dir
  pub grown : Grown w.fs w'.fs
  pub quiet : w'.faults ≡ []

version_of_versioned :
    (version : Text) (cfg : Config)
    → (versioned version cfg).version
      ≡ (if cfg.version == lit "0.1.0-dev" then version else cfg.version)
unfolding versioned
version_of_versioned version cfg = ground arith

accepts-versioned :
    (mux : ServeMux) (version : Text) (cfg : Config)
    → mux.accepts (register cfg.base_path cfg.ui_enabled) ≡ true
    → mux.accepts (register (versioned version cfg).base_path (versioned version cfg).ui_enabled)
      ≡ true
unfolding versioned
accepts-versioned mux version cfg h = elim (Bool-cases (cfg.version == lit "0.1.0-dev")) [
  | inl dev ↦ rw dev h
  | inr other ↦ rw other h
]

module _ (cwd : Option FilePath) (cfg : Config) (sound : IsSound cfg) (temp : FilePath)
    (found : (w : World) → temp_path cwd cfg.temp_dir w ≡ (ok temp, w)) (w : World)
    (calm : w.faults ≡ []) (cache_clear : Clear w.fs [] cfg.cache_dir)
    (temp_clear : Clear w.fs [] temp) (packages_clear : Clear w.fs [] cfg.packages_dir)
    (uploads_clear : Clear w.fs [] cfg.uploads_dir) where
  make_store_lem : (w' : World) × (make_store cwd cfg w ≡ (ok (opened cfg), w')) × Prepared cfg w w'
  unfolding make_store open_store
  make_store_lem =
      let (fs₁, m₁, g₁, _, _) = mkdir_all-Clear cfg.cache_dir w calm cache_clear in
      let (fs₂, m₂, g₂, _, _) =
        mkdir_all-Clear temp (write fs₁ w) calm (Grown-Clear [] temp g₁ temp_clear) in
      let g₁₂ : Grown w.fs fs₂ = Grown-trans g₁ g₂ in
      let (fs₃, m₃, g₃, t₃, _) =
        mkdir_all-Clear cfg.packages_dir (write fs₂ w) calm
          (Grown-Clear [] cfg.packages_dir g₁₂ packages_clear) in
      let g₁₃ : Grown w.fs fs₃ = Grown-trans g₁₂ g₃ in
      let (fs₄, m₄, g₄, t₄, _) =
        mkdir_all-Clear cfg.uploads_dir (write fs₃ w) calm
          (Grown-Clear [] cfg.uploads_dir g₁₃ uploads_clear) in
      (
        write fs₄ w,
        rw (m₁, found (write fs₁ w), m₂, m₃, m₄) refl,
        record {
          packages =
              g₄.kept cfg.packages_dir dir
                (entry-Made fs₃ cfg.packages_dir cfg.data_dir (lit "packages") sound.packages t₃);
          uploads = entry-Made fs₄ cfg.uploads_dir cfg.data_dir (lit "uploads") sound.uploads t₄;
          grown = Grown-trans g₁₃ g₄;
          quiet = calm;
        },
      )

-- The mux being as documented: when no call of the operating system fails, the environment is accepted
-- with a base path of names, which are not empty, no `.` or `..`, and without a brace or a percent
-- sign, and which is not `/healthz` or `/readyz` when the UI is enabled, the logger can be made and no
-- file stands on the way to the cache, temporary, packages and uploads directories: `run` gets
-- ready to listen, with a store on the two directories, which are there, while all that was on the
-- disk still is; and the version that Zarf is told starts with Zarf's own.
pub setup_lem :
    (mux : ServeMux)
    → IsServeMux mux
    → (loggers : Loggers) (version : Text) (getenv : Text → Text) (cwd : Option FilePath)
      (cfg : Config) (temp : FilePath) (w : World)
    → from_env getenv cwd ≡ Config.ok cfg
    → (bs : List Text) → cfg.base_path ≡ base bs
    → all is_name bs ≡ true
    → (cfg.ui_enabled && is_probe bs) ≡ false
    → loggers.parse_level cfg.log_level ≡ true
    → loggers.makes cfg.log_format ≡ true
    → ((w : World) → temp_path cwd cfg.temp_dir w ≡ (ok temp, w))
    → w.faults ≡ []
    → Clear w.fs [] cfg.cache_dir
    → Clear w.fs [] temp
    → Clear w.fs [] cfg.packages_dir
    → Clear w.fs [] cfg.uploads_dir
    → (r : Ready) × (w' : World) × (setup mux loggers version getenv cwd w ≡ (ready r, w'))
      × (r.store ≡ opened cfg)
      × Prepared cfg w w'
      × (r.cli_version
          ≡ zarf_version
            ++ lit "+zarf-api."
            ++ (if cfg.version == lit "0.1.0-dev" then version else cfg.version))
unfolding setup cli_version_of
setup_lem mux laws loggers version getenv cwd cfg temp w accepted bs at plain free level format
      found calm cache temporary packages uploads =
    let (w', made, p) =
      make_store_lem cwd cfg (from_env-IsSound getenv cwd cfg accepted) temp found w calm cache
        temporary packages uploads in
    let run : make_store cwd (versioned version cfg) w ≡ (ok (opened cfg), w') =
      ap (λ m. m w) (make_store-versioned cwd version cfg) ∙ made in
    let routes : mux.accepts (register cfg.base_path cfg.ui_enabled) ≡ true = rw at (
      laws.registers _ (register-well_formed bs cfg.ui_enabled plain)
        (register-are_apart bs cfg.ui_enabled plain free)) in
    (
      ready_with (versioned version cfg) (opened cfg),
      w',
      rw (accepted, level, format, run, accepts-versioned mux version cfg routes) refl,
      refl,
      p,
      ap (λ v. zarf_version ++ lit "+zarf-api." ++ v) (version_of_versioned version cfg),
    )
