-- ===== src/Config/Bounds.antt =====
-- What every configuration that `FromEnv` accepts satisfies.
use zarf_api.Prelude.{ℕ, ◌≡◌, refl, subst, Option, ◌≤◌, [], ◌∷◌, ◌++◌, Text, ℤ, pos, lit, arith}
use zarf_api.Os.{FilePath}
use zarf_api.Os.Paths.{join_plain}
use zarf_api.Config.{
  Config, Outcome, ok, err, ◌>>=◌, parse_port, parse_sessions, parse_base_path, env_or, abs,
  from_env,
}
use zarf_api.Config.BasePath.{IsBasePath, parse_base_path_lem}

pub record InRange (n : ℤ) (lo hi : ℕ) : Type 0 where
  pub value : ℕ
  pub positive : n ≡ pos value
  pub above : lo ≤ value
  pub below : value ≤ hi

parse_port-InRange : (v : Text) (p : ℤ) → parse_port v ≡ ok p → InRange p 1 65535
unfolding parse_port
parse_port-InRange v (pos n) h = record {
  value = n;
  positive = refl;
  above = ground arith;
  below = ground arith;
}
parse_port-InRange v p h = ground arith

parse_sessions_pos : (v : Text) (p : ℤ) → parse_sessions v ≡ ok p → (n : ℕ) × (p ≡ pos n) × (1 ≤ n)
unfolding parse_sessions
parse_sessions_pos v (pos n) h = (n, refl, ground arith)
parse_sessions_pos v p h = absurd (ground arith)

pub record IsSound (cfg : Config) : Type 0 where
  pub port : InRange cfg.port 1 65535
  pub sessions : (n : ℕ) × (cfg.max_upload_sessions ≡ pos n) × (1 ≤ n)
  pub prefix : IsBasePath cfg.base_path
  pub packages : cfg.packages_dir ≡ cfg.data_dir ++ lit "packages" ∷ []
  pub uploads : cfg.uploads_dir ≡ cfg.data_dir ++ lit "uploads" ∷ []

bind_ok :
    {A B : Type 0} (m : Outcome A) (f : A → Outcome B) {b : B}
    → (m >>= f) ≡ ok b
    → (a : A) × (m ≡ ok a) × (f a ≡ ok b)
bind_ok (ok a) f h = (a, refl, h)
bind_ok (err e) f h = cc

ok_injective : {A : Type 0} {a b : A} → ok a ≡ ok b → a ≡ b
ok_injective h = cc

-- Whatever the environment, an accepted configuration has a port between 1 and 65535, at least one
-- upload session, a base path in normal form, and its packages and uploads in two directories
-- directly below the data directory.
pub from_env-IsSound :
    (getenv : Text → Text) (cwd : Option FilePath) (cfg : Config)
    → from_env getenv cwd ≡ ok cfg
    → IsSound cfg
unfolding from_env
from_env-IsSound getenv cwd cfg h =
    let (port, hp, h₁) = bind_ok (parse_port (getenv (lit "ZARF_API_PORT"))) _ h in
    let (sessions, hs, h₂) =
      bind_ok (parse_sessions (getenv (lit "ZARF_API_MAX_UPLOAD_SESSIONS"))) _ h₁ in
    let (bp, hb, h₃) = bind_ok (parse_base_path (getenv (lit "ZARF_API_BASE_PATH"))) _ h₂ in
    let (data_dir, hd, h₄) =
      bind_ok (abs cwd (env_or getenv (lit "ZARF_API_DATA_DIR") (lit "./data"))) _ h₃ in
    let (p, _) = parse_base_path_lem (getenv (lit "ZARF_API_BASE_PATH")) bp hb in
    subst IsSound (ok_injective h₄) (record {
      port = parse_port-InRange (getenv (lit "ZARF_API_PORT")) port hp;
      sessions = parse_sessions_pos (getenv (lit "ZARF_API_MAX_UPLOAD_SESSIONS")) sessions hs;
      prefix = p;
      packages =
          join_plain data_dir (lit "packages")
            (record { filled = refl; not_dot = refl; not_dots = refl; no_slash = refl });
      uploads =
          join_plain data_dir (lit "uploads")
            (record { filled = refl; not_dot = refl; not_dots = refl; no_slash = refl });
    })
