-- ===== src/Jobs/Ids.antt =====
-- internal/jobs/jobs.go: `newID`, and `Create` with the id that it draws. `format` is
-- `time.Time.Format` with the layout of the fallback.
use zarf_api.Prelude.{ℕ, suc, ◌≡◌, refl, inl, inr, Text}
use zarf_api.Os.{World, Result, ok, err, Io, pure, ◌>>=◌, attempt}
use zarf_api.Os.Files.{rand_read, now}
use zarf_api.Store.Uploads.{hex}
use zarf_api.Store.Finalizing.{Result-cases}
use zarf_api.Jobs.{Kind, Manager, create}

abbrev pub drawn : (ℕ → Text) → Result Text → Io Text
drawn format (ok b) = pure (hex b)
drawn format (err e) = do t ← now; pure (hex (format t))

-- a failure of `rand.Read` is no failure of `newID`
unfoldable pub new_id : (ℕ → Text) → Io Text
unfolding hex
new_id format = do r ← attempt rand_read; drawn format r

-- `Create`, the id and the time included
unfoldable pub create_drawn : (ℕ → Text) → Manager → Kind → Text → Io (Manager × ℕ)
create_drawn format m kind pkg = do id ← new_id format; t ← now; pure (create m kind pkg id t)

-- `Create` cannot fail, whatever becomes of the random numbers.
create_drawn-ok :
    (format : ℕ → Text) (m : Manager) (kind : Kind) (pkg : Text) (w : World)
    → (id : Text) × (t : ℕ) × ((create_drawn format m kind pkg w).0 ≡ ok (create m kind pkg id t))
unfolding create_drawn new_id now
create_drawn-ok format m kind pkg w = elim (Result-cases (rand_read w).0) [
  | inl (e, q) ↦ (hex (format (rand_read w).1.clock), suc (rand_read w).1.clock, rw q refl)
  | inr (b, q) ↦ (hex b, (rand_read w).1.clock, rw q refl)
]
