-- ===== src/Store/Ids.antt =====
-- What the two patterns of the store let through: names that stay in their directory, and that can
-- be no sidecar, no temporary file and no path.
use zarf_api.Prelude.{
  ℕ, ◌≡◌, ◌↔◌, refl, ◌∙◌, Bool, true, ◌⊎◌, inl, inr, [], ◌∷◌, ◌++◌, Text, lit, all, arith, nat_eq,
  list_eq,
}
use zarf_api.Regex.{one, seq, star, maybe, exactly}
use zarf_api.Regex.Meaning.{Matches, none, more, matches_iff}
use zarf_api.Store.{is_alphanumeric, is_id_byte, id_pattern, valid_id}

pub star-all : (p : ℕ → Bool) (s : Text) → Matches (star (one p)) s → all p s ≡ true
star-all p u (none e) = rw e refl
star-all p u (more {s} {t} (c, pc, d) k e) = rw (e, d) (ground (arith, pc, star-all p t k))

exactly-eq : (lits s : Text) → Matches (exactly lits) s → s ≡ lits
exactly-eq [] s h = h
exactly-eq (c ∷ lits) u (s, t, (d, same, e), k, f) =
    let g : d ≡ c = ground arith in f ∙ rw (e, g, exactly-eq lits t k) refl

-- What `validID` lets through, spelled out.
pub record IsPackageId (id : Text) : Type 0 where
  pub first : ℕ
  pub middle : Text
  pub ending : Text
  pub shape : id ≡ first ∷ (middle ++ ending)
  pub starts : is_alphanumeric first ≡ true
  pub plain : all is_id_byte middle ≡ true
  pub ends : (ending ≡ lit ".tar") ⊎ (ending ≡ lit ".tar.zst")

valid_id_sound : (id : Text) → valid_id id ≡ true → IsPackageId id
unfolding valid_id
valid_id_sound id h =
    let (s, t, (c, start, e), (u, v, m, (w, x, tar, zst, f), g), k) =
      (matches_iff id_pattern id).0 h in
    elim zst [
      | inl z ↦ record {
        first = c;
        middle = u;
        ending = lit ".tar.zst";
        shape = k ∙ rw (e, g, f, exactly-eq (lit ".tar") w tar, exactly-eq (lit ".zst") x z) refl;
        starts = start;
        plain = star-all is_id_byte u m;
        ends = inr refl;
      }
      | inr z ↦ record {
        first = c;
        middle = u;
        ending = lit ".tar";
        shape = k ∙ rw (e, g, f, exactly-eq (lit ".tar") w tar, z) refl;
        starts = start;
        plain = star-all is_id_byte u m;
        ends = inl refl;
      }
    ]

pub all-star : (p : ℕ → Bool) (s : Text) → all p s ≡ true → Matches (star (one p)) s
all-star p [] h = none refl
all-star p (c ∷ s) h = more (c, ground arith, refl) (all-star p s (ground arith)) refl

exactly_refl : (lits : Text) → Matches (exactly lits) lits
exactly_refl [] = refl
exactly_refl (c ∷ lits) = (c ∷ [], lits, (c, ground arith, refl), exactly_refl lits, refl)

valid_id_complete : (id : Text) → IsPackageId id → valid_id id ≡ true
unfolding valid_id
valid_id_complete id h = (matches_iff id_pattern id).1 (
  h.first ∷ [],
  h.middle ++ h.ending,
  (h.first, h.starts, refl),
  (h.middle, h.ending, all-star is_id_byte h.middle h.plain, tail h.ending h.ends, refl),
  h.shape,
)
  where
    tail :
        (ending : Text)
        → (ending ≡ lit ".tar") ⊎ (ending ≡ lit ".tar.zst")
        → Matches (seq (exactly (lit ".tar")) (maybe (exactly (lit ".zst")))) ending
    tail ending (inl e) = (lit ".tar", [], exactly_refl (lit ".tar"), inr refl, e)
    tail ending (inr e) =
        (lit ".tar", lit ".zst", exactly_refl (lit ".tar"), inl (exactly_refl (lit ".zst")), e)

-- A package id is valid exactly when it is a letter or digit, then letters, digits, dots,
-- underscores and dashes, then `.tar` or `.tar.zst`.
pub valid_id_iff : (id : Text) → (valid_id id ≡ true) ↔ IsPackageId id
valid_id_iff id = (valid_id_sound id, valid_id_complete id)
