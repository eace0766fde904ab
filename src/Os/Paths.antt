-- ===== src/Os/Paths.antt =====
-- package filepath on absolute, clean paths: `Join` with a name, which may hold slashes and dots.
use zarf_api.Prelude.{
  ℕ, false, ◌≡◌, refl, ap, List, [], ◌∷◌, ◌++◌, Text, ◌==◌, nat_eq, list_eq, contains, lit, arith,
  if◌then◌else◌,
}
use zarf_api.Os.{FilePath}

-- the components between the slashes
abbrev pub push_front : ℕ → List Text → List Text
push_front c [] = (c ∷ []) ∷ []
push_front c (s ∷ parts) = (c ∷ s) ∷ parts

pub split : Text → List Text
split [] = [] ∷ []
split (c ∷ s) = let parts = split s in if c == b'/' then [] ∷ parts else push_front c parts

abbrev pub parent : FilePath → FilePath
parent [] = []
parent (c ∷ []) = []
parent (c ∷ d ∷ p) = c ∷ parent (d ∷ p)

-- One component on a clean path: `.` and an empty component stay, `..` goes up.
abbrev pub step : FilePath → Text → FilePath
step p c =
    if c == []
    then p
    else if c == lit "."
    then p
    else if c == lit ".."
    then parent p
    else p ++ c ∷ []

abbrev pub walk : FilePath → List Text → FilePath
walk p [] = p
walk p (c ∷ parts) = walk (step p c) parts

-- `filepath.Join(p, name)`
unfoldable pub join : FilePath → Text → FilePath
unfolding split
join p name = walk p (split name)

-- A name that is one plain component.
pub record IsPlain (name : Text) : Type 0 where
  pub filled : (name == []) ≡ false
  pub not_dot : (name == lit ".") ≡ false
  pub not_dots : (name == lit "..") ≡ false
  pub no_slash : contains b'/' name ≡ false

split_plain : (name : Text) → contains b'/' name ≡ false → split name ≡ name ∷ []
unfolding split
split_plain [] h = refl
split_plain (c ∷ s) h = ground (arith, split_plain s)

-- Such a name leads to an entry of the directory itself, and nowhere else.
pub join_plain : (p : FilePath) (name : Text) → IsPlain name → join p name ≡ p ++ name ∷ []
unfolding join
join_plain p name h = rw (split_plain name h.no_slash, h.filled, h.not_dot, h.not_dots) refl

pub parent-append : (p : FilePath) (c : Text) → parent (p ++ c ∷ []) ≡ p
parent-append [] c = refl
parent-append (d ∷ []) c = refl
parent-append (d ∷ e ∷ p) c = ap (◌∷◌ d) (parent-append (e ∷ p) c)
